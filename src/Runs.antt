-- ===== src/Runs.antt =====
-- Small runs of the writer and the reader: the theorems at concrete inputs.
mod Memory
mod Handles
mod Numbers
mod Words
mod Objects
mod Output
mod Trees
mod Files
use wtools.Prelude.{
  ℕ, ◌+◌, ◌^◌, ◌≡◌, ◌≢◌, refl, arith, Bool, true, false, Option, none, some, List, [], ◌∷◌, ◌++◌,
  length, replicate,
}
use wtools.Prelude.Int.{ℤ, pos, minus_one, eqb_ℤ}
use wtools.Prelude.Chain.{◌>>=◌}
use wtools.Buffer.{Bytes, store}
use wtools.Buffer.Laws.{splice}
use wtools.ByteOrder.{
  cpu_to_le16, le16_to_cpu, cpu_to_le32, le32_to_cpu, cpu_to_le_u64, le_u64_to_cpu, cpu_to_lef,
  lef_to_cpu, cpu_to_le_double, le_double_to_cpu, advance, sign_extend,
}
use wtools.ByteOrder.Exact.{ReadsBack, le16-round_trip, le32-round_trip, le_u64-round_trip}
use wtools.ByteOrder.Floats.{lef-round_trip, le_double-low_half}
use wtools.Bkv.{
  ok, inv_arg, hdl_inv, hdl_mem, key_out_of_range, map_key, State, Action, Bkv, check_state,
}
use wtools.Bkv.Create.{bkv_create}
use wtools.Bkv.Prepare.{bkv_prepare}
use wtools.Bkv.Nesting.{bkv_kv_map_open, bkv_kv_map_close, leave_map}
use wtools.Bkv.Spec.{
  Value, u16, u32, double, boolean, str, header, encode, Entry, encode_all, AllFit, add_all, add,
  asked, put,
}
use wtools.Bkv.Growth.{next_size, grown, prepare_full, prepare_not_ko, prepare_roomy, IsSized}
use wtools.Bkv.Append.{IsInMap, Room}
use wtools.Bkv.Adds.{add-put}
use wtools.Bkv.Overrun.{add_overrun, add_underasked, add_long}
use wtools.RoundTrip.Outside.{outside, add-fill}
use wtools.Bkv.Documents.{add_all-put, map_open_lem, map_close_lem, closed}
use wtools.Val
use wtools.Val.Entries.{call, round-encode}
use wtools.Val.Holding.{HoldsAt-splice_same}
use wtools.Val.Maps.{recorder, reads_all_as, map_bytes, val_foreach-map_bytes}
use wtools.Val.Total.{val_foreach-ne-stuck}
use wtools.Val.Found.{ValType, Union, BkvVal, key_invalid}
use wtools.Val.Get.{bkv_val_get2}
use wtools.Val.Get.Search.{bkv_val_get2-map_bytes, first_match, result}
use wtools.RoundTrip.{ram, new_handle, fill, document_round_trip}
use wtools.Dico.{DicoType, Plug, DicoCtx, bkv_dico_create, bkv_dico_destroy}
use wtools.Dico.Cached.{s_dico_plugs}
use wtools.Dico.Spec.{Word, entries_of, add_words, dico_round_trip}
use Memory.{plain_libc, resized}

-- A map of three values, and a block that holds it from place 1 on.
abbrev entries : List Entry
entries = (2, u16 0x1234) ∷ (3, str (0x61 ∷ 0x62 ∷ [])) ∷ (4, boolean true) ∷ (3, u32 9) ∷ []

entries_fit : AllFit entries
entries_fit = (
  omega arith,
  omega arith,
  (omega arith, omega arith, (omega arith, tt, (omega arith, omega arith, tt))),
)

abbrev block : Bytes
block = splice 1 (map_bytes 1 0 entries 0) (replicate 64 0)

document_round_trip_example :
    (h h' : Bkv) × (m : Bytes) × (bkv_create plain_libc ram ≡ some (ok, some h))
    × (fill plain_libc 1 entries h ≡ some (ok, h'))
    × (h'.state ≡ State.term)
    × (h'.ptr ≡ some m)
    × (Val.val_foreach (recorder m) m 0 [] ≡ Val.returns ok (reads_all_as entries))
document_round_trip_example =
    document_round_trip plain_libc (replicate 128 0) (replicate 336 0) 1 entries refl refl
      (omega arith) entries_fit (omega arith)

abbrev words : List Word
words = (1, 0x6E ∷ 0x61 ∷ []) ∷ (2, 0x69 ∷ []) ∷ []

dico_round_trip_example :
    (c c' : DicoCtx) × (h : Bkv) × (m : Bytes) × (bkv_dico_create plain_libc s_dico_plugs
        (some DicoType.direct)
        false
      ≡ some (ok, some c))
    × (add_words plain_libc c words ≡ some (ok, c'))
    × (((priv : Option c'.plug.Priv) × (bkv_dico_destroy plain_libc c' false
          ≡ some (ok, priv, some h))))
    × (h.ptr ≡ some m)
    × (Val.val_foreach (recorder m) m 0 [] ≡ Val.returns ok (entries_of words))
dico_round_trip_example =
    dico_round_trip plain_libc (replicate 128 0) (replicate 336 0) (replicate 8 0) (replicate 96 0)
      words refl refl refl refl (omega arith, omega arith, (omega arith, omega arith, tt))
      (omega arith)

abbrev wanted : BkvVal
wanted = record {
  val_type = ValType.end_value;
  key = key_invalid;
  u = Union.unset;
  priv = none;
  bkv_key_length = 0;
  deep_offset = pos 0;
}

abbrev origin : BkvVal
origin = record wanted { val_type = ValType.object; priv = some 1 }

bkv_val_get2-map_bytes_example :
    bkv_val_get2 block (some origin) (some (3 ∷ key_invalid ∷ [])) (pos 1) (wanted ∷ [])
    ≡ Val.returns ok (record wanted { val_type = ValType.string; u = Union.string 13 2 } ∷ [])
bkv_val_get2-map_bytes_example =
    bkv_val_get2-map_bytes block 1 1 0 0 3 entries (pos 1) origin wanted [] (omega arith)
      entries_fit (HoldsAt-splice_same (replicate 64 0) 1 (map_bytes 1 0 entries 0) (omega arith))
      refl

val_foreach-map_bytes_example : Val.val_foreach (recorder block) block 1 [] ≡ Val.returns ok entries
val_foreach-map_bytes_example =
    val_foreach-map_bytes block 1 1 0 0 entries (omega arith) entries_fit
      (HoldsAt-splice_same (replicate 64 0) 1 (map_bytes 1 0 entries 0) (omega arith))

-- A handle in a map, at the end of the header of the map.
abbrev in_map_at : ℕ → Bkv
in_map_at offset = record (new_handle (replicate 128 0)) {
  state = State.in_map;
  write_offset = offset;
  deep_offset = pos 0;
  deep_value = map_key ∷ replicate 31 0;
}

abbrev in_map : Bkv
in_map = in_map_at 4

add_all-put_example : add_all plain_libc in_map entries ≡ some (ok, put (encode_all entries) in_map)
add_all-put_example =
    add_all-put plain_libc entries in_map (replicate 128 0) entries_fit
      (record { in_map = refl; level = refl })
      (record { held = refl; sized = refl; no_limit = refl; chunk = refl }) (omega arith)

add-put_example :
    add plain_libc (in_map_at 127) 5 (u32 6)
    ≡ some (
      ok,
      put
          (encode 5 (u32 6))
          (record (in_map_at 127) { ptr = some (replicate 256 0); mem_size = pos 256 }),
    )
add-put_example =
    add-put plain_libc (in_map_at 127) 5 (u32 6) ok
      (record (in_map_at 127) { ptr = some (replicate 256 0); mem_size = pos 256 }) (omega arith)
      (omega arith) (record { in_map = refl; level = refl })
      (prepare_full plain_libc (in_map_at 127) (replicate 128 0) 32
        (record { held = refl; sized = refl; no_limit = refl; chunk = refl }) (omega arith))
      (record { block = replicate 256 0; held = refl; room = omega arith })

round-encode_example :
    Val.round (recorder block) block (record { user = []; ptr = 5; map_deep = pos 1 })
    ≡ some (Val.next 0 (record { user = (2, u16 0x1234) ∷ []; ptr = 9; map_deep = pos 1 }))
unfolding recorder
round-encode_example =
    round-encode (recorder block) block (record { user = []; ptr = 5; map_deep = pos 1 }) 2
      (omega arith) (u16 0x1234) (omega arith) (refl, (refl, (refl, (refl, tt))))

val_foreach-ne-stuck_example : Val.val_foreach (recorder block) block 1 [] ≢ Val.stuck
val_foreach-ne-stuck_example = val_foreach-ne-stuck (recorder block) block 1 []

in_map_at-IsSized : (n : ℕ) → IsSized (in_map_at n) (replicate 128 0)
in_map_at-IsSized n = record { held = refl; sized = refl; no_limit = refl; chunk = refl }

add_overrun_example : add plain_libc (in_map_at 125) 5 (u16 7) ≡ none
add_overrun_example =
    add_overrun plain_libc (in_map_at 125) 5 (u16 7) inv_arg (in_map_at 125) (omega arith)
      (omega arith) (record { in_map = refl; level = refl })
      (prepare_roomy plain_libc (in_map_at 125) (replicate 128 0) 16 (in_map_at-IsSized 125)
        (omega arith))
      (record { block = replicate 128 0; held = refl; inside = omega arith; short = omega arith })

add_underasked_example : add plain_libc (in_map_at 124) 5 (u32 7) ≡ none
add_underasked_example =
    add_underasked plain_libc (in_map_at 124) 5 (u32 7) (replicate 128 0) (omega arith)
      (omega arith) (record { in_map = refl; level = refl }) (in_map_at-IsSized 124) (omega arith)
      (omega arith)

-- A string of 200 bytes behind the first 100 of a block of 128, which can grow to 256.
add_long_example : add plain_libc (in_map_at 100) 5 (str (replicate 200 b'x')) ≡ none
add_long_example =
    add_long plain_libc (in_map_at 100) 5 (str (replicate 200 b'x')) (replicate 128 0) (omega arith)
      (omega arith) (record { in_map = refl; level = refl }) (in_map_at-IsSized 100) (omega arith)
      (omega arith)

add-fill_example :
    (h h' : Bkv) × (bkv_create plain_libc ram ≡ some (ok, some h))
    × (add plain_libc h 5 (u16 7) ≡ outside h 5)
    × (fill plain_libc 1 entries h ≡ some (ok, h'))
    × (add plain_libc h' 5 (u16 7) ≡ outside h' 5)
add-fill_example =
    add-fill plain_libc (replicate 128 0) (replicate 336 0) 1 5 entries (u16 7) refl refl
      (omega arith) entries_fit (omega arith)
