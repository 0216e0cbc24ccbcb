-- ===== src/Json/Yajl/Reading.antt =====
-- `bkv_from_json` (bkv/json/src/bkv_json.c) with the parser of bkv/json/src/bkv_json_yajl.c and a
-- dictionary of the direct plug, on the text of an object.
use wtools.Prelude.{◌+◌, ◌≤◌, ◌≡◌, arith, true, Option, none, some, List, [], ◌∷◌, ◌++◌, length}
use wtools.Prelude.Int.{ℤ, pos}
use wtools.Buffer.{Bytes}
use wtools.Libc.{Libc}
use wtools.Bkv.{ok, Bkv}
use wtools.Bkv.Create.{bkv_create, sizeof_bkv, default_mem_chunk_size}
use wtools.Bkv.Spec.{Value, Entry, encode_all, AllFit}
use wtools.Dico.{DicoType, sizeof_dico_ctx}
use wtools.Dico.Direct.{dico_key, no_key, bkv_create_params}
use wtools.Dico.Spec.{entries_of, direct_ctx, direct_created}
use wtools.Json.Convert.{parse_into, bkv_from_json}
use wtools.Json.Yajl.{
  FromJsonCtx, Reply, Event, callbacks, Yajl, bkv_json_start_map, bkv_json_end_map, start_ctx,
  bkv_from_json_yajl_parse, s_bkv_from_json_yajl_plug,
}
use wtools.Json.Yajl.Numbers.{Floats}
use wtools.Json.Yajl.Members.{
  Member, events_of, feed, words_from, entries_from, names_of, AllMean, inside, index_behind,
  feed-events_of,
}
use wtools.RoundTrip.{created, new_handle, open_first, add_second}
use wtools.Json.Joined
use wtools.Json.Joined.{Converted, Converted_lem, closed_all, dico_opened}

-- The events of an object with these members.
abbrev pub object_events : (fl : Floats) → List Member → List (Event fl)
object_events fl ms = Event.start_map ∷ (events_of fl ms ++ (Event.end_map ∷ []))

-- That yajl finds these events in a text, and calls back for each until one answers 0.
abbrev pub Delivers : {fl : Floats} → Yajl fl → Option Bytes → ℤ → List (Event fl) → Type 1
Delivers {fl} yajl ptr len es =
    (call : Event fl → FromJsonCtx → Reply) (c : FromJsonCtx)
    → yajl.yajl_parse call c ptr len ≡ feed call es c

module _ (libc : Libc) (fl : Floats) (m : Bytes) (n : length m ≡ 128) (ms : List (Member × Value))
    (mean : AllMean fl ms) (f : AllFit (entries_from 1 ms))
    (g : AllFit (entries_of (words_from 1 (names_of ms))))
    (small : length (encode_all (entries_from 1 ms))
        + length (encode_all (entries_of (words_from 1 (names_of ms))))
      ≤ 110) where
  abbrev es : List Entry
  es = entries_from 1 ms

  abbrev ns : List Entry
  ns = entries_of (words_from 1 (names_of ms))

  abbrev first_data : Bkv
  first_data = Joined.first_data libc m n es ns f g small

  abbrev first_dico : Bkv
  first_dico = Joined.first_dico libc m n es ns f g small

  abbrev full_data : Bkv
  full_data = Joined.full_data libc m n es ns f g small

  abbrev full_dico : Bkv
  full_dico = Joined.full_dico libc m n es ns f g small

  start_step :
      callbacks libc fl Event.start_map (start_ctx (new_handle m) (some (direct_ctx first_dico)))
      ≡ some (pos 1, inside libc fl first_data first_dico 1 none)
  unfolding callbacks bkv_json_start_map
  start_step = rw (open_first libc m n no_key es (omega arith) f (omega arith))

  parsed :
      feed
        (callbacks libc fl)
        (object_events fl (names_of ms))
        (start_ctx (new_handle m) (some (direct_ctx first_dico)))
      ≡ some (
        pos 0,
        record (inside libc fl full_data full_dico (1 + length ms) (index_behind libc fl ms none)) {
          deep = pos 0;
        },
      )
  unfolding callbacks bkv_json_end_map
  parsed =
      let members =
        feed-events_of libc fl ms (Event.end_map ∷ []) first_data full_data first_dico full_dico 1
          none f mean (add_second libc m n no_key es (omega arith) f (omega arith))
          (add_second libc m n dico_key ns (omega arith) g (omega arith)) in
      rw start_step members

  parsed_all :
      (yajl : Yajl fl) (ptr : Option Bytes) (len : ℤ)
      → yajl.yajl_alloc ≡ true
      → Delivers yajl ptr len (object_events fl (names_of ms))
      → parse_into libc
          (s_bkv_from_json_yajl_plug libc fl yajl)
          ptr
          len
          (new_handle m)
          (some (direct_ctx first_dico))
        ≡ some (ok, some (Joined.document libc m n es ns f g small))
  unfolding parse_into s_bkv_from_json_yajl_plug bkv_from_json_yajl_parse
  parsed_all yajl ptr len alloc deliver =
      rw
        (
          alloc,
          deliver (callbacks libc fl) (start_ctx (new_handle m) (some (direct_ctx first_dico))),
          parsed,
        )
        (closed_all libc m n es ns f g small)

  converted :
      (yajl : Yajl fl) (ptr : Option Bytes) (len : ℤ) {plug_ctx dico_ctx : Bytes}
      → bkv_create libc bkv_create_params ≡ some (ok, some (new_handle m))
      → libc.malloc 8 ≡ some plug_ctx
      → libc.malloc sizeof_dico_ctx ≡ some dico_ctx
      → yajl.yajl_alloc ≡ true
      → Delivers yajl ptr len (object_events fl (names_of ms))
      → bkv_from_json libc DicoType.direct (s_bkv_from_json_yajl_plug libc fl yajl) ptr len
        ≡ some (ok, some (Joined.document libc m n es ns f g small))
  unfolding bkv_from_json
  converted yajl ptr len made e3 e4 alloc deliver =
      rw
        (
          made,
          direct_created libc (new_handle m) first_dico made (dico_opened libc m n es ns f g small)
              e3 e4,
        )
        (parsed_all yajl ptr len alloc deliver)

-- With memory at hand, and yajl as its documentation has it, `bkv_from_json` with a dictionary of
-- the direct plug converts the text of an object whose members are strings, flags, and numbers
-- that are read as 16 bits, 32 bits or a float, if they fit and take at most 110 bytes in all: it
-- answers BKV_OK, and hands over a closed document, whose bytes are a map of the values under the
-- keys from 2 on, with a map of the names under the same keys inside of it, behind the values.
pub bkv_from_json-Converted :
    (libc : Libc) (fl : Floats) (yajl : Yajl fl) (ptr : Option Bytes) (len : ℤ)
    (block struct plug_ctx dico_ctx : Bytes) (ms : List (Member × Value))
    → libc.malloc default_mem_chunk_size ≡ some block
    → libc.malloc sizeof_bkv ≡ some struct
    → libc.malloc 8 ≡ some plug_ctx
    → libc.malloc sizeof_dico_ctx ≡ some dico_ctx
    → yajl.yajl_alloc ≡ true
    → Delivers yajl ptr len (object_events fl (names_of ms))
    → AllMean fl ms
    → AllFit (entries_from 1 ms)
    → AllFit (entries_of (words_from 1 (names_of ms)))
    → length (encode_all (entries_from 1 ms))
        + length (encode_all (entries_of (words_from 1 (names_of ms))))
      ≤ 110
    → Converted
        (bkv_from_json libc DicoType.direct (s_bkv_from_json_yajl_plug libc fl yajl) ptr len)
        (entries_from 1 ms)
        (entries_of (words_from 1 (names_of ms)))
bkv_from_json-Converted libc fl yajl ptr len block struct plug_ctx dico_ctx ms e1 e2 e3 e4 alloc
      deliver mean f g small =
    let (m, made, n) = created libc block struct e1 e2 in
    Converted_lem libc m n (entries_from 1 ms) (entries_of (words_from 1 (names_of ms))) f g small
      (converted libc fl m n ms mean f g small yajl ptr len made e3 e4 alloc deliver)
