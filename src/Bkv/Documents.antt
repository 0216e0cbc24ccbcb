-- ===== src/Bkv/Documents.antt =====
-- Whole maps: entries added one after the other, and the map closed behind them.
use wtools.Prelude.{
  ℕ, ◌+◌, ◌/◌, ◌≤◌, ◌≡◌, ap, sym, ◌∙◌, arith, Option, some, List, [], ◌∷◌, ◌++◌, length,
  length-append, take, drop, take-append-drop, true, false,
}
use wtools.Prelude.Int.{ℤ, pos, minus_one, eqb_ℤ, ◌+ℤ◌}
use wtools.Prelude.Chain.{◌>>=◌}
use wtools.Buffer.{Bytes}
use wtools.Buffer.Laws.{splice, length-splice, store_all-splice}
use wtools.ByteOrder.{bytes_u16}
use wtools.Libc.{Libc}
use wtools.Bkv.{
  deep_char_or_minus_one, ok, inv_arg, map_key, State, Action, Bkv, check_state, at_index,
}
use wtools.Bkv.Prepare.{bkv_prepare, set_key}
use wtools.Bkv.Scalars.{prepared}
use wtools.Bkv.Nesting.{
  store_index, open_level, bkv_kv_map_open, hdr_map_open, map_open_value_size, length_u16,
  close_map_body, leave_map, bkv_kv_map_close,
}
use wtools.Bkv.Spec.{
  Value, u16, u32, u64, float, double, boolean, str, header, encode, asked, put, Entry, encode_all,
  AllFit, add_all,
}
use wtools.Bkv.Growth.{IsSized, prepare_roomy, prepare_not_ko}
use wtools.Bkv.Append.{IsInMap, put-put, at_write_offset-put, set_key-Writes}
use mathlib.Core.Option as Opt
use wtools.Bkv.Adds.{add-put}

-- What an operation asks for is at most 3 bytes more than it writes.
asked-le : (key : ℕ) (v : Value) → asked v / 8 ≤ length (encode key v) + 3
asked-le key (u16 v) = omega arith
asked-le key (u32 v) = omega arith
asked-le key (u64 v) = omega arith
asked-le key (float v) = omega arith
asked-le key (double v) = omega arith
asked-le key (boolean b) = omega arith
asked-le key (str s) = omega arith

pub IsSized-put :
    (bs : Bytes) (h : Bkv) (m : Bytes)
    → IsSized h m
    → h.write_offset + length bs ≤ length m
    → IsSized (put bs h) (splice h.write_offset bs m)
IsSized-put bs h m s le = record {
  held = rw s.held;
  sized = s.sized ∙ ap pos (sym (length-splice h.write_offset bs m le));
  no_limit = s.no_limit;
  chunk = s.chunk;
}

pub IsInMap-put : (bs : Bytes) (h : Bkv) → IsInMap h → IsInMap (put bs h)
IsInMap-put bs h i = record { in_map = i.in_map; level = i.level }

splice-nil : (p q : ℕ) (m : Bytes) → q ≡ p → take p m ++ drop q m ≡ m
splice-nil p q m e = rw e (take-append-drop p m)

put-nil : (h : Bkv) (m : Bytes) → h.ptr ≡ some m → put [] h ≡ h
put-nil h m e =
    let same : Opt.map (splice h.write_offset []) h.ptr ≡ h.ptr =
      rw e (ap some (splice-nil h.write_offset (h.write_offset + 0) m (omega arith))) in
    let here : h.write_offset + 0 ≡ h.write_offset = omega arith in
    λ i. record h { ptr = same i; write_offset = here i }

-- Added to a handle in a map, with the default chunk and no limit, entries that fit and find room
-- in the block with 3 bytes to spare are appended in order: the caller gets BKV_OK, and the handle
-- differs by their bytes alone.
pub add_all-put :
    (libc : Libc) (es : List Entry) (h : Bkv) (m : Bytes)
    → AllFit es
    → IsInMap h
    → IsSized h m
    → h.write_offset + length (encode_all es) + 3 ≤ length m
    → add_all libc h es ≡ some (ok, put (encode_all es) h)
unfolding add_all
add_all-put libc [] h m f i s le = ap (λ b. some (ok, b)) (sym (put-nil h m s.held))
add_all-put libc ((key, v) ∷ es) h m (lk, fv, f) i s le =
    let bs = encode key v in
    let n : length (bs ++ encode_all es) ≡ length bs + length (encode_all es) =
      length-append bs (encode_all es) in
    let prepared = prepare_roomy libc h m (asked v) s (omega (arith, asked-le key v)) in
    let first =
      add-put libc h key v inv_arg h lk fv i prepared
        (record { block = m; held = s.held; room = omega arith }) in
    let later =
      add_all-put libc es (put bs h) (splice h.write_offset bs m) f (IsInMap-put bs h i)
        (IsSized-put bs h m s (omega arith))
        (omega (arith, length-splice h.write_offset bs m (omega arith))) in
    rw first (
      later
      ∙ ap (λ b. some (ok, b))
          (put-put bs (encode_all es) h (record { block = m; held = s.held; room = omega arith })))

prepared_lem :
    (libc : Libc) (size : ℕ) (body : Bkv → Option Bkv) (h h' : Bkv) (ret : ℤ)
    → bkv_prepare libc h size ≡ some (ret, h')
    → prepared libc size body h ≡ (body h' >>= λ b. some (ok, b))
unfolding prepared
prepared_lem libc size body h h' ret e =
    let ne : eqb_ℤ minus_one ret ≡ false = prepare_not_ko libc h size e in rw e (rw ne)

-- Closing a map with room for what is asked.
module _ (libc : Libc) (h : Bkv) (m : Bytes) (d start : ℕ) where
  -- The handle behind the header of the end, with the length of the map in the map's header.
  abbrev pub closed : Bkv
  closed =
      let end = h.write_offset + 2 in
      let m' = splice h.write_offset (0x20 ∷ []) m in
      record h {
        ptr = some (splice (start + 2) (bytes_u16 (length_u16 end start)) m');
        write_offset = end;
      }

  close_map_body_lem :
      IsSized h m
      → at_index h.deep_offset h.map_offset ≡ some start
      → start + 4 ≤ h.write_offset
      → h.write_offset + 8 ≤ length m
      → close_map_body h ≡ leave_map closed
  unfolding close_map_body
  close_map_body_lem s f lo room =
      let m' = splice h.write_offset (0x20 ∷ []) m in
      let n : length m' ≡ length m = length-splice h.write_offset (0x20 ∷ []) m (omega arith) in
      let bs = bytes_u16 (length_u16 (h.write_offset + 2) start) in
      let header = store_all-splice (start + 2) bs m' (omega arith) in
      rw (s.held, store_all-splice h.write_offset (0x20 ∷ []) m (omega arith), f, header)

  -- Closing a map with room for what is asked stores the header of the end and, behind the header
  -- of the map, the length of the map, and goes one level up.
  pub map_close_lem :
      IsInMap h
      → IsSized h m
      → at_index h.deep_offset h.map_offset ≡ some start
      → start + 4 ≤ h.write_offset
      → h.write_offset + 8 ≤ length m
      → bkv_kv_map_close libc h ≡ (leave_map closed >>= λ b. some (ok, b))
  unfolding bkv_kv_map_close check_state
  map_close_lem i s f lo room =
      let enter =
        prepared_lem libc 64 close_map_body h h inv_arg (prepare_roomy libc h m 64 s room) in
      simp (i.level, i.in_map)
        (enter ∙ ap (λ r. r >>= λ b. some (ok, b)) (close_map_body_lem s f lo room))

-- Opening a map with room for what is asked: the header is put, two bytes are kept for the
-- length, and the new level is pushed.
pub map_open_lem :
    (libc : Libc) (h : Bkv) (m : Bytes) (key : ℕ) (t : ℤ) (offsets values : List ℕ)
    → key ≤ 0xFFF
    → IsSized h m
    → deep_char_or_minus_one h ≡ some t
    → check_state h.state t Action.open_map ≡ true
    → store_index (h.deep_offset +ℤ pos 1) h.write_offset h.map_offset ≡ some offsets
    → store_index (h.deep_offset +ℤ pos 1) map_key h.deep_value ≡ some values
    → h.write_offset + 4 ≤ length m
    → bkv_kv_map_open libc h key
      ≡ some (
        ok,
        record h {
          state = State.in_map;
          ptr = some (splice h.write_offset (header 1 key) m);
          write_offset = h.write_offset + 2 + 2;
          deep_offset = h.deep_offset +ℤ pos 1;
          deep_value = values;
          map_offset = offsets;
        },
      )
unfolding bkv_kv_map_open
map_open_lem libc h m key t offsets values le s c k os vs room =
    let h1 = record h { map_offset = offsets } in
    let w =
      at_write_offset-put (set_key 1 key) (header 1 key) h1 (set_key-Writes 1 key (omega arith) le)
        (record { block = m; held = s.held; room = omega arith }) in
    let body : open_level hdr_map_open map_open_value_size map_key State.in_map key h
        ≡ some (record h {
          state = State.in_map;
          ptr = some (splice h.write_offset (header 1 key) m);
          write_offset = h.write_offset + 2 + 2;
          deep_offset = h.deep_offset +ℤ pos 1;
          deep_value = values;
          map_offset = offsets;
        }) =
      rw (os, w, vs, s.held) in
    let enter =
      prepared_lem libc 32 (open_level hdr_map_open map_open_value_size map_key State.in_map key) h
        h inv_arg (prepare_roomy libc h m 32 s room) in
    simp (c, k) (enter ∙ ap (λ r. r >>= λ b. some (ok, b)) body)
