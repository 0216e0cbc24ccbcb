-- ===== src/Val/Walks.antt =====
-- `val_foreach` (bkv/src/bkv_val.c) over a map, for callbacks that never ask to stop.
use wtools.Prelude.{
  ℕ, zero, suc, ◌+◌, ◌%◌, ◌≤◌, ◌<◌, ◌≡◌, refl, ◌∙◌, arith, some, List, [], ◌∷◌, ◌++◌, length,
  length-append, lt→ltb,
}
use wtools.Prelude.Int.{pos}
use wtools.Buffer.{Bytes}
use wtools.ByteOrder.{bytes_u16}
use wtools.Bkv.{ok}
use wtools.Bkv.Spec.{Value, encode, Entry, encode_all, AllFit}
use wtools.Val
use wtools.Val.Entries.{HoldsAt, call, round_header, round-encode}
use mathlib.Core.List.{append_assoc}
use wtools.Val.Maps.{
  HoldsAt-append, HoldsAt-length, length-le-encode_all, map_end, map_bytes, loop_next, loop_stop,
}

abbrev pub AllGood : (Value → Type 0) → List Entry → Type 0
AllGood Good [] = Unit
AllGood Good ((key, v) ∷ es) = Good v × AllGood Good es

-- What the entries make of the caller's data.
abbrev pub steps : {D : Type 0} → (D → ℕ → Value → D) → D → List Entry → D
steps step d [] = d
steps step d ((key, v) ∷ es) = steps step (step d key v) es

module _ {D : Type 0} (cb : Val.Callbacks D) (m : Bytes) (step : D → ℕ → Value → D)
    (Good : Value → Type 0)
    (calls : (d : D) (p key : ℕ) (v : Value)
      → Good v
      → HoldsAt m p (encode key v)
      → call cb d p (pos 1) key v ≡ some (0, step d key v)) where
  abbrev cursor : D → ℕ → ℕ → Val.Cursor D
  cursor d p deep = record { user = d; ptr = p; map_deep = pos deep }

  loop_entries :
      (base fuel p junk : ℕ) (es : List Entry) (d : D) (close : D → D)
      → AllFit es
      → AllGood Good es
      → HoldsAt m p (encode_all es ++ map_end junk)
      → base < p
      → length es < fuel
      → ((q : ℕ) (d' : D)
          → HoldsAt m q (map_end junk)
          → Val.round cb m (cursor d' q 1)
            ≡ some (Val.next Val.stop_loop (cursor (close d') (q + 2) 0)))
      → Val.loop cb m base fuel (cursor d p 1) ≡ Val.returns ok (close (steps step d es))
  loop_entries base zero p junk es d close f g h lt n ends = absurd (omega arith)
  loop_entries base (suc fuel) p junk [] d close f g h lt n ends =
      loop_stop cb m base fuel (cursor d p 1) Val.stop_loop (cursor (close d) (p + 2) 0)
        (ends p d h) refl
  loop_entries base (suc fuel) p junk ((key, v) ∷ es) d close (lk, fv, f) (gv, g) h lt n ends =
      let bs = encode key v in
      let q = p + length bs in
      let (here, back) =
        HoldsAt-append m p q bs (encode_all es ++ map_end junk)
          (rw (append_assoc bs (encode_all es) (map_end junk)) at h) refl in
      let called = round-encode cb m (cursor d p 1) key lk v fv here in
      let lt' : base < q = omega arith in
      loop_next cb m base fuel (cursor d p 1) 0 (cursor (step d key v) q 1)
        (called ∙ rw (calls d p key v gv here)) (lt→ltb base q lt')
      ∙ loop_entries base fuel q junk es (step d key v) close f g back lt' (omega arith) ends

  -- The walk over a whole map, by what its opening and its end make of the data.
  pub val_foreach-steps :
      (base key size junk : ℕ) (es : List Entry) (d : D) (open_ close : D → D)
      → key ≤ 0xFFF
      → AllFit es
      → AllGood Good es
      → HoldsAt m base (map_bytes key size es junk)
      → Val.case cb m (cursor d base 0) key Val.map_open
        ≡ some (Val.next Val.action_none (cursor (open_ d) (base + 2 + 2) 1))
      → ((q : ℕ) (d' : D)
          → HoldsAt m q (map_end junk)
          → Val.round cb m (cursor d' q 1)
            ≡ some (Val.next Val.stop_loop (cursor (close d') (q + 2) 0)))
      → Val.val_foreach cb m base d ≡ Val.returns ok (close (steps step (open_ d) es))
  unfolding Val.val_foreach
  val_foreach-steps base key size junk es d open_ close le f g h opened ends =
      let q : base + 1 + 1 + 1 + 1 ≡ base + 2 + 2 = omega arith in
      let inner = rw q at h.1.1.1.1 in
      let inside =
        HoldsAt-length m base _ (key % 256 ∷ (bytes_u16 size ++ (encode_all es ++ map_end junk)))
          h in
      let few : length es < length m =
        omega
          (arith, inside, length-le-encode_all es, length-append (encode_all es) (map_end junk)) in
      let e : length m + 1 ≡ suc (length m) = omega arith in
      rw e (
        loop_next cb m base (length m) (cursor d base 0) 0 (cursor (open_ d) (base + 2 + 2) 1)
          (round_header cb m (cursor d base 0) key le 1 Val.map_open (omega arith) refl h.0 h.1.0
            ∙ opened)
          (lt→ltb base (base + 2 + 2) (omega arith))
        ∙ loop_entries base (length m) (base + 2 + 2) junk es (open_ d) close f g inner
            (omega arith) few ends)
