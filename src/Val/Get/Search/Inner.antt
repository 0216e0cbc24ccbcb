-- ===== src/Val/Get/Search/Inner.antt =====
-- bkv/src/bkv_val.c, `bkv_val_get2` for a map that stands inside a map.
use wtools.Prelude.{
  ℕ, zero, suc, ◌+◌, ◌%◌, ◌≤◌, ◌<◌, ◌≡◌, refl, ap, ◌∙◌, arith, true, false, some, List, [], ◌∷◌,
  ◌++◌, length, length-append, ◌==◌, lt→ltb,
}
use wtools.Prelude.Int.{ℤ, pos, minus_one}
use wtools.Buffer.{Bytes, store}
use wtools.ByteOrder.{bytes_u16}
use wtools.Bkv.{ok}
use wtools.Bkv.Spec.{encode, Entry, encode_all, AllFit}
use wtools.Val
use wtools.Val.Entries.{HoldsAt, round_header, round-encode}
use wtools.Val.Maps.{HoldsAt-append, HoldsAt-length, length-le-encode_all, loop_next, loop_stop}
use wtools.Val.Found.{ValType, Union, BkvVal, GetCtx, key_invalid, set_val}
use wtools.Val.Get.{s_val_get_callbacks, bkv_val_foreach, bkv_val_get2, bkv_val_get_map_open}
use mathlib.Core.List.{append_assoc}
use mathlib.Core.Path.{subst}
use wtools.Val.Found.{enter_key}
use wtools.Prelude.{==_iff, sym}
use wtools.Bkv.Spec.{header}
use wtools.Val.Get.Search.{searching, at, answer, call_other}

-- The value of a map that was found at `p`.
abbrev pub object_at : ℕ → BkvVal → BkvVal
object_at p w = record w { val_type = ValType.object; u = Union.object p; priv = some p }

-- Entries under other keys.
abbrev pub AllOther : ℕ → List Entry → Type 0
AllOther k [] = Unit
AllOther k ((key, v) ∷ es) = ((key == k) ≡ false) × AllOther k es

module _ (m : Bytes) (k : ℕ) (nb : ℤ) (w : BkvVal) (ws : List BkvVal) where
  round_inner :
      (p : ℕ) (rest : Bytes)
      → k ≤ 0xFFF
      → HoldsAt m p (header 1 k ++ rest)
      → Val.round s_val_get_callbacks m (at m k nb w ws (searching m k nb w ws (pos 0)) p)
        ≡ some (
            Val.next Val.stop_loop (record {
              user = record (searching m k nb w ws (pos 0)) {
                val = object_at p w ∷ ws;
                got_it = true;
                key_offset = pos 1;
                val_is_set = true;
              };
              ptr = p + 2 + 2;
              map_deep = pos 2;
            }))
  unfolding Val.case Val.enter_map s_val_get_callbacks bkv_val_get_map_open searching at enter_key
      set_val store
  round_inner p rest le h =
      round_header s_val_get_callbacks m (at m k nb w ws (searching m k nb w ws (pos 0)) p) k le 1
        Val.map_open (omega arith) refl h.0 h.1.0
      ∙ rw ((==_iff k k).1 refl)

  loop_inner :
      (rest : Bytes) (base fuel p : ℕ) (es : List Entry)
      → k ≤ 0xFFF
      → AllFit es
      → AllOther k es
      → HoldsAt m p (encode_all es ++ (header 1 k ++ rest))
      → base < p
      → length es < fuel
      → answer (
          Val.loop s_val_get_callbacks m base fuel
            (at m k nb w ws (searching m k nb w ws (pos 0)) p))
        ≡ Val.returns ok (object_at (p + length (encode_all es)) w ∷ ws)
  unfolding at searching
  loop_inner rest base zero p es le f o h lt n = absurd (omega arith)
  loop_inner rest base (suc fuel) p [] le f o h lt n =
      let q : p + 0 ≡ p = omega arith in
      ap (answer)
        (loop_stop s_val_get_callbacks m base fuel _ Val.stop_loop _ (round_inner p rest le h) refl)
      ∙ ap (λ x. Val.returns ok (object_at x w ∷ ws)) (sym q)
  loop_inner rest base (suc fuel) p ((key, v) ∷ es) le (lk, fv, f) o h lt n =
      let bs = encode key v in
      let p' = p + length bs in
      let (here, back) =
        HoldsAt-append m p p' bs (encode_all es ++ (header 1 k ++ rest))
          (subst (HoldsAt m p) (append_assoc bs (encode_all es) (header 1 k ++ rest)) h) refl in
      let start = at m k nb w ws (searching m k nb w ws (pos 0)) p in
      let called = round-encode s_val_get_callbacks m start key lk v fv here in
      ap (answer) (
        loop_next s_val_get_callbacks m base fuel start 0
          (at m k nb w ws (searching m k nb w ws (pos 0)) p')
          (rw (call_other m k nb w ws p key v o.0) at called) (lt→ltb base p' (omega arith)))
      ∙ loop_inner rest base fuel p' es le f o.1 back (omega arith) (omega arith)
      ∙ ap (λ x. Val.returns ok (object_at x w ∷ ws))
          (omega (arith, length-append bs (encode_all es)))

-- With one key, `bkv_val_get2` from a value that points to a map in which, behind entries that fit
-- and have other keys, a map with this key of 12 bits stands, gives BKV_OK and that map, as a
-- pointer to its header, in the first place of the caller's array.
pub bkv_val_get2-inner :
    (m rest : Bytes) (base key size k : ℕ) (es : List Entry) (nb : ℤ) (v w : BkvVal)
    (ws : List BkvVal)
    → key ≤ 0xFFF
    → k ≤ 0xFFF
    → AllFit es
    → AllOther k es
    → HoldsAt m base (header 1 key ++ (bytes_u16 size ++ (encode_all es ++ (header 1 k ++ rest))))
    → v.priv ≡ some base
    → bkv_val_get2 m (some v) (some (k ∷ key_invalid ∷ [])) nb (w ∷ ws)
      ≡ Val.returns ok (object_at (base + 2 + 2 + length (encode_all es)) w ∷ ws)
unfolding bkv_val_get2 bkv_val_foreach Val.val_foreach searching at Val.case Val.enter_map
    s_val_get_callbacks bkv_val_get_map_open
bkv_val_get2-inner m rest base key size k es nb v w ws kle le f o h at_base =
    let q : base + 1 + 1 + 1 + 1 ≡ base + 2 + 2 = omega arith in
    let inner = rw q at h.1.1.1.1 in
    let inside =
      HoldsAt-length m base _
        (key % 256 ∷ (bytes_u16 size ++ (encode_all es ++ (header 1 k ++ rest)))) h in
    let few = length-le-encode_all es in
    let tail = length-append (encode_all es) (header 1 k ++ rest) in
    let lt : base < base + 2 + 2 = omega arith in
    let e : length m + 1 ≡ suc (length m) = omega arith in
    let start : Val.Cursor GetCtx = record {
      user = searching m k nb w ws minus_one;
      ptr = base;
      map_deep = pos 0;
    } in
    rw (at_base, e)
      (ap (answer) (
          loop_next s_val_get_callbacks m base (length m) start 0
            (at m k nb w ws (searching m k nb w ws (pos 0)) (base + 2 + 2))
            (round_header s_val_get_callbacks m start key kle 1 Val.map_open (omega arith) refl h.0
              h.1.0)
            (lt→ltb base (base + 2 + 2) lt))
        ∙ loop_inner m k nb w ws rest base (length m) (base + 2 + 2) es le f o inner lt
            (omega (arith, inside, few, tail)))
