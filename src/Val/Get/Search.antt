-- ===== src/Val/Get/Search.antt =====
-- `bkv_val_get2` (bkv/src/bkv_val.c) with one key, over a map of scalars.
pub mod Inner
use wtools.Prelude.{
  ℕ, zero, suc, ◌+◌, ◌%◌, ◌^◌, ◌≤◌, ◌<◌, ◌≡◌, refl, ap, ◌∙◌, inl, inr, arith, true, false,
  Bool-cases, Option, none, some, List, [], ◌∷◌, ◌++◌, length, length-append, ◌==◌, if◌then◌else◌,
  lt→ltb,
}
use wtools.Prelude.Int.{ℤ, pos, minus_one}
use wtools.Buffer.{Bytes, store}
use wtools.ByteOrder.{sign_extend, bytes_u16}
use wtools.Bkv.{ok, inv_arg}
use wtools.Bkv.Spec.{
  Value, u16, u32, u64, float, double, boolean, str, encode, Entry, encode_all, AllFit,
}
use wtools.Val
use wtools.Val.Entries.{HoldsAt, call, round_header, round-encode}
use wtools.Val.Maps.{
  map_end, map_bytes, HoldsAt-append, HoldsAt-length, length-le-encode_all, loop_next, loop_stop,
}
use wtools.Val.Found.{ValType, Union, BkvVal, GetCtx, key_invalid, set_val, at_key, found, get_uint}
use wtools.Val.Get.{
  s_val_get_callbacks, bkv_val_foreach, bkv_val_get2, bkv_val_get_map_open, bkv_val_get_map_close,
  bkv_val_get_uint16, bkv_val_get_uint32, bkv_val_get_uint64, bkv_val_get_str, bkv_val_get_float,
  bkv_val_get_double, bkv_val_get_boolean,
}
use mathlib.Core.List.{append_assoc}

-- What the caller's value becomes when the entry at `p` is found. Of a double only the low half
-- comes back, with the type of a string.
abbrev pub shown : ℕ → Value → BkvVal → BkvVal
shown p (u16 n) w = record w {
  val_type = ValType.int16;
  u = Union.int16 n;
  priv = some p;
  bkv_key_length = 4;
  deep_offset = pos 1;
}
shown p (u32 n) w = record w {
  val_type = ValType.int32;
  u = Union.int32 n;
  priv = some p;
  bkv_key_length = 4;
  deep_offset = pos 1;
}
shown p (u64 n) w = record w {
  val_type = ValType.int64;
  u = Union.int64 n;
  priv = some p;
  bkv_key_length = 4;
  deep_offset = pos 1;
}
shown p (float n) w = record w { val_type = ValType.float; u = Union.f n }
shown p (double n) w = record w {
  val_type = ValType.string;
  u = Union.d (sign_extend (n % 2 ^ 32));
}
shown p (boolean b) w = record w { val_type = ValType.boolean; u = Union.b b }
shown p (str s) w = record w { val_type = ValType.string; u = Union.string (p + 2 + 2) (length s) }

-- The first entry with the key, of entries whose bytes stand from `p` on.
abbrev pub first_match : ℕ → ℕ → List Entry → BkvVal → Option BkvVal
first_match k p [] w = none
first_match k p ((key, v) ∷ es) w =
    if key == k then some (shown p v w) else first_match k (p + length (encode key v)) es w

abbrev pub result : Option BkvVal → BkvVal → List BkvVal → Val.Outcome (List BkvVal)
result none w ws = Val.returns inv_arg (w ∷ ws)
result (some r) w ws = Val.returns ok (r ∷ ws)

-- What is left of a search that the loop ended.
abbrev answer : Val.Outcome GetCtx → Val.Outcome (List BkvVal)
answer Val.fault = Val.fault
answer Val.stuck = Val.stuck
answer (Val.returns r c) = Val.returns (if c.val_is_set then ok else inv_arg) c.val

module _ (m : Bytes) (k : ℕ) (nb : ℤ) (w : BkvVal) (ws : List BkvVal) where
  searching : ℤ → GetCtx
  searching o = record {
    keys = some (k ∷ key_invalid ∷ []);
    nb_val = nb;
    val = w ∷ ws;
    val_offset = 0;
    got_it = false;
    key_offset = o;
    val_is_set = false;
  }

  at : GetCtx → ℕ → Val.Cursor GetCtx
  at c p = record { user = c; ptr = p; map_deep = pos 1 }

  call_match :
      (p key : ℕ) (v : Value)
      → (key == k) ≡ true
      → call s_val_get_callbacks (searching (pos 0)) p (pos 1) key v
        ≡ some (
          Val.stop_loop,
          record (searching (pos 0)) { val = shown p v w ∷ ws; val_is_set = true },
        )
  unfolding searching s_val_get_callbacks bkv_val_get_uint16 bkv_val_get_uint32 bkv_val_get_uint64
      bkv_val_get_str bkv_val_get_float bkv_val_get_double bkv_val_get_boolean get_uint at_key found
      set_val store
  call_match p key (u16 n) e = rw e
  call_match p key (u32 n) e = rw e
  call_match p key (u64 n) e = rw e
  call_match p key (float n) e = rw e
  call_match p key (double n) e = rw e
  call_match p key (boolean b) e = rw e
  call_match p key (str s) e = rw e

  call_other :
      (p key : ℕ) (v : Value)
      → (key == k) ≡ false
      → call s_val_get_callbacks (searching (pos 0)) p (pos 1) key v ≡ some (0, searching (pos 0))
  unfolding searching s_val_get_callbacks bkv_val_get_uint16 bkv_val_get_uint32 bkv_val_get_uint64
      bkv_val_get_str bkv_val_get_float bkv_val_get_double bkv_val_get_boolean get_uint at_key
  call_other p key (u16 n) e = rw e
  call_other p key (u32 n) e = rw e
  call_other p key (u64 n) e = rw e
  call_other p key (float n) e = rw e
  call_other p key (double n) e = rw e
  call_other p key (boolean b) e = rw e
  call_other p key (str s) e = rw e

  round_end :
      (p junk : ℕ)
      → HoldsAt m p (map_end junk)
      → Val.round s_val_get_callbacks m (at (searching (pos 0)) p)
        ≡ some
            (Val.next Val.stop_loop (record (at (searching (pos 0)) (p + 2)) { map_deep = pos 0 }))
  unfolding Val.round Val.case s_val_get_callbacks bkv_val_get_map_close at searching
  round_end p junk h = rw (h.0, h.1.0)

  round_open :
      (p key size junk : ℕ) (es : List Entry)
      → key ≤ 0xFFF
      → HoldsAt m p (map_bytes key size es junk)
      → Val.round s_val_get_callbacks m
          (record { user = searching minus_one; ptr = p; map_deep = pos 0 })
        ≡ some (Val.next 0 (at (searching (pos 0)) (p + 2 + 2)))
  unfolding Val.case Val.enter_map s_val_get_callbacks bkv_val_get_map_open searching at
  round_open p key size junk es le h =
      round_header s_val_get_callbacks m
        (record { user = searching minus_one; ptr = p; map_deep = pos 0 }) key le 1 Val.map_open
        (omega arith) refl h.0 h.1.0

  loop_search :
      (junk base fuel p : ℕ) (es : List Entry)
      → AllFit es
      → HoldsAt m p (encode_all es ++ map_end junk)
      → base < p
      → length es < fuel
      → answer (Val.loop s_val_get_callbacks m base fuel (at (searching (pos 0)) p))
        ≡ result (first_match k p es w) w ws
  unfolding at searching
  loop_search junk base zero p es f h lt n = absurd (omega arith)
  loop_search junk base (suc fuel) p [] f h lt n =
      ap answer
        (loop_stop s_val_get_callbacks m base fuel _ Val.stop_loop _ (round_end p junk h) refl)
  loop_search junk base (suc fuel) p ((key, v) ∷ es) (lk, fv, f) h lt n =
      let bs = encode key v in
      let p' = p + length bs in
      let (here, back) =
        HoldsAt-append m p p' bs (encode_all es ++ map_end junk)
          (rw (append_assoc bs (encode_all es) (map_end junk)) at h) refl in
      let start = at (searching (pos 0)) p in
      let called = round-encode s_val_get_callbacks m start key lk v fv here in
      elim (Bool-cases (key == k)) [
        | inl e ↦ rw e (
            ap answer (
              loop_stop s_val_get_callbacks m base fuel start Val.stop_loop _
                (rw (call_match p key v e) at called) refl))
        | inr e ↦ rw e (
            ap answer (
              loop_next s_val_get_callbacks m base fuel start 0 (at (searching (pos 0)) p')
                (rw (call_other p key v e) at called) (lt→ltb base p' (omega arith)))
            ∙ loop_search junk base fuel p' es f back (omega arith) (omega arith))
      ]

-- With one key, `bkv_val_get2` from a value that points to the bytes of a map of entries that fit,
-- the map's own key of 12 bits, gives BKV_OK and, in the first place of the caller's array, the
-- first entry with that key: its type and its value, but for a double the type of a string and, as
-- the value, its low half with the sign extended; or BKV_INV_ARG and the array as it was when there
-- is none.
pub bkv_val_get2-map_bytes :
    (m : Bytes) (base key size junk k : ℕ) (es : List Entry) (nb : ℤ) (v w : BkvVal)
    (ws : List BkvVal)
    → key ≤ 0xFFF
    → AllFit es
    → HoldsAt m base (map_bytes key size es junk)
    → v.priv ≡ some base
    → bkv_val_get2 m (some v) (some (k ∷ key_invalid ∷ [])) nb (w ∷ ws)
      ≡ result (first_match k (base + 2 + 2) es w) w ws
unfolding bkv_val_get2 bkv_val_foreach Val.val_foreach searching at
bkv_val_get2-map_bytes m base key size junk k es nb v w ws le f h at_base =
    let q : base + 1 + 1 + 1 + 1 ≡ base + 2 + 2 = omega arith in
    let inner = rw q at h.1.1.1.1 in
    let inside =
      HoldsAt-length m base _ (key % 256 ∷ (bytes_u16 size ++ (encode_all es ++ map_end junk))) h in
    let few = length-le-encode_all es in
    let tail = length-append (encode_all es) (map_end junk) in
    let lt : base < base + 2 + 2 = omega arith in
    let e : length m + 1 ≡ suc (length m) = omega arith in
    rw (at_base, e)
      (ap answer (
          loop_next s_val_get_callbacks m base (length m)
            (record { user = searching m k nb w ws minus_one; ptr = base; map_deep = pos 0 }) 0 _
            (round_open m k nb w ws base key size junk es le h) (lt→ltb base (base + 2 + 2) lt))
        ∙ loop_search m k nb w ws junk base (length m) (base + 2 + 2) es f inner lt
            (omega (arith, inside, few, tail)))
