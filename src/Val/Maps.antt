-- ===== src/Val/Maps.antt =====
-- `val_foreach` (bkv/src/bkv_val.c) over a map of scalars that the writer of bkv/src/bkv.c closed.
use wtools.Prelude.{
  ℕ, zero, suc, ◌+◌, ◌%◌, ◌^◌, ◌≤◌, ◌<◌, ◌≡◌, refl, sym, ap, ◌∙◌, arith, true, false, Option, some,
  List, [], ◌∷◌, ◌++◌, length, length-append, lt→ltb,
}
use wtools.Prelude.Int.{ℤ, pos}
use wtools.Prelude.Chain.{◌>>=◌}
use wtools.Buffer.{Bytes, read_all}
use wtools.ByteOrder.{sign_extend, bytes_u16}
use wtools.Bkv.{ok}
use wtools.Bkv.Spec.{
  Value, u16, u32, u64, float, double, boolean, str, header, encode, Entry, encode_all, AllFit,
}
use wtools.Val
use wtools.Val.Entries.{HoldsAt, call, round_header, round-encode}
use wtools.Val.Total.{load_inside}
use mathlib.Core.List.{append_assoc, append-nil}

-- Callbacks of a caller that notes the values down, with the bytes of the strings.
abbrev note : List Entry → ℕ → Value → Option (ℕ × List Entry)
note d key v = some (0, d ++ ((key, v) ∷ []))

unfoldable pub recorder : Bytes → Val.Callbacks (List Entry)
recorder m = record {
  map_open = some (λ d p key. some (0, d));
  map_close = some (λ d key. some (0, d));
  array_open = some (λ d p n key. some (0, d));
  array_close = some (λ d. some (0, d));
  uint16 = λ d p deep key v. note d key (u16 v);
  uint32 = λ d p deep key v. note d key (u32 v);
  uint64 = λ d p deep key v. note d key (u64 v);
  str = λ d p key q len. (read_all len q m >>= λ bs. note d key (str bs));
  float_fn = λ d p key v. note d key (float v);
  double_fn = λ d p key v. note d key (double v);
  boolean_fn = λ d p key b. note d key (boolean b);
}

-- What a value reads as: of a double only the low half was stored.
abbrev pub reads_as : Value → Value
reads_as (double v) = double (sign_extend (v % 2 ^ 32))
reads_as v = v

abbrev pub reads_all_as : List Entry → List Entry
reads_all_as [] = []
reads_all_as ((key, v) ∷ es) = (key, reads_as v) ∷ reads_all_as es

pub HoldsAt-append :
    (m : Bytes) (p q : ℕ) (xs ys : Bytes)
    → HoldsAt m p (xs ++ ys)
    → q ≡ p + length xs
    → HoldsAt m p xs × HoldsAt m q ys
HoldsAt-append m p q [] ys h e = let e' : p ≡ q = omega arith in (tt, rw e' at h)
HoldsAt-append m p q (x ∷ xs) ys h e =
    let (front, back) = HoldsAt-append m (p + 1) q xs ys h.1 (omega arith) in ((h.0, front), back)

pub read_all-HoldsAt :
    (m : Bytes) (p : ℕ) (s : Bytes) → HoldsAt m p s → read_all (length s) p m ≡ some s
unfolding read_all
read_all-HoldsAt m p [] h = refl
read_all-HoldsAt m p (b ∷ s) h = rw (h.0, read_all-HoldsAt m (p + 1) s h.1)

call-recorder :
    (m : Bytes) (d : List Entry) (p : ℕ) (deep : ℤ) (key : ℕ) (v : Value)
    → HoldsAt m p (encode key v)
    → call (recorder m) d p deep key v ≡ some (0, d ++ ((key, reads_as v) ∷ []))
unfolding recorder
call-recorder m d p deep key (u16 v) h = refl
call-recorder m d p deep key (u32 v) h = refl
call-recorder m d p deep key (u64 v) h = refl
call-recorder m d p deep key (float v) h = refl
call-recorder m d p deep key (double v) h = refl
call-recorder m d p deep key (boolean b) h = refl
call-recorder m d p deep key (str s) h =
    let q : p + 1 + 1 + 1 + 1 ≡ p + 2 + 2 = omega arith in
    rw (read_all-HoldsAt m (p + 2 + 2) s (rw q at h.1.1.1.1))

-- The bytes of the closing header; the second one is arbitrary.
abbrev pub map_end : ℕ → Bytes
map_end junk = 0x20 ∷ junk ∷ []

round_end :
    (m : Bytes) (junk base p : ℕ) (d : List Entry)
    → HoldsAt m p (map_end junk)
    → Val.round (recorder m) m (record { user = d; ptr = p; map_deep = pos 1 })
      ≡ some (Val.next Val.stop_loop (record { user = d; ptr = p + 2; map_deep = pos 0 }))
unfolding Val.round Val.case recorder
round_end m junk base p d h = rw (h.0, h.1.0)

-- One turn of the loop, by how the round ends.
module _ {D : Type 0} (cb : Val.Callbacks D) (m : Bytes) (base fuel : ℕ) (c : Val.Cursor D) where
  pub loop_next :
      (ret : ℕ) (c' : Val.Cursor D)
      → Val.round cb m c ≡ some (Val.next ret c')
      → Val.continues base ret c' ≡ true
      → Val.loop cb m base (suc fuel) c ≡ Val.loop cb m base fuel c'
  unfolding Val.loop
  loop_next ret c' e k = rw (e, Val.loop) (rw k)

  pub loop_stop :
      (ret : ℕ) (c' : Val.Cursor D)
      → Val.round cb m c ≡ some (Val.next ret c')
      → Val.continues base ret c' ≡ false
      → Val.loop cb m base (suc fuel) c ≡ Val.returns ok c'.user
  unfolding Val.loop
  loop_stop ret c' e k = rw (e, Val.loop) (rw k)

loop-encode_all :
    (m : Bytes) (junk base fuel p : ℕ) (es d : List Entry)
    → AllFit es
    → HoldsAt m p (encode_all es ++ map_end junk)
    → base < p
    → length es < fuel
    → Val.loop (recorder m) m base fuel (record { user = d; ptr = p; map_deep = pos 1 })
      ≡ Val.returns ok (d ++ reads_all_as es)
unfolding Val.loop
loop-encode_all m junk base zero p es d f h lt n = absurd (omega arith)
loop-encode_all m junk base (suc fuel) p [] d f h lt n =
    loop_stop (recorder m) m base fuel _ Val.stop_loop _ (round_end m junk base p d h) refl
    ∙ ap (Val.returns ok) (sym (append-nil d))
loop-encode_all m junk base (suc fuel) p ((key, v) ∷ es) d (lk, fv, f) h lt n =
    let bs = encode key v in
    let p' = p + length bs in
    let (here, back) =
      HoldsAt-append m p p' bs (encode_all es ++ map_end junk)
        (rw (append_assoc bs (encode_all es) (map_end junk)) at h) refl in
    let d' = d ++ ((key, reads_as v) ∷ []) in
    let start : Val.Cursor (List Entry) = record { user = d; ptr = p; map_deep = pos 1 } in
    let called = round-encode (recorder m) m start key lk v fv here in
    let noted = rw (call-recorder m d p (pos 1) key v here) at called in
    let lt' : base < p' = omega arith in
    loop_next (recorder m) m base fuel start 0 (record { user = d'; ptr = p'; map_deep = pos 1 })
      noted (lt→ltb base p' lt')
    ∙ loop-encode_all m junk base fuel p' es d' f back lt' (omega arith)
    ∙ ap (Val.returns ok) (append_assoc d ((key, reads_as v) ∷ []) (reads_all_as es))

pub HoldsAt-length :
    (m : Bytes) (p : ℕ) (b : ℕ) (bs : Bytes) → HoldsAt m p (b ∷ bs) → p + length (b ∷ bs) ≤ length m
HoldsAt-length m p b [] h = omega (arith, load_inside p m h.0)
HoldsAt-length m p b (x ∷ bs) h = omega (arith, HoldsAt-length m (p + 1) x bs h.1)

pub length-le-encode_all : (es : List Entry) → length es ≤ length (encode_all es)
length-le-encode_all [] = omega arith
length-le-encode_all ((key, v) ∷ es) = omega (
  arith,
  length-encode key v,
  length-append (encode key v) (encode_all es),
  length-le-encode_all es,
)
  where
    length-encode : (key : ℕ) (v : Value) → 1 ≤ length (encode key v)
    length-encode key (u16 v) = omega arith
    length-encode key (u32 v) = omega arith
    length-encode key (u64 v) = omega arith
    length-encode key (float v) = omega arith
    length-encode key (double v) = omega arith
    length-encode key (boolean b) = omega arith
    length-encode key (str s) = omega arith

-- The bytes of a map: its header, its length, its entries and the header of its end.
abbrev pub map_bytes : ℕ → ℕ → List Entry → ℕ → Bytes
map_bytes key size es junk = header 1 key ++ (bytes_u16 size ++ (encode_all es ++ map_end junk))

round_open :
    (m : Bytes) (p key size junk : ℕ) (es d : List Entry)
    → key ≤ 0xFFF
    → HoldsAt m p (map_bytes key size es junk)
    → Val.round (recorder m) m (record { user = d; ptr = p; map_deep = pos 0 })
      ≡ some (Val.next 0 (record { user = d; ptr = p + 2 + 2; map_deep = pos 1 }))
unfolding Val.case Val.enter_map recorder
round_open m p key size junk es d le h =
    round_header (recorder m) m (record { user = d; ptr = p; map_deep = pos 0 }) key le 1
      Val.map_open (omega arith) refl h.0 h.1.0

-- Over the bytes of a map of entries that fit, with a key of 12 bits and anywhere in a block,
-- `val_foreach` hands its callbacks each entry in order, of a double the low half, and returns
-- BKV_OK at the end of the map.
pub val_foreach-map_bytes :
    (m : Bytes) (base key size junk : ℕ) (es : List Entry)
    → key ≤ 0xFFF
    → AllFit es
    → HoldsAt m base (map_bytes key size es junk)
    → Val.val_foreach (recorder m) m base [] ≡ Val.returns ok (reads_all_as es)
unfolding Val.val_foreach
val_foreach-map_bytes m base key size junk es le f h =
    let q : base + 1 + 1 + 1 + 1 ≡ base + 2 + 2 = omega arith in
    let inner = rw q at h.1.1.1.1 in
    let inside =
      HoldsAt-length m base _ (key % 256 ∷ (bytes_u16 size ++ (encode_all es ++ map_end junk))) h in
    let few : length es < length m + 1 =
      omega
        (arith, inside, length-le-encode_all es, length-append (encode_all es) (map_end junk)) in
    let lt : base < base + 2 + 2 = omega arith in
    let e : length m + 1 ≡ suc (length m) = omega arith in
    rw e (
      loop_next (recorder m) m base (length m) _ 0 _ (round_open m base key size junk es [] le h)
        (lt→ltb base (base + 2 + 2) lt)
      ∙ loop-encode_all m junk base (length m) (base + 2 + 2) es [] f inner lt (
          omega
            (arith, inside, length-le-encode_all es, length-append (encode_all es) (map_end junk))))
