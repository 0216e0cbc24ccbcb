-- ===== src/Val/Entries.antt =====
-- What one round of `val_foreach` (bkv/src/bkv_val.c) does at a value that the writer added.
use wtools.Prelude.{
  ℕ, zero, suc, ◌+◌, ◌*◌, ◌/◌, ◌%◌, ◌^◌, ◌≤◌, ◌<◌, ◌≡◌, refl, ◌∙◌, arith, Bool, true, false, not,
  ◌==◌, Option, none, some, [], ◌∷◌, length, get_elem?,
}
use wtools.Prelude.Int.{ℤ}
use wtools.Prelude.Chain.{◌>>=◌}
use wtools.Buffer.{Bytes, load}
use wtools.ByteOrder.{byte_of, sign_extend}
use wtools.ByteOrder.Floats.{lef_to_cpu_bytes, le_double_to_cpu_bytes}
use wtools.ByteOrder.Exact.{le16_to_cpu_bytes, le32_to_cpu_bytes, le_u64_to_cpu_bytes}
use wtools.Bkv.Scalars.{bool_byte}
use wtools.Bkv.Spec.{Value, u16, u32, u64, float, double, boolean, str, encode, Fits}
use wtools.Val

-- The bytes `bs` stand at `p` in the block.
abbrev pub HoldsAt : Bytes → ℕ → Bytes → Type 0
HoldsAt m p [] = Unit
HoldsAt m p (b ∷ bs) = (load p m ≡ some b) × HoldsAt m (p + 1) bs

bool_byte-test : (b : Bool) → not (bool_byte b == 0) ≡ b
bool_byte-test true = refl
bool_byte-test false = refl

pub length_of : (n : ℕ) → n < 2 ^ 16 → byte_of n 8 % 256 * 256 + byte_of n 0 % 256 ≡ n
length_of n h = omega arith

-- One of the bytes.
pub HoldsAt-load :
    (m : Bytes) (p : ℕ) (bs : Bytes) (k i : ℕ) {b : ℕ}
    → HoldsAt m p bs
    → get_elem? bs k ≡ some b
    → i ≡ p + k
    → load i m ≡ some b
HoldsAt-load m p [] k i h e q = cc
HoldsAt-load m p (x ∷ bs) zero i h e q = let q' : i ≡ p = omega arith in rw q' (h.0 ∙ e)
HoldsAt-load m p (x ∷ bs) (suc k) i h e q = HoldsAt-load m (p + 1) bs k i h.1 e (omega arith)

module _ {D : Type 0} (cb : Val.Callbacks D) where
  ends :
      (x : Option (ℕ × D)) (i j : ℕ) (deep : ℤ)
      → i ≡ j
      → (x >>= λ a. some (Val.go_on i deep a)) ≡ (x >>= λ a. some (Val.go_on j deep a))
  ends x i j deep e = rw e

  -- The callback of a value at `p`, with what it is handed.
  abbrev pub call : D → ℕ → ℤ → ℕ → Value → Option (ℕ × D)
  call d p deep key (u16 v) = cb.uint16 d p deep key v
  call d p deep key (u32 v) = cb.uint32 d p deep key v
  call d p deep key (u64 v) = cb.uint64 d p deep key v
  call d p deep key (float v) = cb.float_fn d (p + 2) key v
  call d p deep key (double v) = cb.double_fn d (p + 2) key (sign_extend (v % 2 ^ 32))
  call d p deep key (boolean b) = cb.boolean_fn d (p + 2) key b
  call d p deep key (str s) = cb.str d (p + 2 + 2) key (p + 2 + 2) (length s)

  module _ (m : Bytes) (c : Val.Cursor D) (key : ℕ) (le : key ≤ 0xFFF) where
    pub round_header :
        (n : ℕ) (t : Val.Header)
        → n < 16
        → Val.header_of n ≡ t
        → load c.ptr m ≡ some (n * 16 + key / 256)
        → load (c.ptr + 1) m ≡ some (key % 256)
        → Val.round cb m c ≡ Val.case cb m c key t
    unfolding Val.round
    round_header n t lt e l0 l1 =
        let kind : (n * 16 + key / 256) / 16 % 16 ≡ n = omega arith in
        let id : (n * 16 + key / 256) % 16 * 256 + key % 256 % 256 ≡ key = omega arith in
        rw (l0, l1, kind, id, e)

    -- The loads at a value: its header and the bytes behind it.
    module _ (bs : Bytes) (h : HoldsAt m c.ptr bs) where
      byte_at : (k i : ℕ) {b : ℕ} → get_elem? bs k ≡ some b → i ≡ c.ptr + k → load i m ≡ some b
      byte_at k i e q = HoldsAt-load m c.ptr bs k i h e q

    -- At the bytes of a value the round calls the callback of that value's type with the key and
    -- the value, and goes on behind the bytes. Of a double it is the low half that is read.
    pub round-encode :
        (v : Value)
        → Fits v
        → HoldsAt m c.ptr (encode key v)
        → Val.round cb m c ≡ (
            call c.user c.ptr c.map_deep key v >>= λ a.
            some (Val.go_on (c.ptr + length (encode key v)) c.map_deep a))
    unfolding Val.case
    round-encode (u16 v) f h =
        let bs = encode key (u16 v) in
        round_header 5 Val.int16 (omega arith) refl (byte_at bs h 0 c.ptr refl (omega arith))
          (byte_at bs h 1 (c.ptr + 1) refl refl)
        ∙ rw
            (le16_to_cpu_bytes v m (c.ptr + 2) none f (byte_at bs h 2 (c.ptr + 2) refl refl)
              (byte_at bs h 3 (c.ptr + 2 + 1) refl (omega arith)))
            (ends _ _ _ _ (omega arith))
    round-encode (u32 v) f h =
        let bs = encode key (u32 v) in
        round_header 6 Val.int32 (omega arith) refl (byte_at bs h 0 c.ptr refl (omega arith))
          (byte_at bs h 1 (c.ptr + 1) refl refl)
        ∙ rw
            (le32_to_cpu_bytes v m (c.ptr + 2) none f (byte_at bs h 2 (c.ptr + 2) refl refl)
              (byte_at bs h 3 (c.ptr + 2 + 1) refl (omega arith))
              (byte_at bs h 4 (c.ptr + 2 + 2) refl (omega arith))
              (byte_at bs h 5 (c.ptr + 2 + 3) refl (omega arith)))
            (ends _ _ _ _ (omega arith))
    round-encode (u64 v) f h =
        let bs = encode key (u64 v) in
        round_header 7 Val.int64 (omega arith) refl (byte_at bs h 0 c.ptr refl (omega arith))
          (byte_at bs h 1 (c.ptr + 1) refl refl)
        ∙ rw
            (le_u64_to_cpu_bytes v m (c.ptr + 2) none f (byte_at bs h 2 (c.ptr + 2) refl refl)
              (byte_at bs h 3 (c.ptr + 2 + 1) refl (omega arith))
              (byte_at bs h 4 (c.ptr + 2 + 2) refl (omega arith))
              (byte_at bs h 5 (c.ptr + 2 + 3) refl (omega arith))
              (byte_at bs h 6 (c.ptr + 2 + 4) refl (omega arith))
              (byte_at bs h 7 (c.ptr + 2 + 5) refl (omega arith))
              (byte_at bs h 8 (c.ptr + 2 + 6) refl (omega arith))
              (byte_at bs h 9 (c.ptr + 2 + 7) refl (omega arith)))
            (ends _ _ _ _ (omega arith))
    round-encode (float v) f h =
        let bs = encode key (float v) in
        round_header 9 Val.float (omega arith) refl (byte_at bs h 0 c.ptr refl (omega arith))
          (byte_at bs h 1 (c.ptr + 1) refl refl)
        ∙ rw
            (lef_to_cpu_bytes v m (c.ptr + 2) none f (byte_at bs h 2 (c.ptr + 2) refl refl)
              (byte_at bs h 3 (c.ptr + 2 + 1) refl (omega arith))
              (byte_at bs h 4 (c.ptr + 2 + 2) refl (omega arith))
              (byte_at bs h 5 (c.ptr + 2 + 3) refl (omega arith)))
            (ends _ _ _ _ (omega arith))
    round-encode (double v) f h =
        let bs = encode key (double v) in
        round_header 10 Val.double (omega arith) refl (byte_at bs h 0 c.ptr refl (omega arith))
          (byte_at bs h 1 (c.ptr + 1) refl refl)
        ∙ rw
            (le_double_to_cpu_bytes (sign_extend (v % 2 ^ 32)) m (c.ptr + 2) none (ground arith)
              (byte_at bs h 2 (c.ptr + 2) refl refl)
              (byte_at bs h 3 (c.ptr + 2 + 1) refl (omega arith))
              (byte_at bs h 4 (c.ptr + 2 + 2) refl (omega arith))
              (byte_at bs h 5 (c.ptr + 2 + 3) refl (omega arith))
              (byte_at bs h 6 (c.ptr + 2 + 4) refl (omega arith))
              (byte_at bs h 7 (c.ptr + 2 + 5) refl (omega arith))
              (byte_at bs h 8 (c.ptr + 2 + 6) refl (omega arith))
              (byte_at bs h 9 (c.ptr + 2 + 7) refl (omega arith)))
            (ends _ _ _ _ (omega arith))
    round-encode (boolean b) f h =
        let bs = encode key (boolean b) in
        round_header 11 Val.boolean (omega arith) refl (byte_at bs h 0 c.ptr refl (omega arith))
          (byte_at bs h 1 (c.ptr + 1) refl refl)
        ∙ rw (byte_at bs h 2 (c.ptr + 2) refl refl, bool_byte-test b) (ends _ _ _ _ (omega arith))
    round-encode (str s) f h =
        let bs = encode key (str s) in
        round_header 8 Val.string (omega arith) refl (byte_at bs h 0 c.ptr refl (omega arith))
          (byte_at bs h 1 (c.ptr + 1) refl refl)
        ∙ rw
            (
              byte_at bs h 2 (c.ptr + 2) refl refl,
              byte_at bs h 3 (c.ptr + 2 + 1) refl (omega arith),
              length_of (length s) f,
            )
            (ends _ _ _ _ (omega arith))
