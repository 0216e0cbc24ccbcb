-- ===== src/ByteOrder/Exact.antt =====
-- The integers of bkv/src/bkv_byteorder.c: writer against reader.
use wtools.Prelude.{ℕ, ◌+◌, ◌^◌, ◌≤◌, ◌<◌, ◌≡◌, refl, arith, Option, some, length, get_elem?}
use wtools.Buffer.{Bytes, load, store_all}
use wtools.Buffer.Laws.{
  splice, SameOutside, SameOutside-splice, store_all-splice, get_elem?-splice_in,
}
use wtools.ByteOrder.{
  byte_of, advance, bytes_u16, bytes_u32, bytes_u64, le16_to_cpu, cpu_to_le16, le32_to_cpu,
  cpu_to_le32, le_u64_to_cpu, cpu_to_le_u64,
}

pub le16_to_cpu_bytes :
    (v : ℕ) (m : Bytes) (p : ℕ) (offset : Option ℕ)
    → v < 2 ^ 16
    → load p m ≡ some (byte_of v 8)
    → load (p + 1) m ≡ some (byte_of v 0)
    → le16_to_cpu m p offset ≡ some (v, advance offset 2)
unfolding le16_to_cpu
le16_to_cpu_bytes v m p offset lt e0 e1 = ground arith

pub le32_to_cpu_bytes :
    (v : ℕ) (m : Bytes) (p : ℕ) (offset : Option ℕ)
    → v < 2 ^ 32
    → load p m ≡ some (byte_of v 24)
    → load (p + 1) m ≡ some (byte_of v 16)
    → load (p + 2) m ≡ some (byte_of v 8)
    → load (p + 3) m ≡ some (byte_of v 0)
    → le32_to_cpu m p offset ≡ some (v, advance offset 4)
unfolding le32_to_cpu
le32_to_cpu_bytes v m p offset lt e0 e1 e2 e3 = ground arith

pub le_u64_to_cpu_bytes :
    (v : ℕ) (m : Bytes) (p : ℕ) (offset : Option ℕ)
    → v < 2 ^ 64
    → load p m ≡ some (byte_of v 56)
    → load (p + 1) m ≡ some (byte_of v 48)
    → load (p + 2) m ≡ some (byte_of v 40)
    → load (p + 3) m ≡ some (byte_of v 32)
    → load (p + 4) m ≡ some (byte_of v 24)
    → load (p + 5) m ≡ some (byte_of v 16)
    → load (p + 6) m ≡ some (byte_of v 8)
    → load (p + 7) m ≡ some (byte_of v 0)
    → le_u64_to_cpu m p offset ≡ some (v, advance offset 8)
unfolding le_u64_to_cpu
le_u64_to_cpu_bytes v m p offset lt e0 e1 e2 e3 e4 e5 e6 e7 = ground arith

-- The bytes of a number, at their places in the block that they were stored in.
module _ (m : Bytes) (p : ℕ) (bs : Bytes) (fits : p + length bs ≤ length m) where
  at : (k i : ℕ) → i ≡ p + k → k < length bs → load i (splice p bs m) ≡ get_elem? bs k
  at k i e lt = get_elem?-splice_in p k i bs m (omega arith) lt e

  store : store_all p bs m ≡ some (splice p bs m)
  store = store_all-splice p bs m fits

-- A writer stores `n` bytes from `p` on, touches nothing else, and the reader returns `v`.
abbrev pub ReadsBack :
    Option (Bytes × Option ℕ)
    → (Bytes → Option (ℕ × Option ℕ))
    → (m : Bytes) (p n v : ℕ) (o o' : Option ℕ) → Type 0
ReadsBack written reader m p n v o o' =
    (m' : Bytes) × (written ≡ some (m', advance o n))
    × (reader m' ≡ some (v, advance o' n))
    × SameOutside p n m m'

module _ (v : ℕ) (m : Bytes) (p : ℕ) (o o' : Option ℕ) where
  -- A 16-bit number that `cpu_to_le16` stored where two bytes fit is what `le16_to_cpu` reads
  -- there; the other bytes stay, and both offsets go up by 2.
  pub le16-round_trip :
      v < 2 ^ 16
      → p + 2 ≤ length m
      → ReadsBack (cpu_to_le16 v m p o) (λ m'. le16_to_cpu m' p o') m p 2 v o o'
  unfolding cpu_to_le16
  le16-round_trip lt fits =
      let bs = bytes_u16 v in
      (
        splice p bs m,
        rw (store m p bs fits),
        le16_to_cpu_bytes v _ p o' lt (at m p bs fits 0 p (omega arith) (omega arith))
            (at m p bs fits 1 (p + 1) refl (omega arith)),
        SameOutside-splice p bs m fits,
      )

  -- A 32-bit number that `cpu_to_le32` stored where four bytes fit is what `le32_to_cpu` reads
  -- there; the other bytes stay, and both offsets go up by 4.
  pub le32-round_trip :
      v < 2 ^ 32
      → p + 4 ≤ length m
      → ReadsBack (cpu_to_le32 v m p o) (λ m'. le32_to_cpu m' p o') m p 4 v o o'
  unfolding cpu_to_le32
  le32-round_trip lt fits =
      let bs = bytes_u32 v in
      (
        splice p bs m,
        rw (store m p bs fits),
        le32_to_cpu_bytes v _ p o' lt (at m p bs fits 0 p (omega arith) (omega arith))
            (at m p bs fits 1 (p + 1) refl (omega arith))
            (at m p bs fits 2 (p + 2) refl (omega arith))
            (at m p bs fits 3 (p + 3) refl (omega arith)),
        SameOutside-splice p bs m fits,
      )

  -- A 64-bit number that `cpu_to_le_u64` stored where eight bytes fit is what `le_u64_to_cpu`
  -- reads there; the other bytes stay, and both offsets go up by 8.
  pub le_u64-round_trip :
      v < 2 ^ 64
      → p + 8 ≤ length m
      → ReadsBack (cpu_to_le_u64 v m p o) (λ m'. le_u64_to_cpu m' p o') m p 8 v o o'
  unfolding cpu_to_le_u64
  le_u64-round_trip lt fits =
      let bs = bytes_u64 v in
      (
        splice p bs m,
        rw (store m p bs fits),
        le_u64_to_cpu_bytes v _ p o' lt (at m p bs fits 0 p (omega arith) (omega arith))
            (at m p bs fits 1 (p + 1) refl (omega arith))
            (at m p bs fits 2 (p + 2) refl (omega arith))
            (at m p bs fits 3 (p + 3) refl (omega arith))
            (at m p bs fits 4 (p + 4) refl (omega arith))
            (at m p bs fits 5 (p + 5) refl (omega arith))
            (at m p bs fits 6 (p + 6) refl (omega arith))
            (at m p bs fits 7 (p + 7) refl (omega arith)),
        SameOutside-splice p bs m fits,
      )
