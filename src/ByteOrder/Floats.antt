-- ===== src/ByteOrder/Floats.antt =====
-- The floats and doubles of bkv/src/bkv_byteorder.c: writer against reader.
use wtools.Prelude.{
  ℕ, ◌+◌, ◌*◌, ◌%◌, ◌^◌, ◌≤◌, ◌<◌, ◌≡◌, refl, ap, arith, Option, none, some, length,
}
use wtools.Prelude.Bits.{or_of_masks}
use wtools.Buffer.{Bytes, load}
use wtools.ByteOrder.{
  byte_of, advance, sign_extend, masked, lef_to_cpu, cpu_to_lef, cpu_to_le_double, le_double_to_cpu,
}
use wtools.ByteOrder.Exact.{
  ReadsBack, le32_to_cpu_bytes, le_u64_to_cpu_bytes, le32-round_trip, le_u64-round_trip,
}

-- The three masks cover all 32 bits.
pub masked_lem : (i : ℕ) → i < 2 ^ 32 → masked i ≡ i
unfolding masked
masked_lem i h = or_of_masks 32 i 0xFF000000 0x07800000 0x007fffff refl h

bytes_of_u64 :
    (i : ℕ)
    → i < 2 ^ 64
    → byte_of i 56 * 2 ^ 56
        + byte_of i 48 * 2 ^ 48
        + byte_of i 40 * 2 ^ 40
        + (byte_of i 32 * 2 ^ 32 + byte_of i 24 * 2 ^ 24 + byte_of i 16 * 2 ^ 16)
        + byte_of i 8 * 2 ^ 8
        + byte_of i 0
      ≡ i
bytes_of_u64 i h = omega arith

advance_twice : (o : Option ℕ) → advance (advance o 8) 8 ≡ advance o 16
advance_twice none = refl
advance_twice (some n) = ap some (omega arith)

pub lef_to_cpu_bytes :
    (v : ℕ) (m : Bytes) (p : ℕ) (offset : Option ℕ)
    → v < 2 ^ 32
    → load p m ≡ some (byte_of v 24)
    → load (p + 1) m ≡ some (byte_of v 16)
    → load (p + 2) m ≡ some (byte_of v 8)
    → load (p + 3) m ≡ some (byte_of v 0)
    → lef_to_cpu m p offset ≡ some (v, advance offset 4)
unfolding lef_to_cpu
lef_to_cpu_bytes v m p offset lt e0 e1 e2 e3 =
    rw (le32_to_cpu_bytes v m p offset lt e0 e1 e2 e3) (ground arith)

pub le_double_to_cpu_bytes :
    (v : ℕ) (m : Bytes) (p : ℕ) (offset : Option ℕ)
    → v < 2 ^ 64
    → load p m ≡ some (byte_of v 56)
    → load (p + 1) m ≡ some (byte_of v 48)
    → load (p + 2) m ≡ some (byte_of v 40)
    → load (p + 3) m ≡ some (byte_of v 32)
    → load (p + 4) m ≡ some (byte_of v 24)
    → load (p + 5) m ≡ some (byte_of v 16)
    → load (p + 6) m ≡ some (byte_of v 8)
    → load (p + 7) m ≡ some (byte_of v 0)
    → le_double_to_cpu m p offset ≡ some (v, advance offset 16)
unfolding le_double_to_cpu
le_double_to_cpu_bytes v m p offset lt e0 e1 e2 e3 e4 e5 e6 e7 =
    rw (le_u64_to_cpu_bytes v m p offset lt e0 e1 e2 e3 e4 e5 e6 e7)
      (ground (arith, bytes_of_u64 v lt, advance_twice offset))

module _ (v : ℕ) (m : Bytes) (p : ℕ) (o o' : Option ℕ) where
  -- A float that `cpu_to_lef` stored where four bytes fit is what `lef_to_cpu` reads there, bit by
  -- bit; the other bytes stay, and both offsets go up by 4.
  pub lef-round_trip :
      v < 2 ^ 32
      → p + 4 ≤ length m
      → ReadsBack (cpu_to_lef v m p o) (λ m'. lef_to_cpu m' p o') m p 4 v o o'
  lef-round_trip lt fits =
      let (m', written, back, same) = le32-round_trip v m p o o' lt fits in
      (
        m',
        unfold cpu_to_lef in rw (masked_lem v lt) written,
        unfold lef_to_cpu in rw back (ground arith),
        same,
      )

  -- A double that `cpu_to_le_double` stored is read back as the sign extension of its low 32
  -- bits, and `le_double_to_cpu` adds 16 to the offset for the 8 bytes that it reads.
  pub le_double-low_half :
      p + 8 ≤ length m
      → (m' : Bytes) × (cpu_to_le_double v m p o ≡ some (m', advance o 8))
        × (le_double_to_cpu m' p o' ≡ some (sign_extend (v % 2 ^ 32), advance o' 16))
  le_double-low_half fits =
      let i = sign_extend (v % 2 ^ 32) in
      let (m', written, back, same) = le_u64-round_trip i m p o o' (ground arith) fits in
      (
        m',
        unfold cpu_to_le_double in rw (masked_lem (v % 2 ^ 32) (omega arith)) written,
        unfold le_double_to_cpu in
            rw back (ground (arith, bytes_of_u64 i (ground arith), advance_twice o')),
      )
