-- ===== src/ByteOrder.antt =====
-- bkv/src/bkv_byteorder.c: numbers as runs of bytes. `m` is the block that the argument `m` of
-- the source points into, `p` the place in it, and `offset` the last argument: `none` is NULL.
-- An integer is the number below 2 ^ width with its bits. A float or a double is its bit pattern,
-- of 32 or 64 bits; the bytes of a C object stand in little-endian order, as the source takes it.
pub mod Exact
pub mod Floats
use wtools.Prelude.{
  ℕ, ◌+◌, ◌-◌, ◌*◌, ◌/◌, ◌%◌, ◌^◌, Option, some, List, [], ◌∷◌, ltb, if◌then◌else◌,
}
use wtools.Prelude.Chain.{◌>>=◌}
use wtools.Buffer.{Bytes, load, store_all}
use mathlib.Core.Option as Opt
use Prim.Native.Nat.{bit_and, bit_or}

-- `(v >> s) & 0xFF`
abbrev pub byte_of : ℕ → ℕ → ℕ
byte_of v s = v / 2 ^ s % 256

-- `if (offset) *offset += n;`
abbrev pub advance : Option ℕ → ℕ → Option ℕ
advance offset n = Opt.map (λ o. o + n) offset

abbrev pub bytes_u16 : ℕ → Bytes
bytes_u16 v = byte_of v 8 ∷ byte_of v 0 ∷ []

abbrev pub bytes_u32 : ℕ → Bytes
bytes_u32 v = byte_of v 24 ∷ byte_of v 16 ∷ byte_of v 8 ∷ byte_of v 0 ∷ []

abbrev pub bytes_u64 : ℕ → Bytes
bytes_u64 v =
    byte_of v 56
    ∷ byte_of v 48
    ∷ byte_of v 40
    ∷ byte_of v 32
    ∷ byte_of v 24
    ∷ byte_of v 16
    ∷ byte_of v 8
    ∷ byte_of v 0
    ∷ []

unfoldable pub le16_to_cpu : Bytes → ℕ → Option ℕ → Option (ℕ × Option ℕ)
le16_to_cpu m p offset = do
  b0 ← load p m
  b1 ← load (p + 1) m
  some ((b0 * 2 ^ 8 + b1) % 2 ^ 16, advance offset 2)

unfoldable pub cpu_to_le16 : ℕ → Bytes → ℕ → Option ℕ → Option (Bytes × Option ℕ)
cpu_to_le16 v m p offset = do m' ← store_all p (bytes_u16 v) m; some (m', advance offset 2)

unfoldable pub le32_to_cpu : Bytes → ℕ → Option ℕ → Option (ℕ × Option ℕ)
le32_to_cpu m p offset = do
  b0 ← load p m
  b1 ← load (p + 1) m
  b2 ← load (p + 2) m
  b3 ← load (p + 3) m
  some ((b0 * 2 ^ 24 + b1 * 2 ^ 16 + b2 * 2 ^ 8 + b3) % 2 ^ 32, advance offset 4)

unfoldable pub cpu_to_le32 : ℕ → Bytes → ℕ → Option ℕ → Option (Bytes × Option ℕ)
cpu_to_le32 v m p offset = do m' ← store_all p (bytes_u32 v) m; some (m', advance offset 4)

unfoldable pub le_u64_to_cpu : Bytes → ℕ → Option ℕ → Option (ℕ × Option ℕ)
le_u64_to_cpu m p offset = do
  b0 ← load p m
  b1 ← load (p + 1) m
  b2 ← load (p + 2) m
  b3 ← load (p + 3) m
  b4 ← load (p + 4) m
  b5 ← load (p + 5) m
  b6 ← load (p + 6) m
  b7 ← load (p + 7) m
  let high = b0 * 2 ^ 56 + b1 * 2 ^ 48 + b2 * 2 ^ 40 + b3 * 2 ^ 32
  some ((high + b4 * 2 ^ 24 + b5 * 2 ^ 16 + b6 * 2 ^ 8 + b7) % 2 ^ 64, advance offset 8)

unfoldable pub cpu_to_le_u64 : ℕ → Bytes → ℕ → Option ℕ → Option (Bytes × Option ℕ)
cpu_to_le_u64 v m p offset = do m' ← store_all p (bytes_u64 v) m; some (m', advance offset 8)

-- The float is written byte by byte from `ivalue`.
unfoldable pub lef_to_cpu : Bytes → ℕ → Option ℕ → Option (ℕ × Option ℕ)
unfolding le32_to_cpu
lef_to_cpu m p offset = do
  r ← le32_to_cpu m p offset
  let i = r.0
  some (byte_of i 24 * 2 ^ 24 + byte_of i 16 * 2 ^ 16 + byte_of i 8 * 2 ^ 8 + byte_of i 0, r.1)

-- `tmp`: the three masks over the first four bytes of the value.
unfoldable pub masked : ℕ → ℕ
masked i = bit_or (bit_or (bit_and i 0xFF000000) (bit_and i 0x07800000)) (bit_and i 0x007fffff)

unfoldable pub cpu_to_lef : ℕ → Bytes → ℕ → Option ℕ → Option (Bytes × Option ℕ)
unfolding masked cpu_to_le32
cpu_to_lef v m p offset = cpu_to_le32 (masked v) m p offset

-- An int32_t handed over as an int64_t keeps its sign.
abbrev pub sign_extend : ℕ → ℕ
sign_extend i = if ltb i (2 ^ 31) then i else i + (2 ^ 64 - 2 ^ 32)

-- `*((int32_t*)&v)` is the low half of the double.
unfoldable pub cpu_to_le_double : ℕ → Bytes → ℕ → Option ℕ → Option (Bytes × Option ℕ)
unfolding masked cpu_to_le_u64
cpu_to_le_double v m p offset = cpu_to_le_u64 (sign_extend (masked (v % 2 ^ 32))) m p offset

-- The offset goes up twice: once in `le_u64_to_cpu`, once here.
unfoldable pub le_double_to_cpu : Bytes → ℕ → Option ℕ → Option (ℕ × Option ℕ)
unfolding le_u64_to_cpu
le_double_to_cpu m p offset = do
  r ← le_u64_to_cpu m p offset
  let i = r.0
  let high = byte_of i 56 * 2 ^ 56 + byte_of i 48 * 2 ^ 48 + byte_of i 40 * 2 ^ 40
  let middle = byte_of i 32 * 2 ^ 32 + byte_of i 24 * 2 ^ 24 + byte_of i 16 * 2 ^ 16
  some (high + middle + byte_of i 8 * 2 ^ 8 + byte_of i 0, advance r.1 8)
