-- ===== src/Bkv/Spec.antt =====
-- What a document of the writer looks like: an independent description of the bytes of one value
-- under a key, and the operation of bkv/src/bkv.c that adds it.
use wtools.Prelude.{
  ℕ, ◌+◌, ◌*◌, ◌/◌, ◌%◌, ◌^◌, ◌≤◌, ◌<◌, Bool, true, false, Option, some, List, [], ◌∷◌, ◌++◌,
  length,
}
use wtools.Prelude.Int.{ℤ, eqb_ℤ}
use wtools.Prelude.Chain.{◌>>=◌}
use wtools.Buffer.{Bytes}
use wtools.Buffer.Laws.{splice}
use wtools.ByteOrder.{bytes_u16, bytes_u32, bytes_u64, sign_extend}
use wtools.Libc.{Libc}
use wtools.Bkv.{ok, Bkv}
use wtools.Bkv.Scalars.{
  bool_byte, bkv_kv_u16_add, bkv_kv_u32_add, bkv_kv_u64_add, bkv_kv_float_add, bkv_kv_double_add,
  bkv_kv_boolean_add, bkv_kv_str_add,
}
use mathlib.Core.Option as Opt

-- A value of a map. Floats and doubles are bit patterns.
pub data Value : Type 0 where
  u16 u32 u64 float double : ℕ → Value
  boolean : Bool → Value
  str : Bytes → Value

-- The 4 bits of the type and the 12 bits of the key, highest first.
abbrev pub header : ℕ → ℕ → Bytes
header hdr_type key = (hdr_type * 16 + key / 256) ∷ key % 256 ∷ []

abbrev pub encode : ℕ → Value → Bytes
encode key (u16 v) = header 5 key ++ bytes_u16 v
encode key (u32 v) = header 6 key ++ bytes_u32 v
encode key (u64 v) = header 7 key ++ bytes_u64 v
encode key (float v) = header 9 key ++ bytes_u32 v
encode key (double v) = header 10 key ++ bytes_u64 (sign_extend (v % 2 ^ 32))
encode key (boolean b) = header 11 key ++ (bool_byte b ∷ [])
encode key (str s) = header 8 key ++ (bytes_u16 (length s) ++ s)

unfoldable pub add : Libc → Bkv → ℕ → Value → Option (ℤ × Bkv)
add libc h key (u16 v) = bkv_kv_u16_add libc h key v
add libc h key (u32 v) = bkv_kv_u32_add libc h key v
add libc h key (u64 v) = bkv_kv_u64_add libc h key v
add libc h key (float v) = bkv_kv_float_add libc h key v
add libc h key (double v) = bkv_kv_double_add libc h key v
add libc h key (boolean b) = bkv_kv_boolean_add libc h key b
add libc h key (str s) = bkv_kv_str_add libc h key s (length s)

-- The size in bits that the operation hands to `bkv_prepare`.
abbrev pub asked : Value → ℕ
asked (u16 v) = 16
asked (u32 v) = 32
asked (u64 v) = 80
asked (float v) = 48
asked (double v) = 80
asked (boolean b) = 48
asked (str s) = (2 + 2 + length s) * 8

-- The numbers fit their C types.
abbrev pub Fits : Value → Type 0
Fits (u16 v) = v < 2 ^ 16
Fits (u32 v) = v < 2 ^ 32
Fits (u64 v) = v < 2 ^ 64
Fits (float v) = v < 2 ^ 32
Fits (double v) = v < 2 ^ 64
Fits (boolean b) = Unit
Fits (str s) = length s < 2 ^ 16

-- The handle with the bytes `bs` at its write offset.
abbrev pub put : Bytes → Bkv → Bkv
put bs h = record h {
  ptr = Opt.map (splice h.write_offset bs) h.ptr;
  write_offset = h.write_offset + length bs;
}

abbrev pub Entry : Type 0
Entry = ℕ × Value

abbrev pub encode_all : List Entry → Bytes
encode_all [] = []
encode_all ((key, v) ∷ es) = encode key v ++ encode_all es

-- Every key has 12 bits and every number fits its type.
abbrev pub AllFit : List Entry → Type 0
AllFit [] = Unit
AllFit ((key, v) ∷ es) = (key ≤ 0xFFF) × Fits v × AllFit es

-- A caller that adds the entries in order, up to the first code that is not BKV_OK.
unfoldable pub add_all : Libc → Bkv → List Entry → Option (ℤ × Bkv)
unfolding add
add_all libc h [] = some (ok, h)
add_all libc h ((key, v) ∷ es) = do
  r ← add libc h key v
  elim (eqb_ℤ ok r.0) [ true ↦ add_all libc r.1 es | false ↦ some r ]
