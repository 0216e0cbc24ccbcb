-- ===== src/Bkv/Scalars.antt =====
-- The operations of bkv/src/bkv.c that add one value under a key of the open map.
use wtools.Prelude.{ℕ, ◌+◌, ◌*◌, Bool, true, false, not, Option, some, ltb, if◌then◌else◌}
use wtools.Prelude.Int.{ℤ, minus_one, eqb_ℤ}
use wtools.Prelude.Chain.{◌>>=◌}
use wtools.Buffer.{Bytes}
use wtools.ByteOrder.{cpu_to_le16, cpu_to_le32, cpu_to_le_u64, cpu_to_lef, cpu_to_le_double}
use wtools.Libc.{Libc}
use wtools.Bkv.{ok, hdl_inv, inv_state, key_out_of_range, Action, Bkv, deep_char, check_state}
use wtools.Bkv.Prepare.{bkv_prepare, at_write_offset, set_key, put_byte, put_copy}

-- `header_type_t` of bkv/src/bkv_header.h.
abbrev pub hdr_int16 : ℕ
hdr_int16 = 5

abbrev pub hdr_int32 : ℕ
hdr_int32 = 6

abbrev pub hdr_int64 : ℕ
hdr_int64 = 7

abbrev pub hdr_string : ℕ
hdr_string = 8

abbrev pub hdr_float : ℕ
hdr_float = 9

abbrev pub hdr_double : ℕ
hdr_double = 10

abbrev pub hdr_boolean : ℕ
hdr_boolean = 11

abbrev pub hdr_size : ℕ
hdr_size = 2

abbrev pub string_value_size : ℕ
string_value_size = 2

abbrev pub bool_byte : Bool → ℕ
bool_byte true = 1
bool_byte false = 0

-- What follows the check of the state: `bkv_prepare`, then the writes.
unfoldable pub prepared : Libc → ℕ → (Bkv → Option Bkv) → Bkv → Option (ℤ × Bkv)
prepared libc size body h = do
  p ← bkv_prepare libc h size
  if eqb_ℤ minus_one p.0 then some (inv_state, p.1) else (body p.1 >>= λ h'. some (ok, h'))

-- The frame that the operations below share: the range of the key, the state, the room.
unfoldable pub kv_add : Libc → ℕ → ℕ → (Bkv → Option Bkv) → Bkv → Option (ℤ × Bkv)
unfolding prepared
kv_add libc key size body h =
    if ltb 0xFFF key
    then some (key_out_of_range, h)
    else (deep_char h >>= λ t.
        if not (check_state h.state t Action.set_key)
        then some (hdl_inv, h)
        else prepared libc size body h)

unfoldable pub bkv_kv_u16_add : Libc → Bkv → ℕ → ℕ → Option (ℤ × Bkv)
unfolding kv_add
bkv_kv_u16_add libc h key v =
    kv_add libc key 16
      (λ b. do b1 ← at_write_offset (set_key hdr_int16 key) b; at_write_offset (cpu_to_le16 v) b1) h

unfoldable pub bkv_kv_u32_add : Libc → Bkv → ℕ → ℕ → Option (ℤ × Bkv)
unfolding kv_add
bkv_kv_u32_add libc h key v =
    kv_add libc key 32
      (λ b. do b1 ← at_write_offset (set_key hdr_int32 key) b; at_write_offset (cpu_to_le32 v) b1) h

unfoldable pub bkv_kv_float_add : Libc → Bkv → ℕ → ℕ → Option (ℤ × Bkv)
unfolding kv_add
bkv_kv_float_add libc h key v =
    kv_add libc key 48
      (λ b. do b1 ← at_write_offset (set_key hdr_float key) b; at_write_offset (cpu_to_lef v) b1) h

unfoldable pub bkv_kv_boolean_add : Libc → Bkv → ℕ → Bool → Option (ℤ × Bkv)
unfolding kv_add
bkv_kv_boolean_add libc h key v =
    kv_add libc key 48
      (λ b. do
        b1 ← at_write_offset (set_key hdr_boolean key) b
        at_write_offset (put_byte (bool_byte v)) b1)
      h

unfoldable pub bkv_kv_double_add : Libc → Bkv → ℕ → ℕ → Option (ℤ × Bkv)
unfolding kv_add
bkv_kv_double_add libc h key v =
    kv_add libc key 80
      (λ b. do
        b1 ← at_write_offset (set_key hdr_double key) b
        at_write_offset (cpu_to_le_double v) b1)
      h

unfoldable pub bkv_kv_u64_add : Libc → Bkv → ℕ → ℕ → Option (ℤ × Bkv)
unfolding kv_add
bkv_kv_u64_add libc h key v =
    kv_add libc key 80
      (λ b. do b1 ← at_write_offset (set_key hdr_int64 key) b; at_write_offset (cpu_to_le_u64 v) b1)
      h

unfoldable pub bkv_kv_str_add : Libc → Bkv → ℕ → Bytes → ℕ → Option (ℤ × Bkv)
unfolding kv_add
bkv_kv_str_add libc h key str len =
    kv_add libc key ((hdr_size + string_value_size + len) * 8)
      (λ b. do
        b1 ← at_write_offset (set_key hdr_string key) b
        b2 ← at_write_offset (cpu_to_le16 len) b1
        at_write_offset (put_copy str len len) b2)
      h

-- `str` is the memory of the wide string; `sizeof(wchar_t)` is 4. As in the source, the room
-- asked for and the copy are of `len` bytes.
unfoldable pub bkv_kv_wchar_add : Libc → Bkv → ℕ → Bytes → ℕ → Option (ℤ × Bkv)
unfolding kv_add
bkv_kv_wchar_add libc h key str len =
    kv_add libc key ((hdr_size + string_value_size + len) * 8)
      (λ b. do
        b1 ← at_write_offset (set_key hdr_string key) b
        b2 ← at_write_offset (cpu_to_le16 (len * 4)) b1
        at_write_offset (put_copy str len (len * 4)) b2)
      h
