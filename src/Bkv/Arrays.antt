-- ===== src/Bkv/Arrays.antt =====
-- The operations of bkv/src/bkv.c that add an element to the open array.
use wtools.Prelude.{ℕ, ◌+◌, ◌*◌, Bool, not, Option, some, if◌then◌else◌}
use wtools.Prelude.Int.{ℤ}
use wtools.Prelude.Chain.{◌>>=◌}
use wtools.Buffer.{Bytes, store}
use wtools.ByteOrder.{cpu_to_le16, cpu_to_le_u64, cpu_to_lef}
use wtools.Libc.{Libc}
use wtools.Bkv.{hdl_inv, Action, Bkv, at_index, deep_char, deep_char_or_minus_one, check_state}
use wtools.Bkv.Prepare.{at_write_offset, set_key, put_byte, put_copy}
use wtools.Bkv.Scalars.{
  prepared, bool_byte, hdr_size, string_value_size, hdr_int16, hdr_int64, hdr_string, hdr_float,
  hdr_boolean,
}
use wtools.Bkv.Nesting.{store_index}

-- BKV_ARRAY_KEY
abbrev pub array_elem_key : ℕ
array_elem_key = 0xFFD

-- `h->array_nb_elems[h->deep_offset] ++;`
unfoldable pub count_elem : Bkv → Option Bkv
unfolding store
count_elem h = do
  n ← at_index h.deep_offset h.array_nb_elems
  counts ← store_index h.deep_offset (n + 1) h.array_nb_elems
  some (record h { array_nb_elems = counts })

-- The frame of the operations below, on the character that they hand to `bkv_check_state`.
unfoldable pub array_add : Libc → Option ℤ → ℕ → (Bkv → Option Bkv) → Bkv → Option (ℤ × Bkv)
unfolding prepared
array_add libc char size body h = do
  t ← char
  if not (check_state h.state t Action.set_array_key)
      then some (hdl_inv, h)
      else prepared libc size body h

-- As in the source, an added u64 is not counted.
unfoldable pub bkv_kv_array_u64_add : Libc → Bkv → ℕ → Option (ℤ × Bkv)
unfolding array_add
bkv_kv_array_u64_add libc h v =
    array_add libc (deep_char h) 80
      (λ b. do
        b1 ← at_write_offset (set_key hdr_int64 array_elem_key) b
        at_write_offset (cpu_to_le_u64 v) b1)
      h

unfoldable pub bkv_kv_array_float_add : Libc → Bkv → ℕ → Option (ℤ × Bkv)
unfolding array_add count_elem
bkv_kv_array_float_add libc h f =
    array_add libc (deep_char_or_minus_one h) 48
      (λ b. do
        b1 ← at_write_offset (set_key hdr_float array_elem_key) b
        b2 ← at_write_offset (cpu_to_lef f) b1
        count_elem b2)
      h

unfoldable pub bkv_kv_array_boolean_add : Libc → Bkv → Bool → Option (ℤ × Bkv)
unfolding array_add count_elem
bkv_kv_array_boolean_add libc h f =
    array_add libc (deep_char_or_minus_one h) 48
      (λ b. do
        b1 ← at_write_offset (set_key hdr_boolean array_elem_key) b
        b2 ← at_write_offset (put_byte (bool_byte f)) b1
        count_elem b2)
      h

unfoldable pub bkv_kv_array_str_add : Libc → Bkv → Bytes → ℕ → Option (ℤ × Bkv)
unfolding array_add count_elem
bkv_kv_array_str_add libc h str len =
    array_add libc (deep_char h) ((hdr_size + string_value_size + len) * 8)
      (λ b. do
        b1 ← at_write_offset (set_key hdr_string array_elem_key) b
        b2 ← at_write_offset (cpu_to_le16 len) b1
        b3 ← at_write_offset (put_copy str len len) b2
        count_elem b3)
      h

unfoldable pub bkv_kv_array_u16_add : Libc → Bkv → ℕ → Option (ℤ × Bkv)
unfolding array_add count_elem
bkv_kv_array_u16_add libc h u =
    array_add libc (deep_char_or_minus_one h) 32
      (λ b. do
        b1 ← at_write_offset (set_key hdr_int16 array_elem_key) b
        b2 ← at_write_offset (cpu_to_le16 u) b1
        count_elem b2)
      h
