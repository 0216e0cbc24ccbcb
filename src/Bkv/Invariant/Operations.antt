-- ===== src/Bkv/Invariant/Operations.antt =====
-- All operations of bkv/src/bkv.c that write a document, as the steps of a state machine.
use wtools.Prelude.{ℕ, ◌+◌, ◌*◌, ◌≡◌, Bool, not, Option, some, if◌then◌else◌}
use wtools.Prelude.Int.{ℤ}
use wtools.Prelude.Chain.{◌>>=◌, bind-eq-some}
use wtools.Buffer.{Bytes}
use wtools.ByteOrder.{cpu_to_le16, cpu_to_le32, cpu_to_le_u64, cpu_to_lef, cpu_to_le_double}
use wtools.Libc.{Libc}
use wtools.Bkv.{
  hdl_inv, map_key, array_key, State, Action, Bkv, deep_char, deep_char_or_minus_one, check_state,
}
use wtools.Bkv.Prepare.{Writer, at_write_offset, set_key, put_byte, put_copy}
use wtools.Bkv.Scalars.{
  prepared, hdr_size, string_value_size, hdr_int16, hdr_int32, hdr_int64, hdr_string, hdr_float,
  hdr_double, hdr_boolean, bool_byte, bkv_kv_u16_add, bkv_kv_u32_add, bkv_kv_u64_add,
  bkv_kv_float_add, bkv_kv_double_add, bkv_kv_boolean_add, bkv_kv_str_add, bkv_kv_wchar_add,
}
use wtools.Bkv.Nesting.{
  hdr_map_open, hdr_array_open, map_open_value_size, array_open_value_size, bkv_kv_map_open,
  bkv_kv_map_close, bkv_kv_array_open, bkv_kv_array_close,
}
use wtools.Bkv.Arrays.{
  array_elem_key, count_elem, bkv_kv_array_u64_add, bkv_kv_array_float_add,
  bkv_kv_array_boolean_add, bkv_kv_array_str_add, bkv_kv_array_u16_add,
}
use wtools.Bkv.Invariant.{
  IsWell, Keeps, KeepsLength, bind-Keeps, at_write_offset-Keeps, set_key-KeepsLength,
  cpu_to_le16-KeepsLength, cpu_to_le32-KeepsLength, cpu_to_le_u64-KeepsLength,
  cpu_to_lef-KeepsLength, cpu_to_le_double-KeepsLength, put_byte-KeepsLength, put_copy-KeepsLength,
}
use wtools.Bkv.Invariant.Steps.{
  KeepsAnswer, prepared-Keeps, guarded-Keeps, kv_add-Keeps, array_add-Keeps, count_elem-Keeps,
  open_level-Keeps,
}
use wtools.Bkv.Invariant.Levels.{close_map_body-Keeps, close_array_body-Keeps}

pub data Op : Type 0 where
  u16_add u32_add u64_add float_add double_add : ℕ → ℕ → Op
  boolean_add : ℕ → Bool → Op
  str_add wchar_add : ℕ → Bytes → ℕ → Op
  map_open array_open : ℕ → Op
  map_close array_close : Op
  array_u64_add array_float_add array_u16_add : ℕ → Op
  array_boolean_add : Bool → Op
  array_str_add : Bytes → ℕ → Op

unfoldable pub run : Libc → Op → Bkv → Option (ℤ × Bkv)
run libc (u16_add key v) h = bkv_kv_u16_add libc h key v
run libc (u32_add key v) h = bkv_kv_u32_add libc h key v
run libc (u64_add key v) h = bkv_kv_u64_add libc h key v
run libc (float_add key v) h = bkv_kv_float_add libc h key v
run libc (double_add key v) h = bkv_kv_double_add libc h key v
run libc (boolean_add key v) h = bkv_kv_boolean_add libc h key v
run libc (str_add key str len) h = bkv_kv_str_add libc h key str len
run libc (wchar_add key str len) h = bkv_kv_wchar_add libc h key str len
run libc (map_open key) h = bkv_kv_map_open libc h key
run libc (array_open key) h = bkv_kv_array_open libc h key
run libc map_close h = bkv_kv_map_close libc h
run libc array_close h = bkv_kv_array_close libc h
run libc (array_u64_add v) h = bkv_kv_array_u64_add libc h v
run libc (array_float_add v) h = bkv_kv_array_float_add libc h v
run libc (array_u16_add v) h = bkv_kv_array_u16_add libc h v
run libc (array_boolean_add v) h = bkv_kv_array_boolean_add libc h v
run libc (array_str_add str len) h = bkv_kv_array_str_add libc h str len

-- A header, then a value.
two-Keeps :
    (hdr_type key : ℕ) (write : Writer)
    → KeepsLength write
    → Keeps (λ b. at_write_offset (set_key hdr_type key) b >>= at_write_offset write)
two-Keeps hdr_type key write k =
    bind-Keeps (at_write_offset (set_key hdr_type key)) (at_write_offset write)
      (at_write_offset-Keeps (set_key hdr_type key) (set_key-KeepsLength hdr_type key))
      (at_write_offset-Keeps write k)

-- A header, a length, then the bytes of a string.
three-Keeps :
    (hdr_type key : ℕ) (write last : Writer)
    → KeepsLength write
    → KeepsLength last
    → Keeps (λ b. at_write_offset (set_key hdr_type key) b >>= λ c.
        (at_write_offset write c >>= at_write_offset last))
three-Keeps hdr_type key write last k l =
    bind-Keeps (at_write_offset (set_key hdr_type key))
      (λ c. at_write_offset write c >>= at_write_offset last)
      (at_write_offset-Keeps (set_key hdr_type key) (set_key-KeepsLength hdr_type key))
      (bind-Keeps (at_write_offset write) (at_write_offset last) (at_write_offset-Keeps write k)
        (at_write_offset-Keeps last l))

-- An element of an array is counted behind its value.
counted-Keeps :
    (hdr_type : ℕ) (write : Writer)
    → KeepsLength write
    → Keeps (λ b. at_write_offset (set_key hdr_type array_elem_key) b >>= λ c.
        (at_write_offset write c >>= count_elem))
counted-Keeps hdr_type write k =
    bind-Keeps (at_write_offset (set_key hdr_type array_elem_key))
      (λ c. at_write_offset write c >>= count_elem)
      (at_write_offset-Keeps (set_key hdr_type array_elem_key)
        (set_key-KeepsLength hdr_type array_elem_key))
      (bind-Keeps (at_write_offset write) count_elem (at_write_offset-Keeps write k)
        count_elem-Keeps)

-- A change of level behind the check of the state.
checked-Keeps :
    (libc : Libc) (char : Bkv → Option ℤ) (a : Action) (size : ℕ) (body : Bkv → Option Bkv)
    → Keeps body
    → KeepsAnswer (λ h. char h >>= λ t.
        if not (check_state h.state t a) then some (hdl_inv, h) else prepared libc size body h)
checked-Keeps libc char a size body k h h' ret e w =
    let (c, read, later) =
      bind-eq-some (char h)
        (λ t.
          if not (check_state h.state t a) then some (hdl_inv, h) else prepared libc size body h)
        e in
    guarded-Keeps _ hdl_inv (prepared libc size body) h h' ret (prepared-Keeps libc size body k)
      later w

-- Every operation, on every branch where it does not fault, leaves a handle whose block has the
-- size that the handle says and whose stack has its 32 places.
pub run-IsWell :
    (libc : Libc) (op : Op) (h h' : Bkv) (ret : ℤ)
    → run libc op h ≡ some (ret, h')
    → IsWell h
    → IsWell h'
unfolding run bkv_kv_u16_add bkv_kv_u32_add bkv_kv_u64_add bkv_kv_float_add bkv_kv_double_add
    bkv_kv_boolean_add bkv_kv_str_add bkv_kv_wchar_add bkv_kv_map_open bkv_kv_map_close
    bkv_kv_array_open bkv_kv_array_close bkv_kv_array_u64_add bkv_kv_array_float_add
    bkv_kv_array_boolean_add bkv_kv_array_str_add bkv_kv_array_u16_add
run-IsWell libc (u16_add key v) h h' ret e w =
    kv_add-Keeps libc key _ _ (two-Keeps hdr_int16 key (cpu_to_le16 v) (cpu_to_le16-KeepsLength v))
      h h' ret e w
run-IsWell libc (u32_add key v) h h' ret e w =
    kv_add-Keeps libc key _ _ (two-Keeps hdr_int32 key (cpu_to_le32 v) (cpu_to_le32-KeepsLength v))
      h h' ret e w
run-IsWell libc (u64_add key v) h h' ret e w =
    kv_add-Keeps libc key _ _
      (two-Keeps hdr_int64 key (cpu_to_le_u64 v) (cpu_to_le_u64-KeepsLength v)) h h' ret e w
run-IsWell libc (float_add key v) h h' ret e w =
    kv_add-Keeps libc key _ _ (two-Keeps hdr_float key (cpu_to_lef v) (cpu_to_lef-KeepsLength v)) h
      h' ret e w
run-IsWell libc (double_add key v) h h' ret e w =
    kv_add-Keeps libc key _ _
      (two-Keeps hdr_double key (cpu_to_le_double v) (cpu_to_le_double-KeepsLength v)) h h' ret e w
run-IsWell libc (boolean_add key v) h h' ret e w =
    kv_add-Keeps libc key _ _
      (two-Keeps hdr_boolean key (put_byte (bool_byte v)) (put_byte-KeepsLength (bool_byte v))) h h'
      ret e w
run-IsWell libc (str_add key str len) h h' ret e w =
    kv_add-Keeps libc key _ _
      (three-Keeps hdr_string key (cpu_to_le16 len) (put_copy str len len)
        (cpu_to_le16-KeepsLength len) (put_copy-KeepsLength str len len))
      h h' ret e w
run-IsWell libc (wchar_add key str len) h h' ret e w =
    kv_add-Keeps libc key _ _
      (three-Keeps hdr_string key (cpu_to_le16 (len * 4)) (put_copy str len (len * 4))
        (cpu_to_le16-KeepsLength (len * 4)) (put_copy-KeepsLength str len (len * 4)))
      h h' ret e w
run-IsWell libc (map_open key) h h' ret e w =
    checked-Keeps libc deep_char_or_minus_one Action.open_map 32 _
      (open_level-Keeps hdr_map_open map_open_value_size map_key State.in_map key) h h' ret e w
run-IsWell libc (array_open key) h h' ret e w =
    checked-Keeps libc deep_char_or_minus_one Action.open_array 16 _
      (open_level-Keeps hdr_array_open array_open_value_size array_key State.in_array key) h h' ret
      e w
run-IsWell libc map_close h h' ret e w =
    checked-Keeps libc deep_char Action.close_map 64 _ close_map_body-Keeps h h' ret e w
run-IsWell libc array_close h h' ret e w =
    checked-Keeps libc deep_char Action.close_array 16 _ close_array_body-Keeps h h' ret e w
run-IsWell libc (array_u64_add v) h h' ret e w =
    array_add-Keeps libc deep_char 80 _
      (two-Keeps hdr_int64 array_elem_key (cpu_to_le_u64 v) (cpu_to_le_u64-KeepsLength v)) h h' ret
      e w
run-IsWell libc (array_float_add v) h h' ret e w =
    array_add-Keeps libc deep_char_or_minus_one 48 _
      (counted-Keeps hdr_float (cpu_to_lef v) (cpu_to_lef-KeepsLength v)) h h' ret e w
run-IsWell libc (array_u16_add v) h h' ret e w =
    array_add-Keeps libc deep_char_or_minus_one 32 _
      (counted-Keeps hdr_int16 (cpu_to_le16 v) (cpu_to_le16-KeepsLength v)) h h' ret e w
run-IsWell libc (array_boolean_add v) h h' ret e w =
    array_add-Keeps libc deep_char_or_minus_one 48 _
      (counted-Keeps hdr_boolean (put_byte (bool_byte v)) (put_byte-KeepsLength (bool_byte v))) h h'
      ret e w
run-IsWell libc (array_str_add str len) h h' ret e w =
    array_add-Keeps libc deep_char ((hdr_size + string_value_size + len) * 8) _
      (bind-Keeps (at_write_offset (set_key hdr_string array_elem_key)) _
        (at_write_offset-Keeps (set_key hdr_string array_elem_key)
          (set_key-KeepsLength hdr_string array_elem_key))
        (bind-Keeps (at_write_offset (cpu_to_le16 len)) _
          (at_write_offset-Keeps (cpu_to_le16 len) (cpu_to_le16-KeepsLength len))
          (bind-Keeps (at_write_offset (put_copy str len len)) count_elem
            (at_write_offset-Keeps (put_copy str len len) (put_copy-KeepsLength str len len))
            count_elem-Keeps)))
      h h' ret e w
