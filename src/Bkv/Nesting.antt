-- ===== src/Bkv/Nesting.antt =====
-- `bkv_kv_map_open`, `bkv_kv_map_close`, `bkv_kv_array_open` and `bkv_kv_array_close`.
use wtools.Prelude.{
  ℕ, ◌+◌, ◌-◌, ◌*◌, ◌%◌, ◌^◌, not, Option, some, none, List, [], ◌∷◌, ◌==◌, if◌then◌else◌,
}
use wtools.Prelude.Int.{ℤ, pos, minus_one, eqb_ℤ, ◌+ℤ◌, ◌-ℤ◌}
use wtools.Prelude.Chain.{◌>>=◌}
use wtools.Buffer.{Bytes, store, store_all}
use wtools.ByteOrder.{cpu_to_le16}
use wtools.Libc.{Libc}
use wtools.Bkv.{
  hdl_inv, map_key, array_key, State, Action, Bkv, at_index, deep_char, deep_char_or_minus_one,
  check_state,
}
use wtools.Bkv.Prepare.{at_write_offset, set_key}
use wtools.Bkv.Scalars.{prepared, hdr_size}

abbrev pub hdr_map_open : ℕ
hdr_map_open = 1

abbrev pub hdr_map_close : ℕ
hdr_map_close = 2

abbrev pub hdr_array_open : ℕ
hdr_array_open = 3

abbrev pub hdr_array_close : ℕ
hdr_array_close = 4

abbrev pub map_open_value_size : ℕ
map_open_value_size = 2

abbrev pub map_close_value_size : ℕ
map_close_value_size = 0

abbrev pub array_open_value_size : ℕ
array_open_value_size = 4

abbrev pub array_close_value_size : ℕ
array_close_value_size = 3

-- `xs[i] = v` for an `int` index.
abbrev pub store_index : ℤ → ℕ → List ℕ → Option (List ℕ)
store_index (pos i) v xs = store i v xs
store_index i v xs = none

-- `a - b` of two offsets, in a uint16_t.
abbrev pub length_u16 : ℕ → ℕ → ℕ
length_u16 a b = (a + (2 ^ 16 - b % 2 ^ 16)) % 2 ^ 16

abbrev pub skip : ℕ → Bkv → Bkv
skip n h = record h { write_offset = h.write_offset + n }

-- The stores of `vs` from `h->ptr[i]` on.
abbrev pub store_ptr : ℕ → Bytes → Bkv → Option Bkv
store_ptr i vs h = do m ← h.ptr; m' ← store_all i vs m; some (record h { ptr = some m' })

-- `cpu_to_le16(v, &h->ptr[i], NULL)`
unfoldable pub put_le16_at : ℕ → ℕ → Bkv → Option Bkv
unfolding cpu_to_le16
put_le16_at i v h = do m ← h.ptr; r ← cpu_to_le16 v m i none; some (record h { ptr = some r.0 })

-- What `bkv_kv_map_open` and `bkv_kv_array_open` do once there is room. The level is pushed last.
unfoldable pub open_level : ℕ → ℕ → ℕ → State → ℕ → Bkv → Option Bkv
unfolding at_write_offset set_key store
open_level hdr_type value_size char state key h = do
  offsets ← store_index (h.deep_offset +ℤ pos 1) h.write_offset h.map_offset
  h1 ← at_write_offset (set_key hdr_type key) (record h { map_offset = offsets })
  let deep = h1.deep_offset +ℤ pos 1
  values ← store_index deep char h1.deep_value
  some (record h1 {
    write_offset = h1.write_offset + value_size;
    deep_offset = deep;
    deep_value = values;
    state = state;
  })

unfoldable pub bkv_kv_map_open : Libc → Bkv → ℕ → Option (ℤ × Bkv)
unfolding prepared open_level
bkv_kv_map_open libc h key = do
  t ← deep_char_or_minus_one h
  if not (check_state h.state t Action.open_map)
      then some (hdl_inv, h)
      else prepared libc 32 (open_level hdr_map_open map_open_value_size map_key State.in_map key) h

unfoldable pub bkv_kv_array_open : Libc → Bkv → ℕ → Option (ℤ × Bkv)
unfolding prepared open_level
bkv_kv_array_open libc h key = do
  t ← deep_char_or_minus_one h
  if not (check_state h.state t Action.open_array)
      then some (hdl_inv, h)
      else prepared libc 16
          (open_level hdr_array_open array_open_value_size array_key State.in_array key) h

-- `(h->deep_value[h->deep_offset]==MAP_KEY)?STATE_IN_MAP:STATE_IN_ARRAY`
abbrev pub state_of : ℕ → State
state_of c = if c == map_key then State.in_map else State.in_array

-- The end of `bkv_kv_map_close`: one level up. The assertion holds of any level that was read.
unfoldable pub leave_map : Bkv → Option Bkv
leave_map h =
    let deep = h.deep_offset -ℤ pos 1 in
    if eqb_ℤ minus_one deep
    then some (record h { deep_offset = deep; state = State.term })
    else (at_index deep h.deep_value >>= λ c.
        some (record h { deep_offset = deep; state = state_of c }))

-- The second byte of the closing header keeps what the block held there.
unfoldable pub close_map_body : Bkv → Option Bkv
unfolding leave_map put_le16_at store_all
close_map_body h = do
  h1 ← store_ptr h.write_offset ((hdr_map_close * 16 % 256) ∷ []) h
  let h2 = skip (hdr_size + map_close_value_size) h1
  start ← at_index h2.deep_offset h2.map_offset
  h3 ← put_le16_at (start + hdr_size) (length_u16 h2.write_offset start) h2
  leave_map h3

unfoldable pub bkv_kv_map_close : Libc → Bkv → Option (ℤ × Bkv)
unfolding prepared close_map_body
bkv_kv_map_close libc h = do
  t ← deep_char h
  if not (check_state h.state t Action.close_map)
      then some (hdl_inv, h)
      else prepared libc 64 close_map_body h

-- The end of `bkv_kv_array_close`: at the outermost level the state stays as it is.
unfoldable pub leave_array : Bkv → Option Bkv
unfolding store
leave_array h = do
  values ← store_index h.deep_offset 0 h.deep_value
  let deep = h.deep_offset -ℤ pos 1
  let h' = record h { deep_value = values; deep_offset = deep }
  if eqb_ℤ minus_one deep
      then some h'
      else (at_index deep values >>= λ c. some (record h' { state = state_of c }))

unfoldable pub close_array_body : Bkv → Option Bkv
unfolding leave_array put_le16_at store_all
close_array_body h = do
  h1 ← store_ptr h.write_offset ((hdr_array_close * 16 % 256) ∷ []) h
  let h2 = skip hdr_size h1
  h3 ← store_ptr h2.write_offset (0xee ∷ 0xee ∷ 0xee ∷ []) h2
  let h4 = skip array_close_value_size h3
  start ← at_index h4.deep_offset h4.map_offset
  count ← at_index h4.deep_offset h4.array_nb_elems
  h5 ← put_le16_at (start + hdr_size + 2) count h4
  h6 ← put_le16_at (start + hdr_size) (length_u16 h5.write_offset start) h5
  leave_array h6

unfoldable pub bkv_kv_array_close : Libc → Bkv → Option (ℤ × Bkv)
unfolding prepared close_array_body
bkv_kv_array_close libc h = do
  t ← deep_char h
  if not (check_state h.state t Action.close_array)
      then some (hdl_inv, h)
      else prepared libc 16 close_array_body h
