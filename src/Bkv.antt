-- ===== src/Bkv.antt =====
-- bkv/src/bkv.c, the writer of a binary key-value document: its state, the check of the state
-- before each operation, and the return codes of bkv/inc/bkv_error.h. The model is that of the
-- default build, with no POSIX file access: `fd` stays -1 and nothing reads it.
-- The C `int` values that can be -1 are ℤ; sizes and offsets are assumed to stay below 2 ^ 31.
pub mod Create
pub mod Prepare
pub mod Scalars
pub mod Nesting
pub mod Arrays
pub mod Insertion
pub mod Spec
pub mod Append
pub mod Adds
pub mod Overrun
pub mod Documents
pub mod Growth
pub mod Invariant
use wtools.Prelude.{ℕ, Bool, true, false, ◌&&◌, ◌||◌, Option, none, some, List, ◌==◌, if◌then◌else◌}
use wtools.Prelude.Int.{ℤ, pos, negsuc, minus_one, eqb_ℤ}
use wtools.Buffer.{Bytes, load}

-- bkv_error_t. The last value follows -6, so that it is the value of `inv_arg`.
abbrev pub ok : ℤ
ok = pos 1

abbrev pub hdl_inv : ℤ
hdl_inv = negsuc 1

abbrev pub hdl_mem : ℤ
hdl_mem = negsuc 3

abbrev pub inv_arg : ℤ
inv_arg = negsuc 4

abbrev pub inv_state : ℤ
inv_state = negsuc 5

abbrev pub key_out_of_range : ℤ
key_out_of_range = negsuc 4

pub data State : Type 0 where
  init in_map key_set in_array term : State

pub data Action : Type 0 where
  open_map close_map open_array close_array set_array_key set_key set_value : Action

abbrev pub map_key : ℕ
map_key = b'{'

abbrev pub array_key : ℕ
array_key = b'['

-- `bkv_s`, but for `end_hdl`. `ptr` is NULL or the block that it points to.
pub record Bkv : Type 0 where
  pub fd : ℤ
  pub state : State
  pub ptr : Option Bytes
  pub mem_size : ℤ
  pub write_offset : ℕ
  pub max_size : ℤ
  pub mem_chunk_size : ℤ
  pub deep_offset : ℤ
  pub deep_value : List ℕ
  pub map_offset : List ℕ
  pub array_nb_elems : List ℕ

-- `bkv_s` with `end_hdl`, which is NULL or a handle of `bkv_create` with no end of its own.
pub record Handle : Type 0 where
  pub bkv : Bkv
  pub end_hdl : Option Bkv

-- Element `i` of an array, for an `int` index. Outside the array it faults.
abbrev pub at_index : ℤ → List ℕ → Option ℕ
at_index (pos i) xs = load i xs
at_index (negsuc i) xs = none

-- `h->deep_value[h->deep_offset]`
abbrev pub deep_char : Bkv → Option ℤ
deep_char h = elim (at_index h.deep_offset h.deep_value) [ none ↦ none | some c ↦ some (pos c) ]

-- `(-1==h->deep_offset)?-1:h->deep_value[h->deep_offset]`
abbrev pub deep_char_or_minus_one : Bkv → Option ℤ
deep_char_or_minus_one h = if eqb_ℤ minus_one h.deep_offset then some minus_one else deep_char h

abbrev is_char : ℤ → ℕ → Bool
is_char (pos c) k = c == k
is_char (negsuc c) k = false

in_map_allows : ℤ → Action → Bool
in_map_allows t set_key = is_char t map_key
in_map_allows t close_map = is_char t map_key
in_map_allows t open_map = is_char t map_key || is_char t array_key
in_map_allows t open_array = is_char t map_key || is_char t array_key
in_map_allows t _ = false

-- `bkv_check_state`: `true` is 0, `false` is -1.
unfoldable pub check_state : State → ℤ → Action → Bool
unfolding in_map_allows
check_state init t open_map = true
check_state init t _ = false
check_state in_map t a = in_map_allows t a
check_state in_array t open_map = true
check_state in_array t set_array_key = true
check_state in_array t close_array = true
check_state in_array t _ = false
check_state key_set t a = false
check_state term t a = false
