-- ===== src/Bkv/Create.antt =====
-- `bkv_init`, `bkv_term`, `bkv_create`, `bkv_destroy` and the accessors of bkv/src/bkv.c.
use wtools.Prelude.{
  ℕ, suc, ◌==◌, Bool, true, false, Option, none, some, replicate, ltb, ◌||◌, if◌then◌else◌,
}
use wtools.Prelude.Int.{ℤ, pos, minus_one, pos_part, to_size, eqb_ℤ}
use wtools.Prelude.Chain.{◌>>=◌}
use wtools.Buffer.{Bytes, store_all, read_all}
use wtools.Libc.{Libc}
use wtools.Bkv.{ok, hdl_mem, inv_arg, inv_state, State, init, term, Bkv, Handle}

-- `bkv_init`: whether the argument is NULL, and `s_init`. The mutex makes the call atomic.
unfoldable pub bkv_init : Bool → ℕ → ℤ × ℕ
bkv_init true s_init = (inv_state, s_init)
bkv_init false s_init = if s_init == 0 then (ok, suc s_init) else (inv_state, s_init)

unfoldable pub bkv_term : ℕ → ℤ × ℕ
bkv_term s_init = if ltb 0 s_init then (ok, 0) else (inv_state, s_init)

-- `bkv_create_type_t`; `other` is any value with no case in the default build.
pub data CreateType : Type 0 where
  work_in_ram safe_input_buffer unsafe_input_buffer other : CreateType

-- The fields of `bkv_create_t` that the default build reads.
pub record Create : Type 0 where
  pub create_type : CreateType
  pub input_ptr : Option Bytes
  pub input_ptr_length : ℤ
  pub mem_chunk_size : ℤ

abbrev pub default_mem_chunk_size : ℕ
default_mem_chunk_size = 128

-- `sizeof(struct bkv_s)` with 64-bit pointers.
abbrev pub sizeof_bkv : ℕ
sizeof_bkv = 336

-- The locals `l_ret`, `l_ptr`, `l_size` and `l_default_write_offset` after the switch.
pub record Memory : Type 0 where
  pub ret : ℤ
  pub ptr : Option Bytes
  pub size : ℤ
  pub default_write_offset : ℕ

-- A failed `malloc` of the copy leaves `l_ret` at BKV_OK.
unfoldable pub copy_input : Libc → Create → Option Memory
copy_input libc c = elim (libc.malloc (to_size c.input_ptr_length)) [
  | none ↦ some (record { ret = ok; ptr = none; size = minus_one; default_write_offset = 0 })
  | some block ↦ do
    input ← c.input_ptr
    bytes ← read_all (to_size c.input_ptr_length) 0 input
    copy ← store_all 0 bytes block
    some (record {
      ret = ok;
      ptr = some copy;
      size = c.input_ptr_length;
      default_write_offset = pos_part c.input_ptr_length;
    })
]

unfoldable pub memory : Libc → Create → CreateType → Option Memory
unfolding copy_input store_all
memory libc c work_in_ram = elim (libc.malloc default_mem_chunk_size) [
  | none ↦ some (record { ret = hdl_mem; ptr = none; size = minus_one; default_write_offset = 0 })
  | some block ↦ do
    zeroed ← store_all 0 (replicate default_mem_chunk_size 0) block
    some (record {
      ret = ok;
      ptr = some zeroed;
      size = pos default_mem_chunk_size;
      default_write_offset = 0;
    })
]
memory libc c safe_input_buffer =
    some (record { ret = ok; ptr = c.input_ptr; size = minus_one; default_write_offset = 0 })
memory libc c unsafe_input_buffer = copy_input libc c
memory libc c other =
    some (record { ret = inv_arg; ptr = none; size = minus_one; default_write_offset = 0 })

abbrev pub fresh : Create → Memory → Bkv
fresh c m = record {
  fd = minus_one;
  state = init;
  ptr = m.ptr;
  mem_size = m.size;
  write_offset = m.default_write_offset;
  max_size = minus_one;
  mem_chunk_size = c.mem_chunk_size;
  deep_offset = minus_one;
  deep_value = replicate 32 0;
  map_offset = replicate 32 0;
  array_nb_elems = replicate 32 0;
}

-- The code, and the handle that is stored in `*p_h`. Its `end_hdl` is NULL.
unfoldable pub bkv_create : Libc → Create → Option (ℤ × Option Bkv)
unfolding memory
bkv_create libc c = do
  m ← memory libc c c.create_type
  if eqb_ℤ ok m.ret
      then elim (libc.malloc sizeof_bkv) [
        | none ↦ some (hdl_mem, none)
        | some block ↦ some (ok, some (fresh c m))
      ]
      else some (m.ret, none)

-- What is left of the handle is `none` once it is freed.
unfoldable pub bkv_destroy : Option Handle → ℤ × Option Handle
bkv_destroy none = (minus_one, none)
bkv_destroy (some h) = elim h.bkv.ptr [ none ↦ (pos 0, some h) | some block ↦ (pos 0, none) ]

unfoldable pub bkv_size : Bkv → ℕ
bkv_size h = h.write_offset

-- LG_E_BAD_PARAMETER of lg/inc/lg.h.
abbrev pub bad_parameter : ℤ
bad_parameter = pos 5

abbrev is_term : State → Bool
is_term term = true
is_term _ = false

-- The second argument tells whether `p_finalized` is NULL; the result holds `*p_finalized`.
unfoldable pub bkv_kv_closed : Option Handle → Bool → ℤ × Option Bool
bkv_kv_closed none p = (bad_parameter, none)
bkv_kv_closed (some h) true = (bad_parameter, none)
bkv_kv_closed (some h) false = (ok, some (is_term h.bkv.state))

-- The last two arguments tell whether `p_str` and `p_strlen` are NULL.
unfoldable pub bkv_get_head : Option Handle → Bool → Bool → ℤ × Option (Option Bytes × ℕ)
bkv_get_head none p q = (inv_arg, none)
bkv_get_head (some h) p q =
    if p || q then (inv_arg, none) else (ok, some (h.bkv.ptr, h.bkv.write_offset))

-- `bkv_sync` has nothing to do with no file.
unfoldable pub bkv_sync : Handle → ℤ
bkv_sync h = pos 0
