-- ===== src/Bkv/Insertion.antt =====
-- `bkv_append`, `bkv_write_offset_set` and `bkv_finalize`: the insertion mode of bkv/src/bkv.c.
pub mod Untouched
use wtools.Prelude.{ℕ, ◌+◌, ◌*◌, ◌/◌, Bool, true, false, Option, some, none, drop, if◌then◌else◌}
use wtools.Prelude.Int.{ℤ, pos, negsuc, minus_one, eqb_ℤ, ltb_ℤ, ◌+ℤ◌, ◌-ℤ◌}
use wtools.Prelude.Chain.{◌>>=◌}
use wtools.Buffer.{Bytes, store, store_all, read_all}
use wtools.Libc.{Libc}
use wtools.Bkv.{ok, inv_arg, hdl_mem, map_key, State, Bkv, Handle}
use wtools.Bkv.Create.{Create, unsafe_input_buffer, bkv_create, default_mem_chunk_size}
use wtools.Bkv.Nesting.{store_index, store_ptr}

-- `realloc(h->ptr, size)` into `h->ptr` and `h->mem_size`; `none` is a failed call.
unfoldable pub resize : Libc → Bkv → ℕ → Option Bkv
resize libc h size =
    let moved : Option Bytes = elim h.ptr [
      | none ↦ libc.malloc size
      | some m ↦ libc.realloc m size
    ] in
    elim moved [ none ↦ none | some m ↦ some (record h { ptr = some m; mem_size = pos size }) ]

-- `memcpy(&h->ptr[h->write_offset], &a->ptr[0], a->write_offset)`
unfoldable pub copy_from : Bkv → Bkv → Option (ℤ × Bkv)
unfolding store_all
copy_from h a = do
  source ← a.ptr
  bytes ← read_all a.write_offset 0 source
  h' ← store_ptr h.write_offset bytes h
  some (ok, record h' { write_offset = h'.write_offset + a.write_offset })

unfoldable pub bkv_append : Libc → Bkv → Bkv → Option (ℤ × Bkv)
unfolding resize copy_from
bkv_append libc h a =
    let size = h.write_offset + a.write_offset in
    if ltb_ℤ h.mem_size (pos size)
    then elim (resize libc h (size * default_mem_chunk_size / default_mem_chunk_size)) [
      | none ↦ some (hdl_mem, h)
      | some h' ↦ copy_from h' a
    ]
    else copy_from h a

-- The fields of `bkv_val_t` that are read; `priv` is the distance from `handle->ptr`.
pub record Position : Type 0 where
  pub priv : ℤ
  pub bkv_key_length : ℤ
  pub deep_offset : ℤ

-- The call of `bkv_create` on the bytes from `offset` on.
abbrev end_params : Bkv → ℕ → Create
end_params h offset = record {
  create_type = unsafe_input_buffer;
  input_ptr = elim h.ptr [ none ↦ none | some m ↦ some (drop offset m) ];
  input_ptr_length = h.mem_size -ℤ pos offset;
  mem_chunk_size = minus_one;
}

-- The handle goes back to the place `offset`, inside a map, with `tail` to be appended at the end.
unfoldable pub reopen : Handle → Position → ℕ → Option Bkv → Option (ℤ × Handle)
unfolding store
reopen h p offset tail = do
  values ← store_index p.deep_offset map_key h.bkv.deep_value
  let bkv = record h.bkv {
    write_offset = offset;
    deep_offset = p.deep_offset;
    deep_value = values;
    state = State.in_map;
  }
  some (ok, record { bkv = bkv; end_hdl = tail })

unfoldable pub set_offset : Libc → Handle → Position → ℤ → Option (ℤ × Handle)
unfolding reopen bkv_create
set_offset libc h p (negsuc n) = some (inv_arg, h)
set_offset libc h p (pos offset) =
    if ltb_ℤ h.bkv.mem_size (pos offset)
    then some (inv_arg, h)
    else (bkv_create libc (end_params h.bkv offset) >>= λ created.
        if eqb_ℤ ok created.0 then reopen h p offset created.1 else some (inv_arg, h))

-- The code, the handle and the value, whose pointer moves past the key first.
unfoldable pub bkv_write_offset_set :
    Libc → Option Handle → Option Position → Option (ℤ × Option Handle × Option Position)
unfolding set_offset
bkv_write_offset_set libc none p = some (inv_arg, none, p)
bkv_write_offset_set libc (some h) none = some (inv_arg, some h, none)
bkv_write_offset_set libc (some h) (some p) = elim h.end_hdl [
  | some tail ↦ some (inv_arg, some h, some p)
  | none ↦ do
    let p' = record p { priv = p.priv +ℤ p.bkv_key_length }
    r ← set_offset libc h p' p'.priv
    some (r.0, some r.1, some p')
]

unfoldable pub bkv_is_inertion_mode_active : Handle → Bool
bkv_is_inertion_mode_active h = elim h.end_hdl [ none ↦ false | some tail ↦ true ]

-- In insertion mode the tail is appended, whatever `bkv_append` answers, and the code is -1.
-- Otherwise the handle is freed: `none`.
unfoldable pub bkv_finalize : Libc → Option Handle → Option (ℤ × Option Handle)
unfolding bkv_append
bkv_finalize libc none = some (minus_one, none)
bkv_finalize libc (some h) = elim h.end_hdl [
  | some tail ↦ do r ← bkv_append libc h.bkv tail; some (minus_one, some (record h { bkv = r.1 }))
  | none ↦ elim h.bkv.ptr [ none ↦ some (pos 0, some h) | some block ↦ some (pos 0, none) ]
]
