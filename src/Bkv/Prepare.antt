-- ===== src/Bkv/Prepare.antt =====
-- `bkv_prepare` and `bkv_mem_truncate`: the block of a handle grows by one chunk, whatever the
-- size asked for. Then the writes at `write_offset` that the operations share.
use wtools.Prelude.{ℕ, ◌+◌, ◌*◌, ◌/◌, ◌%◌, not, ◌&&◌, Option, none, some, [], ◌∷◌, if◌then◌else◌}
use wtools.Prelude.Int.{ℤ, pos, minus_one, ◌+ℤ◌, ◌*ℤ◌, quot, ltb_ℤ, eqb_ℤ, to_size}
use wtools.Prelude.Chain.{◌>>=◌}
use wtools.Buffer.{Bytes, store_all, read_all}
use wtools.Libc.{Libc}
use wtools.Bkv.{ok, hdl_mem, inv_arg, Bkv}
use wtools.Bkv.Create.{default_mem_chunk_size}
use mathlib.Core.Option as Opt
use Prim.Native.Nat.{bit_or}

-- `bkv_mem_truncate`: the code and, with BKV_OK, `*pp_ptr`.
unfoldable pub bkv_mem_truncate : Libc → Option Bytes → ℤ → ℤ × Option Bytes
bkv_mem_truncate libc ptr new_size =
    let moved : Option Bytes = elim ptr [
      | none ↦ libc.malloc (to_size new_size)
      | some m ↦ libc.realloc m (to_size new_size)
    ] in
    elim moved [ none ↦ (hdl_mem, none) | some m ↦ (ok, some m) ]

abbrev pub append_size : Bkv → ℤ
append_size h =
    if eqb_ℤ h.mem_chunk_size minus_one then pos default_mem_chunk_size else h.mem_chunk_size

abbrev pub new_size : Bkv → ℤ
new_size h = (quot h.mem_size (append_size h) +ℤ pos 1) *ℤ append_size h

abbrev pub adopt : Bkv → ℤ → ℤ × Option Bytes → ℤ × Bkv
adopt h size (ret, ptr) = (ret, if eqb_ℤ ok ret then record h { ptr = ptr; mem_size = size } else h)

-- The code and the handle. A chunk size of 0 makes the division fault.
unfoldable pub bkv_prepare : Libc → Bkv → ℕ → Option (ℤ × Bkv)
unfolding bkv_mem_truncate
bkv_prepare libc h size_in_bits =
    if ltb_ℤ h.mem_size (pos (h.write_offset + size_in_bits / 8))
    then if eqb_ℤ (append_size h) (pos 0)
      then none
      else if not (eqb_ℤ minus_one h.max_size) && ltb_ℤ h.max_size (new_size h)
      then some (inv_arg, h)
      else some (adopt h (new_size h) (bkv_mem_truncate libc h.ptr (new_size h)))
    else some (inv_arg, h)

-- A writer called on `&h->ptr[h->write_offset]` and `&h->write_offset`.
abbrev pub Writer : Type 0
Writer = Bytes → ℕ → Option ℕ → Option (Bytes × Option ℕ)

unfoldable pub at_write_offset : Writer → Bkv → Option Bkv
at_write_offset write h = do
  m ← h.ptr
  r ← write m h.write_offset (some h.write_offset)
  some (record h { ptr = some r.0; write_offset = Opt.get_or r.1 h.write_offset })

-- The two bytes of a header.
abbrev pub bytes_key : ℕ → ℕ → Bytes
bytes_key hdr_type key = bit_or (hdr_type * 16 % 256) (key / 256 % 256) ∷ key % 256 ∷ []

-- `set_key`
unfoldable pub set_key : ℕ → ℕ → Writer
set_key hdr_type key m p offset = do
  m' ← store_all p (bytes_key hdr_type key) m
  some (m', Opt.map (λ o. o + 2) offset)

-- `h->ptr[h->write_offset] = v; h->write_offset++;`
unfoldable pub put_byte : ℕ → Writer
put_byte v m p offset = do m' ← store_all p (v ∷ []) m; some (m', Opt.map (λ o. o + 1) offset)

-- `memcpy(&h->ptr[h->write_offset], str, len); h->write_offset += step;`
unfoldable pub put_copy : Bytes → ℕ → ℕ → Writer
put_copy str len step m p offset = do
  bytes ← read_all len 0 str
  m' ← store_all p bytes m
  some (m', Opt.map (λ o. o + step) offset)
