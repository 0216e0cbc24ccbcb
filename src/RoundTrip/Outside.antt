-- ===== src/RoundTrip/Outside.antt =====
-- The operations of bkv/src/bkv.c that add a value, on a handle with no open map: a new one, and
-- one whose map was closed.
use wtools.Prelude.{ℕ, ◌≤◌, ◌≡◌, refl, Option, none, some, List, length, ltb, if◌then◌else◌}
use wtools.Prelude.Int.{ℤ, minus_one}
use wtools.Buffer.{Bytes}
use wtools.Libc.{Libc}
use wtools.Bkv.{ok, key_out_of_range, Bkv}
use wtools.Bkv.Create.{bkv_create, sizeof_bkv, default_mem_chunk_size}
use wtools.Bkv.Scalars.{
  kv_add, bkv_kv_u16_add, bkv_kv_u32_add, bkv_kv_u64_add, bkv_kv_float_add, bkv_kv_double_add,
  bkv_kv_boolean_add, bkv_kv_str_add,
}
use wtools.Bkv.Spec.{
  Value, u16, u32, u64, float, double, boolean, str, Entry, encode_all, AllFit, add,
}
use wtools.RoundTrip.{ram, fill, new_handle, created, done, filled}

-- What such a handle answers to a key.
abbrev pub outside : Bkv → ℕ → Option (ℤ × Bkv)
outside h key = if ltb 0xFFF key then some (key_out_of_range, h) else none

kv_add-outside :
    (libc : Libc) (key size : ℕ) (body : Bkv → Option Bkv) (h : Bkv)
    → h.deep_offset ≡ minus_one
    → kv_add libc key size body h ≡ outside h key
unfolding kv_add
kv_add-outside libc key size body h e = rw e refl

add-outside :
    (libc : Libc) (h : Bkv) (key : ℕ) (v : Value)
    → h.deep_offset ≡ minus_one
    → add libc h key v ≡ outside h key
unfolding add bkv_kv_u16_add bkv_kv_u32_add bkv_kv_u64_add bkv_kv_float_add bkv_kv_double_add
    bkv_kv_boolean_add bkv_kv_str_add
add-outside libc h key (u16 v) e = kv_add-outside libc key _ _ h e
add-outside libc h key (u32 v) e = kv_add-outside libc key _ _ h e
add-outside libc h key (u64 v) e = kv_add-outside libc key _ _ h e
add-outside libc h key (float v) e = kv_add-outside libc key _ _ h e
add-outside libc h key (double v) e = kv_add-outside libc key _ _ h e
add-outside libc h key (boolean v) e = kv_add-outside libc key _ _ h e
add-outside libc h key (str s) e = kv_add-outside libc key _ _ h e

-- With memory at hand, a new handle, and the handle once a map with a key of 12 bits, of entries
-- that fit and take at most 116 bytes in all, was opened, filled and closed in it, have no open
-- map: the operation that adds a value faults on both, as it reads the array of the levels at the
-- index -1, and answers BKV_KEY_OUT_OF_RANGE before that if the key has more than 12 bits.
pub add-fill :
    (libc : Libc) (block struct : Bytes) (key k : ℕ) (es : List Entry) (v : Value)
    → libc.malloc default_mem_chunk_size ≡ some block
    → libc.malloc sizeof_bkv ≡ some struct
    → key ≤ 0xFFF
    → AllFit es
    → length (encode_all es) ≤ 116
    → (h h' : Bkv) × (bkv_create libc ram ≡ some (ok, some h))
      × (add libc h k v ≡ outside h k)
      × (fill libc key es h ≡ some (ok, h'))
      × (add libc h' k v ≡ outside h' k)
unfolding done
add-fill libc block struct key k es v e g le f small =
    let (m, made, n) = created libc block struct e g in
    (
      new_handle m,
      done libc m n key es le f small,
      made,
      add-outside libc (new_handle m) k v refl,
      filled libc m n key es le f small,
      add-outside libc (done libc m n key es le f small) k v refl,
    )
