-- ===== src/Bkv/Adds.antt =====
-- The operations of bkv/src/bkv.c that add a value to a map, against the description of its bytes.
use wtools.Prelude.{ℕ, ◌%◌, ◌^◌, ◌≤◌, ◌≡◌, arith, some, [], ◌∷◌, length}
use wtools.Prelude.Int.{ℤ}
use wtools.ByteOrder.{bytes_u16, bytes_u32, bytes_u64, sign_extend}
use wtools.Libc.{Libc}
use wtools.Bkv.{ok, Bkv}
use wtools.Bkv.Prepare.{bkv_prepare}
use wtools.Bkv.Scalars.{
  bool_byte, bkv_kv_u16_add, bkv_kv_u32_add, bkv_kv_u64_add, bkv_kv_float_add, bkv_kv_double_add,
  bkv_kv_boolean_add, bkv_kv_str_add,
}
use wtools.Bkv.Spec.{
  Value, u16, u32, u64, float, double, boolean, str, header, encode, add, asked, Fits, put,
}
use wtools.Bkv.Append.{
  Room, IsInMap, write_both, write_three, set_key-Writes, cpu_to_le16-Writes, cpu_to_le32-Writes,
  cpu_to_le_u64-Writes, cpu_to_lef-Writes, cpu_to_le_double-Writes, put_byte-Writes,
  put_copy-Writes, kv_add-put,
}

-- In a map, with a key of 12 bits and a value of its type, the operation that adds the value
-- appends exactly the described bytes to the handle that `bkv_prepare` left and answers BKV_OK,
-- if that handle has room for them.
pub add-put :
    (libc : Libc) (h : Bkv) (key : ℕ) (v : Value) (ret : ℤ) (h' : Bkv)
    → key ≤ 0xFFF
    → Fits v
    → IsInMap h
    → bkv_prepare libc h (asked v) ≡ some (ret, h')
    → Room h' (length (encode key v))
    → add libc h key v ≡ some (ok, put (encode key v) h')
unfolding add bkv_kv_u16_add bkv_kv_u32_add bkv_kv_u64_add bkv_kv_float_add bkv_kv_double_add
    bkv_kv_boolean_add bkv_kv_str_add
add-put libc h key (u16 v) ret h' le f i e r =
    kv_add-put libc key _ _ h (encode key (u16 v)) ret h' le i e (
      write_both _ _ (header 5 key) (bytes_u16 v) h' (set_key-Writes 5 key (omega arith) le)
        (cpu_to_le16-Writes v) r)
add-put libc h key (u32 v) ret h' le f i e r =
    kv_add-put libc key _ _ h (encode key (u32 v)) ret h' le i e (
      write_both _ _ (header 6 key) (bytes_u32 v) h' (set_key-Writes 6 key (omega arith) le)
        (cpu_to_le32-Writes v) r)
add-put libc h key (u64 v) ret h' le f i e r =
    kv_add-put libc key _ _ h (encode key (u64 v)) ret h' le i e (
      write_both _ _ (header 7 key) (bytes_u64 v) h' (set_key-Writes 7 key (omega arith) le)
        (cpu_to_le_u64-Writes v) r)
add-put libc h key (float v) ret h' le f i e r =
    kv_add-put libc key _ _ h (encode key (float v)) ret h' le i e (
      write_both _ _ (header 9 key) (bytes_u32 v) h' (set_key-Writes 9 key (omega arith) le)
        (cpu_to_lef-Writes v f) r)
add-put libc h key (double v) ret h' le f i e r =
    kv_add-put libc key _ _ h (encode key (double v)) ret h' le i e (
      write_both _ _ (header 10 key) (bytes_u64 (sign_extend (v % 2 ^ 32))) h'
        (set_key-Writes 10 key (omega arith) le) (cpu_to_le_double-Writes v) r)
add-put libc h key (boolean b) ret h' le f i e r =
    kv_add-put libc key _ _ h (encode key (boolean b)) ret h' le i e (
      write_both _ _ (header 11 key) (bool_byte b ∷ []) h' (set_key-Writes 11 key (omega arith) le)
        (put_byte-Writes (bool_byte b)) r)
add-put libc h key (str s) ret h' le f i e r =
    kv_add-put libc key _ _ h (encode key (str s)) ret h' le i e (
      write_three _ _ _ (header 8 key) (bytes_u16 (length s)) s h'
        (set_key-Writes 8 key (omega arith) le) (cpu_to_le16-Writes (length s)) (put_copy-Writes s)
        r)
