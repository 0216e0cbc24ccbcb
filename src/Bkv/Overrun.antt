-- ===== src/Bkv/Overrun.antt =====
-- The operations of bkv/src/bkv.c that add a value, where `bkv_prepare` left too little room.
use wtools.Prelude.{
  false, ℕ, ◌+◌, ◌/◌, ◌%◌, ◌^◌, ◌≤◌, ◌<◌, ◌≡◌, refl, arith, Option, none, some, [], ◌∷◌, ◌++◌,
  length, length-append, Option-cases, inl, inr,
}
use wtools.Prelude.Int.{ℤ, pos, minus_one, eqb_ℤ}
use wtools.Prelude.Chain.{◌>>=◌}
use wtools.Buffer.{Bytes}
use wtools.Buffer.Laws.{splice, length-splice, store_all_past}
use wtools.ByteOrder.{
  bytes_u16, bytes_u32, bytes_u64, cpu_to_le16, cpu_to_le32, cpu_to_le_u64, cpu_to_lef,
  cpu_to_le_double, sign_extend,
}
use wtools.ByteOrder.Floats.{masked_lem}
use wtools.Libc.{Libc}
use wtools.Bkv.{ok, hdl_mem, inv_arg, Bkv, check_state}
use wtools.Bkv.Prepare.{Writer, bkv_prepare, at_write_offset, set_key, put_byte, put_copy}
use wtools.Bkv.Scalars.{
  kv_add, bool_byte, bkv_kv_u16_add, bkv_kv_u32_add, bkv_kv_u64_add, bkv_kv_float_add,
  bkv_kv_double_add, bkv_kv_boolean_add, bkv_kv_str_add,
}
use wtools.Bkv.Spec.{
  Value, u16, u32, u64, float, double, boolean, str, header, encode, add, asked, Fits, put,
}
use wtools.Bkv.Growth.{IsSized, prepare_not_ko, prepare_roomy, next_size, prepare_full}
use wtools.Bkv.Append.{
  Writes, IsInMap, bytes_key-header, set_key-Writes, cpu_to_le16-Writes, at_write_offset-put,
  read_all_whole,
}
use native.Mathlib.Decide.{dec_le}

-- The block ends less than `n` bytes behind the write offset.
pub record Short (h : Bkv) (n : ℕ) : Type 0 where
  pub block : Bytes
  pub held : h.ptr ≡ some block
  pub inside : h.write_offset ≤ length block
  pub short : length block < h.write_offset + n

-- The writer faults where `bs` does not fit.
abbrev Faults : Writer → Bytes → Type 0
Faults w bs =
    (m : Bytes) (p : ℕ) (o : Option ℕ) → p ≤ length m → length m < p + length bs → w m p o ≡ none

at_write_offset_past :
    (w : Writer) (bs : Bytes) (h : Bkv)
    → Faults w bs
    → Short h (length bs)
    → at_write_offset w h ≡ none
unfolding at_write_offset
at_write_offset_past w bs h fs s =
    rw (s.held, fs s.block h.write_offset (some h.write_offset) s.inside s.short)

-- If the first of two writers has room, the second starts behind it.
Short-put :
    (xs : Bytes) (n : ℕ) (h : Bkv) (s : Short h (length xs + n))
    → h.write_offset + length xs ≤ length s.block
    → Short (put xs h) n
Short-put xs n h s le =
    let e = length-splice h.write_offset xs s.block le in
    record {
      block = splice h.write_offset xs s.block;
      held = rw s.held;
      inside = omega (arith, e);
      short = omega (arith, e, s.short);
    }

past_first :
    (v : Writer) (f : Bkv → Option Bkv) (xs : Bytes) (n : ℕ) (h : Bkv)
    → Writes v xs
    → Faults v xs
    → ((b : Bkv) → Short b n → f b ≡ none)
    → Short h (length xs + n)
    → (at_write_offset v h >>= f) ≡ none
past_first v f xs n h vs vf later s = elim (dec_le (h.write_offset + length xs) (length s.block)) [
  | yes le ↦
      rw (at_write_offset-put v xs h vs (record { block = s.block; held = s.held; room = le }))
        (later (put xs h) (Short-put xs n h s le))
  | no lt ↦ rw (
      at_write_offset_past v xs h vf
        (record { block = s.block; held = s.held; inside = s.inside; short = omega arith }))
]

past_both :
    (v w : Writer) (xs ys : Bytes) (h : Bkv)
    → Writes v xs
    → Faults v xs
    → Faults w ys
    → Short h (length (xs ++ ys))
    → (at_write_offset v h >>= λ b. at_write_offset w b) ≡ none
past_both v w xs ys h vs vf wf s =
    past_first v _ xs (length ys) h vs vf (λ b. at_write_offset_past w ys b wf)
      (rw (length-append xs ys) at s)

set_key-Faults :
    (hdr_type key : ℕ)
    → hdr_type < 16
    → key ≤ 0xFFF
    → Faults (set_key hdr_type key) (header hdr_type key)
unfolding set_key
set_key-Faults hdr_type key lt le m p o inside past = rw (
  bytes_key-header hdr_type key lt le,
  store_all_past p (header hdr_type key) m (omega arith) past,
)

cpu_to_le16-Faults : (v : ℕ) → Faults (cpu_to_le16 v) (bytes_u16 v)
unfolding cpu_to_le16
cpu_to_le16-Faults v m p o inside past = rw (store_all_past p (bytes_u16 v) m (omega arith) past)

cpu_to_le32-Faults : (v : ℕ) → Faults (cpu_to_le32 v) (bytes_u32 v)
unfolding cpu_to_le32
cpu_to_le32-Faults v m p o inside past = rw (store_all_past p (bytes_u32 v) m (omega arith) past)

cpu_to_le_u64-Faults : (v : ℕ) → Faults (cpu_to_le_u64 v) (bytes_u64 v)
unfolding cpu_to_le_u64
cpu_to_le_u64-Faults v m p o inside past = rw (store_all_past p (bytes_u64 v) m (omega arith) past)

cpu_to_lef-Faults : (v : ℕ) → v < 2 ^ 32 → Faults (cpu_to_lef v) (bytes_u32 v)
unfolding cpu_to_lef
cpu_to_lef-Faults v lt m p o inside past =
    rw (masked_lem v lt) (cpu_to_le32-Faults v m p o inside past)

cpu_to_le_double-Faults :
    (v : ℕ) → Faults (cpu_to_le_double v) (bytes_u64 (sign_extend (v % 2 ^ 32)))
unfolding cpu_to_le_double
cpu_to_le_double-Faults v m p o inside past =
    rw (masked_lem (v % 2 ^ 32) (omega arith))
      (cpu_to_le_u64-Faults (sign_extend (v % 2 ^ 32)) m p o inside past)

put_byte-Faults : (v : ℕ) → Faults (put_byte v) (v ∷ [])
unfolding put_byte
put_byte-Faults v m p o inside past = rw (store_all_past p (v ∷ []) m (omega arith) past)

put_copy-Faults : (s : Bytes) → Faults (put_copy s (length s) (length s)) s
unfolding put_copy
put_copy-Faults s m p o inside past =
    rw (read_all_whole s [] 0 refl, store_all_past p s m (omega arith) past)

kv_add_past :
    (libc : Libc) (key size : ℕ) (body : Bkv → Option Bkv) (h : Bkv) (ret : ℤ) (h' : Bkv)
    → key ≤ 0xFFF
    → IsInMap h
    → bkv_prepare libc h size ≡ some (ret, h')
    → body h' ≡ none
    → kv_add libc key size body h ≡ none
unfolding kv_add check_state
kv_add_past libc key size body h ret h' le i e w =
    let ne : eqb_ℤ minus_one ret ≡ false = prepare_not_ko libc h size e in
    ground (arith, i.level, i.in_map)

-- In a map, with a key of 12 bits and a value of its type, the operation that adds the value faults
-- if `bkv_prepare` left the write offset in the block and behind it less room than the described
-- bytes need: it writes past the end of the block.
pub add_overrun :
    (libc : Libc) (h : Bkv) (key : ℕ) (v : Value) (ret : ℤ) (h' : Bkv)
    → key ≤ 0xFFF
    → Fits v
    → IsInMap h
    → bkv_prepare libc h (asked v) ≡ some (ret, h')
    → Short h' (length (encode key v))
    → add libc h key v ≡ none
unfolding add bkv_kv_u16_add bkv_kv_u32_add bkv_kv_u64_add bkv_kv_float_add bkv_kv_double_add
    bkv_kv_boolean_add bkv_kv_str_add
add_overrun libc h key (u16 v) ret h' le f i e s = kv_add_past libc key _ _ h ret h' le i e (
    past_both _ _ (header 5 key) (bytes_u16 v) h' (set_key-Writes 5 key (omega arith) le)
      (set_key-Faults 5 key (omega arith) le) (cpu_to_le16-Faults v) s)
add_overrun libc h key (u32 v) ret h' le f i e s = kv_add_past libc key _ _ h ret h' le i e (
    past_both _ _ (header 6 key) (bytes_u32 v) h' (set_key-Writes 6 key (omega arith) le)
      (set_key-Faults 6 key (omega arith) le) (cpu_to_le32-Faults v) s)
add_overrun libc h key (u64 v) ret h' le f i e s = kv_add_past libc key _ _ h ret h' le i e (
    past_both _ _ (header 7 key) (bytes_u64 v) h' (set_key-Writes 7 key (omega arith) le)
      (set_key-Faults 7 key (omega arith) le) (cpu_to_le_u64-Faults v) s)
add_overrun libc h key (float v) ret h' le f i e s = kv_add_past libc key _ _ h ret h' le i e (
    past_both _ _ (header 9 key) (bytes_u32 v) h' (set_key-Writes 9 key (omega arith) le)
      (set_key-Faults 9 key (omega arith) le) (cpu_to_lef-Faults v f) s)
add_overrun libc h key (double v) ret h' le f i e s = kv_add_past libc key _ _ h ret h' le i e (
    past_both _ _ (header 10 key) (bytes_u64 (sign_extend (v % 2 ^ 32))) h'
      (set_key-Writes 10 key (omega arith) le) (set_key-Faults 10 key (omega arith) le)
      (cpu_to_le_double-Faults v) s)
add_overrun libc h key (boolean b) ret h' le f i e s = kv_add_past libc key _ _ h ret h' le i e (
    past_both _ _ (header 11 key) (bool_byte b ∷ []) h' (set_key-Writes 11 key (omega arith) le)
      (set_key-Faults 11 key (omega arith) le) (put_byte-Faults (bool_byte b)) s)
add_overrun libc h key (str t) ret h' le f i e s = kv_add_past libc key _ _ h ret h' le i e (
    past_first _ _ (header 8 key) (2 + length t) h' (set_key-Writes 8 key (omega arith) le)
      (set_key-Faults 8 key (omega arith) le)
      (λ b sb.
        past_first _ _ (bytes_u16 (length t)) (length t) b (cpu_to_le16-Writes (length t))
          (cpu_to_le16-Faults (length t)) (λ c. at_write_offset_past _ t c (put_copy-Faults t)) sb)
      (record {
        block = s.block;
        held = s.held;
        inside = s.inside;
        short = omega (arith, s.short);
      }))

-- In a map, on a handle with the default chunk and no limit, with a key of 12 bits and a value of
-- its type: if the block has room for what the operation asks `bkv_prepare` for, but not for the
-- described bytes, which are more for a u16 or a u32, the operation faults.
pub add_underasked :
    (libc : Libc) (h : Bkv) (key : ℕ) (v : Value) (m : Bytes)
    → key ≤ 0xFFF
    → Fits v
    → IsInMap h
    → IsSized h m
    → h.write_offset + asked v / 8 ≤ length m
    → length m < h.write_offset + length (encode key v)
    → add libc h key v ≡ none
add_underasked libc h key v m le f i s roomy short =
    add_overrun libc h key v inv_arg h le f i (prepare_roomy libc h m (asked v) s roomy)
      (record { block = m; held = s.held; inside = omega arith; short = short })

-- In a map, on a handle with the default chunk and no limit, whose write offset is in its block,
-- with a key of 12 bits and a value of its type: if the described bytes reach more than one chunk
-- of 128 bytes behind the end of the block, the operation faults, whatever it asks `bkv_prepare`
-- for and whether `realloc` succeeds or not.
pub add_long :
    (libc : Libc) (h : Bkv) (key : ℕ) (v : Value) (m : Bytes)
    → key ≤ 0xFFF
    → Fits v
    → IsInMap h
    → IsSized h m
    → h.write_offset ≤ length m
    → length m + 128 < h.write_offset + length (encode key v)
    → add libc h key v ≡ none
add_long libc h key v m le f i s inside long =
    let size = next_size m in
    let as_it_was : Short h (length (encode key v)) = record {
      block = m;
      held = s.held;
      inside = inside;
      short = omega arith;
    } in
    elim (dec_le (h.write_offset + asked v / 8) (length m)) [
      | yes roomy ↦
          add_overrun libc h key v inv_arg h le f i (prepare_roomy libc h m (asked v) s roomy)
            as_it_was
      | no full ↦
          (let prepared = prepare_full libc h m (asked v) s (omega arith) in
            elim (Option-cases (libc.realloc m size)) [
              | inl failed ↦
                  add_overrun libc h key v hdl_mem h le f i (rw failed at prepared) as_it_was
              | inr (m', given) ↦
                  (let n : length m' ≡ size = libc.realloc-length m size given in
                    add_overrun libc h key v ok (record h { ptr = some m'; mem_size = pos size }) le
                      f i (rw given at prepared)
                      (record {
                        block = m';
                        held = refl;
                        inside = omega (arith, n);
                        short = omega (arith, n);
                      }))
            ])
    ]
