-- ===== src/Bkv/Append.antt =====
-- Writers of bkv/src/bkv.c at the write offset of a handle: what they store where there is room.
use wtools.Prelude.{
  ℕ, ◌+◌, ◌*◌, ◌/◌, ◌%◌, ◌^◌, ◌≤◌, ◌<◌, ◌≡◌, refl, ap, ◌∙◌, arith, false, Option, some, [], ◌∷◌,
  ◌++◌, length, length-append,
}
use wtools.Prelude.Int.{ℤ, pos, minus_one, eqb_ℤ}
use wtools.Prelude.Bits.{bit_or_shifted}
use wtools.Prelude.Chain.{◌>>=◌}
use wtools.Buffer.{Bytes, read_all}
use wtools.Buffer.Laws.{
  splice, store_all-splice, splice-splice, length-splice, get_elem?-append_back,
}
use mathlib.Core.List.{append_assoc}
use wtools.ByteOrder.{
  bytes_u16, bytes_u32, bytes_u64, advance, cpu_to_le16, cpu_to_le32, cpu_to_le_u64, cpu_to_lef,
  cpu_to_le_double, sign_extend,
}
use wtools.ByteOrder.Floats.{masked_lem}
use wtools.Libc.{Libc}
use wtools.Bkv.{ok, map_key, State, Bkv, deep_char, check_state}
use wtools.Bkv.Prepare.{
  Writer, bkv_prepare, at_write_offset, bytes_key, set_key, put_byte, put_copy,
}
use wtools.Bkv.Scalars.{kv_add}
use wtools.Bkv.Growth.{prepare_not_ko}
use wtools.Bkv.Spec.{header, put}

-- `n` bytes are left behind the write offset of the block `m`.
pub record Room (h : Bkv) (n : ℕ) : Type 0 where
  pub block : Bytes
  pub held : h.ptr ≡ some block
  pub room : h.write_offset + n ≤ length block

-- The writer stores `bs`, wherever they fit, and moves the offset behind them.
abbrev pub Writes : Writer → Bytes → Type 0
Writes w bs =
    (m : Bytes) (p : ℕ) (o : Option ℕ)
    → p + length bs ≤ length m
    → w m p o ≡ some (splice p bs m, advance o (length bs))

pub at_write_offset-put :
    (w : Writer) (bs : Bytes) (h : Bkv)
    → Writes w bs
    → Room h (length bs)
    → at_write_offset w h ≡ some (put bs h)
unfolding at_write_offset
at_write_offset-put w bs h ws r =
    rw (r.held, ws r.block h.write_offset (some h.write_offset) r.room)

pub put-put :
    (xs ys : Bytes) (h : Bkv)
    → Room h (length xs + length ys)
    → put ys (put xs h) ≡ put (xs ++ ys) h
put-put xs ys h r =
    let e = splice-splice h.write_offset xs ys r.block (omega (arith, r.room)) in
    let n : h.write_offset + length xs + length ys ≡ h.write_offset + length (xs ++ ys) =
      omega (arith, length-append xs ys) in
    rw (r.held, e, n)

pub Room-put : (xs : Bytes) (n : ℕ) (h : Bkv) → Room h (length xs + n) → Room (put xs h) n
Room-put xs n h r = record {
  block = splice h.write_offset xs r.block;
  held = rw r.held;
  room = omega (arith, r.room, length-splice h.write_offset xs r.block (omega (arith, r.room)));
}

pub Room-le : (n k : ℕ) (h : Bkv) → n ≤ k → Room h k → Room h n
Room-le n k h le r = record { block = r.block; held = r.held; room = omega (arith, r.room) }

-- Two writers in a row.
pub write_both :
    (v w : Writer) (xs ys : Bytes) (h : Bkv)
    → Writes v xs
    → Writes w ys
    → Room h (length (xs ++ ys))
    → (at_write_offset v h >>= λ b. at_write_offset w b) ≡ some (put (xs ++ ys) h)
write_both v w xs ys h vs ws r =
    let r' : Room h (length xs + length ys) =
      Room-le _ _ h (omega (arith, length-append xs ys)) r in
    rw (at_write_offset-put v xs h vs (Room-le _ _ h (omega arith) r')) (
      at_write_offset-put w ys (put xs h) ws (Room-put xs (length ys) h r')
      ∙ ap some (put-put xs ys h r'))

pub bytes_key-header :
    (hdr_type key : ℕ) → hdr_type < 16 → key ≤ 0xFFF → bytes_key hdr_type key ≡ header hdr_type key
bytes_key-header hdr_type key lt le =
    let e : hdr_type * 16 % 256 ≡ hdr_type * 2 ^ 4 = omega arith in
    let f : key / 256 % 256 ≡ key / 256 = omega arith in
    rw (e, f, bit_or_shifted 4 hdr_type (key / 256) (omega arith))

pub set_key-Writes :
    (hdr_type key : ℕ)
    → hdr_type < 16
    → key ≤ 0xFFF
    → Writes (set_key hdr_type key) (header hdr_type key)
unfolding set_key
set_key-Writes hdr_type key lt le m p o fits =
    rw (bytes_key-header hdr_type key lt le, store_all-splice p (header hdr_type key) m fits)

pub cpu_to_le16-Writes : (v : ℕ) → Writes (cpu_to_le16 v) (bytes_u16 v)
unfolding cpu_to_le16
cpu_to_le16-Writes v m p o fits = rw (store_all-splice p (bytes_u16 v) m fits)

pub cpu_to_le32-Writes : (v : ℕ) → Writes (cpu_to_le32 v) (bytes_u32 v)
unfolding cpu_to_le32
cpu_to_le32-Writes v m p o fits = rw (store_all-splice p (bytes_u32 v) m fits)

pub cpu_to_le_u64-Writes : (v : ℕ) → Writes (cpu_to_le_u64 v) (bytes_u64 v)
unfolding cpu_to_le_u64
cpu_to_le_u64-Writes v m p o fits = rw (store_all-splice p (bytes_u64 v) m fits)

pub cpu_to_lef-Writes : (v : ℕ) → v < 2 ^ 32 → Writes (cpu_to_lef v) (bytes_u32 v)
unfolding cpu_to_lef
cpu_to_lef-Writes v lt m p o fits = rw (masked_lem v lt) (cpu_to_le32-Writes v m p o fits)

pub cpu_to_le_double-Writes :
    (v : ℕ) → Writes (cpu_to_le_double v) (bytes_u64 (sign_extend (v % 2 ^ 32)))
unfolding cpu_to_le_double
cpu_to_le_double-Writes v m p o fits =
    rw (masked_lem (v % 2 ^ 32) (omega arith))
      (cpu_to_le_u64-Writes (sign_extend (v % 2 ^ 32)) m p o fits)

pub put_byte-Writes : (v : ℕ) → Writes (put_byte v) (v ∷ [])
unfolding put_byte
put_byte-Writes v m p o fits = rw (store_all-splice p (v ∷ []) m fits)

pub read_all_whole :
    (s front : Bytes) (p : ℕ) → p ≡ length front → read_all (length s) p (front ++ s) ≡ some s
unfolding read_all
read_all_whole [] front p e = refl
read_all_whole (b ∷ s) front p e =
    let later =
      read_all_whole s (front ++ (b ∷ [])) (p + 1) (omega (arith, length-append front (b ∷ []))) in
    rw (
      get_elem?-append_back p 0 front (b ∷ s) (omega arith),
      rw (append_assoc front (b ∷ []) s) at later,
    )

pub put_copy-Writes : (s : Bytes) → Writes (put_copy s (length s) (length s)) s
unfolding put_copy
put_copy-Writes s m p o fits = rw (read_all_whole s [] 0 refl, store_all-splice p s m fits)

-- The handle is in a map at a readable level.
pub record IsInMap (h : Bkv) : Type 0 where
  pub in_map : h.state ≡ State.in_map
  pub level : deep_char h ≡ some (pos map_key)

-- Behind the guards and a `bkv_prepare` that left enough room, the writes of an operation succeed.
pub kv_add-put :
    (libc : Libc) (key size : ℕ) (body : Bkv → Option Bkv) (h : Bkv) (bs : Bytes) (ret : ℤ)
    (h' : Bkv)
    → key ≤ 0xFFF
    → IsInMap h
    → bkv_prepare libc h size ≡ some (ret, h')
    → body h' ≡ some (put bs h')
    → kv_add libc key size body h ≡ some (ok, put bs h')
unfolding kv_add check_state
kv_add-put libc key size body h bs ret h' le i e w =
    let ne : eqb_ℤ minus_one ret ≡ false = prepare_not_ko libc h size e in
    ground (arith, i.level, i.in_map)

-- Three writers in a row.
pub write_three :
    (u v w : Writer) (xs ys zs : Bytes) (h : Bkv)
    → Writes u xs
    → Writes v ys
    → Writes w zs
    → Room h (length (xs ++ (ys ++ zs)))
    → (at_write_offset u h >>= λ b. (at_write_offset v b >>= λ c. at_write_offset w c))
      ≡ some (put (xs ++ (ys ++ zs)) h)
write_three u v w xs ys zs h us vs ws r =
    let r' : Room h (length xs + length (ys ++ zs)) =
      Room-le _ _ h (omega (arith, length-append xs (ys ++ zs))) r in
    rw (at_write_offset-put u xs h us (Room-le _ _ h (omega arith) r')) (
      write_both v w ys zs (put xs h) vs ws (Room-put xs (length (ys ++ zs)) h r')
      ∙ ap some (put-put xs (ys ++ zs) h r'))
