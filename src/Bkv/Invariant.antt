-- ===== src/Bkv/Invariant.antt =====
-- A well-formed handle of bkv/src/bkv.c: the block is there and has the size that the handle
-- says, and the stack of levels has its 32 places. Then the writers at the write offset.
pub mod Steps
pub mod Levels
pub mod Operations
pub mod Reach
use wtools.Prelude.{
  ℕ, ◌+◌, ◌*◌, ◌%◌, ◌^◌, ◌≡◌, refl, sym, ap, ◌∙◌, inl, inr, arith, Bool, true, false, Option, none,
  some, Option-cases, List, [], ◌∷◌, length, if◌then◌else◌,
}
use wtools.Prelude.Int.{ℤ, pos, negsuc, minus_one, eqb_ℤ, to_size}
use wtools.Prelude.Chain.{◌>>=◌, bind-eq-some}
use wtools.Buffer.{Bytes, store, store_all, read_all}
use wtools.Buffer.Laws.{length-store}
use wtools.ByteOrder.{
  bytes_u16, bytes_u32, bytes_u64, cpu_to_le16, cpu_to_le32, cpu_to_le_u64, cpu_to_lef,
  cpu_to_le_double, masked, sign_extend,
}
use wtools.Libc.{Libc}
use wtools.Bkv.{ok, inv_state, Bkv}
use wtools.Bkv.Prepare.{
  Writer, bkv_mem_truncate, new_size, bkv_prepare, at_write_offset, bytes_key, set_key, put_byte,
  put_copy,
}
use wtools.Bkv.Scalars.{prepared}
use wtools.Bkv.Nesting.{store_index, store_ptr}
use mathlib.Core.Option as Opt
use wtools.Bkv.Growth.{
  Outcome, stays, fails, grows, prepare_cases, IsSized, next_size, new_size-next_size,
}

pub record IsWell (h : Bkv) : Type 0 where
  pub block : Bytes
  pub is_sized : IsSized h block
  pub values : length h.deep_value ≡ 32
  pub offsets : length h.map_offset ≡ 32
  pub counts : length h.array_nb_elems ≡ 32

-- A step that keeps it where it succeeds.
abbrev pub Keeps : (Bkv → Option Bkv) → Type 0
Keeps f = (h h' : Bkv) → f h ≡ some h' → IsWell h → IsWell h'

pub bind-Keeps : (f g : Bkv → Option Bkv) → Keeps f → Keeps g → Keeps (λ h. f h >>= g)
bind-Keeps f g k l h h' e w =
    let (h1, first, later) = bind-eq-some (f h) g e in l h1 h' later (k h h1 first w)

truncate-length :
    (libc : Libc) (b : Bytes) (n : ℕ) {m : Bytes}
    → bkv_mem_truncate libc (some b) (pos n) ≡ (ok, some m)
    → length m ≡ n
unfolding bkv_mem_truncate
truncate-length libc b n e = elim (Option-cases (libc.realloc b n)) [
  | inl f ↦ ground arith
  | inr (m', f) ↦ ground (arith, libc.realloc-length b n f)
]

pub prepare-IsWell :
    (libc : Libc) (h : Bkv) (size : ℕ) {ret : ℤ} {h' : Bkv}
    → bkv_prepare libc h size ≡ some (ret, h')
    → IsWell h
    → IsWell h'
prepare-IsWell libc h size e w = kept (prepare_cases libc h size e)
  where
    kept : {ret : ℤ} {h' : Bkv} → Outcome libc h ret h' → IsWell h'
    kept (stays s) = rw s w
    kept (fails s) = rw s w
    kept (grows m t s) =
        let n = new_size-next_size h w.block w.is_sized in
        let same = rw (n, w.is_sized.held) at t in
        rw s (record {
          block = m;
          is_sized = record {
            held = refl;
            sized = n ∙ ap pos (sym (truncate-length libc w.block (next_size w.block) same));
            no_limit = w.is_sized.no_limit;
            chunk = w.is_sized.chunk;
          };
          values = w.values;
          offsets = w.offsets;
          counts = w.counts;
        })

length-store_all :
    (i : ℕ) (vs m : Bytes) {m' : Bytes} → store_all i vs m ≡ some m' → length m' ≡ length m
unfolding store_all
length-store_all i [] m e = ground arith
length-store_all i (v ∷ vs) m {m'} e =
    let (m1, s, r) = bind-eq-some (store i v m) (store_all (i + 1) vs) e in
    length-store_all (i + 1) vs m1 r ∙ length-store i v m s

-- A block of the same length in the place of the handle's.
pub block-IsWell :
    (h : Bkv) (m m' : Bytes) (offset : ℕ)
    → IsWell h
    → h.ptr ≡ some m
    → length m' ≡ length m
    → IsWell (record h { ptr = some m'; write_offset = offset })
block-IsWell h m m' offset w held n =
    let same : w.block ≡ m = let s = w.is_sized.held in cc in
    record {
      block = m';
      is_sized = record {
        held = refl;
        sized = w.is_sized.sized ∙ ap (λ (b : Bytes). pos (length b)) same ∙ ap pos (sym n);
        no_limit = w.is_sized.no_limit;
        chunk = w.is_sized.chunk;
      };
      values = w.values;
      offsets = w.offsets;
      counts = w.counts;
    }

-- The length of the block is kept.
abbrev pub KeepsLength : Writer → Type 0
KeepsLength write =
    (m : Bytes) (p : ℕ) (o : Option ℕ) (r : Bytes × Option ℕ)
    → write m p o ≡ some r
    → length r.0 ≡ length m

pub at_write_offset-Keeps : (write : Writer) → KeepsLength write → Keeps (at_write_offset write)
unfolding at_write_offset
at_write_offset-Keeps write k h h' e w =
    let (m, held, e1) =
      bind-eq-some h.ptr (λ m. write m h.write_offset (some h.write_offset) >>= λ r. some (moved r))
        e in
    let (r, written, e2) =
      bind-eq-some (write m h.write_offset (some h.write_offset)) (λ r. some (moved r)) e1 in
    let e3 : moved r ≡ h' = cc in
    rw e3 at (
      block-IsWell h m r.0 (Opt.get_or r.1 h.write_offset) w held
        (k m h.write_offset (some h.write_offset) r written))
  where
    moved : Bytes × Option ℕ → Bkv
    moved r = record h { ptr = some r.0; write_offset = Opt.get_or r.1 h.write_offset }

stored-length :
    (p : ℕ) (vs m : Bytes) (o : Option ℕ) (r : Bytes × Option ℕ)
    → (store_all p vs m >>= λ m'. some (m', o)) ≡ some r
    → length r.0 ≡ length m
stored-length p vs m o r e =
    let (m', s, t) = bind-eq-some (store_all p vs m) (λ m'. some (m', o)) e in
    let t' : (m', o) ≡ r = cc in
    ap (λ (x : Bytes × Option ℕ). length x.0) (sym t') ∙ length-store_all p vs m s

pub set_key-KeepsLength : (hdr_type key : ℕ) → KeepsLength (set_key hdr_type key)
unfolding set_key
set_key-KeepsLength hdr_type key m p o r e = stored-length p (bytes_key hdr_type key) m _ r e

pub cpu_to_le16-KeepsLength : (v : ℕ) → KeepsLength (cpu_to_le16 v)
unfolding cpu_to_le16
cpu_to_le16-KeepsLength v m p o r e = stored-length p (bytes_u16 v) m _ r e

pub cpu_to_le32-KeepsLength : (v : ℕ) → KeepsLength (cpu_to_le32 v)
unfolding cpu_to_le32
cpu_to_le32-KeepsLength v m p o r e = stored-length p (bytes_u32 v) m _ r e

pub cpu_to_le_u64-KeepsLength : (v : ℕ) → KeepsLength (cpu_to_le_u64 v)
unfolding cpu_to_le_u64
cpu_to_le_u64-KeepsLength v m p o r e = stored-length p (bytes_u64 v) m _ r e

pub cpu_to_lef-KeepsLength : (v : ℕ) → KeepsLength (cpu_to_lef v)
unfolding cpu_to_lef
cpu_to_lef-KeepsLength v m p o r e = cpu_to_le32-KeepsLength (masked v) m p o r e

pub cpu_to_le_double-KeepsLength : (v : ℕ) → KeepsLength (cpu_to_le_double v)
unfolding cpu_to_le_double
cpu_to_le_double-KeepsLength v m p o r e =
    cpu_to_le_u64-KeepsLength (sign_extend (masked (v % 2 ^ 32))) m p o r e

pub put_byte-KeepsLength : (v : ℕ) → KeepsLength (put_byte v)
unfolding put_byte
put_byte-KeepsLength v m p o r e = stored-length p (v ∷ []) m _ r e

pub put_copy-KeepsLength : (str : Bytes) (len step : ℕ) → KeepsLength (put_copy str len step)
unfolding put_copy
put_copy-KeepsLength str len step m p o r e =
    let stores : Bytes → Option (Bytes × Option ℕ) =
      λ bytes. store_all p bytes m >>= λ m'. some (m', Opt.map (λ o. o + step) o) in
    let (bytes, read, later) = bind-eq-some (read_all len 0 str) stores e in
    stored-length p bytes m _ r later
