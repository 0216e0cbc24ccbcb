-- ===== src/Bkv/Growth.antt =====
-- The branches of `bkv_prepare` in bkv/src/bkv.c.
use wtools.Prelude.{
  ℕ, ◌+◌, ◌*◌, ◌/◌, ◌≤◌, ◌<◌, ◌≡◌, ◌⊎◌, inl, inr, refl, ap, ◌∙◌, arith, Bool, true, false, Option,
  none, some, Option-cases, if◌then◌else◌, length,
}
use wtools.Prelude.Int.{ℤ, pos, negsuc, minus_one, eqb_ℤ, to_size, quot, ◌+ℤ◌, ◌*ℤ◌}
use wtools.Buffer.{Bytes}
use wtools.Libc.{Libc}
use wtools.Bkv.{ok, hdl_mem, inv_arg, Bkv}
use wtools.Bkv.Prepare.{bkv_prepare, bkv_mem_truncate, append_size, new_size, adopt}

-- The branches of `bkv_prepare`, over its tests as they come out.
branch :
    (low zero_chunk over : Bool) {h h' : Bkv} {ret : ℤ} {grown : ℤ × Bkv}
    → (if low
        then if zero_chunk then none else if over then some (inv_arg, h) else some grown
        else some (inv_arg, h))
      ≡ some (ret, h')
    → ((ret ≡ inv_arg) × (h' ≡ h)) ⊎ ((ret ≡ grown.0) × (h' ≡ grown.1))
branch false zero_chunk over e = ground arith
branch true true over e = cc
branch true false true e = ground arith
branch true false false e = ground arith

-- Either the handle stays, or `bkv_mem_truncate` gives it a new block of the new size.
pub data Outcome (libc : Libc) (h : Bkv) : ℤ → Bkv → Type 0 where
  stays : {h' : Bkv} → h' ≡ h → Outcome libc h inv_arg h'
  fails : {h' : Bkv} → h' ≡ h → Outcome libc h hdl_mem h'
  grows :
      (m : Bytes) {h' : Bkv}
      → bkv_mem_truncate libc h.ptr (new_size h) ≡ (ok, some m)
      → h' ≡ record h { ptr = some m; mem_size = new_size h }
      → Outcome libc h ok h'

truncate_cases :
    (libc : Libc) (ptr : Option Bytes) (size : ℤ)
    → (bkv_mem_truncate libc ptr size ≡ (hdl_mem, none))
      ⊎ ((m : Bytes) × (bkv_mem_truncate libc ptr size ≡ (ok, some m)))
unfolding bkv_mem_truncate
truncate_cases libc none size = elim (Option-cases (libc.malloc (to_size size))) [
  | inl e ↦ inl (ground arith)
  | inr (m, e) ↦ inr (m, ground arith)
]
truncate_cases libc (some b) size = elim (Option-cases (libc.realloc b (to_size size))) [
  | inl e ↦ inl (ground arith)
  | inr (m, e) ↦ inr (m, ground arith)
]

grown_cases :
    (libc : Libc) (h : Bkv) {ret : ℤ} {h' : Bkv}
    → ret ≡ (bkv_mem_truncate libc h.ptr (new_size h)).0
    → h' ≡ (adopt h (new_size h) (bkv_mem_truncate libc h.ptr (new_size h))).1
    → Outcome libc h ret h'
grown_cases libc h e f = elim (truncate_cases libc h.ptr (new_size h)) [
  | inl t ↦ rw (e, t) (fails (rw t at f))
  | inr (m, t) ↦ rw (e, t) (grows m t (rw t at f))
]

pub prepare_cases :
    (libc : Libc) (h : Bkv) (size : ℕ) {ret : ℤ} {h' : Bkv}
    → bkv_prepare libc h size ≡ some (ret, h')
    → Outcome libc h ret h'
unfolding bkv_prepare
prepare_cases libc h size e = elim (branch _ _ _ e) [
  | inl (r, s) ↦ rw r (stays s)
  | inr (r, s) ↦ grown_cases libc h r s
]

Outcome-not_ko :
    {libc : Libc} {h h' : Bkv} {ret : ℤ} → Outcome libc h ret h' → eqb_ℤ minus_one ret ≡ false
Outcome-not_ko (stays e) = refl
Outcome-not_ko (fails e) = refl
Outcome-not_ko (grows m t e) = refl

-- `bkv_prepare` never answers -1, the one code that its callers test for.
pub prepare_not_ko :
    (libc : Libc) (h : Bkv) (size : ℕ) {ret : ℤ} {h' : Bkv}
    → bkv_prepare libc h size ≡ some (ret, h')
    → eqb_ℤ minus_one ret ≡ false
prepare_not_ko libc h size e = Outcome-not_ko (prepare_cases libc h size e)

-- The block of the handle, and the sizes of a handle that `bkv_create` made with the default chunk.
pub record IsSized (h : Bkv) (m : Bytes) : Type 0 where
  pub held : h.ptr ≡ some m
  pub sized : h.mem_size ≡ pos (length m)
  pub no_limit : h.max_size ≡ minus_one
  pub chunk : h.mem_chunk_size ≡ minus_one

-- One chunk more than the block has.
abbrev pub next_size : Bytes → ℕ
next_size m = (length m / 128 + 1) * 128

abbrev pub grown : Bkv → ℕ → Option Bytes → ℤ × Bkv
grown h size none = (hdl_mem, h)
grown h size (some m') = (ok, record h { ptr = some m'; mem_size = pos size })

chunks :
    (mem chunk : ℤ) (n : ℕ)
    → mem ≡ pos n
    → chunk ≡ pos 128
    → (quot mem chunk +ℤ pos 1) *ℤ chunk ≡ pos ((n / 128 + 1) * 128)
chunks (pos a) (pos b) n e f = ground arith
chunks (pos a) (negsuc b) n e f = cc
chunks (negsuc a) b n e f = cc

append_size-default : (h : Bkv) {m : Bytes} → IsSized h m → append_size h ≡ pos 128
append_size-default h s = rw s.chunk

pub new_size-next_size : (h : Bkv) (m : Bytes) → IsSized h m → new_size h ≡ pos (next_size m)
new_size-next_size h m s =
    chunks h.mem_size (append_size h) (length m) s.sized (append_size-default h s)

-- The same branches, given what the tests are.
take_growth :
    (low zero_chunk over : Bool) (h : Bkv) (r : ℤ × Bkv)
    → low ≡ true
    → zero_chunk ≡ false
    → over ≡ false
    → (if low
        then if zero_chunk then none else if over then some (inv_arg, h) else some r
        else some (inv_arg, h))
      ≡ some r
take_growth low zero_chunk over h r e f g = rw (e, f, g)

take_stay :
    (low zero_chunk over : Bool) (h : Bkv) (r : ℤ × Bkv)
    → low ≡ false
    → (if low
        then if zero_chunk then none else if over then some (inv_arg, h) else some r
        else some (inv_arg, h))
      ≡ some (inv_arg, h)
take_stay low zero_chunk over h r e = rw e

adopt-grown :
    (libc : Libc) (h : Bkv) (m : Bytes) (n : ℕ)
    → h.ptr ≡ some m
    → adopt h (pos n) (bkv_mem_truncate libc h.ptr (pos n)) ≡ grown h n (libc.realloc m n)
unfolding bkv_mem_truncate
adopt-grown libc h m n e = elim (Option-cases (libc.realloc m n)) [
  | inl f ↦ ground arith
  | inr (m', f) ↦ ground arith
]

-- On a handle with the default chunk size that lacks room for the size asked for, `bkv_prepare`
-- makes the block one chunk larger, whatever that size is: it answers BKV_OK with the block that
-- `realloc` gave, or BKV_HDL_MEM with the handle as it was.
pub prepare_full :
    (libc : Libc) (h : Bkv) (m : Bytes) (size : ℕ)
    → IsSized h m
    → length m < h.write_offset + size / 8
    → bkv_prepare libc h size ≡ some (grown h (next_size m) (libc.realloc m (next_size m)))
unfolding bkv_prepare
prepare_full libc h m size s lt =
    let e = new_size-next_size h m s in
    let goes =
      take_growth _ _ _ h (adopt h (new_size h) (bkv_mem_truncate libc h.ptr (new_size h)))
        (rw s.sized (ground arith)) (rw (append_size-default h s)) (rw s.no_limit) in
    goes ∙ ap some (rw e (adopt-grown libc h m (next_size m) s.held))

-- With room for the size asked for `bkv_prepare` answers BKV_INV_ARG and does nothing.
pub prepare_roomy :
    (libc : Libc) (h : Bkv) (m : Bytes) (size : ℕ)
    → IsSized h m
    → h.write_offset + size / 8 ≤ length m
    → bkv_prepare libc h size ≡ some (inv_arg, h)
unfolding bkv_prepare
prepare_roomy libc h m size s le =
    take_stay _ _ _ h (adopt h (new_size h) (bkv_mem_truncate libc h.ptr (new_size h)))
      (rw s.sized (ground arith))
