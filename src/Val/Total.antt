-- ===== src/Val/Total.antt =====
-- The rounds of `val_foreach` in bkv/src/bkv_val.c.
use wtools.Prelude.{
  ℕ, zero, suc, ◌+◌, ◌*◌, ◌/◌, ◌%◌, ◌<◌, ◌≡◌, ◌≢◌, inl, inr, arith, refl, true, Option, none, some,
  Bool-cases, List, [], ◌∷◌, length,
}
use wtools.Prelude.Int.{ℤ, pos}
use wtools.Prelude.Chain.{◌>>=◌, bind-eq-some}
use wtools.Buffer.{Bytes, load}
use wtools.Val

module _ {ℓ} {A : Type ℓ} where
  pub load_inside : (i : ℕ) (m : List A) {a : A} → load i m ≡ some a → i < length m
  load_inside i [] e = cc
  load_inside zero (x ∷ m) e = omega arith
  load_inside (suc i) (x ∷ m) e = omega (arith, load_inside i m e)

module _ {D : Type 0} (cb : Val.Callbacks D) (m : Bytes) where
  enter_map_advances :
      (p : ℕ) (deep : ℤ) (a : ℕ × D) {ret : ℕ} {c' : Val.Cursor D}
      → Val.enter_map m p deep a ≡ some (Val.next ret c')
      → p < c'.ptr
  unfolding Val.enter_map
  enter_map_advances p deep (r, d) e = ground arith

  case_advances :
      (c : Val.Cursor D) (key base : ℕ) (t : Val.Header) {ret : ℕ} {c' : Val.Cursor D}
      → Val.case cb m c key t ≡ some (Val.next ret c')
      → Val.continues base ret c' ≡ true
      → c.ptr < c'.ptr
  unfolding Val.case
  case_advances c key base Val.map_open e k =
      let (a, called, r) =
        bind-eq-some (Val.optional cb.map_open c.user (λ f. f c.user c.ptr key))
          (λ a. Val.enter_map m c.ptr c.map_deep a) e in
      enter_map_advances c.ptr c.map_deep a r
  case_advances c key base Val.map_close e k = ground arith
  case_advances c key base Val.array_open e k = ground arith
  case_advances c key base Val.array_close e k = ground arith
  case_advances c key base Val.int16 e k = ground arith
  case_advances c key base Val.int32 e k = ground arith
  case_advances c key base Val.int64 e k = ground arith
  case_advances c key base Val.string e k = ground arith
  case_advances c key base Val.float e k = ground arith
  case_advances c key base Val.double e k = ground arith
  case_advances c key base Val.boolean e k = ground arith
  case_advances c key base Val.unknown e k = cc

  switch : Val.Cursor D → ℕ → ℕ → Option (Val.Round D)
  switch c b0 b1 = Val.case cb m c (b0 % 16 * 256 + b1 % 256) (Val.header_of (b0 / 16 % 16))

  round_advances :
      (c : Val.Cursor D) (base : ℕ) {ret : ℕ} {c' : Val.Cursor D}
      → Val.round cb m c ≡ some (Val.next ret c')
      → Val.continues base ret c' ≡ true
      → (c.ptr < c'.ptr) × (c.ptr < length m)
  unfolding Val.round switch
  round_advances c base e k =
      let (b0, l0, e0) =
        bind-eq-some (load c.ptr m) (λ b0. load (c.ptr + 1) m >>= λ b1. switch c b0 b1) e in
      let (b1, l1, e1) = bind-eq-some (load (c.ptr + 1) m) (λ b1. switch c b0 b1) e0 in
      (case_advances c _ base _ e1 k, load_inside c.ptr m l0)

  loop_total :
      (base fuel : ℕ) (c : Val.Cursor D)
      → length m < fuel + c.ptr
      → 0 < fuel
      → Val.loop cb m base fuel c ≢ Val.stuck
  unfolding Val.loop
  loop_total base zero c lt nz = absurd (omega arith)
  loop_total base (suc fuel) c lt nz = after (Val.round cb m c) refl (loop_total base fuel)
    where
      after :
          (r : Option (Val.Round D))
          → Val.round cb m c ≡ r
          → ((c' : Val.Cursor D)
              → length m < fuel + c'.ptr
              → 0 < fuel
              → Val.loop cb m base fuel c' ≢ Val.stuck)
          → Val.loop cb m base (suc fuel) c ≢ Val.stuck
      after none e ih = rw (e, Val.loop) (λ f. cc)
      after (some (Val.invalid d)) e ih = rw (e, Val.loop) (λ f. cc)
      after (some (Val.next ret c')) e ih = elim (Bool-cases (Val.continues base ret c')) [
        | inl k ↦
            let (moves, inside) = round_advances c base e k in
            rw (e, Val.loop) (rw k (ih c' (omega arith) (omega arith)))
        | inr k ↦ rw (e, Val.loop) (rw k (λ f. cc))
      ]

-- `val_foreach` never runs out of rounds: it returns, or it faults by an access outside the block.
pub val_foreach-ne-stuck :
    {D : Type 0} (cb : Val.Callbacks D) (m : Bytes) (base : ℕ) (d : D)
    → Val.val_foreach cb m base d ≢ Val.stuck
unfolding Val.val_foreach
val_foreach-ne-stuck cb m base d =
    loop_total cb m base (length m + 1) (record { user = d; ptr = base; map_deep = pos 0 })
      (omega arith) (omega arith)
