-- ===== src/Val/Holding.antt =====
-- Runs of bytes that a block holds, as bytes are written into the block.
use wtools.Prelude.{
  ℕ, zero, suc, ◌+◌, ◌≤◌, ◌<◌, ◌≡◌, ◌⊎◌, inl, inr, refl, sym, ap, ◌∙◌, arith, some, [], ◌∷◌, ◌++◌,
  length, get_elem?,
}
use wtools.Buffer.{Bytes, load}
use wtools.Buffer.Laws.{splice, get_elem?-splice_in, get_elem?-splice_below, get_elem?-splice_above}
use wtools.Val.Entries.{HoldsAt}

pub HoldsAt-join :
    (m : Bytes) (p q : ℕ) (xs ys : Bytes)
    → HoldsAt m p xs
    → HoldsAt m q ys
    → q ≡ p + length xs
    → HoldsAt m p (xs ++ ys)
HoldsAt-join m p q [] ys h k e = let e' : q ≡ p = omega arith in rw e' at k
HoldsAt-join m p q (x ∷ xs) ys h k e = (h.0, HoldsAt-join m (p + 1) q xs ys h.1 k (omega arith))

-- The bytes that were just written, seen from the `j`-th on.
splice_suffix :
    (m : Bytes) (p q j : ℕ) (vs bs : Bytes)
    → p + length vs ≤ length m
    → ((k : ℕ) → get_elem? bs k ≡ get_elem? vs (j + k))
    → j + length bs ≤ length vs
    → q ≡ p + j
    → HoldsAt (splice p vs m) q bs
splice_suffix m p q j vs [] le same n e = tt
splice_suffix m p q j vs (b ∷ bs) le same n e = (
  get_elem?-splice_in p j q vs m (omega arith) (omega arith) e
      ∙ sym (let e0 : j + 0 ≡ j = omega arith in rw e0 at (same 0)),
  splice_suffix m p (q + 1) (j + 1) vs bs le
      (λ k. let e1 : j + suc k ≡ j + 1 + k = omega arith in same (suc k) ∙ ap (get_elem? vs) e1)
      (omega arith) (omega arith),
)

pub HoldsAt-splice_same :
    (m : Bytes) (p : ℕ) (vs : Bytes) → p + length vs ≤ length m → HoldsAt (splice p vs m) p vs
HoldsAt-splice_same m p vs le =
    splice_suffix m p p 0 vs vs le (λ k. let e0 : k ≡ 0 + k = omega arith in ap (get_elem? vs) e0)
      (omega arith) (omega arith)

-- Bytes that lie wholly before or behind what is written stay.
pub HoldsAt-splice :
    (m : Bytes) (q : ℕ) (vs : Bytes) (p : ℕ) (bs : Bytes)
    → HoldsAt m p bs
    → q + length vs ≤ length m
    → (p + length bs ≤ q) ⊎ (q + length vs ≤ p)
    → HoldsAt (splice q vs m) p bs
HoldsAt-splice m q vs p [] h le apart = tt
HoldsAt-splice m q vs p (b ∷ bs) h le (inl before) = (
  get_elem?-splice_below q p vs m (omega arith) (omega arith) ∙ h.0,
  HoldsAt-splice m q vs (p + 1) bs h.1 le (inl (omega arith)),
)
HoldsAt-splice m q vs p (b ∷ bs) h le (inr behind) = (
  get_elem?-splice_above q p vs m (omega arith) behind ∙ h.0,
  HoldsAt-splice m q vs (p + 1) bs h.1 le (inr (omega arith)),
)

pub load-some : (i : ℕ) (m : Bytes) → i < length m → (b : ℕ) × (load i m ≡ some b)
load-some i [] lt = absurd (omega arith)
load-some zero (x ∷ m) lt = (x, refl)
load-some (suc i) (x ∷ m) lt = load-some i m (omega arith)
