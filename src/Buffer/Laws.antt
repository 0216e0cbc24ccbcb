-- ===== src/Buffer/Laws.antt =====
-- What stores and loads do to a block that is cut at the place of the access.
use wtools.Prelude.{
  ℕ, zero, suc, ◌+◌, ◌-◌, ◌≤◌, ◌<◌, ◌≡◌, ◌⊎◌, inl, inr, refl, sym, ap, ◌∙◌, arith, none, some,
  Option-cases, List, [], ◌∷◌, ◌++◌, length, get_elem?, take, drop, length-append, take-append-drop,
  length-take, length-drop,
}
use wtools.Prelude.Chain.{◌>>=◌, bind-eq-some}
use wtools.Buffer.{store, store_all}
use mathlib.Core.List.{append_assoc, append-nil}

module _ {ℓ} {A : Type ℓ} where
  -- Below, `i` is the length of `front`, and the block has the element `old` there.
  pub store-append :
      (i : ℕ) (v old : A) (front back : List A)
      → i ≡ length front
      → store i v (front ++ (old ∷ back)) ≡ some (front ++ (v ∷ back))
  unfolding store
  store-append zero v old [] back e = refl
  store-append (suc i) v old [] back e = absurd (omega arith)
  store-append zero v old (x ∷ front) back e = absurd (omega arith)
  store-append (suc i) v old (x ∷ front) back e = rw (store-append i v old front back (omega arith))

  pub store_all-append :
      (i : ℕ) (vs front old back : List A)
      → i ≡ length front
      → length old ≡ length vs
      → store_all i vs (front ++ (old ++ back)) ≡ some (front ++ (vs ++ back))
  unfolding store_all
  store_all-append i [] front [] back e f = refl
  store_all-append i [] front (x ∷ old) back e f = absurd (omega arith)
  store_all-append i (v ∷ vs) front [] back e f = absurd (omega arith)
  store_all-append i (v ∷ vs) front (x ∷ old) back e f =
      let regroup : (xs : List A) → (front ++ (v ∷ [])) ++ xs ≡ front ++ (v ∷ xs) =
        λ xs. append_assoc front (v ∷ []) xs in
      let rest =
        store_all-append (i + 1) vs (front ++ (v ∷ [])) old back
          (omega (arith, length-append front (v ∷ []))) (omega arith) in
      rw (store-append i v x front (old ++ back) e)
        (rw (regroup (old ++ back), regroup (vs ++ back)) at rest)

  pub length-store :
      (i : ℕ) (v : A) (m : List A) {m' : List A} → store i v m ≡ some m' → length m' ≡ length m
  unfolding store
  length-store i v [] e = ground arith
  length-store zero v (x ∷ m) e = ground arith
  length-store (suc i) v (x ∷ m) {m'} e =
      let (m'', s, r) = bind-eq-some (store i v m) (λ rest. some (x ∷ rest)) e in
      ground (arith, length-store i v m s)

  -- A store past the end faults.
  pub store_past : (i : ℕ) (v : A) (m : List A) → length m ≤ i → store i v m ≡ none
  unfolding store
  store_past i v [] h = refl
  store_past zero v (x ∷ m) h = absurd (omega arith)
  store_past (suc i) v (x ∷ m) h = rw (store_past i v m (omega arith))

  -- A block that is written in full.
  pub store_all_full :
      (vs block : List A) → length block ≡ length vs → store_all 0 vs block ≡ some vs
  store_all_full vs block e =
      rw (append-nil block, append-nil vs) at (store_all-append 0 vs [] block [] refl e)

  pub get_elem?-append_back :
      (i k : ℕ) (front back : List A)
      → i ≡ length front + k
      → get_elem? (front ++ back) i ≡ get_elem? back k
  get_elem?-append_back i k [] back e = ap (get_elem? back) (omega arith)
  get_elem?-append_back zero k (x ∷ front) back e = absurd (omega arith)
  get_elem?-append_back (suc i) k (x ∷ front) back e =
      get_elem?-append_back i k front back (omega arith)

  pub get_elem?-append_front :
      (i : ℕ) (front back : List A)
      → i < length front
      → get_elem? (front ++ back) i ≡ get_elem? front i
  get_elem?-append_front i [] back h = absurd (omega arith)
  get_elem?-append_front zero (x ∷ front) back h = refl
  get_elem?-append_front (suc i) (x ∷ front) back h =
      get_elem?-append_front i front back (omega arith)

  pub get_elem?-take : (i n : ℕ) (m : List A) → i < n → get_elem? (take n m) i ≡ get_elem? m i
  get_elem?-take i zero m h = absurd (omega arith)
  get_elem?-take i (suc n) [] h = refl
  get_elem?-take zero (suc n) (x ∷ m) h = refl
  get_elem?-take (suc i) (suc n) (x ∷ m) h = get_elem?-take i n m (omega arith)

  pub get_elem?-drop : (n k i : ℕ) (m : List A) → i ≡ n + k → get_elem? (drop n m) k ≡ get_elem? m i
  get_elem?-drop zero k i m e = ap (get_elem? m) (omega arith)
  get_elem?-drop (suc n) k i [] e = refl
  get_elem?-drop (suc n) k zero (x ∷ m) e = absurd (omega arith)
  get_elem?-drop (suc n) k (suc i) (x ∷ m) e = get_elem?-drop n k i m (omega arith)

  -- The block with `vs` in place of the elements from `p` on.
  abbrev pub splice : ℕ → List A → List A → List A
  splice p vs m = take p m ++ (vs ++ drop (p + length vs) m)

  abbrev empty : List A
  empty = []

  drop-nil : (n : ℕ) → drop n [] ≡ empty
  drop-nil zero = refl
  drop-nil (suc n) = refl

  drop-drop : (n k : ℕ) (m : List A) → drop k (drop n m) ≡ drop (n + k) m
  drop-drop zero k m = ap (λ i. drop i m) (omega arith)
  drop-drop (suc n) k [] = drop-nil k ∙ sym (drop-nil (suc n + k))
  drop-drop (suc n) k (x ∷ m) =
      let e : suc (n + k) ≡ suc n + k = omega arith in drop-drop n k m ∙ ap (λ i. drop i (x ∷ m)) e

  pub store_all-splice :
      (p : ℕ) (vs m : List A) → p + length vs ≤ length m → store_all p vs m ≡ some (splice p vs m)
  store_all-splice p vs m h =
      let n = length vs in
      let old = take n (drop p m) in
      let cut : take p m ++ (old ++ drop (p + n) m) ≡ m =
        rw (← drop-drop p n m) (rw (take-append-drop n (drop p m)) (take-append-drop p m)) in
      rw cut at (
        store_all-append p vs (take p m) old (drop (p + n) m) (sym (length-take p m (omega arith)))
          (length-take n (drop p m) (omega (arith, length-drop p m))))

  pub length-splice :
      (p : ℕ) (vs m : List A) → p + length vs ≤ length m → length (splice p vs m) ≡ length m
  length-splice p vs m h = omega (
    arith,
    length-append (take p m) (vs ++ drop (p + length vs) m),
    length-append vs (drop (p + length vs) m),
    length-take p m (omega arith),
    length-drop (p + length vs) m,
  )

  -- The element `k` of `vs`, at its place in the block.
  pub get_elem?-splice_in :
      (p k i : ℕ) (vs m : List A)
      → p ≤ length m
      → k < length vs
      → i ≡ p + k
      → get_elem? (splice p vs m) i ≡ get_elem? vs k
  get_elem?-splice_in p k i vs m h lt e =
      get_elem?-append_back i k (take p m) (vs ++ drop (p + length vs) m)
        (omega (arith, length-take p m h))
      ∙ get_elem?-append_front k vs (drop (p + length vs) m) lt

  pub get_elem?-splice_below :
      (p i : ℕ) (vs m : List A) → p ≤ length m → i < p → get_elem? (splice p vs m) i ≡ get_elem? m i
  get_elem?-splice_below p i vs m h lt =
      get_elem?-append_front i (take p m) (vs ++ drop (p + length vs) m)
        (omega (arith, length-take p m h))
      ∙ get_elem?-take i p m lt

  pub get_elem?-splice_above :
      (p i : ℕ) (vs m : List A)
      → p ≤ length m
      → p + length vs ≤ i
      → get_elem? (splice p vs m) i ≡ get_elem? m i
  get_elem?-splice_above p i vs m h le =
      get_elem?-append_back i (i - p) (take p m) (vs ++ drop (p + length vs) m)
        (omega (arith, length-take p m h))
      ∙ get_elem?-append_back (i - p) (i - p - length vs) vs (drop (p + length vs) m) (omega arith)
      ∙ get_elem?-drop (p + length vs) (i - p - length vs) i m (omega arith)

module _ {ℓ} {A : Type ℓ} where
  -- From `p` on there are `n` new elements; all else is as it was.
  abbrev pub SameOutside : ℕ → ℕ → List A → List A → Type ℓ
  SameOutside p n m m' =
      (length m' ≡ length m) × ((i : ℕ) → (i < p) ⊎ (p + n ≤ i) → get_elem? m' i ≡ get_elem? m i)

  pub SameOutside-splice :
      (p : ℕ) (vs m : List A)
      → p + length vs ≤ length m
      → SameOutside p (length vs) m (splice p vs m)
  SameOutside-splice p vs m h = (length-splice p vs m h, at)
    where
      at : (i : ℕ) → (i < p) ⊎ (p + length vs ≤ i) → get_elem? (splice p vs m) i ≡ get_elem? m i
      at i (inl lt) = get_elem?-splice_below p i vs m (omega arith) lt
      at i (inr le) = get_elem?-splice_above p i vs m (omega arith) le

-- Two runs of stores, one behind the other.
module _ {ℓ} {A : Type ℓ} where
  store_all-append_stores :
      (p : ℕ) (xs ys m : List A)
      → store_all p (xs ++ ys) m ≡ (store_all p xs m >>= λ m'. store_all (p + length xs) ys m')
  unfolding store_all
  store_all-append_stores p [] ys m = ap (λ i. store_all i ys m) {x = p} {y = p + 0} (omega arith)
  store_all-append_stores p (x ∷ xs) ys m = elim (Option-cases (store p x m)) [
    | inl e ↦ rw e
    | inr (m', e) ↦
        let q : p + 1 + length xs ≡ p + suc (length xs) = omega arith in
        rw e (store_all-append_stores (p + 1) xs ys m' ∙ rw q)
  ]

  some_inj : {xs ys : List A} → some xs ≡ some ys → xs ≡ ys
  some_inj e = cc

  pub splice-splice :
      (p : ℕ) (xs ys m : List A)
      → p + length xs + length ys ≤ length m
      → splice (p + length xs) ys (splice p xs m) ≡ splice p (xs ++ ys) m
  splice-splice p xs ys m h =
      let fits : p + length (xs ++ ys) ≤ length m = omega (arith, length-append xs ys) in
      let first = store_all-splice p xs m (omega arith) in
      let second =
        store_all-splice (p + length xs) ys (splice p xs m)
          (omega (arith, length-splice p xs m (omega arith))) in
      let both = store_all-append_stores p xs ys m in
      some_inj (sym second ∙ rw first at (sym both) ∙ store_all-splice p (xs ++ ys) m fits)

  -- A run of stores that passes the end of the block faults.
  pub store_all_past :
      (p : ℕ) (vs m : List A) → 0 < length vs → length m < p + length vs → store_all p vs m ≡ none
  unfolding store_all
  store_all_past p [] m h lt = absurd (omega arith)
  store_all_past p (v ∷ []) m h lt = rw (store_past p v m (omega arith))
  store_all_past p (v ∷ w ∷ vs) m h lt = elim (Option-cases (store p v m)) [
    | inl e ↦ rw e
    | inr (m', e) ↦
        rw e
          (store_all_past (p + 1) (w ∷ vs) m' (omega arith) (omega (arith, length-store p v m e)))
  ]
