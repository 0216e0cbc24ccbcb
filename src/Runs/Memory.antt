-- ===== src/Runs/Memory.antt =====
-- A C library with memory to spare: `malloc` gives zeroed blocks, `realloc` keeps what fits.
use wtools.Prelude.{
  ℕ, zero, suc, ◌<◌, ◌≡◌, refl, ◌∙◌, arith, some, [], ◌∷◌, ◌++◌, length, length-append, replicate,
  take, get_elem?, length-take,
}
use wtools.Buffer.{Bytes}
use wtools.Libc.{Libc}

abbrev pub resized : Bytes → ℕ → Bytes
resized m n = take n (m ++ replicate n 0)

pub length-replicate : (n : ℕ) → length (replicate {A = ℕ} n 0) ≡ n
length-replicate zero = refl
length-replicate (suc n) = omega (arith, length-replicate n)

pub length-resized : (m : Bytes) (n : ℕ) → length (resized m n) ≡ n
length-resized m n =
    length-take n (m ++ replicate n 0)
      (omega (arith, length-append m (replicate n 0), length-replicate n))

pub get_elem?-take : (n i : ℕ) (m : Bytes) → i < n → get_elem? (take n m) i ≡ get_elem? m i
get_elem?-take zero i m lt = absurd (omega arith)
get_elem?-take (suc n) i [] lt = refl
get_elem?-take (suc n) zero (x ∷ m) lt = refl
get_elem?-take (suc n) (suc i) (x ∷ m) lt = get_elem?-take n i m (omega arith)

pub get_elem?-front : (i : ℕ) (m ys : Bytes) → i < length m → get_elem? (m ++ ys) i ≡ get_elem? m i
get_elem?-front i [] ys lt = absurd (omega arith)
get_elem?-front zero (x ∷ m) ys lt = refl
get_elem?-front (suc i) (x ∷ m) ys lt = get_elem?-front i m ys (omega arith)

-- Blocks that are the same, out of an allocation that succeeds.
module _ (f : ℕ → Bytes) (lengths : (n : ℕ) → length (f n) ≡ n) where
  pub allocated : (n : ℕ) {m : Bytes} → some (f n) ≡ some m → length m ≡ n
  allocated n {m} e = let e' : f n ≡ m = cc in rw e' at (lengths n)

pub keeps :
    (m : Bytes) (n : ℕ) {m' : Bytes} (i : ℕ)
    → some (resized m n) ≡ some m'
    → i < n
    → i < length m
    → get_elem? m' i ≡ get_elem? m i
keeps m n {m'} i e lt inside =
    let e' : resized m n ≡ m' = cc in
    rw e' at
      (get_elem?-take n i (m ++ replicate n 0) lt ∙ get_elem?-front i m (replicate n 0) inside)

abbrev pub plain_libc : Libc
plain_libc = record {
  malloc = λ n. some (replicate n 0);
  realloc = λ m n. some (resized m n);
  malloc-length = λ n {m} e. allocated (λ k. replicate k 0) length-replicate n e;
  realloc-length = λ m n {m'} e. allocated (resized m) (length-resized m) n e;
  realloc_keeps = λ m n {m'} i e lt inside. keeps m n i e lt inside;
}
