-- ===== src/Buffer.antt =====
-- A block of memory as the list of its bytes, for the C accesses `m[i]`, `m[i] = v` and `memcpy`.
-- An access outside the block is a fault, `none`.
pub mod Laws
use wtools.Prelude.{ℕ, zero, suc, ◌+◌, Option, none, some, List, [], ◌∷◌, get_elem?}
use wtools.Prelude.Chain.{◌>>=◌}

abbrev pub Bytes : Type 0
Bytes = List ℕ

-- `m[i]`
abbrev pub load {ℓ} : {A : Type ℓ} → ℕ → List A → Option A
load i m = get_elem? m i

-- `m[i] = v`
unfoldable pub store {ℓ} : {A : Type ℓ} → ℕ → A → List A → Option (List A)
store i v [] = none
store zero v (x ∷ m) = some (v ∷ m)
store (suc i) v (x ∷ m) = do rest ← store i v m; some (x ∷ rest)

-- `m[i] = v₀; m[i + 1] = v₁; …`, and `memcpy(&m[i], vs, n)` for the n bytes `vs`.
unfoldable pub store_all {ℓ} : {A : Type ℓ} → ℕ → List A → List A → Option (List A)
unfolding store
store_all i [] m = some m
store_all i (v ∷ vs) m = do m' ← store i v m; store_all (i + 1) vs m'

-- The `n` bytes at `p` that `memcpy` reads.
unfoldable pub read_all : ℕ → ℕ → Bytes → Option Bytes
read_all zero p m = some []
read_all (suc n) p m = do b ← load p m; bs ← read_all n (p + 1) m; some (b ∷ bs)
