-- ===== src/Prelude/Bits.antt =====
-- Laws of `bit_and` and `bit_or` at variables, from the digit recursion that they stand for.
use Prim.Native.Nat.{
  ℕ, zero, suc, ◌+◌, ◌*◌, ◌/◌, ◌%◌, ◌^◌, ◌≤◌, ◌<◌, min, max, bit_and, bit_or, digits,
  bit_and-bitwise, bit_or-bitwise,
}
use mathlib.Core.Path.{◌≡◌, refl, ap, ◌∙◌}
use mathlib.Core.Bool.{Bool, true, ◌&&◌}
use native.Mathlib.Omega.{arith}
use native.Mathlib.Nat.{pow-suc}
use wtools.Prelude.Tests.{◌==◌}

digits_fuel :
    (z : ℕ → ℕ) (f : ℕ → ℕ → ℕ) (n m a b : ℕ) → a ≤ n → a ≤ m → digits z f n a b ≡ digits z f m a b
digits_fuel z f zero zero a b p q = refl
digits_fuel z f zero (suc m) zero b p q = refl
digits_fuel z f zero (suc m) (suc a) b p q = absurd (omega arith)
digits_fuel z f (suc n) zero zero b p q = refl
digits_fuel z f (suc n) zero (suc a) b p q = absurd (omega arith)
digits_fuel z f (suc n) (suc m) zero b p q = refl
digits_fuel z f (suc n) (suc m) (suc a) b p q =
    omega (arith, digits_fuel z f n m (suc a / 2) (b / 2) (omega arith) (omega arith))

pub bit_and_step : (a b : ℕ) → bit_and a b ≡ bit_and (a / 2) (b / 2) * 2 + min (a % 2) (b % 2)
bit_and_step zero b = omega (arith, bit_and-bitwise 0 b, bit_and-bitwise 0 (b / 2))
bit_and_step (suc a) b = omega (
  arith,
  bit_and-bitwise (suc a) b,
  bit_and-bitwise (suc a / 2) (b / 2),
  digits_fuel (λ b. zero) min a (suc a / 2) (suc a / 2) (b / 2) (omega arith) (omega arith),
)

pub bit_or_step : (a b : ℕ) → bit_or a b ≡ bit_or (a / 2) (b / 2) * 2 + max (a % 2) (b % 2)
bit_or_step zero b = omega (arith, bit_or-bitwise 0 b, bit_or-bitwise 0 (b / 2))
bit_or_step (suc a) b = omega (
  arith,
  bit_or-bitwise (suc a) b,
  bit_or-bitwise (suc a / 2) (b / 2),
  digits_fuel (λ b. b) max a (suc a / 2) (suc a / 2) (b / 2) (omega arith) (omega arith),
)

bit_and-half : (a b : ℕ) → bit_and a b / 2 ≡ bit_and (a / 2) (b / 2)
bit_and-half a b = omega (arith, bit_and_step a b)

bit_and-low : (a b : ℕ) → bit_and a b % 2 ≡ min (a % 2) (b % 2)
bit_and-low a b = omega (arith, bit_and_step a b)

bit_or-half : (a b : ℕ) → bit_or a b / 2 ≡ bit_or (a / 2) (b / 2)
bit_or-half a b = omega (arith, bit_or_step a b)

bit_or-low : (a b : ℕ) → bit_or a b % 2 ≡ max (a % 2) (b % 2)
bit_or-low a b = omega (arith, bit_or_step a b)

-- Each of the `k` lowest binary digits is set in one of three masks.
abbrev pub masks_cover : ℕ → ℕ → ℕ → ℕ → Bool
masks_cover zero a b c = true
masks_cover (suc k) a b c =
    max (max (a % 2) (b % 2)) (c % 2) == 1 && masks_cover k (a / 2) (b / 2) (c / 2)

-- A number of `k` binary digits is the union of its parts under masks that cover it.
pub or_of_masks :
    (k v a b c : ℕ)
    → masks_cover k a b c ≡ true
    → v < 2 ^ k
    → bit_or (bit_or (bit_and v a) (bit_and v b)) (bit_and v c) ≡ v
or_of_masks zero zero a b c h lt =
    rw (bit_and-bitwise 0 a, bit_and-bitwise 0 b, bit_and-bitwise 0 c)
or_of_masks zero (suc v) a b c h lt = absurd (omega arith)
or_of_masks (suc k) v a b c h lt =
    let x : ℕ = bit_and v a in
    let y : ℕ = bit_and v b in
    let z : ℕ = bit_and v c in
    let half : bit_or (bit_or x y / 2) (z / 2) ≡ v / 2 =
      simp (bit_or-half, bit_and-half)
        (or_of_masks k (v / 2) (a / 2) (b / 2) (c / 2) (ground arith)
          (omega (arith, pow-suc 2 k))) in
    ground (
      arith,
      bit_or_step (bit_or x y) z,
      half,
      bit_or-low x y,
      bit_and-low v a,
      bit_and-low v b,
      bit_and-low v c,
    )

bit_or-zero_fuel : (n a : ℕ) → a ≤ n → bit_or a 0 ≡ a
bit_or-zero_fuel n zero h = refl
bit_or-zero_fuel zero (suc a) h = absurd (omega arith)
bit_or-zero_fuel (suc n) (suc a) h =
    omega (arith, bit_or_step (suc a) 0, bit_or-zero_fuel n (suc a / 2) (omega arith))

-- Digits that do not overlap: `k` low ones, and those above them.
pub bit_or_shifted : (k a b : ℕ) → b < 2 ^ k → bit_or (a * 2 ^ k) b ≡ a * 2 ^ k + b
bit_or_shifted zero a zero h =
    let e : a * 2 ^ 0 ≡ a = omega arith in rw e (bit_or-zero_fuel a a (omega arith) ∙ omega arith)
bit_or_shifted zero a (suc b) h = absurd (omega arith)
bit_or_shifted (suc k) a b h =
    let double : a * 2 ^ suc k ≡ 2 * (a * 2 ^ k) =
      omega (arith, ap (λ (t : ℕ). a * t) (pow-suc 2 k)) in
    let half : a * 2 ^ suc k / 2 ≡ a * 2 ^ k = omega (arith, double) in
    let step = rw half at (bit_or_step (a * 2 ^ suc k) b) in
    omega (arith, step, double, bit_or_shifted k a (b / 2) (omega (arith, pow-suc 2 k)))
