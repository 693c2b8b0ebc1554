-- ===== src/Prelude/Maps.antt =====
-- Functions of a number as stores, and sums of weights over the first of their values.
use Prim.Native.Nat.{ℕ, zero, suc, ◌+◌, ◌≤◌, ◌<◌}
use mathlib.Core.Path.{◌≡◌, refl}
use mathlib.Core.Logic.{inl, inr}
use native.Mathlib.Omega.{arith}
use pal_panel_host_wine.Prelude.Tests.{◌==◌, if◌then◌else◌, Bool-cases, ltb}

unfoldable pub update {ℓ} : {V : Type ℓ} → (ℕ → V) → ℕ → V → ℕ → V
update h i v j = if i == j then v else h j

module _ {ℓ} {V : Type ℓ} (weight : V → ℕ) where
  unfoldable pub total : ℕ → (ℕ → V) → ℕ
  total zero f = 0
  total (suc n) f = total n f + weight (f n)

  total-update_above :
      (n : ℕ) (f : ℕ → V) (i : ℕ) (v : V) → n ≤ i → total n (update f i v) ≡ total n f
  unfolding total update
  total-update_above zero f i v h = refl
  total-update_above (suc n) f i v h = ground (arith, total-update_above n f i v)

  -- A write changes the sum by what it changes the weight.
  pub total-update :
      (n : ℕ) (f : ℕ → V) (i : ℕ) (v : V)
      → i < n
      → total n (update f i v) + weight (f i) ≡ total n f + weight v
  unfolding total update
  total-update zero f i v h = absurd (omega arith)
  total-update (suc n) f i v h = elim (Bool-cases (ltb i n)) [
    | inl below ↦ ground (arith, total-update n f i v)
    | inr last ↦ ground (arith, total-update_above n f i v)
  ]

  -- Writing the next value adds its weight.
  pub total-update_next :
      (n : ℕ) (f : ℕ → V) (v : V) → total (suc n) (update f n v) ≡ total n f + weight v
  unfolding total update
  total-update_next n f v = ground (arith, total-update_above n f n v)

  -- A positive sum has a positive summand.
  pub total-positive : (n : ℕ) (f : ℕ → V) → 0 < total n f → (i : ℕ) × (i < n) × (0 < weight (f i))
  unfolding total
  total-positive zero f h = absurd (omega arith)
  total-positive (suc n) f h = elim (Bool-cases (ltb 0 (weight (f n)))) [
    | inl here ↦ (n, omega arith, ground arith)
    | inr none ↦ let (i, below, some) = total-positive n f (ground arith) in (i, omega arith, some)
  ]

  -- A summand is at most the sum.
  pub weight-le-total : (n : ℕ) (f : ℕ → V) (i : ℕ) → i < n → weight (f i) ≤ total n f
  unfolding total
  weight-le-total zero f i h = absurd (omega arith)
  weight-le-total (suc n) f i h = elim (Bool-cases (i == n)) [
    | inl same ↦ let e : i ≡ n = ground arith in rw e (omega arith)
    | inr other ↦ omega (arith, weight-le-total n f i (ground arith))
  ]
