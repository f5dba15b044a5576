-- ===== src/Common/Family.antt =====
-- Arrays that are indexed by a CPU, a page or a block, as functions of the index: the array after
-- a write, and the weight of its first entries.
use Prim.Native.Nat.{ℕ, zero, suc, ◌+◌, ◌≤◌, ◌<◌}
use mathlib.Core.Path.{◌≡◌, refl}
use native.Mathlib.Decide.{dec_lt}
use native.Mathlib.Omega.{arith}
use os2025_yyds.Common.Tests.{◌==◌, if◌then◌else◌}

abbrev pub update {ℓ} : {A : Type ℓ} → (ℕ → A) → ℕ → A → ℕ → A
update array at new k = if at == k then new else array k

unfoldable pub total {ℓ} : {A : Type ℓ} → (A → ℕ) → ℕ → (ℕ → A) → ℕ
total weight zero array = 0
total weight (suc k) array = weight (array k) + total weight k array

-- Arrays that agree below a bound weigh the same.
pub total-agree {ℓ} :
    {A : Type ℓ} (weight : A → ℕ) (bound : ℕ) (left right : ℕ → A)
    → ((k : ℕ) → k < bound → weight (left k) ≡ weight (right k))
    → total weight bound left ≡ total weight bound right
unfolding total
total-agree weight zero left right same = refl
total-agree weight (suc k) left right same =
    omega
      (arith, same k (omega arith), total-agree weight k left right (λ j lt. same j (omega arith)))

pub total-eq_zero {ℓ} :
    {A : Type ℓ} (weight : A → ℕ) (bound : ℕ) (array : ℕ → A)
    → ((k : ℕ) → k < bound → weight (array k) ≡ 0)
    → total weight bound array ≡ 0
unfolding total
total-eq_zero weight zero array empty = refl
total-eq_zero weight (suc k) array empty =
    omega
      (arith, empty k (omega arith), total-eq_zero weight k array (λ j lt. empty j (omega arith)))

-- A write moves the total by the difference of the two weights.
pub total-update {ℓ} :
    {A : Type ℓ} (weight : A → ℕ) (bound : ℕ) (array : ℕ → A) (at : ℕ) (new : A)
    → at < bound
    → weight (array at) + total weight bound (update array at new)
      ≡ weight new + total weight bound array
unfolding total
total-update weight zero array at new below = absurd (omega arith)
total-update weight (suc k) array at new below = elim (dec_lt at k) [
  | yes inside ↦ ground (arith, total-update weight k array at new inside)
  | no last ↦
      ground (arith, total-agree weight k (update array at new) array (λ j lt. ground arith))
]

-- Weights of at most 1 make a total of at most the bound.
pub total-bounded {ℓ} :
    {A : Type ℓ} (weight : A → ℕ) (bound : ℕ) (array : ℕ → A)
    → ((k : ℕ) → weight (array k) ≤ 1)
    → total weight bound array ≤ bound
unfolding total
total-bounded weight zero array light = omega arith
total-bounded weight (suc k) array light =
    omega (arith, light k, total-bounded weight k array light)
