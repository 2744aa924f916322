-- ===== src/Prelude/Family.antt =====
-- Families indexed by a number, such as the program counters of threads, and their sums.
use Prim.Native.Nat.{ℕ, zero, suc, ◌+◌, ◌<◌, ◌≤◌}
use mathlib.Core.Path.{◌≡◌, refl, ap}
use mathlib.Core.Logic.{◌≢◌}
use native.Mathlib.Decide.{ℕ_discrete}
use native.Mathlib.Omega.{arith}
use app_simple_log.Prelude.Tests.{◌==◌, if◌then◌else◌}

abbrev pub update {ℓ} : {A : Type ℓ} → (ℕ → A) → ℕ → A → ℕ → A
update f i a j = if i == j then a else f j

-- The sum of the first `n` values.
abbrev pub total : (ℕ → ℕ) → ℕ → ℕ
total f zero = 0
total f (suc n) = total f n + f n

pub total-ge : (f : ℕ → ℕ) (i n : ℕ) → i < n → f i ≤ total f n
total-ge f i zero lt = absurd (omega arith)
total-ge f i (suc n) lt = elim (ℕ_discrete i n) [
  | yes here ↦ omega (arith, ap f here)
  | no below ↦ omega (arith, total-ge f i n (omega (arith, below)))
]

module _ {A : Type 0} (f : A → ℕ) (pc : ℕ → A) where
  pub at_update : (i : ℕ) (p : A) → f (update pc i p i) ≡ f p
  at_update i p = ground arith

  off_update : (i j : ℕ) (p : A) → i ≢ j → f (update pc i p j) ≡ f (pc j)
  off_update i j p ne = ground arith

  total-update_above :
      (i : ℕ) (p : A) (n : ℕ) → n ≤ i → total (λ j. f (update pc i p j)) n ≡ total (λ j. f (pc j)) n
  total-update_above i p zero le = refl
  total-update_above i p (suc n) le =
      omega (
        arith,
        total-update_above i p n (omega arith),
        off_update i n p (λ e. absurd (omega arith)),
      )

  -- One member changes, and the sum by as much.
  pub total-update :
      (i n : ℕ) (p : A)
      → i < n
      → total (λ j. f (update pc i p j)) n + f (pc i) ≡ total (λ j. f (pc j)) n + f p
  total-update i zero p lt = absurd (omega arith)
  total-update i (suc n) p lt = elim (ℕ_discrete i n) [
    | yes here ↦ omega (
      arith,
      total-update_above i p n (omega arith),
      at_update i p,
      ap (λ j. f (update pc i p j)) here,
      ap (λ j. f (pc j)) here,
    )
    | no below ↦ omega (arith, total-update i n p (omega (arith, below)), off_update i n p below)
  ]

  pub total-zero : (n : ℕ) → ((j : ℕ) → j < n → f (pc j) ≡ 0) → total (λ j. f (pc j)) n ≡ 0
  total-zero zero h = refl
  total-zero (suc n) h = omega (arith, total-zero n (λ j lt. h j (omega arith)), h n (omega arith))
