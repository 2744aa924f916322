-- ===== src/Prelude/Window.antt =====
-- The values at consecutive tickets, oldest first: how both buffers are read as lists.
use Prim.Native.Nat.{ℕ, zero, suc, ◌+◌, ◌<◌}
use mathlib.Core.Path.{◌∙◌, ◌≡◌, refl, ap, ap₂}
use mathlib.Core.List.{List, [], ◌∷◌, ◌++◌}
use native.Mathlib.Nat.{add-zero}
use native.Mathlib.Omega.{arith}
use app_simple_log.Prelude.Lists.{length}

module _ {A : Type 0} where
  abbrev pub window : (ℕ → A) → ℕ → ℕ → List A
  window f t zero = []
  window f t (suc n) = f t ∷ window f (t + 1) n

  pub length-window : (f : ℕ → A) (t n : ℕ) → length (window f t n) ≡ n
  length-window f t zero = refl
  length-window f t (suc n) = ap suc (length-window f (t + 1) n)

  pub window-congr :
      (f g : ℕ → A) (t n : ℕ)
      → ((i : ℕ) → i < n → f (t + i) ≡ g (t + i))
      → window f t n ≡ window g t n
  window-congr f g t zero h = refl
  window-congr f g t (suc n) h =
      ap₂ ◌∷◌ (rw add-zero at (h 0 (omega arith)))
        (window-congr f g (t + 1) n (λ i lt. rw (← shift i) (h (i + 1) (omega arith))))
    where
      shift : (i : ℕ) → t + (i + 1) ≡ t + 1 + i
      shift i = omega arith

  pub window_last : (f : ℕ → A) (t n : ℕ) → window f t (suc n) ≡ window f t n ++ f (t + n) ∷ []
  window_last f t zero = rw add-zero
  window_last f t (suc n) = ap (λ l. f t ∷ l) (rw (← shift) (window_last f (t + 1) n))
    where
      shift : t + 1 + n ≡ t + suc n
      shift = omega arith

  pub window-append :
      (f : ℕ → A) (t n k : ℕ) → window f t (n + k) ≡ window f t n ++ window f (t + n) k
  window-append f t zero k =
      ap (window f t) {y = k} (omega arith) ∙ ap (λ u. window f u k) {y = t + zero} (omega arith)
  window-append f t (suc n) k =
      ap (window f t) {y = suc (n + k)} (omega arith)
      ∙ ap (λ l. f t ∷ l)
          (window-append f (t + 1) n k
            ∙ ap (λ u. window f (t + 1) n ++ window f u k) {y = t + suc n} (omega arith))
