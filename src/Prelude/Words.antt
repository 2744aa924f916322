-- ===== src/Prelude/Words.antt =====
-- `size_t` of a 64-bit build: every sum and difference wraps modulo 2 ^ 64. Slot indices are
-- remainders, and two numbers less than a capacity apart have different ones.
use Prim.Native.Nat.{ℕ, ◌+◌, ◌-◌, ◌*◌, ◌/◌, ◌%◌, ◌^◌, ◌≤◌, ◌<◌}
use mathlib.Core.Path.{◌≡◌, sym, ap, ◌∙◌}
use mathlib.Core.Logic.{◌≢◌}
use native.Mathlib.Omega.{arith}
use native.Mathlib.Nat.{div-add-mod, mul-le-mul_left, mod-add-mod}
use native.Mathlib.Decide.{dec_le}

abbrev pub size_mod : ℕ
size_mod = 2 ^ 64

abbrev pub add_size : ℕ → ℕ → ℕ
add_size a b = (a + b) % size_mod

abbrev pub sub_size : ℕ → ℕ → ℕ
sub_size a b = (a + size_mod - b) % size_mod

-- A sum that fits does not wrap.
pub add_size-eq : (a b : ℕ) → a + b < size_mod → add_size a b ≡ a + b
add_size-eq a b h = omega arith

-- `std::string::npos`
abbrev pub npos : ℕ
npos = size_mod - 1

-- Equal remainders are whole multiples of the divisor apart.
multiple_apart : (a b c p q r : ℕ) → a ≡ c * p + r → b ≡ c * q + r → a < b → a + c ≤ b
multiple_apart a b c p q r ea eb h = elim (dec_le q p) [
  | yes le ↦ absurd (omega (arith, mul-le-mul_left c le))
  | no lt ↦ let gap : c * (p + 1) ≤ c * q = mul-le-mul_left c (omega arith) in omega arith
]

pub mod-ne : (a b c : ℕ) → a < b → b < a + c → a % c ≢ b % c
mod-ne a b c h k e = absurd (
    omega (
      arith,
      multiple_apart a b c (a / c) (b / c) (a % c) (sym (div-add-mod a c))
          (omega (arith, div-add-mod b c)) h,
    ))

-- Equal remainders stay equal when both numbers grow alike.
pub mod-add_congr : (a b k c : ℕ) → a % c ≡ b % c → (a + k) % c ≡ (b + k) % c
mod-add_congr a b k c e = sym (mod-add-mod a c k) ∙ ap (λ r. (r + k) % c) e ∙ mod-add-mod b c k
