-- ===== src/Prelude/Decimal.antt =====
-- `std::stoi` reads back what `{}` prints.
use Prim.Native.Nat.{ℕ, zero, suc, ◌+◌, ◌/◌, ◌%◌, ◌≤◌, ◌<◌}
use mathlib.Core.Path.{◌≡◌}
use mathlib.Core.Bool.{true}
use mathlib.Core.List.{[], ◌∷◌, ◌++◌, append-nil}
use mathlib.Core.Option.{some}
use native.Mathlib.Omega.{arith}
use app_simple_log.Prelude.Lists.{length, All}
use app_simple_log.Prelude.Int.{pos}
use app_simple_log.Prelude.Text.{Bytes, is_digit, read_digits, digits, decimal, stoi, int_max}

abbrev pub AllDigits : Bytes → Type 0
AllDigits = All (λ c. is_digit c ≡ true)

digits-AllDigits : (fuel n : ℕ) (out : Bytes) → AllDigits out → AllDigits (digits fuel n out)
unfolding digits
digits-AllDigits zero n out h = h
digits-AllDigits (suc fuel) n out h =
    ground (arith, digits-AllDigits fuel (n / 10) ((b'0' + n % 10) ∷ out))

pub decimal-AllDigits : (n : ℕ) → AllDigits (decimal n)
unfolding decimal
decimal-AllDigits n = digits-AllDigits (suc n) n [] tt

-- The digits of `n` are read as `n`, whatever stands behind them.
read_digits-digits :
    (fuel n : ℕ) (out rest : Bytes)
    → n < fuel
    → read_digits 0 (digits fuel n out ++ rest) ≡ read_digits n (out ++ rest)
unfolding digits read_digits
read_digits-digits zero n out rest h = absurd (omega arith)
read_digits-digits (suc fuel) n out rest h =
    ground (arith, read_digits-digits fuel (n / 10) ((b'0' + n % 10) ∷ out) rest)

pub read_digits-decimal :
    (n : ℕ) (rest : Bytes) → read_digits 0 (decimal n ++ rest) ≡ read_digits n rest
unfolding decimal
read_digits-decimal n rest = read_digits-digits (suc n) n [] rest (omega arith)

length-digits : (fuel n : ℕ) (out : Bytes) → length out ≤ length (digits fuel n out)
unfolding digits
length-digits zero n out = omega arith
length-digits (suc fuel) n out = ground (arith, length-digits fuel (n / 10) ((b'0' + n % 10) ∷ out))

-- The print is never empty.
pub decimal_pos : (n : ℕ) → 0 < length (decimal n)
unfolding decimal digits
decimal_pos n = ground (arith, length-digits n (n / 10) ((b'0' + n % 10) ∷ []))

stoi_of_digits :
    (s : Bytes) (n : ℕ)
    → AllDigits s
    → 0 < length s
    → read_digits 0 s ≡ n
    → n ≤ int_max
    → stoi s ≡ some (pos n)
unfolding stoi
stoi_of_digits [] n h k e fits = absurd (omega arith)
stoi_of_digits (c ∷ s) n h k e fits = ground arith

pub read_digits_of_decimal : (n : ℕ) → read_digits 0 (decimal n) ≡ n
unfolding read_digits
read_digits_of_decimal n = rw append-nil at (read_digits-decimal n [])

-- A number of type `int` is read back from its print.
pub stoi-decimal : (n : ℕ) → n ≤ int_max → stoi (decimal n) ≡ some (pos n)
stoi-decimal n fits =
    stoi_of_digits (decimal n) n (decimal-AllDigits n) (decimal_pos n) (read_digits_of_decimal n)
      fits
