-- ===== src/Prelude/Padded.antt =====
-- `{:0Nd}` prints a number that fits with exactly N digits, which read back as the number.
use Prim.Native.Nat.{ℕ, zero, suc, ◌+◌, ◌-◌, ◌*◌, ◌/◌, ◌%◌, ◌≤◌, ◌<◌}
use mathlib.Core.Path.{◌≡◌, refl, ◌∙◌}
use mathlib.Core.List.{[], ◌∷◌, ◌++◌}
use native.Mathlib.Omega.{arith}
use app_simple_log.Prelude.Lists.{length, length-append, length-replicate, replicate}
use app_simple_log.Prelude.Int.{pos}
use app_simple_log.Prelude.Text.{Bytes, read_digits, digits, decimal, padded}
use app_simple_log.Prelude.Decimal.{read_digits_of_decimal}

abbrev pub pow10 : ℕ → ℕ
pow10 zero = 1
pow10 (suc w) = 10 * pow10 w

length-digits-le :
    (w fuel n : ℕ) (out : Bytes)
    → n < pow10 (suc w)
    → length (digits fuel n out) ≤ suc w + length out
unfolding digits
length-digits-le w zero n out h = omega arith
length-digits-le zero (suc fuel) n out h = ground arith
length-digits-le (suc w) (suc fuel) n out h =
    ground (arith, length-digits-le w fuel (n / 10) ((b'0' + n % 10) ∷ out))

length-decimal-le : (w n : ℕ) → n < pow10 (suc w) → length (decimal n) ≤ suc w
unfolding decimal
length-decimal-le w n h = omega (arith, length-digits-le w (suc n) n [] h)

-- A number with at most `w` digits is printed with exactly `w`.
pub length-padded : (w n : ℕ) → n < pow10 (suc w) → length (padded (suc w) (pos n)) ≡ suc w
unfolding padded
length-padded w n h = omega (
  arith,
  length-append {0} (replicate (suc w - length (decimal n)) b'0') (decimal n),
  length-replicate {0} {A = ℕ} (suc w - length (decimal n)) b'0',
  length-decimal-le w n h,
)

read_digits-zeros : (k : ℕ) (s : Bytes) → read_digits 0 (replicate k b'0' ++ s) ≡ read_digits 0 s
unfolding read_digits
read_digits-zeros zero s = refl
read_digits-zeros (suc k) s = read_digits-zeros k s

pub read_digits-padded : (w n : ℕ) → read_digits 0 (padded w (pos n)) ≡ n
unfolding padded
read_digits-padded w n =
    read_digits-zeros (w - length (decimal n)) (decimal n) ∙ read_digits_of_decimal n
