-- ===== src/Prelude/Text.antt =====
-- Texts as lists of bytes: the searches of `std::string`, `std::stoi`, and the decimal prints of
-- `std::format`.
use Prim.Native.Nat.{ℕ, zero, suc, ◌+◌, ◌-◌, ◌*◌, ◌/◌, ◌%◌, ◌^◌}
use Prim.Native.Char.{code}
use Prim.Native.String.{String}
use mathlib.Core.Logic.{◌≢◌}
use mathlib.Core.Bool.{Bool, true, false, ◌&&◌, ◌||◌}
use mathlib.Core.List.{List, [], ◌∷◌, ◌++◌}
use mathlib.Core.Option
use mathlib.Core.Option.{Option, none, some}
use app_simple_log.Prelude.Tests.{leb, ltb, ◌==◌, if◌then◌else◌}
use app_simple_log.Prelude.Lists.{All, length, take, drop, replicate}
use app_simple_log.Prelude.Words.{npos}
use app_simple_log.Prelude.Int.{ℤ, pos, negsuc, negated}

abbrev pub Bytes : Type 0
Bytes = List ℕ

-- The bytes of an ASCII literal.
abbrev pub codes : String → Bytes
codes String.[] = []
codes (String.◌∷◌ c s) = code c ∷ codes s

abbrev pub Lacks : ℕ → Bytes → Type 0
Lacks b = All (λ c. c ≢ b)

unfoldable pub bytes_eq : Bytes → Bytes → Bool
bytes_eq [] [] = true
bytes_eq (c ∷ s) (d ∷ t) = c == d && bytes_eq s t
bytes_eq _ _ = false

unfoldable pub starts_with : Bytes → Bytes → Bool
starts_with [] s = true
starts_with (p ∷ ps) [] = false
starts_with (p ∷ ps) (c ∷ s) = p == c && starts_with ps s

-- The first place of a pattern, counted from `i` on.
unfoldable pub find_from : Bytes → Bytes → ℕ → Option ℕ
find_from pattern_bytes [] i = if starts_with pattern_bytes [] then some i else none
find_from pattern_bytes (c ∷ s) i =
    if starts_with pattern_bytes (c ∷ s) then some i else find_from pattern_bytes s (i + 1)

-- `s.find(pattern)`
unfoldable pub find : Bytes → Bytes → ℕ
unfolding find_from
find s pattern_bytes = elim (find_from pattern_bytes s 0) [ none ↦ npos | some i ↦ i ]

-- The last place of a byte that is not above `limit`, counted from `i` on, over the one found so far.
unfoldable pub last_from : ℕ → ℕ → Bytes → ℕ → ℕ → ℕ
last_from c limit [] i best = best
last_from c limit (d ∷ s) i best =
    last_from c limit s (i + 1) (if d == c && leb i limit then i else best)

-- `s.find_last_of(c, limit)`
unfoldable pub find_last_of : Bytes → ℕ → ℕ → ℕ
unfolding last_from
find_last_of s c limit = last_from c limit s 0 npos

-- `s.substr(start, count)`, for a start inside the text
abbrev pub substr : Bytes → ℕ → ℕ → Bytes
substr s start count = take count (drop start s)

abbrev pub is_digit : ℕ → Bool
is_digit c = leb b'0' c && leb c b'9'

abbrev pub is_space : ℕ → Bool
is_space c = c == 32 || leb 9 c && leb c 13

-- The number that the leading digits spell behind `n`.
unfoldable pub read_digits : ℕ → Bytes → ℕ
read_digits n [] = n
read_digits n (c ∷ s) =
    let rest = read_digits (n * 10 + (c - b'0')) s in if is_digit c then rest else n

-- A magnitude of `std::stoi`: at least one digit, and at most `max`.
magnitude : ℕ → Bytes → Option ℕ
unfolding read_digits
magnitude max [] = none
magnitude max (c ∷ s) =
    if is_digit c
    then (let n = read_digits 0 (c ∷ s) in if leb n max then some n else none)
    else none

abbrev pub int_max : ℕ
int_max = 2 ^ 31 - 1

-- `std::stoi`, base ten; `none` is an exception.
unfoldable pub stoi : Bytes → Option ℤ
unfolding magnitude
stoi [] = none
stoi (c ∷ s) =
    let skipped = stoi s in
    if is_space c
    then skipped
    else if c == b'-'
    then Option.map negated (magnitude (int_max + 1) s)
    else if c == b'+'
    then Option.map pos (magnitude int_max s)
    else Option.map pos (magnitude int_max (c ∷ s))

-- The decimal digits of `n` before `out`; `fuel` above `n` is enough.
unfoldable pub digits : ℕ → ℕ → Bytes → Bytes
digits zero n out = out
digits (suc fuel) n out =
    let rest = digits fuel (n / 10) ((b'0' + n % 10) ∷ out) in
    if ltb n 10 then (b'0' + n) ∷ out else rest

-- `{}` of a number
unfoldable pub decimal : ℕ → Bytes
unfolding digits
decimal n = digits (suc n) n []

-- `{}` of a signed number
unfoldable pub decimal_int : ℤ → Bytes
unfolding decimal
decimal_int (pos n) = decimal n
decimal_int (negsuc n) = b'-' ∷ decimal (suc n)

-- `{:0Nd}`: zeros behind the sign up to the width.
unfoldable pub padded : ℕ → ℤ → Bytes
unfolding decimal
padded width (pos n) = replicate (width - length (decimal n)) b'0' ++ decimal n
padded width (negsuc n) =
    b'-' ∷ replicate (width - 1 - length (decimal (suc n))) b'0' ++ decimal (suc n)
