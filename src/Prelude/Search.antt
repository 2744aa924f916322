-- ===== src/Prelude/Search.antt =====
-- Laws of the searches of `std::string` over concatenations.
use Prim.Native.Nat.{ℕ, ◌+◌, ◌≤◌, ◌<◌}
use mathlib.Core.Path.{◌≡◌, refl, ap, subst, ◌∙◌, sym}
use mathlib.Core.Bool.{false, true, ◌&&◌}
use mathlib.Core.List.{[], ◌∷◌, ◌++◌}
use mathlib.Core.Option.{none, some}
use native.Mathlib.Omega.{arith}
use native.Mathlib.Nat.{add-zero, zero-add}
use app_simple_log.Prelude.Tests.{◌==◌, leb, if◌then◌else◌}
use app_simple_log.Prelude.Words.{npos}
use app_simple_log.Prelude.Lists.{length}
use app_simple_log.Prelude.Text.{
  find_last_of, Bytes, Lacks, starts_with, find_from, find, last_from,
}

pub starts_with-append : (p s : Bytes) → starts_with p (p ++ s) ≡ true
unfolding starts_with
starts_with-append [] s = refl
starts_with-append (c ∷ p) s = ground (arith, starts_with-append p s)

-- A search goes on behind a text in which the pattern starts nowhere.
pub last_from-append :
    (c limit i best : ℕ) (s t : Bytes)
    → last_from c limit (s ++ t) i best
      ≡ last_from c limit t (i + length s) (last_from c limit s i best)
unfolding last_from
last_from-append c limit i best [] t = ap (λ k. last_from c limit t k best) (sym (add-zero i))
last_from-append c limit i best (d ∷ s) t =
    last_from-append c limit (i + 1) (if d == c && leb i limit then i else best) s t
    ∙ ap
        (λ k.
          last_from c limit t k
            (last_from c limit s (i + 1) (if d == c && leb i limit then i else best)))
        (omega arith)

pub last_from-Lacks :
    (c limit i best : ℕ) (s : Bytes) → Lacks c s → last_from c limit s i best ≡ best
unfolding last_from
last_from-Lacks c limit i best [] h = refl
last_from-Lacks c limit i best (d ∷ s) h =
    ap (last_from c limit s (i + 1)) (ground arith) ∙ last_from-Lacks c limit (i + 1) best s h.1

last_from_here :
    (c limit i best : ℕ) (s : Bytes)
    → last_from c limit (c ∷ s) i best
      ≡ last_from c limit s (i + 1) (if leb i limit then i else best)
unfolding last_from
last_from_here c limit i best s = ap (last_from c limit s (i + 1)) (ground arith)

-- A byte that stands once more, behind a text: its place, unless that is above the limit.
pub last_from_one :
    (c limit i best : ℕ) (s t : Bytes)
    → Lacks c s
    → Lacks c t
    → last_from c limit (s ++ c ∷ t) i best
      ≡ (if leb (i + length s) limit then i + length s else best)
last_from_one c limit i best s t hs ht =
    last_from-append c limit i best s (c ∷ t)
    ∙ last_from_here c limit (i + length s) (last_from c limit s i best) t
    ∙ last_from-Lacks c limit (i + length s + 1) _ t ht
    ∙ ap (λ b. if leb (i + length s) limit then i + length s else b)
        (last_from-Lacks c limit i best s hs)

-- The last two places of a byte that stands twice, the second one unless it is above the limit.
pub last_of_two :
    (c limit i best : ℕ) (a s t : Bytes)
    → Lacks c s
    → Lacks c t
    → i + length a ≤ limit
    → last_from c limit (a ++ c ∷ (s ++ c ∷ t)) i best ≡ (
        if leb (i + length a + 1 + length s) limit
        then i + length a + 1 + length s
        else i + length a)
last_of_two c limit i best a s t hs ht h =
    last_from-append c limit i best a (c ∷ (s ++ c ∷ t))
    ∙ last_from_here c limit (i + length a) (last_from c limit a i best) (s ++ c ∷ t)
    ∙ ap (last_from c limit (s ++ c ∷ t) (i + length a + 1)) {y = i + length a} (ground (arith, h))
    ∙ last_from_one c limit (i + length a + 1) (i + length a) s t hs ht

pub find_last_of-two :
    (c limit : ℕ) (a s t : Bytes)
    → Lacks c s
    → Lacks c t
    → length a ≤ limit
    → find_last_of (a ++ c ∷ (s ++ c ∷ t)) c limit
      ≡ (if leb (length a + 1 + length s) limit then length a + 1 + length s else length a)
unfolding find_last_of
find_last_of-two c limit a s t hs ht h =
    subst
      (λ k.
        find_last_of (a ++ c ∷ (s ++ c ∷ t)) c limit
        ≡ (if leb (k + 1 + length s) limit then k + 1 + length s else k))
      (zero-add (length a)) (last_of_two c limit 0 npos a s t hs ht (omega arith))

pub find_from_miss :
    (p : Bytes) (c : ℕ) (s : Bytes) (i : ℕ)
    → starts_with p (c ∷ s) ≡ false
    → find_from p (c ∷ s) i ≡ find_from p s (i + 1)
unfolding find_from
find_from_miss p c s i h = ground arith

pub find_from-none :
    (p : Bytes) (c : ℕ) (s : Bytes) (i : ℕ)
    → find_from p (c ∷ s) i ≡ none
    → (starts_with p (c ∷ s) ≡ false) × (find_from p s (i + 1) ≡ none)
unfolding find_from
find_from-none p c s i h = ground arith

-- `find` of a text that stands at the front.
pub find-front : (p s : Bytes) → 0 < length p → find (p ++ s) p ≡ 0
unfolding find find_from
find-front [] s h = absurd (omega arith)
find-front (c ∷ p) s h = ground (arith, starts_with-append (c ∷ p) s)

-- `find` of a byte behind a text that lacks it.
find_from_byte :
    (c i : ℕ) (s t : Bytes) → Lacks c s → find_from (c ∷ []) (s ++ c ∷ t) i ≡ some (i + length s)
unfolding find_from starts_with
find_from_byte c i [] t h = ground (arith, add-zero i)
find_from_byte c i (d ∷ s) t h = ground (arith, find_from_byte c (i + 1) s t)

pub find_byte : (c : ℕ) (s t : Bytes) → Lacks c s → find (s ++ c ∷ t) (c ∷ []) ≡ length s
unfolding find
find_byte c s t h = ground (arith, find_from_byte c 0 s t h)

find_from_ge : (p s : Bytes) (i k : ℕ) → find_from p s i ≡ some k → i ≤ k
unfolding find_from
find_from_ge p [] i k h = ground arith
find_from_ge p (c ∷ s) i k h = ground (arith, find_from_ge p s (i + 1) k)

-- `find` gives 0 only for a text at the front.
pub find-eq-zero : (p s : Bytes) → find s p ≡ 0 → starts_with p s ≡ true
unfolding find find_from
find-eq-zero p [] h = ground arith
find-eq-zero p (c ∷ s) h = ground (arith, find_from_ge p s 1 0)
