-- ===== src/Fifo.antt =====
-- What the two buffers of the logger promise: a bounded first-in first-out list of entries. The
-- interface is filled by the ring buffer (Ring/Refine) and by the asynchronous queue
-- (Queue/Refine), and the logger's proofs use nothing else of them.
use app_simple_log.Prelude.{
  ℕ, suc, ◌≡◌, Bool, true, false, List, [], ◌∷◌, ◌++◌, Option, some, length, leb, if◌then◌else◌,
}

-- An entry is taken as long as fewer than `cap` are held; a full buffer refuses it.
abbrev pub offer : {A : Type 0} → ℕ → List A → A → Bool × List A
offer cap held e = if leb cap (length held) then (false, held) else (true, held ++ e ∷ [])

-- A call that returns `none` never returns: it waits for a slot that nobody will release.
-- `IsValid n q` is the representation invariant of `q` with room for `n` more pushes before one of
-- its 64-bit counters wraps.
pub record BoundedFifo (A Q : Type 0) : Type 1 where
  pub capacity : Q → ℕ
  pub contents : Q → List A
  pub IsValid : ℕ → Q → Type 0
  pub try_push : Q → A → Option (Bool × Q)
  pub pop_all : Q → Option (List A × Q)
  pub weaken : (n : ℕ) (q : Q) → IsValid (suc n) q → IsValid n q
  pub push_offers :
      (n : ℕ) (q : Q) (e : A)
      → IsValid (suc n) q
      → (q' : Q) × (try_push q e ≡ some ((offer (capacity q) (contents q) e).0, q'))
        × (contents q' ≡ (offer (capacity q) (contents q) e).1)
        × (capacity q' ≡ capacity q)
        × IsValid n q'
  pub pop_drains :
      (n : ℕ) (q : Q)
      → IsValid n q
      → (q' : Q) × (pop_all q ≡ some (contents q, q'))
        × (contents q' ≡ [])
        × (capacity q' ≡ capacity q)
        × IsValid n q'
