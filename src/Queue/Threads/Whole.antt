-- ===== src/Queue/Threads/Whole.antt =====
-- A call that no other thread interrupts: its steps, one after the other, are the operation of the
-- sequential model.
use app_simple_log.Prelude.{
  ℕ, zero, suc, ◌+◌, ◌%◌, ◌<◌, ◌≡◌, refl, ap, ◌∙◌, Bool, true, false, Bool-cases, inl, inr, List,
  [], ◌∷◌, Option, some, length, set, add_size, ◌==◌, if◌then◌else◌, arith,
}
use app_simple_log.Interleave.{Solo, done, next}
use app_simple_log.Queue.{Cell, AsyncQueue, try_push}
use app_simple_log.Queue.Inv.{slot, slot-set_self}
use app_simple_log.Queue.Threads.{
  Shared, Pc, idle, pushing, cell_at, refuses, Move, load_tail, refuse, accept, reserve, enter,
  emplace, publish, count,
}

-- The second of two writes at one place stays.
set-set : {A : Type 0} (xs : List A) (i : ℕ) (u v : A) → set (set xs i u) i v ≡ set xs i v
set-set [] i u v = refl
set-set (x ∷ xs) zero u v = refl
set-set (x ∷ xs) (suc i) u v = ap (λ l. x ∷ l) (set-set xs i u v)

-- Inside of a call, and not at the start of another round of `tryPush`.
abbrev pub rests : {A : Type 0} → Pc A → Bool
rests idle = true
rests p = false

abbrev pub restarts : {A : Type 0} → Pc A → Bool
restarts (pushing e) = true
restarts p = false

-- A step inside of a call, where a compare-exchange does not fail.
abbrev pub Step : {A : Type 0} → Bool → Shared A → Pc A → Shared A → Pc A → Type 0
Step pops m p m' p' = (rests p ≡ false) × (restarts p' ≡ false) × Move pops m p m' p'

module _ {A : Type 0} (cap : ℕ) (cells : List (Cell A)) where
  -- A slot's storage is written first and its number second.
  pub two_writes :
      (k s₁ s₂ : ℕ) (o : Option A)
      → 0 < cap
      → length cells ≡ cap
      → set (set cells (k % cap) (record { seq = s₁; storage = o })) (k % cap) (record {
        seq = s₂;
        storage = (slot cap (set cells (k % cap) (record { seq = s₁; storage = o })) k).storage;
      })
        ≡ set cells (k % cap) (record { seq = s₂; storage = o })
  two_writes k s₁ s₂ o pos len =
      ap
        (λ st.
          set (set cells (k % cap) (record { seq = s₁; storage = o })) (k % cap)
            (record { seq = s₂; storage = st }))
        (ap (λ (c : Cell A). c.storage) (slot-set_self cap cells k _ len pos))
      ∙ set-set cells (k % cap) _ _

module _ {A : Type 0} (pops : Bool) where
  -- A `tryPush` that nobody interrupts does what the sequential operation says wherever that
  -- returns: it ends with the same queue, and it has taken a ticket exactly if the result is true.
  pub try_push-Solo :
      (m : Shared A) (e : A) (b : Bool) (q' : AsyncQueue A)
      → 0 < m.queue.capacity
      → length m.queue.buffer ≡ m.queue.capacity
      → try_push m.queue e ≡ some (b, q')
      → (m' : Shared A) × Solo (Step pops) m (pushing e) m' idle
        × (m'.queue ≡ q')
        × (m'.issued ≡ (if b then m.issued + 1 else m.issued))
        × (m'.delivered ≡ m.delivered)
  unfolding try_push
  try_push-Solo m e b q' pos len ran = elim (Bool-cases (refuses m m.queue.tail)) [
    | inl full ↦ (
      m,
      next (refl, refl, load_tail) (next (refl, refl, refuse full) done),
      ground (arith, ran, full),
      ground (arith, ran, full),
      refl,
    )
    | inr room ↦ elim (Bool-cases ((cell_at m m.queue.tail).seq == m.queue.tail)) [
      | inl free ↦ (
        _,
        next (refl, refl, load_tail)
            (next (refl, refl, accept room)
              (next (refl, refl, reserve refl)
                (next (refl, refl, enter (ground (arith, free)))
                  (next (refl, refl, emplace)
                    (next (refl, refl, publish) (next (refl, refl, count) done)))))),
        ground (
          arith,
          ran,
          room,
          free,
          two_writes m.queue.capacity m.queue.buffer m.queue.tail (cell_at m m.queue.tail).seq
              (add_size m.queue.tail 1) (some e) pos len,
        ),
        ground (arith, ran, room, free),
        refl,
      )
      | inr taken ↦ ground (arith, ran, room, taken)
    ]
  ]
