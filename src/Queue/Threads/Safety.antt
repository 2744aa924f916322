-- ===== src/Queue/Threads/Safety.antt =====
-- What holds in every state that threads can reach, with one consumer and fewer tickets than 2^64.
use mathlib.Core.Path.{subst, ap₂}
use native.Mathlib.Decide.{dec_lt}
use app_simple_log.Prelude.{
  ℕ, zero, suc, ◌+◌, ◌-◌, ◌^◌, ◌≤◌, ◌<◌, ◌≡◌, ◌≢◌, ◌⊎◌, ◌↔◌, inl, inr, refl, sym, ap, ◌∙◌, Bool,
  true, List, ◌∷◌, ◌++◌, none, some, size_mod, window, window-append, arith,
}
use app_simple_log.Interleave.{Interleaved, pick, start, later}
use app_simple_log.Queue.{Cell}
use app_simple_log.Queue.Inv.{slot, Slots}
use app_simple_log.Queue.Rounds.{entries, gather-some}
use app_simple_log.Queue.Refine.{contents}
use app_simple_log.Queue.Threads.{
  Shared, Pc, idle, saw_tail, waiting, cell_at, refuses, Move, push, System, Moves, Reach,
}
use app_simple_log.Queue.Threads.Inv.{Produces, Consumes, ticket, Inv, init-Inv}
use app_simple_log.Queue.Threads.Preserve.{Move-Inv}

pub none≢some : {x : ℕ} → none ≢ some x
none≢some p = cc

module _ {A : Type 0} where
  Move-grows :
      {m m' : Shared A} {p p' : Pc A} {pops : Bool}
      → Move pops m p m' p'
      → (m.issued ≤ m'.issued) × (m'.queue.capacity ≡ m.queue.capacity)
  Move-grows (push e) = (omega arith, refl)
  Move-grows mv = (omega arith, refl)

  Interleaved-Inv :
      {pops : ℕ → Bool} {s t : System A}
      → Interleaved (Moves pops) s t
      → ((i : ℕ) → pops i ≡ true → i ≡ 0)
      → t.mem.issued + t.mem.queue.capacity < size_mod
      → (s.mem.issued + s.mem.queue.capacity < size_mod → Inv s.mem s.pc)
      → Inv t.mem t.pc
  Interleaved-Inv (pick i mv) only fits before =
      let (grown, same) = Move-grows mv in
      Move-Inv (before (omega arith)) i mv refl (only i) (omega arith)

  windows_join :
      (ledger : ℕ → A) (h t : ℕ)
      → h ≤ t
      → window ledger 0 h ++ window ledger h (t - h) ≡ window ledger 0 t
  windows_join ledger h t le =
      ap (λ u. window ledger 0 h ++ window ledger u (t - h)) {y = 0 + h} (omega arith)
      ∙ sym (window-append ledger 0 h (t - h))
      ∙ ap (window ledger 0) {y = t} (omega arith)

  entries-window :
      (ledger : ℕ → A) (cap : ℕ) (cells : List (Cell A)) (h n : ℕ)
      → ((k : ℕ)
          → h ≤ k
          → k < h + n
          → slot cap cells k ≡ record { seq = k + 1; storage = some (ledger k) })
      → entries cap cells h n ≡ window ledger h n
  entries-window ledger cap cells h zero held = refl
  entries-window ledger cap cells h (suc n) held =
      gather-some _ _ (ledger h)
        (ap (λ (x : Cell A). x.storage) (held h (omega arith) (omega arith)))
      ∙ ap (λ l. ledger h ∷ l)
          (entries-window ledger cap cells (h + 1) n
            (λ k le lt. held k (omega arith) (omega arith)))

-- A queue of this capacity, in a program where only thread 0 calls `popAll`.
module _ {A : Type 0} (pops : ℕ → Bool) (blank : A) (capacity : ℕ) where
  -- What the program keeps to.
  pub record IsAllowed : Type 0 where
    pub only : (i : ℕ) → pops i ≡ true → i ≡ 0
    pub nonempty : 0 < capacity
    pub small : capacity ≤ 2 ^ 62

  pub Reach-Inv :
      {s : System A}
      → Reach pops blank capacity s
      → IsAllowed
      → s.mem.issued + s.mem.queue.capacity < size_mod
      → Inv s.mem s.pc
  Reach-Inv start ok fits = init-Inv blank capacity ok.nonempty ok.small
  Reach-Inv (later r st) ok fits = Interleaved-Inv st ok.only fits (Reach-Inv r ok)

  module _ {s : System A} (r : Reach pops blank capacity s) (ok : IsAllowed)
      (fits : s.mem.issued + s.mem.queue.capacity < size_mod) where
    -- If only thread 0 calls `popAll`, the capacity is from 1 to 2^62, and the tickets handed out
    -- and the capacity stay together below 2^64, then in every reachable state, however the
    -- threads interleave, the calls of `popAll` have returned exactly the entries of the first
    -- tickets, each once and in the order of the tickets, and no more than a capacity of tickets
    -- is handed out beyond them.
    pub delivered_in_order :
        (s.mem.delivered ≡ window s.mem.ledger 0 s.mem.queue.head)
        × (s.mem.queue.head ≤ s.mem.queue.tail)
        × (s.mem.queue.tail ≤ s.mem.queue.head + s.mem.queue.capacity)
    delivered_in_order =
        let inv = Reach-Inv r ok fits in
        (
          inv.in_order,
          omega (arith, inv.order, inv.tail_is),
          omega (arith, inv.bounded, inv.tail_is),
        )

    -- If only thread 0 calls `popAll`, the capacity is from 1 to 2^62, and the tickets handed out
    -- and the capacity stay together below 2^64, then in every reachable state a producer that has
    -- taken a ticket does not wait for its slot, since the test of its inner loop holds, and no
    -- other thread holds the same ticket.
    pub ticket_exclusive :
        (i j : ℕ) (e : A) (t : ℕ)
        → i ≢ j
        → s.pc i ≡ waiting e t
        → ((cell_at s.mem t).seq ≡ t) × (ticket (s.pc j) ≢ some t)
    ticket_exclusive i j e t apart here =
        let inv = Reach-Inv r ok fits in
        let (le, lt, cell, entry) = subst (Produces s.mem) here (inv.produces i) in
        (ap (λ (c : Cell A). c.seq) cell, λ also. apart (inv.unique i j t (ap ticket here) also))

    -- If only thread 0 calls `popAll`, the capacity is from 1 to 2^62, and the tickets handed out
    -- and the capacity stay together below 2^64, then in every reachable state in which a push has
    -- read a tail `t`, its test for a full queue holds exactly if `t` is at least a capacity ahead
    -- of the head, or if the head has overtaken `t` in the meantime.
    pub refused_iff :
        (i : ℕ) (e : A) (t : ℕ)
        → s.pc i ≡ saw_tail e t
        → (refuses s.mem t ≡ true)
          ↔ ((s.mem.queue.head + s.mem.queue.capacity ≤ t) ⊎ (t < s.mem.queue.head))
    refused_iff i e t here =
        let inv = Reach-Inv r ok fits in
        let seen : t ≤ s.mem.issued = subst (Produces s.mem) here (inv.produces i) in
        (
          λ h. elim (dec_lt t s.mem.queue.head) [
            | yes lt ↦ inr lt
            | no ge ↦ inl (ground (arith, inv.fits, inv.order, seen))
          ],
          λ h. elim h [
            | inl full ↦ ground (arith, inv.fits, inv.order, seen)
            | inr lt ↦ ground (arith, inv.fits, inv.order, seen)
          ],
        )

    -- If only thread 0 calls `popAll`, the capacity is from 1 to 2^62, and the tickets handed out
    -- and the capacity stay together below 2^64, then in every reachable state in which all
    -- threads rest nothing is lost: what was returned and then what the queue holds is what was
    -- accepted, in order, and every slot is as the sequential code expects it.
    pub rest_holds_all :
        ((i : ℕ) → s.pc i ≡ idle)
        → (s.mem.delivered ++ contents s.mem.queue ≡ window s.mem.ledger 0 s.mem.queue.tail)
          × Slots s.mem.queue.capacity s.mem.queue.buffer s.mem.queue.head s.mem.queue.tail
    rest_holds_all resting =
        let inv = Reach-Inv r ok fits in
        let m = s.mem in
        let (all_taken, all_freed) = subst (Consumes m) (resting 0) inv.consumes in
        let held : (k : ℕ)
            → m.queue.head ≤ k
            → k < m.queue.tail
            → cell_at m k ≡ record { seq = k + 1; storage = some (m.ledger k) } =
          λ k le lt. elim (inv.held k (omega arith) (omega (arith, inv.tail_is))) [
            | inl p ↦ p
            | inr (j, p) ↦ absurd (none≢some (ap ticket (sym (resting j)) ∙ p))
          ] in
        (
          ap₂ ◌++◌ inv.in_order (
                entries-window m.ledger m.queue.capacity m.queue.buffer m.queue.head
                  (m.queue.tail - m.queue.head) (λ k le lt. held k le (omega arith)))
              ∙ windows_join m.ledger m.queue.head m.queue.tail
                  (omega (arith, inv.order, inv.tail_is)),
          record {
            slots = inv.slots;
            ordered = omega (arith, inv.order, inv.bounded, inv.tail_is);
            bounded = omega (arith, inv.order, inv.bounded, inv.tail_is);
            published = λ k le lt. (m.ledger k, held k le lt);
            free = λ k le lt. inv.free k (omega (arith, inv.tail_is)) (omega arith);
          },
        )
