-- ===== src/AsyncLogger/Threads/Steps.antt =====
-- What kinds of steps keep the invariant of the shared logger, by what a step touches.
use app_simple_log.Prelude.{
  ℕ, ◌+◌, ◌-◌, ◌≤◌, ◌<◌, ◌≡◌, ◌⊎◌, inl, inr, refl, ap, Bool, true, false, List, some, Bytes,
  count_if, leb, update, if◌then◌else◌, arith,
}
use app_simple_log.Entry.{Memory, LogEntry, Runtime}
use app_simple_log.Queue
use app_simple_log.Ring
use app_simple_log.Queue.{AsyncQueue}
use app_simple_log.Ring.{RingBuffer}
use app_simple_log.AsyncLogger.Delivery.{queue_fifo, ring_fifo}
use app_simple_log.AsyncLogger.Threads.{
  Shared, with_queue, with_ring, Pc, logging, overflowing, exited,
}
use app_simple_log.AsyncLogger.Threads.Inv.{hand, wakes, sweeps, closes, lasts, signals, Inv}
use app_simple_log.AsyncLogger.Threads.Keep.{local-Inv, store-Inv}
use app_simple_log.AsyncLogger.Threads.Buffers.{push_lem, pop_lem, spare_lem}

-- At the second place a thread will still do what it would have done at the first, and it is not in a
-- last flush unless it was.
abbrev promises : Pc → Pc → Bool
promises p p' =
    if leb (wakes p) (wakes p')
    then if leb (sweeps p) (sweeps p')
      then if leb (closes p) (closes p') then leb (lasts p') (lasts p) else false
      else false
    else false

module _ {runtime : Runtime} {blank : LogEntry} {memory : Memory} {budget threads : ℕ}
    {path base : Bytes} {m : Shared} {pc : ℕ → Pc}
    (inv : Inv runtime blank memory budget threads path base m pc) (i : ℕ) (lt : i < threads) where
  abbrev Kept : Shared → Pc → Type 0
  Kept m' p' = Inv runtime blank memory budget threads path base m' (update pc i p')

  -- A step that changes nothing that the threads share.
  pub silent :
      (p p' : Pc)
      → pc i ≡ p
      → ((test : LogEntry → Bool) → count_if test (hand p) ≡ count_if test (hand p'))
      → wakes p ≤ wakes p'
      → sweeps p ≤ sweeps p'
      → closes p ≤ closes p'
      → ((m.stop ≡ true) ⊎ (lasts p' ≤ lasts p))
      → Kept m p'
  silent p p' here counts waking sweeping close last =
      local-Inv inv i p p' lt here m.semaphore m.min_level m.initialized m.stop m.ended m.asked
        m.dropped (λ t. omega (arith, counts t)) (inr (refl, close)) (inl refl) (inr (omega arith))
        sweeping (elim last [ inl stops ↦ inl stops | inr le ↦ inr (refl, le) ]) inv.over

  -- One that gives nothing up and begins no last flush.
  pub still : (p p' : Pc) → pc i ≡ p → hand p ≡ hand p' → promises p p' ≡ true → Kept m p'
  still p p' here hands kept =
      silent p p' here (λ t. ap (count_if t) hands) (ground (arith, kept)) (ground (arith, kept))
        (ground (arith, kept)) (inr (ground (arith, kept)))

  -- A step of the semaphore.
  pub signal :
      (p p' : Pc) (semaphore : ℕ)
      → pc i ≡ p
      → ((test : LogEntry → Bool) → count_if test (hand p) ≡ count_if test (hand p'))
      → ((m.stop ≡ true) ⊎ (signals m + wakes p ≤ (if m.ended then 0 else semaphore) + wakes p'))
      → sweeps p ≤ sweeps p'
      → closes p ≤ closes p'
      → lasts p' ≤ lasts p
      → Kept (record m { semaphore = semaphore }) p'
  signal p p' semaphore here counts waking sweeping close last =
      local-Inv inv i p p' lt here semaphore m.min_level m.initialized m.stop m.ended m.asked
        m.dropped (λ t. omega (arith, counts t)) (inr (refl, close)) (inl refl) waking sweeping
        (inr (refl, last)) inv.over

  -- The writer thread ends, once a stop is asked for.
  pub ends :
      (p : Pc)
      → pc i ≡ p
      → m.stop ≡ true
      → ((test : LogEntry → Bool) → count_if test (hand p) ≡ 0)
      → sweeps p ≤ 0
      → closes p ≤ 0
      → Kept (record m { ended = true }) exited
  ends p here stops nothing sweeping close =
      local-Inv inv i p exited lt here m.semaphore m.min_level m.initialized m.stop true m.asked
        m.dropped (λ t. omega (arith, nothing t)) (inr (refl, close)) (inl refl) (inl stops)
        sweeping (inl stops) (inr stops)

  -- A push into the queue, and one into the ring buffer.
  pub queue_push :
      (e : LogEntry) (b : Bool) (q : AsyncQueue LogEntry) (p' : Pc)
      → pc i ≡ logging e
      → m.pushes + 1 ≤ budget
      → Queue.try_push m.components.async_queue e ≡ some (b, q)
      → ((test : LogEntry → Bool)
          → count_if test (hand p') ≡ (if b then 0 else if test e then 1 else 0))
      → ((b ≡ false) ⊎ (wakes p' ≡ 1))
      → lasts p' ≤ 0
      → Kept (record m { components = with_queue m q; pushes = m.pushes + 1 }) p'
  queue_push e b q p' here fits ran hands after last =
      let (ok, counts, refused) =
        push_lem queue_fifo budget m.pushes m.components.async_queue q e b fits inv.queue_valid
          ran in
      store-Inv inv i (logging e) p' lt here q m.components.ring_buffer m.dropped (m.pushes + 1) ok
        (spare_lem (ring_fifo blank) budget m.pushes m.components.ring_buffer fits inv.ring_valid)
        (λ t. ground (arith, counts t, hands t))
        (elim after [
          | inl no_room ↦ inr (inr (refused no_room, omega arith))
          | inr raises ↦ inr (inl raises)
        ])
        (inr (inr (refl, omega arith))) (omega arith) last

  pub ring_push :
      (e : LogEntry) (b : Bool) (r : RingBuffer LogEntry) (dropped : List LogEntry) (p' : Pc)
      → pc i ≡ overflowing e
      → m.pushes + 1 ≤ budget
      → Ring.try_push m.components.ring_buffer e ≡ (b, r)
      → ((test : LogEntry → Bool)
          → count_if test dropped + count_if test (hand p')
            ≡ count_if test m.dropped + (if b then 0 else if test e then 1 else 0))
      → ((b ≡ false) ⊎ (sweeps p' ≡ 1))
      → lasts p' ≤ 0
      → Kept (record m { components = with_ring m r; dropped = dropped; pushes = m.pushes + 1 }) p'
  ring_push e b r dropped p' here fits ran hands after last =
      let (ok, counts, refused) =
        push_lem (ring_fifo blank) budget m.pushes m.components.ring_buffer r e b fits
          inv.ring_valid (ap some ran) in
      store-Inv inv i (overflowing e) p' lt here m.components.async_queue r dropped (m.pushes + 1)
        (spare_lem queue_fifo budget m.pushes m.components.async_queue fits inv.queue_valid) ok
        (λ t. ground (arith, counts t, hands t)) (inr (inr (refl, omega arith)))
        (elim after [
          | inl no_room ↦ inr (inr (refused no_room, omega arith))
          | inr sweeping ↦ inr (inl sweeping)
        ])
        (omega arith) last

  -- The queue, and the ring buffer, are emptied into a thread's hands.
  pub queue_pop :
      (es : List LogEntry) (q : AsyncQueue LogEntry) (p p' : Pc)
      → pc i ≡ p
      → Queue.pop_all m.components.async_queue ≡ some (es, q)
      → ((test : LogEntry → Bool)
          → count_if test (hand p') ≡ count_if test (hand p) + count_if test es)
      → sweeps p ≤ sweeps p'
      → closes p ≤ closes p'
      → lasts p' ≤ lasts p
      → Kept (record m { components = with_queue m q }) p'
  queue_pop es q p p' here ran hands sweeping close last =
      let (ok, empty, all) =
        pop_lem queue_fifo (budget - m.pushes) m.components.async_queue q es inv.queue_valid ran in
      store-Inv inv i p p' lt here q m.components.ring_buffer m.dropped m.pushes ok inv.ring_valid
        (λ t. omega (arith, ap (count_if t) empty, ap (count_if t) all, hands t)) (inl empty)
        (inr (inr (refl, sweeping))) close last

  pub ring_pop :
      (es : List LogEntry) (r : RingBuffer LogEntry) (p p' : Pc)
      → pc i ≡ p
      → Ring.pop_all blank m.components.ring_buffer ≡ (es, r)
      → ((test : LogEntry → Bool)
          → count_if test (hand p') ≡ count_if test (hand p) + count_if test es)
      → wakes p ≤ wakes p'
      → closes p ≤ closes p'
      → lasts p' ≤ lasts p
      → Kept (record m { components = with_ring m r }) p'
  ring_pop es r p p' here ran hands waking close last =
      let (ok, empty, all) =
        pop_lem (ring_fifo blank) (budget - m.pushes) m.components.ring_buffer r es inv.ring_valid
          (ap some ran) in
      store-Inv inv i p p' lt here m.components.async_queue r m.dropped m.pushes inv.queue_valid ok
        (λ t. omega (arith, ap (count_if t) empty, ap (count_if t) all, hands t))
        (inr (inr (refl, waking))) (inl empty) close last
