-- ===== src/AsyncLogger/Threads/Settle.antt =====
-- A thread of the logger that is in the middle of a call can go on by itself until it rests.
use app_simple_log.Prelude.{
  ℕ, suc, ◌+◌, ◌≤◌, ◌≡◌, refl, ap, ◌∙◌, true, Bool-cases, inl, inr, [], some, arith,
}
use app_simple_log.Entry.{Memory, LogEntry, Runtime}
use app_simple_log.Interleave.{done, next, Solo-append}
use app_simple_log.Fifo.{offer}
use app_simple_log.AsyncLogger.Delivery.{queue_fifo, ring_fifo, IsAlive}
use app_simple_log.AsyncLogger.Threads.{
  Shared, Back, caller, loop, ending, closing, Pc, idle, entering, logging, releasing, overflowing,
  flushing, draining, writing, emergency, saving, testing, acquiring, awake, exited, notifying,
  joining, Move, log, reject, push, full, release, keep, drop, return_caller, return_loop,
  return_ending, test, leave, wake, wake_last,
}
use app_simple_log.AsyncLogger.Threads.Inv.{closes, closes_behind}
use app_simple_log.AsyncLogger.Threads.Safety.{rests}
use app_simple_log.AsyncLogger.Threads.Late.{only}
use app_simple_log.AsyncLogger.Threads.Sweep.{
  Alone, HasRoom, Ran, writing-Ran, draining-Ran, flushing-Ran, saving-Ran, emergency-Ran,
}

module _ (runtime : Runtime) (blank : LogEntry) (memory : Memory)
    (alive : (e : LogEntry) → IsAlive runtime memory e) where
  -- A thread that has come to rest by itself, with at most `k` pushes.
  pub record Settled (n k : ℕ) (m : Shared) (p : Pc) : Type 0 where
    pub m' : Shared
    pub p' : Pc
    pub solo : Alone runtime blank memory alive m p m' p'
    pub quiet : rests p' ≡ true
    pub initialized : m'.initialized ≡ m.initialized
    pub stop : m'.stop ≡ m.stop
    pub spent : m'.pushes ≤ m.pushes + k
    pub room : HasRoom runtime blank memory alive n m'

  at-Settled :
      (n k : ℕ) (m : Shared) (p : Pc)
      → rests p ≡ true
      → HasRoom runtime blank memory alive n m
      → Settled n k m p
  at-Settled n k m p quiet ok = record {
    m' = m;
    p' = p;
    solo = done;
    quiet = quiet;
    initialized = refl;
    stop = refl;
    spent = omega arith;
    room = ok;
  }

  Settled-next :
      {n k l : ℕ} {m m₁ : Shared} {p p₁ : Pc}
      → Move runtime blank memory m p m₁ p₁
      → m₁.initialized ≡ m.initialized
      → m₁.stop ≡ m.stop
      → m₁.pushes + l ≤ m.pushes + k
      → Settled n l m₁ p₁
      → Settled n k m p
  Settled-next mv on stops spent s = record {
    m' = s.m';
    p' = s.p';
    solo = next mv s.solo;
    quiet = s.quiet;
    initialized = s.initialized ∙ on;
    stop = s.stop ∙ stops;
    spent = omega (arith, s.spent, spent);
    room = s.room;
  }

  Ran-Settled :
      {n k : ℕ} {m : Shared} {p p₁ : Pc}
      → (r : Ran runtime blank memory alive n m p p₁) → Settled n k r.m' p₁
      → Settled n k m p
  Ran-Settled r s = record {
    m' = s.m';
    p' = s.p';
    solo = Solo-append r.solo s.solo;
    quiet = s.quiet;
    initialized = s.initialized ∙ r.same.initialized;
    stop = s.stop ∙ r.same.stop;
    spent = omega (arith, s.spent, r.same.pushes);
    room = s.room;
  }

  -- The writer at the head of its loop.
  testing-Settled :
      (n k : ℕ) (m : Shared) → HasRoom runtime blank memory alive n m → Settled n k m testing
  testing-Settled n k m ok = elim (Bool-cases m.stop) [
    | inl stops ↦ Settled-next (leave stops) refl refl (omega arith) (
        at-Settled n k _ exited refl
          (record { queue = ok.queue; ring = ok.ring; wakes = omega (arith, ok.wakes) }))
    | inr goes ↦
        Settled-next (test goes) refl refl (omega arith) (at-Settled n k m acquiring refl ok)
  ]

  -- The end of a flush that is not the one of `deinitialize`.
  return-Settled :
      (n k : ℕ) (back : Back) (m : Shared)
      → closes_behind back ≡ 0
      → HasRoom runtime blank memory alive n m
      → Settled n k m (writing back [])
  return-Settled n k caller m open_still ok =
      Settled-next return_caller refl refl (omega arith) (at-Settled n k m idle refl ok)
  return-Settled n k loop m open_still ok =
      Settled-next return_loop refl refl (omega arith) (testing-Settled n k m ok)
  return-Settled n k ending m open_still ok = Settled-next return_ending refl refl (omega arith) (
      at-Settled n k _ exited refl
        (record { queue = ok.queue; ring = ok.ring; wakes = omega (arith, ok.wakes) }))
  return-Settled n k closing m open_still ok = absurd (omega (arith, open_still))

  flushed-Settled :
      {n k : ℕ} {back : Back} {m : Shared} {p : Pc}
      → closes_behind back ≡ 0
      → Ran runtime blank memory alive n m p (writing back [])
      → Settled n k m p
  flushed-Settled {n} {k} {back} open_still r =
      Ran-Settled r (return-Settled n k back r.m' open_still r.room)

  -- A message goes to the queue, or to the ring buffer, or is dropped.
  overflowing-Settled :
      (n : ℕ) (e : LogEntry) (m : Shared)
      → HasRoom runtime blank memory alive (suc n) m
      → Settled n 1 m (overflowing e)
  overflowing-Settled n e m ok =
      let (r, pushed, holds, size, valid) =
        (ring_fifo blank).push_offers n m.components.ring_buffer e ok.ring in
      let weak = queue_fifo.weaken n m.components.async_queue ok.queue in
      let ran = only pushed in
      elim (Bool-cases
        (offer ((ring_fifo blank).capacity m.components.ring_buffer)
          ((ring_fifo blank).contents m.components.ring_buffer) e).0) [
            | inl kept ↦ Settled-next (keep (ran ∙ ap (λ b. (b, r)) kept)) refl refl (omega arith) (
                flushed-Settled {k = 0} refl (
                  flushing-Ran runtime blank memory alive n caller _
                    (record { queue = weak; ring = valid; wakes = omega (arith, ok.wakes) })))
            | inr full_too ↦
                Settled-next (drop (ran ∙ ap (λ b. (b, r)) full_too)) refl refl (omega arith) (
                  at-Settled n 0 _ idle refl
                    (record { queue = weak; ring = valid; wakes = omega (arith, ok.wakes) }))
          ]

  logging-Settled :
      (n : ℕ) (e : LogEntry) (m : Shared)
      → HasRoom runtime blank memory alive (suc (suc n)) m
      → Settled n 2 m (logging e)
  logging-Settled n e m ok =
      let (q, pushed, holds, size, valid) =
        queue_fifo.push_offers (suc n) m.components.async_queue e ok.queue in
      let weak = (ring_fifo blank).weaken (suc n) m.components.ring_buffer ok.ring in
      elim (Bool-cases
        (offer (queue_fifo.capacity m.components.async_queue)
          (queue_fifo.contents m.components.async_queue) e).0) [
            | inl taken ↦
                Settled-next (push (pushed ∙ ap (λ b. some (b, q)) taken)) refl refl (omega arith) (
                  Settled-next {k = 1} {l = 0} (release (omega (arith, ok.wakes))) refl refl
                    (omega arith)
                    (at-Settled n 0 _ idle refl (record {
                      queue = queue_fifo.weaken n q valid;
                      ring = (ring_fifo blank).weaken n m.components.ring_buffer weak;
                      wakes = omega (arith, ok.wakes);
                    })))
            | inr no_room ↦
                Settled-next (full (pushed ∙ ap (λ b. some (b, q)) no_room)) refl refl (omega arith)
                  (overflowing-Settled n e _
                    (record { queue = valid; ring = weak; wakes = omega (arith, ok.wakes) }))
          ]

  HasRoom-weaken :
      (n : ℕ) (m : Shared)
      → HasRoom runtime blank memory alive (suc (suc n)) m
      → HasRoom runtime blank memory alive n m
  HasRoom-weaken n m ok = record {
    queue =
        queue_fifo.weaken n m.components.async_queue
          (queue_fifo.weaken (suc n) m.components.async_queue ok.queue);
    ring =
        (ring_fifo blank).weaken n m.components.ring_buffer
          ((ring_fifo blank).weaken (suc n) m.components.ring_buffer ok.ring);
    wakes = omega (arith, ok.wakes);
  }

  -- A thread outside of `deinitialize` can go on by itself until it rests.
  pub outside-Settled :
      (n : ℕ) (m : Shared) (p : Pc)
      → closes p ≡ 0
      → HasRoom runtime blank memory alive (suc (suc n)) m
      → Settled n 2 m p
  outside-Settled n m idle outside ok = at-Settled n 2 m idle refl (HasRoom-weaken n m ok)
  outside-Settled n m acquiring outside ok = at-Settled n 2 m acquiring refl (HasRoom-weaken n m ok)
  outside-Settled n m exited outside ok = at-Settled n 2 m exited refl (HasRoom-weaken n m ok)
  outside-Settled n m (entering level) outside ok = elim (Bool-cases m.initialized) [
    | inl on ↦ Settled-next (log (record blank { level = level }) on) refl refl (omega arith) (
        logging-Settled n _ _
          (record { queue = ok.queue; ring = ok.ring; wakes = omega (arith, ok.wakes) }))
    | inr off ↦
        Settled-next (reject off) refl refl (omega arith)
          (at-Settled n 2 m idle refl (HasRoom-weaken n m ok))
  ]
  outside-Settled n m (logging e) outside ok = logging-Settled n e m ok
  outside-Settled n m releasing outside ok =
      let weak = HasRoom-weaken n m ok in
      Settled-next (release (omega (arith, ok.wakes))) refl refl (omega arith) (
        at-Settled n 2 _ idle refl
          (record { queue = weak.queue; ring = weak.ring; wakes = omega (arith, ok.wakes) }))
  outside-Settled n m (overflowing e) outside ok =
      let s = overflowing-Settled (suc n) e m ok in
      record {
        m' = s.m';
        p' = s.p';
        solo = s.solo;
        quiet = s.quiet;
        initialized = s.initialized;
        stop = s.stop;
        spent = omega (arith, s.spent);
        room = record {
          queue = queue_fifo.weaken n s.m'.components.async_queue s.room.queue;
          ring = (ring_fifo blank).weaken n s.m'.components.ring_buffer s.room.ring;
          wakes = omega (arith, s.room.wakes);
        };
      }
  outside-Settled n m (flushing back) outside ok =
      flushed-Settled outside
        (flushing-Ran runtime blank memory alive n back m (HasRoom-weaken n m ok))
  outside-Settled n m (draining back es) outside ok =
      flushed-Settled outside
        (draining-Ran runtime blank memory alive n back es m (HasRoom-weaken n m ok))
  outside-Settled n m (writing back es) outside ok =
      flushed-Settled outside
        (writing-Ran runtime blank memory alive n back es m (HasRoom-weaken n m ok))
  outside-Settled n m emergency outside ok =
      flushed-Settled refl (emergency-Ran runtime blank memory alive n m (HasRoom-weaken n m ok))
  outside-Settled n m (saving es) outside ok =
      flushed-Settled refl (saving-Ran runtime blank memory alive n es m (HasRoom-weaken n m ok))
  outside-Settled n m testing outside ok = testing-Settled n 2 m (HasRoom-weaken n m ok)
  outside-Settled n m awake outside ok =
      let weak = HasRoom-weaken n m ok in
      elim (Bool-cases m.stop) [
        | inl stops ↦ Settled-next {l = 2} (wake_last stops) refl refl (omega arith) (
            flushed-Settled {back = ending} refl
              (flushing-Ran runtime blank memory alive n ending m weak))
        | inr goes ↦ Settled-next {l = 2} (wake goes) refl refl (omega arith) (
            flushed-Settled {back = loop} refl
              (flushing-Ran runtime blank memory alive n loop m weak))
      ]
  outside-Settled n m notifying outside ok = absurd (omega (arith, outside))
  outside-Settled n m joining outside ok = absurd (omega (arith, outside))
