-- ===== src/AsyncLogger/Threads/Late.antt =====
-- A message that is logged while `deinitialize` runs: src/src/async_logger.cpp.
use app_simple_log.Prelude.{
  ℕ, ◌<◌, ◌≡◌, refl, ap, ◌∙◌, true, false, [], ◌∷◌, Bytes, List, some, suc, update, arith,
}
use app_simple_log.Level.{LogLevel, should_log}
use app_simple_log.Entry.{Memory, LogEntry, Runtime}
use app_simple_log.Disk.{Disk}
use app_simple_log.Interleave.{start, later, picked}
use app_simple_log.Fifo.{offer}
use app_simple_log.AsyncLogger.{Components}
use app_simple_log.AsyncLogger.Delivery.{queue_fifo, ring_fifo, IsReady, waiting}
use app_simple_log.AsyncLogger.Threads.{
  Shared, Pc, System, Move, Moves, pass, log, push, release, pop_queue, pop_ring, return_closing,
  test, acquire, wake_last, return_ending, deinitialize, notify, join,
}
use app_simple_log.AsyncLogger.Threads.Inv.{queued}
use app_simple_log.AsyncLogger.Threads.Safety.{append_empty, rests, Reach}

pub offer_first :
    {A : Type 0} (cap : ℕ) (held : List A) (e : A)
    → 0 < cap
    → held ≡ []
    → offer cap held e ≡ (true, e ∷ [])
offer_first cap [] e room empty = ground arith
offer_first cap (x ∷ xs) e room empty = absurd cc

pub only : {A : Type 0} {x y : A} → some x ≡ some y → x ≡ y
only same = cc

module _ (runtime : Runtime) (blank : LogEntry) (memory : Memory) (budget threads : ℕ)
    (path : Bytes) (c : Components) (d : Disk) (level : LogLevel)
    (ready : IsReady runtime blank memory path (suc budget) c d)
    (nothing : waiting blank c ≡ []) where
  abbrev pub Reaches : System → Type 0
  Reaches = Reach runtime blank memory (suc budget) threads path c d level ready nothing

  pub moves :
      (i : ℕ) {s : System} {p q : Pc} {m : Shared}
      → i < threads
      → s.pc i ≡ p
      → Move runtime blank memory s.mem p m q
      → Reaches s
      → Reaches (record { mem = m; pc = update s.pc i q })
  moves i lt here mv r = later r (picked (Moves runtime blank memory threads) i here (lt, mv))

  -- A message that passes the tests of `log` before `deinitialize` ends can stay behind: for every
  -- logger that starts initialized and ready with room for one push at least and holds nothing, with
  -- a queue of a positive capacity and three threads or more, and for every entry that passes the
  -- level, a state can be reached in which every thread is idle, at its wait for a wake-up or ended, the
  -- logger is deinitialized, and that one message is neither written nor dropped: it is in the queue,
  -- and the disk is as it was.
  pub late_message_lost :
      2 < threads
      → 0 < queue_fifo.capacity c.async_queue
      → (e : LogEntry) → should_log e.level level ≡ true
      → (s : System) × Reaches s
        × ((i : ℕ) → rests (s.pc i) ≡ true)
        × (s.mem.initialized ≡ false)
        × (s.mem.asked ≡ e ∷ [])
        × (s.mem.written ≡ [])
        × (s.mem.dropped ≡ [])
        × (queued blank s.mem ≡ e ∷ [])
        × (s.mem.disk ≡ d)
  late_message_lost many room e passes =
      let (queue_empty, ring_empty) = append_empty _ _ nothing in
      let one : 1 < threads = omega arith in
      let zeroth : 0 < threads = omega arith in
      let (q, popped, q_empty, q_size, q_ok) =
        queue_fifo.pop_drains (suc budget) c.async_queue ready.queue_valid in
      let (r, drained, r_empty, r_size, r_ok) =
        (ring_fifo blank).pop_drains (suc budget) c.ring_buffer ready.ring_valid in
      let (q₂, popped₂, q₂_empty, q₂_size, q₂_ok) = queue_fifo.pop_drains (suc budget) q q_ok in
      let (r₂, drained₂, r₂_empty, r₂_size, r₂_ok) =
        (ring_fifo blank).pop_drains (suc budget) r r_ok in
      let (q', pushed, q_holds, q'_size, q'_ok) = queue_fifo.push_offers budget q₂ e q₂_ok in
      let taken =
        offer_first (queue_fifo.capacity q₂) (queue_fifo.contents q₂) e
          (omega (arith, q_size, q₂_size)) q₂_empty in
      let entered = moves 1 one refl (log e refl) (moves 1 one refl (pass e.level passes) start) in
      let waiting_writer = moves 0 zeroth refl (test refl) entered in
      let stopping =
        moves 2 many refl (notify (omega arith))
          (moves 2 many refl (deinitialize refl refl) waiting_writer) in
      let awakened =
        moves 0 zeroth refl (wake_last refl)
          (moves 0 zeroth refl (acquire (omega arith)) stopping) in
      let last =
        moves 0 zeroth refl (pop_queue (popped ∙ ap (λ es. some (es, q)) queue_empty)) awakened in
      let swept =
        moves 0 zeroth refl (pop_ring (only drained ∙ ap (λ es. (es, r)) ring_empty)) last in
      let joined = moves 2 many refl (join refl) (moves 0 zeroth refl return_ending swept) in
      let first =
        moves 2 many refl (pop_queue (popped₂ ∙ ap (λ es. some (es, q₂)) q_empty)) joined in
      let emptied =
        moves 2 many refl (pop_ring (only drained₂ ∙ ap (λ es. (es, r₂)) r_empty)) first in
      let off = moves 2 many refl return_closing emptied in
      let late =
        moves 1 one refl (push (pushed ∙ ap (λ b. some (b, q')) (ap (λ x. x.0) taken))) off in
      (
        _,
        moves 1 one refl (release (omega arith)) late,
        λ j. ground arith,
        refl,
        refl,
        refl,
        refl,
        q_holds ∙ ap (λ x. x.1) taken,
        refl,
      )
