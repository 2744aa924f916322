-- ===== src/AsyncLogger/Threads/Safety.antt =====
-- What holds in every state that the threads of a logger can reach, while the log file takes what is
-- written and the 64-bit counters of the buffers do not wrap.
use mathlib.Core.Path.{subst}
use app_simple_log.Prelude.{
  ℕ, ◌+◌, ◌-◌, ◌≤◌, ◌<◌, ◌≡◌, inl, inr, refl, sym, ap, Bool, true, false, List, [], ◌∷◌, ◌++◌,
  append-nil, Bytes, count_if, total, total-zero, arith,
}
use app_simple_log.Level.{LogLevel}
use app_simple_log.Entry.{Memory, LogEntry, Runtime}
use app_simple_log.Disk.{Disk, contents_of}
use app_simple_log.Interleave.{Interleaved, Reachable, pick, start, later}
use app_simple_log.AsyncLogger.{Components}
use app_simple_log.AsyncLogger.Delivery.{queue_fifo, ring_fifo, IsReady, printed, waiting}
use app_simple_log.AsyncLogger.Threads.{
  Shared, Pc, idle, acquiring, exited, testing, Move, System, Moves, init, log,
}
use app_simple_log.AsyncLogger.Threads.Inv.{hand, wakes, sweeps, closes, lasts, queued, ringed, Inv}
use app_simple_log.AsyncLogger.Threads.Preserve.{Move-Inv}

-- A thread that does nothing until it is called or woken.
abbrev pub rests : Pc → Bool
rests idle = true
rests acquiring = true
rests exited = true
rests p = false

rests-zero :
    (f : Pc → ℕ) → f idle ≡ 0 → f acquiring ≡ 0 → f exited ≡ 0 → (p : Pc) → rests p ≡ true → f p ≡ 0
rests-zero f a b c idle r = a
rests-zero f a b c acquiring r = b
rests-zero f a b c exited r = c
rests-zero f a b c p r = absurd cc

-- Threads that rest count nothing.
at_rest :
    (f : Pc → ℕ)
    → f idle ≡ 0
    → f acquiring ≡ 0
    → f exited ≡ 0
    → (pc : ℕ → Pc) (threads : ℕ) → ((i : ℕ) → i < threads → rests (pc i) ≡ true)
    → total (λ j. f (pc j)) threads ≡ 0
at_rest f a b c pc threads resting =
    total-zero f pc threads (λ j lt. rests-zero f a b c (pc j) (resting j lt))

pub append_empty : {A : Type 0} (xs ys : List A) → xs ++ ys ≡ [] → (xs ≡ []) × (ys ≡ [])
append_empty [] ys e = (refl, e)
append_empty (x ∷ xs) ys e = cc

module _ (runtime : Runtime) (blank : LogEntry) (memory : Memory) (budget threads : ℕ)
    (path : Bytes) where
  Move-grows :
      {m m' : Shared} {p p' : Pc} → Move runtime blank memory m p m' p' → m.pushes ≤ m'.pushes
  Move-grows (log e on) = omega arith
  Move-grows mv = omega arith

  module _ (c : Components) (d : Disk) (level : LogLevel)
      (ready : IsReady runtime blank memory path budget c d) (nothing : waiting blank c ≡ []) where
    abbrev base : Bytes
    base = contents_of path d

    -- The threads below `threads`, on an initialized logger that is ready and holds nothing.
    abbrev pub Reach : System → Type 0
    Reach = Reachable (Moves runtime blank memory threads) (init c d level)

    abbrev Invariant : System → Type 0
    Invariant s = Inv runtime blank memory budget threads path base s.mem s.pc

    -- The places of the threads at the start count nothing.
    start_zero :
        (f : Pc → ℕ)
        → f idle ≡ 0
        → f testing ≡ 0
        → total (λ j. f ((init c d level).pc j)) threads ≡ 0
    start_zero f a b = total-zero f (init c d level).pc threads (λ j lt. ground (arith, a, b))

    init-Inv : Invariant (init c d level)
    init-Inv =
        let (queue_empty, ring_empty) = append_empty _ _ nothing in
        let all_left : budget ≡ budget - 0 = omega arith in
        record {
          opened = ready.opened;
          reliable = ready.reliable;
          queue_valid = subst (λ n. queue_fifo.IsValid n c.async_queue) all_left ready.queue_valid;
          ring_valid =
              subst (λ n. (ring_fifo blank).IsValid n c.ring_buffer) all_left ready.ring_valid;
          recorded = sym (append-nil base);
          balanced = λ test. omega (
            arith,
            ap (count_if test) queue_empty,
            ap (count_if test) ring_empty,
            start_zero (λ p. count_if test (hand p)) refl refl,
          );
          woken = inl queue_empty;
          swept = inl ring_empty;
          stopped = inl refl;
          final = inr (start_zero lasts refl refl);
          over = inl refl;
        }

    Interleaved-Inv :
        {s t : System}
        → Interleaved (Moves runtime blank memory threads) s t
        → t.mem.pushes ≤ budget
        → (s.mem.pushes ≤ budget → Invariant s)
        → Invariant t
    Interleaved-Inv (pick i (lt, mv)) fits before =
        Move-Inv runtime blank memory budget threads path base
          (before (omega (arith, Move-grows mv))) i lt mv refl fits

    pub Reach-Inv : {s : System} → Reach s → s.mem.pushes ≤ budget → Invariant s
    Reach-Inv start fits = init-Inv
    Reach-Inv (later r st) fits = Interleaved-Inv st fits (Reach-Inv r)

    module _ {s : System} (r : Reach s) (fits : s.mem.pushes ≤ budget) where
      -- In the schedules in which no two calls of a buffer or of the file manager overlap, and the
      -- semaphore is not released at its maximum, no message is lost between threads: on a logger that starts initialized and ready (the file
      -- open and taking all that is written, both buffers valid with room for `budget` pushes) and
      -- holds nothing, in every state that the threads below `threads` can reach with at most
      -- `budget` pushes, each message that passed the tests of `log` is, as often as it passed them, written,
      -- dropped, in the queue, in the ring buffer or in the hands of one thread, and the log file
      -- holds what it held and then exactly the lines of the messages that are written.
      pub nothing_lost :
          (test : LogEntry → Bool)
          → (count_if test s.mem.asked
              ≡ count_if test s.mem.written
                + count_if test s.mem.dropped
                + count_if test (queued blank s.mem)
                + count_if test (ringed blank s.mem)
                + total (λ j. count_if test (hand (s.pc j))) threads)
            × (contents_of path s.mem.disk
                ≡ contents_of path d ++ printed runtime memory s.mem.written)
      nothing_lost test = let inv = Reach-Inv r fits in (inv.balanced test, inv.recorded)

      -- In the schedules in which no two calls of a buffer or of the file manager overlap, and the
      -- semaphore is not released at its maximum, no wake-up is lost: on a logger that starts initialized and ready (the file open and taking
      -- all that is written, both buffers valid with room for `budget` pushes) and holds nothing, in
      -- every state that the threads below `threads` can reach with at most `budget` pushes, if it is
      -- still initialized, no wake-up waits and every thread is idle, at its wait for a wake-up or
      -- ended, then both buffers are empty, each message that passed the tests of `log` was written or dropped,
      -- and the log file holds what it held and then exactly the lines of those written.
      pub rest_writes_all :
          (test : LogEntry → Bool)
          → s.mem.initialized ≡ true
          → s.mem.semaphore ≡ 0
          → ((i : ℕ) → i < threads → rests (s.pc i) ≡ true)
          → (queued blank s.mem ≡ [])
            × (ringed blank s.mem ≡ [])
            × (count_if test s.mem.asked
                ≡ count_if test s.mem.written + count_if test s.mem.dropped)
            × (contents_of path s.mem.disk
                ≡ contents_of path d ++ printed runtime memory s.mem.written)
      rest_writes_all test on quiet resting =
          let inv = Reach-Inv r fits in
          let no_wakes = at_rest wakes refl refl refl s.pc threads resting in
          let no_sweeps = at_rest sweeps refl refl refl s.pc threads resting in
          let no_closes = at_rest closes refl refl refl s.pc threads resting in
          let no_hands =
            at_rest (λ p. count_if test (hand p)) refl refl refl s.pc threads resting in
          let queue_empty : queued blank s.mem ≡ [] = elim inv.woken [
            | inl empty ↦ empty
            | inr (inl woken) ↦ absurd (ground (arith, quiet, woken, no_wakes))
            | inr (inr (inl off)) ↦ cc
            | inr (inr (inr close)) ↦ absurd (omega arith)
          ] in
          let ring_empty : ringed blank s.mem ≡ [] = elim inv.swept [
            | inl empty ↦ empty
            | inr swept ↦ absurd (omega arith)
          ] in
          (
            queue_empty,
            ring_empty,
            omega (
              arith,
              inv.balanced test,
              ap (count_if test) queue_empty,
              ap (count_if test) ring_empty,
            ),
            inv.recorded,
          )
