-- ===== src/AsyncLogger/Threads/Tests.antt =====
-- A message that travels through a logger of two threads and a writer.
use app_simple_log.Prelude.{
  codes, Bytes, bytes_eq, find_last_of, length, ℕ, ◌+◌, ◌≤◌, ◌<◌, ◌≡◌, Bool, true, false, [], ◌∷◌,
  ◌++◌, ◌∙◌, ap, some, refl, count_if, total, update, arith,
}
use app_simple_log.Level.{LogLevel, should_log}
use app_simple_log.Entry.{LogEntry, Runtime, format_log_entry}
use app_simple_log.Disk.{contents_of}
use app_simple_log.Interleave.{start, later, picked}
use app_simple_log.Queue.Refine.{capacity-create}
use app_simple_log.FileManager.State
use app_simple_log.FileManager.Ownership.{macos}
use app_simple_log.AsyncLogger.{Components, initialize, set_log_level, create}
use app_simple_log.AsyncLogger.Messages.{IsIdle}
use app_simple_log.AsyncLogger.Session.{started-IsIdle, started, made}
use app_simple_log.AsyncLogger.Delivery.{IsReliable, waiting, queue_fifo, ring_fifo, printed}
use app_simple_log.AsyncLogger.Tests.{disk, runtime, memory, blank, components, started_disk, idle}
use app_simple_log.AsyncLogger.Threads.{
  releasing, Move, Shared, Pc, System, Moves, pass, log, push, release, test, acquire, wake,
  pop_queue, pop_ring, write, return_loop,
}
use app_simple_log.AsyncLogger.Threads.Inv.{hand, queued, ringed}
use app_simple_log.AsyncLogger.Threads.Safety.{
  append_empty, Reach, rests, nothing_lost, rest_writes_all,
}
use app_simple_log.AsyncLogger.Threads.Wakes.{release_past_max}
use app_simple_log.AsyncLogger.Threads.Late.{offer_first, only, Reaches, late_message_lost}

abbrev entry : LogEntry
entry = record (blank) { level = LogLevel.error }

room : 0 < queue_fifo.capacity components.async_queue
room = omega (arith, capacity-create LogEntry 1)

abbrev Reached : System → Type 0
Reached =
    Reach runtime blank memory 9 3 idle.0 components started_disk LogLevel.info idle.2.ready idle.3

moves :
    (i : ℕ) {s : System} {p q : Pc} {m : Shared}
    → i < 3
    → s.pc i ≡ p
    → Move runtime blank memory s.mem p m q
    → Reached s
    → Reached (record { mem = m; pc = update s.pc i q })
moves i lt here mv r = later r (picked (Moves runtime blank memory 3) i here (lt, mv))

-- Thread 1 logs the entry, and the writer takes it to the file and waits again.
abbrev Delivered : Type 0
Delivered =
    (s : System) × Reached s
    × (s.mem.pushes ≤ 9)
    × (s.mem.initialized ≡ true)
    × (s.mem.semaphore ≡ 0)
    × ((i : ℕ) → i < 3 → rests (s.pc i) ≡ true)

delivered : Delivered
unfolding should_log format_log_entry
delivered =
    let (queue_empty, ring_empty) = append_empty _ _ idle.3 in
    let (q, pushed, q_holds, q_size, q_ok) =
      queue_fifo.push_offers 8 components.async_queue entry idle.2.ready.queue_valid in
    let taken =
      offer_first (queue_fifo.capacity components.async_queue)
        (queue_fifo.contents components.async_queue) entry room queue_empty in
    let (q', popped, none_left, q'_size, q'_ok) = queue_fifo.pop_drains 8 q q_ok in
    let (r, drained, r_empty, r_size, r_ok) =
      (ring_fifo blank).pop_drains 9 components.ring_buffer idle.2.ready.ring_valid in
    let entered =
      moves 1 (omega arith) refl (log entry refl)
        (moves 1 (omega arith) refl (pass LogLevel.error refl) start) in
    let released = moves 1 (omega arith) refl (release (omega arith)) (
      moves 1 (omega arith) refl (push (pushed ∙ ap (λ b. some (b, q)) (ap (λ x. x.0) taken)))
        entered) in
    let woken =
      moves 0 (omega arith) refl (acquire (omega arith))
        (moves 0 (omega arith) refl (test refl) released) in
    let emptied =
      moves 0 (omega arith) refl
        (pop_queue (popped ∙ ap (λ es. some (es, q')) (q_holds ∙ ap (λ x. x.1) taken)))
        (moves 0 (omega arith) refl (wake refl) woken) in
    let swept =
      moves 0 (omega arith) refl (pop_ring (only drained ∙ ap (λ es. (es, r)) ring_empty))
        emptied in
    let written = moves 0 (omega arith) refl (write refl) swept in
    let back =
      moves 0 (omega arith) refl (test refl) (moves 0 (omega arith) refl return_loop written) in
    (_, back, omega arith, refl, refl, λ i lt. ground arith)

abbrev after : System
after = delivered.0

abbrev test_all : LogEntry → Bool
test_all e = true

nothing_lost_example :
    (count_if test_all after.mem.asked
      ≡ count_if test_all after.mem.written
        + count_if test_all after.mem.dropped
        + count_if test_all (queued blank after.mem)
        + count_if test_all (ringed blank after.mem)
        + total (λ j. count_if test_all (hand (after.pc j))) 3)
    × (contents_of idle.0 after.mem.disk
        ≡ contents_of idle.0 started_disk ++ printed runtime memory after.mem.written)
nothing_lost_example =
    nothing_lost runtime blank memory 9 3 idle.0 components started_disk LogLevel.info idle.2.ready
      idle.3 delivered.1 delivered.2 test_all

rest_writes_all_example :
    (queued blank after.mem ≡ [])
    × (ringed blank after.mem ≡ [])
    × (count_if test_all after.mem.asked
        ≡ count_if test_all after.mem.written + count_if test_all after.mem.dropped)
    × (contents_of idle.0 after.mem.disk
        ≡ contents_of idle.0 started_disk ++ printed runtime memory after.mem.written)
rest_writes_all_example =
    rest_writes_all runtime blank memory 9 3 idle.0 components started_disk LogLevel.info
      idle.2.ready idle.3 delivered.1 delivered.2 test_all delivered.3 delivered.4 delivered.5

late_message_lost_example :
    (s : System) × Reaches runtime blank memory 8 3 idle.0 components started_disk LogLevel.info
      idle.2.ready idle.3 s
    × ((i : ℕ) → rests (s.pc i) ≡ true)
    × (s.mem.initialized ≡ false)
    × (s.mem.asked ≡ entry ∷ [])
    × (s.mem.written ≡ [])
    × (s.mem.dropped ≡ [])
    × (queued blank s.mem ≡ entry ∷ [])
    × (s.mem.disk ≡ started_disk)
unfolding should_log
late_message_lost_example =
    late_message_lost runtime blank memory 8 3 idle.0 components started_disk LogLevel.info
      idle.2.ready idle.3 (omega arith) room entry refl

-- A semaphore that counts to 1 at most, and a queue of two slots.
abbrev narrow : Runtime
narrow = record runtime { semaphore_spare = 0 }

abbrev two : Components
two = made narrow blank memory macos length (codes "app") 4 LogLevel.info 2 disk

two_starts :
    (started narrow blank memory macos length (codes "app") 4 LogLevel.info 2 disk).0 ≡ true
unfolding initialize State.initialize State.create find_last_of bytes_eq set_log_level create
two_starts = refl

two-IsReliable :
    IsReliable (started narrow blank memory macos length (codes "app") 4 LogLevel.info 2 disk).2
unfolding initialize State.initialize State.create find_last_of bytes_eq set_log_level create
two-IsReliable text = omega arith

abbrev two_idle :
    (path : Bytes) × (two.file_manager.file_handle ≡ some path)
    × IsIdle narrow blank memory path LogLevel.info 4 9
        (started narrow blank memory macos length (codes "app") 4 LogLevel.info 2 disk).1
        (started narrow blank memory macos length (codes "app") 4 LogLevel.info 2 disk).2
        two
    × (waiting blank two ≡ [])
two_idle =
    started-IsIdle narrow blank memory macos length (codes "app") 4 LogLevel.info 2 9 disk
      (omega arith) (omega arith) (omega arith) two_starts two-IsReliable

release_past_max_example :
    (s : System) × Reaches narrow blank memory 8 3 two_idle.0 two
      (started narrow blank memory macos length (codes "app") 4 LogLevel.info 2 disk).2
      LogLevel.info
      two_idle.2.ready
      two_idle.3
      s
    × (s.mem.semaphore ≡ 1)
    × (s.pc 1 ≡ releasing)
    × (s.mem.initialized ≡ true)
    × (length (queued blank s.mem) ≡ 2)
unfolding should_log
release_past_max_example =
    release_past_max narrow blank memory 8 3 two_idle.0 two
      (started narrow blank memory macos length (codes "app") 4 LogLevel.info 2 disk).2
      LogLevel.info two_idle.2.ready two_idle.3 entry (omega arith) refl
      (omega (arith, capacity-create LogEntry 2)) (omega arith)

error_passes : should_log LogLevel.error LogLevel.info ≡ true
unfolding should_log
error_passes = refl

-- Thread 1 is about to push its entry.
abbrev called : (s : System) × Reached s
called = (
  _,
  moves 1 (omega arith) refl (log entry refl)
      (moves 1 (omega arith) refl (pass LogLevel.error error_passes) start),
)
