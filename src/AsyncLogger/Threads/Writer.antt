-- ===== src/AsyncLogger/Threads/Writer.antt =====
-- Thread 0 of the logger stays in the function of the writer: src/src/async_logger.cpp.
use app_simple_log.Prelude.{◌≡◌, ◌⊎◌, inl, inr, refl, Bool, true, false}
use app_simple_log.Entry.{Memory, LogEntry, Runtime}
use app_simple_log.AsyncLogger.Threads.{
  Shared, Back, loop, ending, Pc, flushing, draining, writing, testing, acquiring, awake, exited,
  Move, return_ending, leave, return_loop, test, acquire, wake, wake_last, pop_queue, pop_ring,
  write,
}

abbrev of_writer : Back → Bool
of_writer loop = true
of_writer ending = true
of_writer back = false

abbrev works : Pc → Bool
works testing = true
works acquiring = true
works awake = true
works (flushing back) = of_writer back
works (draining back es) = of_writer back
works (writing back es) = of_writer back
works p = false

-- In the loop of the writer or in its last flush, or at the end.
abbrev pub IsWriter : Shared → Pc → Type 0
IsWriter m p = (works p ≡ true) ⊎ ((p ≡ exited) × (m.ended ≡ true))

module _ {runtime : Runtime} {blank : LogEntry} {memory : Memory} where
  pub Move-ended :
      {m m' : Shared} {p p' : Pc}
      → Move runtime blank memory m p m' p'
      → m.ended ≡ true
      → m'.ended ≡ true
  Move-ended return_ending over = refl
  Move-ended (leave stops) over = refl
  Move-ended mv over = over

  works-IsWriter :
      {m m' : Shared} {p p' : Pc}
      → Move runtime blank memory m p m' p'
      → works p ≡ true
      → IsWriter m' p'
  works-IsWriter return_ending w = inr (refl, refl)
  works-IsWriter (leave stops) w = inr (refl, refl)
  works-IsWriter return_loop w = inl refl
  works-IsWriter (test goes) w = inl refl
  works-IsWriter (acquire up) w = inl refl
  works-IsWriter (wake goes) w = inl refl
  works-IsWriter (wake_last stops) w = inl refl
  works-IsWriter (pop_queue ran) w = inl w
  works-IsWriter (pop_ring ran) w = inl w
  works-IsWriter (write printed) w = inl w
  works-IsWriter mv w = absurd cc

  exited-stays :
      {m m' : Shared} {p p' : Pc}
      → Move runtime blank memory m p m' p'
      → p ≡ exited
      → IsWriter m' p'
  exited-stays return_loop here = absurd cc
  exited-stays mv here = absurd cc

  pub Move-IsWriter :
      {m m' : Shared} {p p' : Pc}
      → Move runtime blank memory m p m' p'
      → IsWriter m p
      → IsWriter m' p'
  Move-IsWriter mv (inl w) = works-IsWriter mv w
  Move-IsWriter mv (inr (here, over)) = exited-stays mv here
