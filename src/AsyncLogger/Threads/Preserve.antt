-- ===== src/AsyncLogger/Threads/Preserve.antt =====
-- Every step of every thread keeps the invariant of the shared logger.
use app_simple_log.Prelude.{
  total-ge, ℕ, ◌+◌, ◌-◌, ◌≤◌, ◌<◌, ◌≡◌, inl, inr, refl, ap, true, false, [], ◌∷◌, ◌++◌, Bytes,
  count_if-append, update, arith,
}
use app_simple_log.Entry.{Memory, LogEntry, Runtime}
use app_simple_log.AsyncLogger.Threads.{
  Shared, caller, loop, ending, closing, Pc, idle, entering, logging, releasing, overflowing,
  flushing, draining, writing, emergency, saving, testing, acquiring, awake, notifying, joining,
  Move, pass, skip, log, filter, reject, set_log_level, push, full, release, keep, drop, flush,
  pop_queue, pop_ring, write, return_caller, return_loop, return_ending, return_closing, rescue,
  rescue_queue, save, rescue_ring, test, leave, acquire, wake, wake_last, deinitialize, notify,
  join,
}
use app_simple_log.AsyncLogger.Threads.Inv.{lasts, Inv}
use app_simple_log.AsyncLogger.Threads.Keep.{local-Inv, line-Inv}
use app_simple_log.AsyncLogger.Threads.Steps.{
  silent, still, signal, ends, queue_push, ring_push, queue_pop, ring_pop,
}

module _ (runtime : Runtime) (blank : LogEntry) (memory : Memory) (budget threads : ℕ)
    (path base : Bytes) {m : Shared} {pc : ℕ → Pc}
    (inv : Inv runtime blank memory budget threads path base m pc) (i : ℕ) (lt : i < threads) where
  abbrev Kept : Shared → Pc → Type 0
  Kept m' p' = Inv runtime blank memory budget threads path base m' (update pc i p')

  stops_at_last : pc i ≡ writing ending [] → m.stop ≡ true
  stops_at_last here = elim inv.final [
    | inl stops ↦ stops
    | inr none_last ↦
        absurd (omega (arith, total-ge (λ j. lasts (pc j)) i threads lt, ap lasts here))
  ]

  pub Move-Inv :
      {p p' : Pc} {m' : Shared}
      → Move runtime blank memory m p m' p'
      → pc i ≡ p
      → m'.pushes ≤ budget
      → Kept m' p'
  Move-Inv (log e on) here fits =
      local-Inv inv i (entering e.level) (logging e) lt here m.semaphore m.min_level m.initialized
        m.stop m.ended (m.asked ++ e ∷ []) m.dropped
        (λ t. omega (arith, count_if-append t m.asked (e ∷ []))) (inr (refl, omega arith))
        (inl refl) (inr (omega arith)) (omega arith) (inr (refl, omega arith)) inv.over
  Move-Inv (pass level passes) here fits = still inv i lt idle (entering level) here refl refl
  Move-Inv (skip off) here fits = still inv i lt idle idle here refl refl
  Move-Inv (filter level stays) here fits = still inv i lt idle idle here refl refl
  Move-Inv (reject {level} off) here fits = still inv i lt (entering level) idle here refl refl
  Move-Inv (set_log_level level) here fits =
      local-Inv inv i idle idle lt here m.semaphore level m.initialized m.stop m.ended m.asked
        m.dropped (λ t. refl) (inr (refl, omega arith)) (inl refl) (inr (omega arith)) (omega arith)
        (inr (refl, omega arith)) inv.over
  Move-Inv (push {e} {q} ran) here fits =
      queue_push inv i lt e true q releasing here fits ran (λ t. refl) (inr refl) (omega arith)
  Move-Inv (full {e} {q} ran) here fits =
      queue_push inv i lt e false q (overflowing e) here fits ran (λ t. omega arith) (inl refl)
        (omega arith)
  Move-Inv (release below) here fits =
      signal inv i lt releasing idle (m.semaphore + 1) here (λ t. refl) (ground (arith, inv.over))
        (omega arith) (omega arith) (omega arith)
  Move-Inv (keep {e} {r} ran) here fits =
      ring_push inv i lt e true r m.dropped (flushing caller) here fits ran (λ t. omega arith)
        (inr refl) (omega arith)
  Move-Inv (drop {e} {r} ran) here fits =
      ring_push inv i lt e false r (m.dropped ++ e ∷ []) idle here fits ran
        (λ t. omega (arith, count_if-append t m.dropped (e ∷ []))) (inl refl) (omega arith)
  Move-Inv flush here fits = still inv i lt idle (flushing caller) here refl refl
  Move-Inv (pop_queue {back} {es} {q} ran) here fits =
      queue_pop inv i lt es q (flushing back) (draining back es) here ran (λ t. omega arith)
        (omega arith) (omega arith) (omega arith)
  Move-Inv (pop_ring {back} {es} {rs} {r} ran) here fits =
      ring_pop inv i lt rs r (draining back es) (writing back (es ++ rs)) here ran
        (λ t. count_if-append t es rs) (omega arith) (omega arith) (omega arith)
  Move-Inv (write {back} {e} {es} {text} formatted) here fits =
      line-Inv inv i (writing back (e ∷ es)) (writing back es) lt here text e formatted (λ t. refl)
        (omega arith) (omega arith) (omega arith) (omega arith)
  Move-Inv return_caller here fits = still inv i lt (writing caller []) idle here refl refl
  Move-Inv return_loop here fits = still inv i lt (writing loop []) testing here refl refl
  Move-Inv return_ending here fits =
      ends inv i lt (writing ending []) here (stops_at_last here) (λ t. refl) (omega arith)
        (omega arith)
  Move-Inv return_closing here fits =
      local-Inv inv i (writing closing []) idle lt here m.semaphore m.min_level false m.stop m.ended
        m.asked m.dropped (λ t. refl) (inl refl) (inl refl) (inr (omega arith)) (omega arith)
        (inr (refl, omega arith)) inv.over
  Move-Inv rescue here fits = still inv i lt idle emergency here refl refl
  Move-Inv (rescue_queue {es} {q} ran) here fits =
      queue_pop inv i lt es q emergency (saving es) here ran (λ t. omega arith) (omega arith)
        (omega arith) (omega arith)
  Move-Inv (save {e} {es} {text} formatted) here fits =
      line-Inv inv i (saving (e ∷ es)) (saving es) lt here text e formatted (λ t. refl)
        (omega arith) (omega arith) (omega arith) (omega arith)
  Move-Inv (rescue_ring {rs} {r} ran) here fits =
      ring_pop inv i lt rs r (saving []) (writing caller rs) here ran (λ t. omega arith)
        (omega arith) (omega arith) (omega arith)
  Move-Inv (test runs) here fits = still inv i lt testing acquiring here refl refl
  Move-Inv (leave stops) here fits =
      ends inv i lt testing here stops (λ t. refl) (omega arith) (omega arith)
  Move-Inv (acquire up) here fits =
      signal inv i lt acquiring awake (m.semaphore - 1) here (λ t. refl) (inr (ground (arith, up)))
        (omega arith) (omega arith) (omega arith)
  Move-Inv (wake runs) here fits = still inv i lt awake (flushing loop) here refl refl
  Move-Inv (wake_last stops) here fits =
      silent inv i lt awake (flushing ending) here (λ t. refl) (omega arith) (omega arith)
        (omega arith) (inl stops)
  Move-Inv (deinitialize on runs) here fits =
      local-Inv inv i idle notifying lt here m.semaphore m.min_level m.initialized true m.ended
        m.asked m.dropped (λ t. refl) (inr (refl, omega arith)) (inr refl) (inr (omega arith))
        (omega arith) (inl refl) (inr refl)
  Move-Inv (notify below) here fits =
      signal inv i lt notifying joining (m.semaphore + 1) here (λ t. refl) (inr (ground arith))
        (omega arith) (omega arith) (omega arith)
  Move-Inv (join over) here fits = still inv i lt joining (flushing closing) here refl refl
