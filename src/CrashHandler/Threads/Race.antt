-- ===== src/CrashHandler/Threads/Race.antt =====
-- The monitor races with the end of the process: src/src/crash_handler.cpp.
use app_simple_log.Prelude.{ℕ, ◌≡◌, refl, ◌<◌, ◌∙◌, true, false, update, arith}
use app_simple_log.Interleave.{start, later, picked}
use app_simple_log.CrashHandler.{
  Signal, segv, abrt, Statics, CrashHandler, handled, sig_default, sig_ignored, signal_of,
  set_signal, emergency_flush,
}
use app_simple_log.CrashHandler.Threads.Requests.{
  set_signal-flush_callback, emergency_flush-same_callback,
}
use app_simple_log.CrashHandler.Threads.{
  Shared, Pc, deliver, ignore, request, restore, raise, poll, exchange, flush, Move, Moves, System,
  Reach,
}

-- A signal set to an action has that action.
signal_of-set_signal :
    {W : Type 0} (s : Signal) (statics : Statics W)
    → signal_of s (set_signal s sig_default statics) ≡ sig_default
signal_of-set_signal segv statics = refl
signal_of-set_signal abrt statics = refl

module _ {W : Type 0} (threads : ℕ) (first : Statics W) (h : CrashHandler) (w : W) where
  moves :
      (i : ℕ) {s : System W} {p q : Pc} {m : Shared W}
      → i < threads
      → s.pc i ≡ p
      → Move s.mem p m q
      → Reach threads first h w s
      → Reach threads first h w (record { mem = m; pc = update s.pc i q })
  moves i lt here mv r = later r (picked (Moves threads) i here (lt, mv))

  -- Whether the entries are saved hangs on the scheduler: for a process whose monitor is at the head of
  -- its loop and not told to stop, with two threads or more, and a signal that the handler is set
  -- for, an ended process can be reached both with a request of a flush and a world on which the flush
  -- callback was never called, and with a request and a world on which it was called once.
  pub crash_race :
      (signal : Signal)
      → 1 < threads
      → signal_of signal first ≡ handled
      → h.stop_monitor ≡ false
      → ((s : System W) × Reach threads first h w s
          × (s.mem.ended ≡ true)
          × (s.mem.requests ≡ 1)
          × (s.mem.world ≡ w))
        × ((s : System W) × Reach threads first h w s
            × (s.mem.ended ≡ true)
            × (s.mem.requests ≡ 1)
            × (s.mem.world ≡ emergency_flush first w))
  crash_race signal many known goes =
      let callback =
        set_signal-flush_callback signal sig_ignored (set_signal signal sig_default first)
        ∙ set_signal-flush_callback signal sig_default first in
      let same = emergency_flush-same_callback _ first w callback in
      let zeroth : 0 < threads = omega arith in
      let caught =
        moves 1 many refl (ignore refl) (moves 1 many refl (deliver signal refl known) start) in
      let asked = moves 1 many refl (request refl) caught in
      let restored = moves 1 many refl (restore refl) asked in
      let polled =
        moves 0 zeroth refl (exchange refl refl) (moves 0 zeroth refl (poll refl goes) asked) in
      let worked = moves 1 many refl (restore refl) (moves 0 zeroth refl (flush refl) polled) in
      (
        (
          _,
          moves 1 many refl (raise refl (signal_of-set_signal signal _)) restored,
          refl,
          refl,
          refl,
        ),
        (
          _,
          moves 1 many refl (raise refl (signal_of-set_signal signal _)) worked,
          refl,
          refl,
          same,
        ),
      )
