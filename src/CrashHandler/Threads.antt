-- ===== src/CrashHandler/Threads.antt =====
-- A crash beside the monitor, which runs on Windows only: `signalHandler` and the loop of `startMonitor` of
-- src/src/crash_handler.cpp with one step for each access to a static member, to the disposition of a
-- signal or to the world of the flush callback. The callback stays as it was set. Waking from the sleep
-- of 100 ms is a step, as early or late as the scheduler likes. The delivery of a signal to a handler
-- puts the default action back (SA_RESETHAND, and `signal` on Windows). When the process has ended, no
-- thread moves.
pub mod Requests
pub mod Race
mod Tests
use app_simple_log.Prelude.{◌<◌, ℕ, ◌+◌, ◌≡◌, Bool, true, false, update}
use app_simple_log.Interleave.{Threads, Reachable}
use app_simple_log.CrashHandler.{
  Signal, Statics, CrashHandler, handled, sig_ignored, sig_default, signal_of, set_signal,
  emergency_flush,
}

-- What the threads share, and what no step reads: how many requests of a flush there were, how
-- many there had been when a monitor last took the flag, how often one took it, and the flushes.
pub record Shared (W : Type 0) : Type 0 where
  pub statics : Statics W
  pub handler : CrashHandler
  pub world : W
  pub ended : Bool
  pub requests : ℕ
  pub served : ℕ
  pub takings : ℕ
  pub flushes : ℕ

pub data Pc : Type 0 where
  running : Pc  -- in the program, outside of the handler
  caught : Signal → Pc  -- start of `signalHandler`
  requesting : Signal → Pc
  restoring : Signal → Pc
  raising : Signal → Pc
  polling : Pc  -- the monitor at the head of its loop
  exchanging : Pc
  flushing : Pc
  sleeping : Pc
  stopped : Pc

-- One step of one thread.
pub data Move {W : Type 0} (m : Shared W) : Pc → Shared W → Pc → Type 0 where
  deliver :
      (s : Signal)
      → m.ended ≡ false
      → signal_of s m.statics ≡ handled
      → Move m running (record m { statics = set_signal s sig_default m.statics }) (caught s)
  kill :
      (s : Signal)
      → m.ended ≡ false
      → signal_of s m.statics ≡ sig_default
      → Move m running (record m { ended = true }) running
  ignore :
      {s : Signal}
      → m.ended ≡ false
      → Move m (caught s) (record m { statics = set_signal s sig_ignored m.statics }) (requesting s)
  request :
      {s : Signal}
      → m.ended ≡ false
      → Move m
          (requesting s)
          (record m {
            statics = record (m.statics) { flush_requested = true };
            requests = m.requests + 1;
          })
          (restoring s)
  restore :
      {s : Signal}
      → m.ended ≡ false
      → Move m (restoring s) (record m { statics = set_signal s sig_default m.statics }) (raising s)
  raise :
      {s : Signal}
      → m.ended ≡ false
      → signal_of s m.statics ≡ sig_default
      → Move m (raising s) (record m { ended = true }) (raising s)
  raise_ignored :
      {s : Signal}
      → m.ended ≡ false
      → signal_of s m.statics ≡ sig_ignored
      → Move m (raising s) m running
  poll : m.ended ≡ false → m.handler.stop_monitor ≡ false → Move m polling m exchanging
  stop : m.ended ≡ false → m.handler.stop_monitor ≡ true → Move m polling m stopped
  exchange :
      m.ended ≡ false
      → m.statics.flush_requested ≡ true
      → Move m exchanging
          (record m {
            statics = record (m.statics) { flush_requested = false };
            served = m.requests;
            takings = m.takings + 1;
          })
          flushing
  find_none : m.ended ≡ false → m.statics.flush_requested ≡ false → Move m exchanging m sleeping
  flush :
      m.ended ≡ false
      → Move m flushing
          (record m { world = emergency_flush m.statics m.world; flushes = m.flushes + 1 })
          sleeping
  wake : m.ended ≡ false → Move m sleeping m polling

-- The threads below `threads` move; thread 0 is the monitor.
abbrev pub Moves : {W : Type 0} → ℕ → ℕ → Shared W → Pc → Shared W → Pc → Type 0
Moves threads i m p m' p' = (i < threads) × Move m p m' p'

abbrev pub System : Type 0 → Type 0
System W = Threads (Shared W) Pc

-- A process with a monitor at the head of its loop.
abbrev pub init : {W : Type 0} → Statics W → CrashHandler → W → System W
init s h w = record {
  mem = record {
    statics = s;
    handler = h;
    world = w;
    ended = false;
    requests = 0;
    served = 0;
    takings = 0;
    flushes = 0;
  };
  pc = update (λ i. running) 0 polling;
}

abbrev pub Reach : {W : Type 0} → ℕ → Statics W → CrashHandler → W → System W → Type 0
Reach threads s h w = Reachable (Moves threads) (init s h w)
