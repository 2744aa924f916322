-- ===== src/CrashHandler/Threads/Requests.antt =====
-- What becomes of the requests of a flush: src/src/crash_handler.cpp.
use app_simple_log.Prelude.{
  sym, ℕ, zero, suc, ◌+◌, ◌≤◌, ◌<◌, ◌≡◌, ◌⊎◌, inl, inr, refl, ap, ◌∙◌, Bool, true, false, none,
  some, total, total-update, total-zero, update, if◌then◌else◌, arith,
}
use app_simple_log.Interleave.{Interleaved, pick, start, later}
use app_simple_log.CrashHandler.{
  Signal, segv, abrt, Disposition, Statics, CrashHandler, sig_default, sig_ignored, set_signal,
  emergency_flush,
}
use app_simple_log.CrashHandler.Threads.{
  Shared, Pc, running, caught, requesting, restoring, raising, polling, exchanging, flushing,
  sleeping, stopped, deliver, kill, ignore, request, restore, raise, raise_ignored, poll, stop,
  exchange, find_none, flush, wake, Move, Moves, System, init, Reach,
}

-- 1 for a monitor that has taken a request and is about to flush.
abbrev pub takes : Pc → ℕ
takes flushing = 1
takes p = 0

abbrev pub bit : Bool → ℕ
bit b = if b then 1 else 0

-- `n` flushes, one after another.
abbrev pub flushed : {W : Type 0} → Statics W → ℕ → W → W
flushed s zero w = w
flushed s (suc n) w = emergency_flush s (flushed s n w)

pub set_signal-flush_callback :
    {W : Type 0} (s : Signal) (to : Disposition) (statics : Statics W)
    → (set_signal s to statics).flush_callback ≡ statics.flush_callback
set_signal-flush_callback segv to statics = refl
set_signal-flush_callback abrt to statics = refl

set_signal-flush_requested :
    {W : Type 0} (s : Signal) (to : Disposition) (statics : Statics W)
    → (set_signal s to statics).flush_requested ≡ statics.flush_requested
set_signal-flush_requested segv to statics = refl
set_signal-flush_requested abrt to statics = refl

pub emergency_flush-same_callback :
    {W : Type 0} (s s' : Statics W) (w : W)
    → s.flush_callback ≡ s'.flush_callback
    → emergency_flush s w ≡ emergency_flush s' w
unfolding emergency_flush
emergency_flush-same_callback s s' w same =
    ap (λ c. elim c [ none ↦ w | some callback ↦ (callback w).0 ]) same

module _ {W : Type 0} (threads : ℕ) (first : Statics W) (w : W) where
  record Inv (m : Shared W) (pc : ℕ → Pc) : Type 0 where
    counted : m.flushes + total (λ j. takes (pc j)) threads ≡ m.takings
    bounded : m.takings + bit m.statics.flush_requested ≤ m.requests
    kept : (m.requests ≡ m.served) ⊎ (m.statics.flush_requested ≡ true)
    callback : m.statics.flush_callback ≡ first.flush_callback
    worked : m.world ≡ flushed first m.flushes w

  module _ {m : Shared W} {pc : ℕ → Pc} (inv : Inv m pc) (i : ℕ) (lt : i < threads) where
    moves :
        (p p' : Pc)
        → pc i ≡ p
        → total (λ j. takes (update pc i p' j)) threads + takes p
          ≡ total (λ j. takes (pc j)) threads + takes p'
    moves p p' here = omega (arith, total-update takes pc i threads p' lt, ap takes here)

    -- A step that flushes nothing.
    step-Inv :
        (p p' : Pc) (statics : Statics W) (ended : Bool) (requests served takings : ℕ)
        → pc i ≡ p
        → statics.flush_callback ≡ m.statics.flush_callback
        → takes p' + m.takings ≡ takes p + takings
        → takings + bit statics.flush_requested + m.requests
          ≤ m.takings + bit m.statics.flush_requested + requests
        → ((requests ≡ m.requests)
              × (served ≡ m.served)
              × (statics.flush_requested ≡ m.statics.flush_requested)
            ⊎ (requests ≡ served)
            ⊎ (statics.flush_requested ≡ true))
        → Inv
            (record m {
              statics = statics;
              ended = ended;
              requests = requests;
              served = served;
              takings = takings;
            })
            (update pc i p')
    step-Inv p p' statics ended requests served takings here same counts bounds keeps = record {
      counted = omega (arith, inv.counted, moves p p' here, counts);
      bounded = omega (arith, inv.bounded, bounds);
      kept = elim keeps [
        | inl (none_new, as_served, equal) ↦ elim inv.kept [
          | inl all_served ↦ inl (none_new ∙ all_served ∙ sym as_served)
          | inr stands ↦ inr (equal ∙ stands)
        ]
        | inr now ↦ now
      ];
      callback = same ∙ inv.callback;
      worked = inv.worked;
    }

    -- A change of a disposition.
    signal-Inv :
        (p p' : Pc) (s : Signal) (to : Disposition)
        → pc i ≡ p
        → takes p' ≡ takes p
        → Inv (record m { statics = set_signal s to m.statics }) (update pc i p')
    signal-Inv p p' s to here same =
        let requested = set_signal-flush_requested s to m.statics in
        step-Inv p p' (set_signal s to m.statics) m.ended m.requests m.served m.takings here
          (set_signal-flush_callback s to m.statics) (omega (arith, same))
          (omega (arith, ap bit requested)) (inl (refl, refl, requested))

    still-Inv :
        (p p' : Pc) (ended : Bool)
        → pc i ≡ p
        → takes p' ≡ takes p
        → Inv (record m { ended = ended }) (update pc i p')
    still-Inv p p' ended here same =
        step-Inv p p' m.statics ended m.requests m.served m.takings here refl (omega (arith, same))
          (omega arith) (inl (refl, refl, refl))

    Move-Inv : {p p' : Pc} {m' : Shared W} → Move m p m' p' → pc i ≡ p → Inv m' (update pc i p')
    Move-Inv (deliver s on known) here = signal-Inv running (caught s) s sig_default here refl
    Move-Inv (kill s on unknown) here = still-Inv running running true here refl
    Move-Inv (ignore {s} on) here = signal-Inv (caught s) (requesting s) s sig_ignored here refl
    Move-Inv (request {s} on) here =
        step-Inv (requesting s) (restoring s) (record (m.statics) { flush_requested = true })
          m.ended (m.requests + 1) m.served m.takings here refl (omega arith) (ground arith)
          (inr (inr refl))
    Move-Inv (restore {s} on) here = signal-Inv (restoring s) (raising s) s sig_default here refl
    Move-Inv (raise {s} on unknown) here = still-Inv (raising s) (raising s) true here refl
    Move-Inv (raise_ignored {s} on ignored) here = still-Inv (raising s) running m.ended here refl
    Move-Inv (poll on goes) here = still-Inv polling exchanging m.ended here refl
    Move-Inv (stop on stops) here = still-Inv polling stopped m.ended here refl
    Move-Inv (exchange on asked) here =
        step-Inv exchanging flushing (record (m.statics) { flush_requested = false }) m.ended
          m.requests m.requests (m.takings + 1) here refl (omega arith)
          (omega (arith, ap bit asked)) (inr (inl refl))
    Move-Inv (find_none on none_asked) here = still-Inv exchanging sleeping m.ended here refl
    Move-Inv (flush on) here = record {
      counted = omega (arith, inv.counted, moves flushing sleeping here);
      bounded = inv.bounded;
      kept = inv.kept;
      callback = inv.callback;
      worked =
          emergency_flush-same_callback m.statics first m.world inv.callback
          ∙ ap (emergency_flush first) inv.worked
          ∙ ap (λ n. flushed first n w) {x = suc m.flushes} (omega arith);
    }
    Move-Inv (wake on) here = still-Inv sleeping polling m.ended here refl

module _ {W : Type 0} (threads : ℕ) (first : Statics W) (h : CrashHandler) (w : W)
    (unasked : first.flush_requested ≡ false) where
  init-Inv : Inv threads first w (init first h w).mem (init first h w).pc
  init-Inv = record {
    counted = omega (arith, total-zero takes (init first h w).pc threads (λ j lt. ground arith));
    bounded = omega (arith, ap bit unasked);
    kept = inl refl;
    callback = refl;
    worked = refl;
  }

  Interleaved-Inv :
      {s t : System W}
      → Interleaved (Moves threads) s t
      → Inv threads first w s.mem s.pc
      → Inv threads first w t.mem t.pc
  Interleaved-Inv (pick i (lt, mv)) inv = Move-Inv threads first w inv i lt mv refl

  Reach-Inv : {s : System W} → Reach threads first h w s → Inv threads first w s.mem s.pc
  Reach-Inv start = init-Inv
  Reach-Inv (later r st) = Interleaved-Inv st (Reach-Inv r)

  -- No request of a flush is lost while the process lives: however signals, their handlers and the
  -- monitor interleave, from statics without a request, in every reachable state either every
  -- request was made before a monitor last took the flag, or the flag stands. Each taking of the flag has
  -- its own flush, which has been made or is about to begin; there are no more takings, with the flag that
  -- stands, than requests; and the world is what the flushes made of it.
  pub requests_kept :
      {s : System W}
      → Reach threads first h w s
      → ((s.mem.requests ≡ s.mem.served) ⊎ (s.mem.statics.flush_requested ≡ true))
        × (s.mem.flushes + total (λ j. takes (s.pc j)) threads ≡ s.mem.takings)
        × (s.mem.takings + bit s.mem.statics.flush_requested ≤ s.mem.requests)
        × (s.mem.world ≡ flushed first s.mem.flushes w)
  requests_kept r = let inv = Reach-Inv r in (inv.kept, inv.counted, inv.bounded, inv.worked)
