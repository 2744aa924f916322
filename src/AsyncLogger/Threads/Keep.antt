-- ===== src/AsyncLogger/Threads/Keep.antt =====
-- How the invariant of the shared logger survives a step, by what the step changes.
use app_simple_log.Prelude.{
  ℕ, ◌+◌, ◌-◌, ◌≤◌, ◌<◌, ◌≡◌, ◌⊎◌, inl, inr, refl, sym, ap, ◌∙◌, Bool, true, false, List, [], ◌∷◌,
  ◌++◌, append_assoc, append-nil, some, Bytes, count_if, count_if-append, update, total,
  total-update, total-ge, at_update, if◌then◌else◌, arith,
}
use app_simple_log.Level.{LogLevel}
use app_simple_log.Entry.{Memory, LogEntry, Runtime, format_log_entry}
use app_simple_log.FileManager.Writing.{written_whole}
use app_simple_log.Queue.{AsyncQueue}
use app_simple_log.Ring.{RingBuffer}
use app_simple_log.AsyncLogger.Delivery.{
  queue_fifo, ring_fifo, keep-IsReliable, line_of, printed, printed-append,
}
use app_simple_log.AsyncLogger.Threads.{Shared, Pc, with_line}
use app_simple_log.AsyncLogger.Threads.Inv.{
  hand, wakes, sweeps, closes, lasts, signals, queued, ringed, Closing, Inv,
}

-- A thread moves, and a sum over the threads with it.
total-moved :
    (f : Pc → ℕ) (pc : ℕ → Pc) (i n : ℕ) (p p' : Pc)
    → i < n
    → pc i ≡ p
    → total (λ j. f (update pc i p' j)) n + f p ≡ total (λ j. f (pc j)) n + f p'
total-moved f pc i n p p' lt here = omega (arith, total-update f pc i n p' lt, ap f here)

module _ {runtime : Runtime} {blank : LogEntry} {memory : Memory} {budget threads : ℕ}
    {path base : Bytes} {m : Shared} {pc : ℕ → Pc}
    (inv : Inv runtime blank memory budget threads path base m pc) (i : ℕ) (p p' : Pc)
    (lt : i < threads) (here : pc i ≡ p) where
  abbrev sum : (Pc → ℕ) → ℕ
  sum f = total (λ j. f (pc j)) threads

  abbrev sum' : (Pc → ℕ) → ℕ
  sum' f = total (λ j. f (update pc i p' j)) threads

  moves : (f : Pc → ℕ) → sum' f + f p ≡ sum f + f p'
  moves f = total-moved f pc i threads p p' lt here

  has : (f : Pc → ℕ) → f p' ≤ sum' f
  has f = omega (arith, total-ge (λ j. f (update pc i p' j)) i threads lt, at_update f pc i p')

  abbrev Kept : Shared → Type 0
  Kept m' = Inv runtime blank memory budget threads path base m' (update pc i p')

  abbrev Closing' : Shared → Type 0
  Closing' m' = Closing runtime blank memory budget threads path base m' (update pc i p')

  Closing-kept :
      (m' : Shared)
      → (m'.initialized ≡ false) ⊎ ((m'.initialized ≡ m.initialized) × (closes p ≤ closes p'))
      → Closing runtime blank memory budget threads path base m pc
      → Closing' m'
  Closing-kept m' (inl over) c = inl over
  Closing-kept m' (inr (same, le)) (inl over) = inl (same ∙ over)
  Closing-kept m' (inr (same, le)) (inr some_close) = inr (omega (arith, moves closes))

  -- A step that leaves the buffers and the file alone.
  pub local-Inv :
      (semaphore : ℕ) (level : LogLevel) (initialized stop ended : Bool)
      (asked dropped : List LogEntry)
      → ((test : LogEntry → Bool)
          → count_if test asked + count_if test m.dropped + count_if test (hand p)
            ≡ count_if test m.asked + count_if test dropped + count_if test (hand p'))
      → ((initialized ≡ false) ⊎ ((initialized ≡ m.initialized) × (closes p ≤ closes p')))
      → ((stop ≡ m.stop) ⊎ (closes p' ≡ 1))
      → ((stop ≡ true) ⊎ (signals m + wakes p ≤ (if ended then 0 else semaphore) + wakes p'))
      → sweeps p ≤ sweeps p'
      → ((stop ≡ true) ⊎ ((stop ≡ m.stop) × (lasts p' ≤ lasts p)))
      → ((ended ≡ false) ⊎ (stop ≡ true))
      → Kept (record m {
        semaphore = semaphore;
        min_level = level;
        initialized = initialized;
        stop = stop;
        ended = ended;
        asked = asked;
        dropped = dropped;
      })
  local-Inv semaphore level initialized stop ended asked dropped counts close stopping waking
        sweeping final over =
      let m' : Shared = record m {
        semaphore = semaphore;
        min_level = level;
        initialized = initialized;
        stop = stop;
        ended = ended;
        asked = asked;
        dropped = dropped;
      } in
      let stopped' : (stop ≡ false) ⊎ Closing' m' = elim stopping [
        | inl same ↦ elim inv.stopped [
          | inl running ↦ inl (same ∙ running)
          | inr c ↦ inr (Closing-kept m' close c)
        ]
        | inr begins ↦ inr (inr (omega (arith, has closes)))
      ] in
      record {
        opened = inv.opened;
        reliable = inv.reliable;
        queue_valid = inv.queue_valid;
        ring_valid = inv.ring_valid;
        recorded = inv.recorded;
        balanced = λ test.
            omega (arith, counts test, inv.balanced test, moves (λ x. count_if test (hand x)));
        woken = elim inv.woken [
          | inl empty ↦ inl empty
          | inr (inl woken) ↦ elim waking [
            | inl stops ↦ elim stopped' [ inl running ↦ cc | inr c ↦ inr (inr c) ]
            | inr enough ↦ inr (inl (omega (arith, moves wakes)))
          ]
          | inr (inr c) ↦ inr (inr (Closing-kept m' close c))
        ];
        swept = elim inv.swept [
          | inl empty ↦ inl empty
          | inr swept ↦ inr (omega (arith, moves sweeps))
        ];
        stopped = stopped';
        final = elim final [
          | inl stops ↦ inl stops
          | inr (same, le) ↦ elim inv.final [
            | inl stops ↦ inl (same ∙ stops)
            | inr none_last ↦ inr (omega (arith, moves lasts))
          ]
        ];
        over = over;
      }

  -- A step that changes the buffers.
  pub store-Inv :
      (q : AsyncQueue LogEntry) (r : RingBuffer LogEntry) (dropped : List LogEntry) (pushes : ℕ)
      → queue_fifo.IsValid (budget - pushes) q
      → (ring_fifo blank).IsValid (budget - pushes) r
      → ((test : LogEntry → Bool)
          → count_if test m.dropped
              + count_if test (queued blank m)
              + count_if test (ringed blank m)
              + count_if test (hand p)
            ≡ count_if test dropped
              + count_if test (queue_fifo.contents q)
              + count_if test ((ring_fifo blank).contents r)
              + count_if test (hand p'))
      → ((queue_fifo.contents q ≡ [])
          ⊎ (wakes p' ≡ 1)
          ⊎ ((queue_fifo.contents q ≡ queued blank m) × (wakes p ≤ wakes p')))
      → (((ring_fifo blank).contents r ≡ [])
          ⊎ (sweeps p' ≡ 1)
          ⊎ (((ring_fifo blank).contents r ≡ ringed blank m) × (sweeps p ≤ sweeps p')))
      → closes p ≤ closes p'
      → lasts p' ≤ lasts p
      → Kept (record m {
        components = record (m.components) { async_queue = q; ring_buffer = r };
        dropped = dropped;
        pushes = pushes;
      })
  store-Inv q r dropped pushes queue_ok ring_ok counts waking sweeping close lasting =
      let m' : Shared = record m {
        components = record (m.components) { async_queue = q; ring_buffer = r };
        dropped = dropped;
        pushes = pushes;
      } in
      let kept = Closing-kept m' (inr (refl, close)) in
      record {
        opened = inv.opened;
        reliable = inv.reliable;
        queue_valid = queue_ok;
        ring_valid = ring_ok;
        recorded = inv.recorded;
        balanced = λ test.
            omega (arith, counts test, inv.balanced test, moves (λ x. count_if test (hand x)));
        woken = elim waking [
          | inl empty ↦ inl empty
          | inr (inl self) ↦ inr (inl (omega (arith, has wakes)))
          | inr (inr (same, le)) ↦ elim inv.woken [
            | inl empty ↦ inl (same ∙ empty)
            | inr (inl woken) ↦ inr (inl (omega (arith, moves wakes)))
            | inr (inr c) ↦ inr (inr (kept c))
          ]
        ];
        swept = elim sweeping [
          | inl empty ↦ inl empty
          | inr (inl self) ↦ inr (omega (arith, has sweeps))
          | inr (inr (same, le)) ↦ elim inv.swept [
            | inl empty ↦ inl (same ∙ empty)
            | inr swept ↦ inr (omega (arith, moves sweeps))
          ]
        ];
        stopped = elim inv.stopped [ inl running ↦ inl running | inr c ↦ inr (kept c) ];
        final = elim inv.final [
          | inl stops ↦ inl stops
          | inr none_last ↦ inr (omega (arith, moves lasts))
        ];
        over = inv.over;
      }

  -- A step that writes a line.
  pub line-Inv :
      (text : Bytes) (e : LogEntry)
      → format_log_entry runtime memory e ≡ some text
      → ((test : LogEntry → Bool)
          → count_if test (hand p) ≡ (if test e then 1 else 0) + count_if test (hand p'))
      → wakes p ≤ wakes p'
      → sweeps p ≤ sweeps p'
      → closes p ≤ closes p'
      → lasts p' ≤ lasts p
      → Kept (with_line m text e)
  line-Inv text e formatted counts waking sweeping close lasting =
      let m' : Shared = with_line m text e in
      let kept = Closing-kept m' (inr (refl, close)) in
      let (still, same_faults, grown) =
        written_whole text m.components.file_manager m.disk path inv.opened (inv.reliable text) in
      record {
        opened = still;
        reliable = keep-IsReliable m.disk m'.disk same_faults inv.reliable;
        queue_valid = inv.queue_valid;
        ring_valid = inv.ring_valid;
        recorded =
            grown
            ∙ ap (λ l. l ++ text) inv.recorded
            ∙ append_assoc base (printed runtime memory m.written) text
            ∙ ap (λ l. base ++ (printed runtime memory m.written ++ l))
                (sym (append-nil text) ∙ ap (λ o. line_of o ++ []) (sym formatted))
            ∙ ap (λ l. base ++ l) (sym (printed-append runtime memory m.written (e ∷ [])));
        balanced = λ test. omega (
          arith,
          counts test,
          inv.balanced test,
          moves (λ x. count_if test (hand x)),
          count_if-append test m.written (e ∷ []),
        );
        woken = elim inv.woken [
          | inl empty ↦ inl empty
          | inr (inl woken) ↦ inr (inl (omega (arith, moves wakes)))
          | inr (inr c) ↦ inr (inr (kept c))
        ];
        swept = elim inv.swept [
          | inl empty ↦ inl empty
          | inr swept ↦ inr (omega (arith, moves sweeps))
        ];
        stopped = elim inv.stopped [ inl running ↦ inl running | inr c ↦ inr (kept c) ];
        final = elim inv.final [
          | inl stops ↦ inl stops
          | inr none_last ↦ inr (omega (arith, moves lasts))
        ];
        over = inv.over;
      }
