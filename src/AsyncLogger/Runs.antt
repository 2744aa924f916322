-- ===== src/AsyncLogger/Runs.antt =====
-- A session of the logger: calls of `log` and rounds of the writer thread in any order, and the end
-- of the logger.
use mathlib.Core.Path.{subst}
use app_simple_log.Prelude.{
  ℕ, suc, ◌+◌, ◌-◌, ◌≡◌, refl, sym, ap, ◌∙◌, Bool, true, false, List, [], ◌∷◌, ◌++◌, Option, none,
  some, append_assoc, append-nil, Bytes, All, length, Bool-cases, inl, inr, ℤ, if◌then◌else◌, ltb,
  arith,
}
use app_simple_log.Level.{LogLevel, should_log}
use app_simple_log.Entry.{StringView, Memory, LogEntry, Runtime}
use app_simple_log.Disk.{Disk, contents_of}
use app_simple_log.AsyncLogger.{AsyncLogger, Components, flush, log, writer_round, deinitialize}
use app_simple_log.AsyncLogger.Delivery
use app_simple_log.AsyncLogger.Delivery.{IsAlive, printed-append, ring_fifo}
use app_simple_log.AsyncLogger.Messages.{
  IsIdle, flush-IsIdle, push_entry_lem, weaken-IsIdle, account_empty,
}

-- What happens to a running logger: a call of `log`, or a round of the writer thread.
pub data Event : Type 0 where
  message : LogLevel → StringView → StringView → ℤ → ℕ → Event
  wake : Event

-- The entries of the messages that pass the level, in the order of the calls.
unfoldable pub accepted : LogLevel → ℕ → List Event → List LogEntry
accepted minimum process_id [] = []
accepted minimum process_id (wake ∷ events) = accepted minimum process_id events
accepted minimum process_id (message level tag text now thread_id ∷ events) =
    let rest = accepted minimum process_id events in
    if should_log level minimum
    then record {
      level = level;
      timestamp_ms = now;
      process_id = process_id;
      thread_id = thread_id;
      tag = tag;
      message = text;
    }
      ∷ rest
    else rest

unfoldable pub step :
    Runtime → LogEntry → Memory → Event → AsyncLogger → Disk → Option (AsyncLogger × Disk)
step runtime blank memory (message level tag text now thread_id) l d =
    log runtime blank memory level tag text now thread_id l d
step runtime blank memory wake l d = writer_round runtime blank memory l d

unfoldable pub run :
    Runtime → LogEntry → Memory → List Event → AsyncLogger → Disk → Option (AsyncLogger × Disk)
run runtime blank memory [] l d = some (l, d)
run runtime blank memory (event ∷ events) l d = elim (step runtime blank memory event l d) [
  | none ↦ none
  | some (l', d') ↦ run runtime blank memory events l' d'
]

module _ (runtime : Runtime) (blank : LogEntry) (memory : Memory) (path : Bytes) (m : LogLevel)
    (pid : ℕ) where
  abbrev Idle : ℕ → AsyncLogger → Disk → Components → Type 0
  Idle = IsIdle runtime blank memory path m pid

  abbrev printed : List LogEntry → Bytes
  printed = Delivery.printed runtime memory

  abbrev account : Components → Disk → Bytes
  account = Delivery.account runtime blank memory path

  -- The call returns, the logger is idle again, and the account has grown by these lines.
  abbrev Grows : ℕ → List LogEntry → Bytes → Option (AsyncLogger × Disk) → Type 0
  Grows n es before result =
      (l' : AsyncLogger) × (d' : Disk) × (c' : Components) × (result ≡ some (l', d'))
      × Idle n l' d' c'
      × (account c' d' ≡ before ++ printed es)

  abbrev entry_of : LogLevel → StringView → StringView → ℤ → ℕ → LogEntry
  entry_of level tag text now thread_id = record {
    level = level;
    timestamp_ms = now;
    process_id = pid;
    thread_id = thread_id;
    tag = tag;
    message = text;
  }

  log_passing :
      (n : ℕ) (l : AsyncLogger) (d : Disk) (c : Components) (level : LogLevel)
      (tag text : StringView) (now : ℤ) (thread_id : ℕ)
      → Idle (suc n) l d c
      → should_log level m ≡ true
      → IsAlive runtime memory (entry_of level tag text now thread_id)
      → Grows n
          (entry_of level tag text now thread_id ∷ [])
          (account c d)
          (log runtime blank memory level tag text now thread_id l d)
  unfolding log
  log_passing n l d c level tag text now thread_id i passes alive =
      let (l', d', c', done, idle, grown) =
        push_entry_lem runtime blank memory path m pid n l d c
          (entry_of level tag text now thread_id) i alive in
      (l', d', c', ground (arith, done, passes, i.level, i.running, i.made, i.process), idle, grown)

  log_filtered :
      (n : ℕ) (l : AsyncLogger) (d : Disk) (c : Components) (level : LogLevel)
      (tag text : StringView) (now : ℤ) (thread_id : ℕ)
      → Idle (suc n) l d c
      → should_log level m ≡ false
      → Grows n [] (account c d) (log runtime blank memory level tag text now thread_id l d)
  unfolding log
  log_filtered n l d c level tag text now thread_id i filtered = (
    l,
    d,
    c,
    ground (arith, filtered, i.level),
    weaken-IsIdle runtime blank memory path m pid n l d c i,
    sym (append-nil (account c d)),
  )

  abbrev waiting_entries : Components → List LogEntry
  waiting_entries c = Delivery.waiting blank c

  -- `flush` in a logger whose semaphore has any value.
  flush_writes :
      (n k : ℕ) (l : AsyncLogger) (d : Disk) (c : Components)
      → Idle n l d c
      → (l' : AsyncLogger) × (d' : Disk) × (c' : Components) × (flush runtime blank memory
            (record l { semaphore = k })
            d
          ≡ some (l', d'))
        × Idle n l' d' c'
        × (waiting_entries c' ≡ [])
        × (contents_of path d' ≡ account c d)
  flush_writes n k l d c i =
      flush-IsIdle runtime blank memory path m pid n (record l { semaphore = k }) d c i.running
        i.level i.process i.made i.ready i.ring_room

  writer_round_lem :
      (n : ℕ) (l : AsyncLogger) (d : Disk) (c : Components)
      → Idle n l d c
      → Grows n [] (account c d) (writer_round runtime blank memory l d)
  unfolding writer_round
  writer_round_lem n l d c i = elim (Bool-cases (ltb 0 l.semaphore)) [
    | inl awake ↦
        let (l', d', c', done, idle, nothing, written) = flush_writes n (l.semaphore - 1) l d c i in
        (
          l',
          d',
          c',
          ground (arith, awake, done),
          idle,
          account_empty runtime blank memory path m pid c' d' (account c d) nothing written
              ∙ sym (append-nil (account c d)),
        )
    | inr asleep ↦ (l, d, c, ground (arith, asleep), i, sym (append-nil (account c d)))
  ]

  -- One event, with any events after it.
  step_lem :
      (n : ℕ) (l : AsyncLogger) (d : Disk) (c : Components) (event : Event) (events : List Event)
      → Idle (suc n) l d c
      → All (IsAlive runtime memory) (accepted m pid (event ∷ events))
      → (es : List LogEntry) × (accepted m pid (event ∷ events) ≡ es ++ accepted m pid events)
        × All (IsAlive runtime memory) (accepted m pid events)
        × Grows n es (account c d) (step runtime blank memory event l d)
  unfolding step accepted
  step_lem n l d c wake events i alive = (
    [],
    refl,
    alive,
    writer_round_lem n l d c (weaken-IsIdle runtime blank memory path m pid n l d c i),
  )
  step_lem n l d c (message level tag text now thread_id) events i alive =
      elim (Bool-cases (should_log level m)) [
        | inl passes ↦
            let one = entry_of level tag text now thread_id in
            let same : accepted m pid (message level tag text now thread_id ∷ events)
                ≡ one ∷ accepted m pid events =
              ground (arith, passes) in
            let here = subst (All (IsAlive runtime memory)) same alive in
            (
              one ∷ [],
              same,
              here.1,
              log_passing n l d c level tag text now thread_id i passes here.0,
            )
        | inr filtered ↦
            let same : accepted m pid (message level tag text now thread_id ∷ events)
                ≡ accepted m pid events =
              ground (arith, filtered) in
            (
              [],
              same,
              subst (All (IsAlive runtime memory)) same alive,
              log_filtered n l d c level tag text now thread_id i filtered,
            )
      ]

  -- From an idle logger with room for one push for each event, every session of calls of `log` and
  -- rounds of the writer returns, and the account (the file, then what waits) grows by exactly the
  -- lines of the messages that pass the level, in the order of the calls: none is lost, none is
  -- doubled, also when the queue is full. The entries' texts are alive.
  pub run_lem :
      (events : List Event) (l : AsyncLogger) (d : Disk) (c : Components)
      → Idle (length events) l d c
      → All (IsAlive runtime memory) (accepted m pid events)
      → Grows 0 (accepted m pid events) (account c d) (run runtime blank memory events l d)
  unfolding run accepted
  run_lem [] l d c i alive = (l, d, c, refl, i, sym (append-nil (account c d)))
  run_lem (event ∷ events) l d c i alive =
      let (es, split, later, one) = step_lem (length events) l d c event events i alive in
      let (l₁, d₁, c₁, stepped, idle₁, grown₁) = one in
      let (l', d', c', done, idle, grown) = run_lem events l₁ d₁ c₁ idle₁ later in
      (
        l',
        d',
        c',
        ground (arith, stepped, done),
        idle,
        grown
            ∙ ap (λ t. t ++ printed (accepted m pid events)) grown₁
            ∙ append_assoc (account c d) (printed es) (printed (accepted m pid events))
            ∙ ap (λ t. account c d ++ t)
                (sym (printed-append runtime memory es (accepted m pid events)))
            ∙ ap (λ es'. account c d ++ printed es') (sym split),
      )

  -- The end of a logger whose writer thread waits for the semaphore or is about to test for a stop:
  -- it returns, and the file holds everything that waited.
  pub deinitialize_lem :
      (waits : Bool) (n : ℕ) (l : AsyncLogger) (d : Disk) (c : Components)
      → Idle n l d c
      → (l' : AsyncLogger) × (d' : Disk) × (deinitialize runtime blank waits memory l d
          ≡ some (l', d'))
        × (l'.initialized ≡ false)
        × (contents_of path d' ≡ account c d)
  unfolding deinitialize
  deinitialize_lem true n l d c i =
      let (l₁, d₁, c₁, first, idle₁, nothing₁, written₁) =
        flush_writes n (l.semaphore + 1 - 1) l d c i in
      let (l₂, d₂, c₂, second, idle₂, nothing₂, written₂) =
        flush_writes n l₁.semaphore l₁ d₁ c₁ idle₁ in
      (
        record l₂ { initialized = false },
        d₂,
        ground (arith, first, second, i.running),
        refl,
        written₂
            ∙ account_empty runtime blank memory path m pid c₁ d₁ (account c d) nothing₁ written₁,
      )
  deinitialize_lem false n l d c i =
      let (l₂, d₂, c₂, second, idle₂, nothing₂, written₂) =
        flush_writes n (l.semaphore + 1) l d c i in
      (record l₂ { initialized = false }, d₂, ground (arith, second, i.running), refl, written₂)
