-- ===== src/AsyncLogger/Messages.antt =====
-- One call that puts an entry into the logger: the account of accepted messages grows by exactly
-- its line, whether the queue takes it or the ring buffer does.
use mathlib.Core.Path.{subst, ap₂}
use app_simple_log.Prelude.{
  ℕ, suc, ◌+◌, ◌<◌, ◌≡◌, refl, sym, ap, ◌∙◌, true, false, List, [], ◌∷◌, ◌++◌, Option, some,
  append_assoc, append-nil, Bytes, All, All-append, length, Bool-cases, inl, inr, leb, arith,
}
use app_simple_log.Entry.{Memory, LogEntry, Runtime}
use app_simple_log.Disk.{Disk, contents_of}
use app_simple_log.AsyncLogger.{suc, push_entry, LogLevel, AsyncLogger, Components, flush}
use app_simple_log.AsyncLogger.Delivery
use app_simple_log.AsyncLogger.Delivery.{
  queue_fifo, ring_fifo, IsAlive, IsReady, flush_components_lem, printed-append,
}

module _ (runtime : Runtime) (blank : LogEntry) (memory : Memory) (path : Bytes) (m : LogLevel)
    (pid : ℕ) where
  abbrev printed : List LogEntry → Bytes
  printed = Delivery.printed runtime memory

  abbrev pub account : Components → Disk → Bytes
  account = Delivery.account runtime blank memory path

  -- A logger between two calls: its components are ready, and the ring buffer is empty and can take
  -- an entry.
  pub record IsIdle (n : ℕ) (l : AsyncLogger) (d : Disk) (c : Components) : Type 0 where
    pub running : l.initialized ≡ true
    pub level : l.min_level ≡ m
    pub process : l.process_id ≡ pid
    pub made : l.components ≡ some c
    pub ready : IsReady runtime blank memory path n c d
    pub ring_empty : (ring_fifo blank).contents c.ring_buffer ≡ []
    pub ring_room : 0 < (ring_fifo blank).capacity c.ring_buffer

  pub flush-IsIdle :
      (n : ℕ) (l : AsyncLogger) (d : Disk) (c : Components)
      → l.initialized ≡ true
      → l.min_level ≡ m
      → l.process_id ≡ pid
      → l.components ≡ some c
      → IsReady runtime blank memory path n c d
      → 0 < (ring_fifo blank).capacity c.ring_buffer
      → (l' : AsyncLogger) × (d' : Disk) × (c' : Components) × (flush runtime blank memory l d
          ≡ some (l', d'))
        × IsIdle n l' d' c'
        × (Delivery.waiting blank c' ≡ [])
        × (contents_of path d' ≡ account c d)
  unfolding flush
  flush-IsIdle n l d c running level process made ready room =
      let (c', d', run, ready', empty, written, size) =
        flush_components_lem runtime blank memory path n c d ready in
      (
        record l { components = some c' },
        d',
        c',
        ground (arith, made, run),
        record {
          running = running;
          level = level;
          process = process;
          made = refl;
          ready = ready';
          ring_empty = append_empty_right (queue_fifo.contents c'.async_queue) _ empty;
          ring_room = omega (arith, size);
        },
        empty,
        written,
      )
    where
      append_empty_right : (xs ys : List LogEntry) → xs ++ ys ≡ [] → ys ≡ []
      append_empty_right [] ys e = e
      append_empty_right (x ∷ xs) ys e = cc

  weaken-IsReady :
      (n : ℕ) (c : Components) (d : Disk)
      → IsReady runtime blank memory path (suc n) c d
      → IsReady runtime blank memory path n c d
  weaken-IsReady n c d r = record {
    opened = r.opened;
    reliable = r.reliable;
    queue_valid = queue_fifo.weaken n c.async_queue r.queue_valid;
    ring_valid = (ring_fifo blank).weaken n c.ring_buffer r.ring_valid;
    queue_alive = r.queue_alive;
    ring_alive = r.ring_alive;
  }

  pub weaken-IsIdle :
      (n : ℕ) (l : AsyncLogger) (d : Disk) (c : Components) → IsIdle (suc n) l d c → IsIdle n l d c
  weaken-IsIdle n l d c i = record {
    running = i.running;
    level = i.level;
    process = i.process;
    made = i.made;
    ready = weaken-IsReady n c d i.ready;
    ring_empty = i.ring_empty;
    ring_room = i.ring_room;
  }

  account_step :
      (c c' : Components) (d : Disk) (e : LogEntry)
      → Delivery.waiting blank c' ≡ Delivery.waiting blank c ++ e ∷ []
      → account c' d ≡ account c d ++ printed (e ∷ [])
  account_step c c' d e more =
      ap (λ w. contents_of path d ++ printed w) more
      ∙ ap (λ l. contents_of path d ++ l)
          (printed-append runtime memory (Delivery.waiting blank c) (e ∷ []))
      ∙ sym (
          append_assoc (contents_of path d) (printed (Delivery.waiting blank c)) (printed (e ∷ [])))

  pub account_empty :
      (c : Components) (d : Disk) (text : Bytes)
      → Delivery.waiting blank c ≡ []
      → contents_of path d ≡ text
      → account c d ≡ text
  account_empty c d text nothing same =
      ap (λ w. contents_of path d ++ printed w) nothing ∙ append-nil (contents_of path d) ∙ same

  -- The call returns, and its entry is the next line of the account: what `push_entry` and `log` do.
  abbrev pub Accepts : ℕ → LogEntry → Bytes → Option (AsyncLogger × Disk) → Type 0
  Accepts n e before result =
      (l' : AsyncLogger) × (d' : Disk) × (c' : Components) × (result ≡ some (l', d'))
      × IsIdle n l' d' c'
      × (account c' d' ≡ before ++ printed (e ∷ []))

  push_taken :
      (n : ℕ) (l : AsyncLogger) (d : Disk) (c : Components) (e : LogEntry)
      → IsIdle (suc n) l d c
      → IsAlive runtime memory e
      → leb (queue_fifo.capacity c.async_queue) (length (queue_fifo.contents c.async_queue)) ≡ false
      → Accepts n e (account c d) (push_entry runtime blank memory e c l d)
  unfolding push_entry
  push_taken n l d c e i alive space =
      let (queue, pushed, queue_holds, queue_size, queue_ok) =
        queue_fifo.push_offers n c.async_queue e i.ready.queue_valid in
      let holds : queue_fifo.contents queue ≡ queue_fifo.contents c.async_queue ++ e ∷ [] =
        ground (arith, queue_holds, space) in
      let c₁ : Components = record c { async_queue = queue } in
      (
        record l { components = some c₁; semaphore = l.semaphore + 1 },
        d,
        c₁,
        ground (arith, pushed, space),
        record {
          running = i.running;
          level = i.level;
          process = i.process;
          made = refl;
          ready = record {
            opened = i.ready.opened;
            reliable = i.ready.reliable;
            queue_valid = queue_ok;
            ring_valid = (ring_fifo blank).weaken n c.ring_buffer i.ready.ring_valid;
            queue_alive = subst (All (IsAlive runtime memory)) (sym holds) (
                All-append (IsAlive runtime memory) (queue_fifo.contents c.async_queue) (e ∷ [])
                  i.ready.queue_alive (alive, tt));
            ring_alive = i.ready.ring_alive;
          };
          ring_empty = i.ring_empty;
          ring_room = i.ring_room;
        },
        account_step c c₁ d e (
            ap₂ ◌++◌ holds i.ring_empty
            ∙ append-nil (queue_fifo.contents c.async_queue ++ e ∷ [])
            ∙ ap (λ w. w ++ e ∷ [])
                (sym (
                  ap (λ w. queue_fifo.contents c.async_queue ++ w) i.ring_empty
                  ∙ append-nil (queue_fifo.contents c.async_queue)))),
      )

  push_overflows :
      (n : ℕ) (l : AsyncLogger) (d : Disk) (c : Components) (e : LogEntry)
      → IsIdle (suc n) l d c
      → IsAlive runtime memory e
      → leb (queue_fifo.capacity c.async_queue) (length (queue_fifo.contents c.async_queue)) ≡ true
      → Accepts n e (account c d) (push_entry runtime blank memory e c l d)
  unfolding push_entry
  push_overflows n l d c e i alive full =
      let (queue, pushed, queue_holds, queue_size, queue_ok) =
        queue_fifo.push_offers n c.async_queue e i.ready.queue_valid in
      let (ring, kept, ring_holds, ring_size, ring_ok) =
        (ring_fifo blank).push_offers n c.ring_buffer e i.ready.ring_valid in
      let holds : queue_fifo.contents queue ≡ queue_fifo.contents c.async_queue =
        ground (arith, queue_holds, full) in
      let nothing : length ((ring_fifo blank).contents c.ring_buffer) ≡ 0 =
        ap length i.ring_empty in
      let one : (ring_fifo blank).contents ring ≡ e ∷ [] =
        ground (arith, ring_holds, i.ring_room, i.ring_empty, nothing) in
      let c₁ : Components = record c { async_queue = queue; ring_buffer = ring } in
      let l₁ : AsyncLogger = record l { components = some c₁ } in
      let (l', d', c', run, idle, empty, written) =
        flush-IsIdle n l₁ d c₁ i.running i.level i.process refl
          (record {
            opened = i.ready.opened;
            reliable = i.ready.reliable;
            queue_valid = queue_ok;
            ring_valid = ring_ok;
            queue_alive = subst (All (IsAlive runtime memory)) (sym holds) i.ready.queue_alive;
            ring_alive = subst (All (IsAlive runtime memory)) (sym one) (alive, tt);
          })
          (omega (arith, ring_size, i.ring_room)) in
      (
        l',
        d',
        c',
        ground (arith, pushed, kept, run, full, i.ring_room, nothing),
        idle,
        account_empty c' d' (account c₁ d) empty written
            ∙ account_step c c₁ d e (
                ap₂ ◌++◌ holds one
                ∙ ap (λ w. w ++ e ∷ [])
                    (sym (
                      ap (λ w. queue_fifo.contents c.async_queue ++ w) i.ring_empty
                      ∙ append-nil (queue_fifo.contents c.async_queue)))),
      )

  pub push_entry_lem :
      (n : ℕ) (l : AsyncLogger) (d : Disk) (c : Components) (e : LogEntry)
      → IsIdle (suc n) l d c
      → IsAlive runtime memory e
      → Accepts n e (account c d) (push_entry runtime blank memory e c l d)
  push_entry_lem n l d c e i alive =
      elim (Bool-cases
        (leb (queue_fifo.capacity c.async_queue) (length (queue_fifo.contents c.async_queue)))) [
          | inl full ↦ push_overflows n l d c e i alive full
          | inr space ↦ push_taken n l d c e i alive space
        ]
