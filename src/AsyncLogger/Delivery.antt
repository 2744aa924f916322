-- ===== src/AsyncLogger/Delivery.antt =====
-- Every message that passes the level is written, in the order of the calls, by calls that do not
-- interleave: what the logger holds is empty or waits in the asynchronous queue, and the file with
-- what waits is the account of all accepted messages.
use mathlib.Core.Path.{subst, ap₂}
use app_simple_log.Prelude.{
  ℕ, ◌≤◌, ◌≡◌, refl, sym, ap, ◌∙◌, List, [], ◌∷◌, ◌++◌, Option, none, some, append_assoc,
  append-nil, Bytes, All, length, arith,
}
use app_simple_log.Fifo.{BoundedFifo}
use app_simple_log.Entry.{Memory, LogEntry, Runtime, format_log_entry}
use app_simple_log.Disk.{Disk, contents_of}
use app_simple_log.FileManager.State
use app_simple_log.FileManager.State.{FileManager}
use app_simple_log.FileManager.Writing.{written_whole}
use app_simple_log.Queue.{AsyncQueue}
use app_simple_log.Queue.Refine as QueueLaws
use app_simple_log.Ring.{RingBuffer}
use app_simple_log.Ring.Refine as RingLaws
use app_simple_log.AsyncLogger.{Components, write_entries, flush_components}

abbrev pub queue_fifo : BoundedFifo LogEntry (AsyncQueue LogEntry)
queue_fifo = QueueLaws.fifo

abbrev pub ring_fifo : LogEntry → BoundedFifo LogEntry (RingBuffer LogEntry)
ring_fifo blank = RingLaws.fifo blank

-- A disk that takes every text whole.
abbrev pub IsReliable : Disk → Type 0
IsReliable d = (text : Bytes) → length text ≤ d.faults.accepted text

abbrev pub line_of : Option Bytes → Bytes
line_of none = []
line_of (some text) = text

module _ (runtime : Runtime) (memory : Memory) where
  -- The texts of the entry are still there when it is printed.
  abbrev pub IsAlive : LogEntry → Type 0
  IsAlive e = (text : Bytes) × (format_log_entry runtime memory e ≡ some text)

  -- The lines of a list of entries.
  abbrev pub printed : List LogEntry → Bytes
  printed [] = []
  printed (e ∷ es) = line_of (format_log_entry runtime memory e) ++ printed es

  pub printed-append : (xs ys : List LogEntry) → printed (xs ++ ys) ≡ printed xs ++ printed ys
  printed-append [] ys = refl
  printed-append (x ∷ xs) ys =
      ap (λ l. line_of (format_log_entry runtime memory x) ++ l) (printed-append xs ys)
      ∙ sym (append_assoc (line_of (format_log_entry runtime memory x)) (printed xs) (printed ys))

-- The entries that wait, in the order in which a flush writes them.
abbrev pub waiting : LogEntry → Components → List LogEntry
waiting blank c = queue_fifo.contents c.async_queue ++ (ring_fifo blank).contents c.ring_buffer

pub keep-IsReliable : (d d' : Disk) → d'.faults ≡ d.faults → IsReliable d → IsReliable d'
keep-IsReliable d d' same h =
    subst (λ f. (text : Bytes) → length text ≤ f.accepted text) (sym same) h

module _ (runtime : Runtime) (blank : LogEntry) (memory : Memory) (path : Bytes) where
  pub write_entries_lem :
      (es : List LogEntry) (file : FileManager) (d : Disk)
      → file.file_handle ≡ some path
      → IsReliable d
      → All (IsAlive runtime memory) es
      → (file' : FileManager) × (d' : Disk) × (write_entries runtime blank memory es file d
          ≡ some (file', d'))
        × (file'.file_handle ≡ some path)
        × (d'.faults ≡ d.faults)
        × (contents_of path d' ≡ contents_of path d ++ printed runtime memory es)
  unfolding write_entries
  write_entries_lem [] file d opened reliable alive =
      (file, d, refl, opened, refl, sym (append-nil (contents_of path d)))
  write_entries_lem (e ∷ es) file d opened reliable alive =
      let (text, formatted) = alive.0 in
      let (still, same_faults, grown) = written_whole text file d path opened (reliable text) in
      let (file', d', run, open_after, faults_after, account) =
        write_entries_lem es (State.write text file d).1 (State.write text file d).2 still
          (keep-IsReliable d (State.write text file d).2 same_faults reliable) alive.1 in
      (
        file',
        d',
        rw (formatted, write_entries) run,
        open_after,
        faults_after ∙ same_faults,
        account
            ∙ ap (λ l. l ++ printed runtime memory es) grown
            ∙ append_assoc (contents_of path d) text (printed runtime memory es)
            ∙ ap (λ o. contents_of path d ++ (line_of o ++ printed runtime memory es))
                (sym formatted),
      )

  -- The components in a state from which nothing is lost: the file is open, both buffers are valid
  -- with room for `n` pushes, and every text that they view is there.
  pub record IsReady (n : ℕ) (c : Components) (d : Disk) : Type 0 where
    pub opened : c.file_manager.file_handle ≡ some path
    pub reliable : IsReliable d
    pub queue_valid : queue_fifo.IsValid n c.async_queue
    pub ring_valid : (ring_fifo blank).IsValid n c.ring_buffer
    pub queue_alive : All (IsAlive runtime memory) (queue_fifo.contents c.async_queue)
    pub ring_alive : All (IsAlive runtime memory) ((ring_fifo blank).contents c.ring_buffer)

  -- The file with the lines of all that waits.
  abbrev pub account : Components → Disk → Bytes
  account c d = contents_of path d ++ printed runtime memory (waiting blank c)

  -- A flush returns, writes all that waits, oldest first, and leaves both buffers empty.
  pub flush_components_lem :
      (n : ℕ) (c : Components) (d : Disk)
      → IsReady n c d
      → (c' : Components) × (d' : Disk) × (flush_components runtime blank memory c d
          ≡ some (c', d'))
        × IsReady n c' d'
        × (waiting blank c' ≡ [])
        × (contents_of path d' ≡ account c d)
        × ((ring_fifo blank).capacity c'.ring_buffer ≡ (ring_fifo blank).capacity c.ring_buffer)
  unfolding flush_components
  flush_components_lem n c d r =
      let (queue, popped, queue_empty, queue_size, queue_ok) =
        queue_fifo.pop_drains n c.async_queue r.queue_valid in
      let (ring, drained, ring_empty, ring_size, ring_ok) =
        (ring_fifo blank).pop_drains n c.ring_buffer r.ring_valid in
      let (file₁, d₁, run₁, opened₁, faults₁, grown₁) =
        write_entries_lem (queue_fifo.contents c.async_queue) c.file_manager d r.opened r.reliable
          r.queue_alive in
      let (file₂, d₂, run₂, opened₂, faults₂, grown₂) =
        write_entries_lem ((ring_fifo blank).contents c.ring_buffer) file₁ d₁ opened₁
          (keep-IsReliable d d₁ faults₁ r.reliable) r.ring_alive in
      (
        record { file_manager = file₂; async_queue = queue; ring_buffer = ring },
        d₂,
        ground (arith, popped, drained, run₁, run₂),
        record {
          opened = opened₂;
          reliable = keep-IsReliable d d₂ (faults₂ ∙ faults₁) r.reliable;
          queue_valid = queue_ok;
          ring_valid = ring_ok;
          queue_alive = subst (All (IsAlive runtime memory)) (sym queue_empty) tt;
          ring_alive = subst (All (IsAlive runtime memory)) (sym ring_empty) tt;
        },
        ap₂ ◌++◌ queue_empty ring_empty,
        grown₂
            ∙ ap (λ l. l ++ printed runtime memory ((ring_fifo blank).contents c.ring_buffer))
                grown₁
            ∙ append_assoc (contents_of path d)
                (printed runtime memory (queue_fifo.contents c.async_queue))
                (printed runtime memory ((ring_fifo blank).contents c.ring_buffer))
            ∙ ap (λ l. contents_of path d ++ l)
                (sym (
                  printed-append runtime memory (queue_fifo.contents c.async_queue)
                    ((ring_fifo blank).contents c.ring_buffer))),
        ring_size,
      )
