-- ===== src/Lib.antt =====
-- AppSimpleLog: an asynchronous logger with a file manager, a crash handler, an archive and a C
-- bridge.
--
-- How the parts interact. AsyncLogger.log (src/src/async_logger.cpp) puts an entry into the
-- asynchronous queue, and into the ring buffer when the queue is full; the writer thread and `flush`
-- empty both into the file manager, which owns the log file. The crash handler calls the logger's
-- emergency flush. The C bridge (cbridge/) has a file manager and a tag filter of its own and does
-- not use the asynchronous logger. The archive packs log files with libzip.
--
-- Which file models which part:
--   Level         src/include/speckit/log/log_level.h
--   Entry         src/include/speckit/log/log_entry.h, src/src/log_entry.cpp
--   Ring          src/include/speckit/log/log_buffer.h, src/src/log_buffer.cpp
--   Queue         src/include/speckit/log/async_queue.h, src/src/async_queue.cpp
--   FileManager   src/include/speckit/log/file_manager.h, src/src/file_manager.cpp
--   AsyncLogger   src/include/speckit/log/async_logger.h, src/src/async_logger.cpp
--   TagFilter     src/include/speckit/log/tag_filter.h, src/src/tag_filter.cpp
--   CrashHandler  src/include/speckit/log/crash_handler.h, src/src/crash_handler.cpp
--   Archive       src/include/speckit/log/archive.h, src/src/archive.cpp
--   Bridge        cbridge/speckit_logger.h, cbridge/speckit_logger.cpp
--   Build         src/include/speckit/log/platform.h, src/include/speckit/log/features.h
-- Prelude holds numbers, lists and texts, Disk the file system that the file manager sees, and Fifo
-- the interface that both buffers fill and that the logger's proofs use. An operation has the name of
-- its method in snake case; its state is a record with the fields of the class. Modules below a
-- component hold its invariants (Inv), its refinement (Refine) or what their names say; Tests hold
-- runs at concrete values.
--
-- State and errors. Every operation is a function from the state to a result and the new state. A call
-- that may fail answers by a Boolean or an error code, as the code does; `none` is a call that never
-- returns, a read of a text that is gone, or the end of the program, as each file says. Which system
-- calls fail is a parameter (Disk.Faults, Archive.Answers), and so are localtime, the text of a thread
-- id (Entry.Runtime), the hash of a name and the platform.
--
-- Bounds. size_t has 64 bits and wraps; a capacity is at most 2^62, and validity counts the pushes that
-- are left before a 64-bit ticket wraps. `int` is checked against 2^31 - 1. The loop of
-- DeleteOldestFiles runs on fuel, one round more than there are files; rotation is shown to end with
-- it. All other loops are structural.
--
-- Threads. Queue and Ring first give each operation as a function, the way one thread runs it alone;
-- AsyncLogger and its proofs use these whole operations, one after another. Queue/Threads and
-- Ring/Threads give the same code again as the moves of a thread, one for each access to an atomic or
-- to a slot, and Interleave the states that threads can reach by such moves in any order.
-- AsyncLogger/Threads does so for the logger, but in the schedules in which no two calls of a buffer
-- or of the file manager overlap: there one move is one such call, or one access to the semaphore, the
-- stop token or a field. Its state remembers the messages that were asked for, dropped and written,
-- which no move reads. What is shown of all its states holds of those schedules; in others messages can be
-- lost, and Ring/Threads and Queue/Threads say how. The semaphore has a maximum, a parameter. A release
-- beyond it is not defined and has no move. CrashHandler/Threads has the signal handlers beside the
-- monitor. Memory is sequentially consistent. Except for the one about a second consumer, the proofs about
-- the queue ask that one thread only calls popAll, which the header of the class demands, and that
-- fewer than 2^64 tickets are handed out.
--
-- Not modelled: overlapping calls of the buffers and of the file manager inside the running logger, a
-- `deinitialize` that meets another one or an `initialize`, weaker orders of memory, time, console
-- output, and the vendored libraries libzip, zlib and bzip2. Bytes that `fwrite` takes are in the
-- file at once: the buffer of stdio, and what a crash loses of it, is left out, so that a flush only
-- answers whether the system took it. The listing of a directory does not throw, except in Archive.
mod Prelude
pub mod Fifo
pub mod Interleave
pub mod Level
pub mod Entry
pub mod Disk
pub mod FileManager
pub mod Ring
pub mod Queue
pub mod AsyncLogger
pub mod TagFilter
pub mod Bridge
pub mod Build
pub mod Archive
pub mod CrashHandler
