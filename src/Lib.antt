-- ===== src/Lib.antt =====
-- ntrace records what the threads of a Windows system call. The library Jpfbt instruments
-- procedures and hands out buffers for events; the kernel agent (Jpkfbt/jpkfag) puts a transition
-- into a buffer on each entry, exit and unwind, and its event sink appends full buffers to a trace
-- file; the library Jptrcr (Jptrcr/jptrcr) opens such a file and enumerates the calls. This
-- development models how procedures are patched, how threads and the collector share the buffers, and
-- the path of an event from the callback through the file to the enumeration; and, around that, the
-- requests that the agent takes, and the tracepoints and trace sessions of the debugger (Jpfsv/jpfsv).
--
-- The parts:
--   Base          shared names; lists and tests with native numbers; Base/Bytes has C's integers in a
--                 memory of bytes, Base/Table the interface of the hash table library, which is not
--                 part of the repository (cfix, hashtable.h), with an instance.
--   Format        include/jptrcfmt.h: JPTRC_FILE_HEADER, JPTRC_CHUNK_HEADER, the chunks and the
--                 transitions, each with its reader (`chunk_header_at`) and its bytes. Format/Layout
--                 says what a file of chunks is.
--   Reader        Jptrcr/jptrcr. Map: JptrcrpMap (`map_at`) of open.c, the sliding window; Header:
--                 JptrcrsReadFileHeader; Inventory: JptrcrsPerformFileInventory (`walk`) and
--                 JptrcrOpenFile (`open_file`); Clients: the table of client.c; Modules: module.c;
--                 Tables: the enumeration of clients and modules and JptrcrCloseFile.
--   Calls         Jptrcr/jptrcr/client.c, the enumeration. Scan: the loop of JptrcrsEnumCalls over
--                 the transitions of a chunk, with its depth and its call as a state; Enum: the loop
--                 over the chunks, JptrcrEnumCalls and JptrcrEnumChildCalls. Forest is the
--                 specification: what a thread did is a forest of calls, and its trace a list of
--                 transitions.
--   Sink          Jpkfbt/jpkfag/defevntsink.c. Flush: JpkfagsWrite, JpkfagsFlushChunk
--                 (`flush_chunk`), the queue of image events, JpkfagsOnProcessBufferDefEventSink and
--                 JpkfagpCreateDefaultEventSink; Events: the callbacks that record transitions and
--                 image events; Events/Directory: the debug directory in an image event.
--   Buffers       Jpfbt/jpfbt/buffer.c, as the kernel mode release build has it: JpfbtGetBuffer
--                 (`get_buffer`), JpfbtProcessBuffers (`process_buffers`), the initialization and the
--                 exit of a thread. Steps: the interlocked operations as a step relation, in which the
--                 threads and the collector interleave; Ownership and Stream: its invariants; Paths and
--                 Processing: the operations as sequences of steps. Slist: JpfbtsReverseSlist on links;
--                 Allocate: the size of the blob; ThreadWords and Preallocated: thread data in the kernel,
--                 km_tls_retail.c and km_buffer.c.
--   Patching      Jpfbt/jpfbt/instrument.c: code patches and their validation; Jumps: what the patched
--                 code does; Threads: um_threadenum.c; Opened, Suspended and Passed: which threads it
--                 finds and suspends; Apply: JpfbtpPatchCode of um_patch.c; Kernel: that of km_patch.c; Instrument: the calls that add and remove instrumentation, with
--                 the patch database. A patch is known by a number that stands for its address, so that
--                 one patch may stand twice in a list.
--   Thunks        Jpfbt/jpfbt/thunksup.c: JpfbtpInstallExceptionHandler and its counterpart, the lookup
--                 of frames, and JpfbtpUnwindThunkstack. Nested: calls that return; Unwinding: how far
--                 the stack is popped.
--   Tracing       Jpfsv/jpfsv, the debugger. Points: the table of tracetab.c; Context: the calls of context.c
--                 that trace, such as JpfsvSetTracePointsContext; Created and Loaded: the life of a
--                 context; KernelSession and ProcessSession: tracekern.c and traceprocess.c, two
--                 implementations of the interface `Session`. Cleaned, Synced, Traced and Settled are
--                 about the table and the lock.
--   Agent         Jpkfbt/jpkfag, the driver. Lifecycle: Jpfbt/jpfbt/main.c; Pointers: the check of
--                 procedures (`check_procedure_pointers`); Control and Shutdown: the requests of control.c;
--                 Dispatch: main.c. Checked, Verdict and Guarded are about which procedures pass.
--   Ports         Jpufbt/jpqlpc: the creation of a port, and JpqlpcSendReceive up to its wait.
--   RoundTrip     A session of the sink, then JptrcrOpenFile and JptrcrEnumCalls on its file.
--   Tests         Small runs.
--
-- State is passed explicitly: a `View` is JPTRCRP_FILE's mapping, a `File` adds the tables, a `Sink`
-- is the structure of the sink with the file behind its handle. Results are an HRESULT or an
-- NTSTATUS beside the new state. The calls of the operating system, of the symbol engine, of malloc
-- and of the hash tables are parameters; most of them may fail. A pointer into the mapped file is the
-- start of its view and a displacement. A thread is the pair of its process and thread ids. The
-- callback of an enumeration is the list of the calls delivered to it, and is taken not to move the
-- mapped window.
--
-- Numbers are natural; the counters and sizes that the code keeps in a ULONG wrap where they can
-- reach the limit. The walk of the inventory takes fuel, and JptrcrOpenFile gives it the size of the
-- file and one more: each round moves on by at least the 8 bytes of a chunk header. The loop of
-- JpkfagpShutdownTracing takes fuel for the seconds that threads need to leave. The other loops go over
-- lists; that of JpfbtsReverseSlist takes as much fuel as the list has entries. Threads
-- interleave in Buffers only: the sink has one writer, and its callbacks are single steps; the lock of
-- the patch database is taken to be held while procedures are patched.
--
-- Not modelled: the exception handlers of Jpfbt that the system calls, the agent of Jpufbt and its
-- client, the interplay of the two sides of a port, and the commands, the process inspection and the
-- event output of Jpfsv. Of the patching, the barrier of the processors, the protection of pages and
-- the flush of the instruction cache are left to the system. Assembly, the graphical tools and the
-- tests of the repository are left out.
pub mod Base
pub mod Format
pub mod Reader
pub mod Calls
pub mod Sink
pub mod Buffers
pub mod Patching
pub mod Thunks
pub mod Tracing
pub mod Agent
pub mod Ports
pub mod RoundTrip
pub mod Tests
