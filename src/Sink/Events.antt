-- ===== src/Sink/Events.antt =====
-- The callbacks of Jpkfbt/jpkfag/defevntsink.c that record events: JpkfagsOnImageLoadDefEventSink
-- and JpkfagsOnProcedureEntryDefEventSink, -Exit- and -Unwind-. The memory is that of the buffers;
-- JpfbtGetBuffer of Jpfbt hands out the address of 16 bytes of it, or NULL.
pub mod Transitions
pub mod Directory
pub mod Images
use ntrace.Base.{
  ℕ, zero, suc, ◌+◌, ◌-◌, ◌*◌, ◌/◌, ◌%◌, ◌^◌, Bool, List, [], ◌∷◌, ◌++◌, Option, some, none, length,
  ltb, if◌then◌else◌, replicate,
}
use ntrace.Base.Bytes.{Memory, store, read_u64, u16_bytes, u32_bytes, u64_bytes}
use ntrace.Format.{
  Transition, transition_entry, transition_exit, transition_unwind, chunk_type_image_info,
  offset_of_path, chunk_alignment,
}
use ntrace.Sink.{OutChunk, Sink}

-- The events that JPKFAGP_STATISTICS counts as lost (LONG counters, seen as 32 bits).
pub record Dropped : Type 0 where
  pub entry_events : ℕ
  pub exit_events : ℕ
  pub unwind_events : ℕ
  pub image_info_events : ℕ

abbrev increment : ℕ → ℕ
increment n = (n + 1) % 2 ^ 32

-- The assignments to the fields of a JPTRC_PROCEDURE_TRANSITION32; the two unused bits keep what
-- the buffer held.
unfoldable pub put_transition : Memory → ℕ → Transition → Memory
put_transition m a t = store m a (
    u64_bytes (t.type % 4 + 4 * (read_u64 m a / 4 % 4) + 16 * (t.timestamp % 2 ^ 60))
    ++ (u32_bytes t.procedure ++ u32_bytes t.info))

-- What a callback gets: the buffer, if there is one, the time stamp counter and the procedure.
pub record Moment : Type 0 where
  pub buffer : Option ℕ
  pub time : ℕ
  pub procedure : ℕ

-- `return_address` is the word that Esp of the context refers to.
unfoldable pub on_procedure_entry : Moment → ℕ → Memory × Dropped → Memory × Dropped
on_procedure_entry at return_address (m, d) = elim at.buffer [
  | some a ↦ (
    put_transition m a (record {
      type = transition_entry;
      timestamp = at.time;
      procedure = at.procedure;
      info = return_address;
    }),
    d,
  )
  | none ↦ (m, record d { entry_events = increment d.entry_events })
]

unfoldable pub on_procedure_unwind : Moment → ℕ → Memory × Dropped → Memory × Dropped
on_procedure_unwind at exception_code (m, d) = elim at.buffer [
  | some a ↦ (
    put_transition m a (record {
      type = transition_unwind;
      timestamp = at.time;
      procedure = at.procedure;
      info = exception_code;
    }),
    d,
  )
  | none ↦ (m, record d { unwind_events = increment d.unwind_events })
]

unfoldable pub on_procedure_exit : Moment → ℕ → Memory × Dropped → Memory × Dropped
on_procedure_exit at eax (m, d) = elim at.buffer [
  | some a ↦ (
    put_transition m a (record {
      type = transition_exit;
      timestamp = at.time;
      procedure = at.procedure;
      info = eax;
    }),
    d,
  )
  | none ↦ (m, record d { exit_events = increment d.exit_events })
]

-- An entry of the debug directory of an image: the 16 bytes before SizeOfData, and the data.
pub record DebugEntry : Type 0 where
  pub head : List ℕ
  pub data_of : List ℕ

abbrev pub size_of_debug_directory : ℕ
size_of_debug_directory = 28

-- The sum of SizeOfData (ULONG arithmetic).
unfoldable pub debug_data_size : List DebugEntry → ℕ
debug_data_size [] = 0
debug_data_size (e ∷ es) = (length e.data_of + debug_data_size es) % 2 ^ 32

-- The entries with the fixed up pointers; `n` is how far the data of the first is from its entry.
unfoldable pub debug_headers : ℕ → List DebugEntry → List ℕ
debug_headers n [] = []
debug_headers n (e ∷ es) =
    (e.head ++ (u32_bytes (length e.data_of) ++ (u32_bytes 0 ++ u32_bytes n)))
    ++ debug_headers (n + length e.data_of - size_of_debug_directory) es

unfoldable pub debug_data : List DebugEntry → List ℕ
debug_data [] = []
debug_data (e ∷ es) = e.data_of ++ debug_data es

-- FIELD_OFFSET( JPKFAGP_IMAGE_INFO_EVENT, Event ): the list entry is one pointer.
abbrev pub offset_of_event : ℕ
offset_of_event = 4

-- JpkfagsAlignUpToQword
abbrev pub align_up_to_qword : ℕ → ℕ
align_up_to_qword n = (n + 15) / 16 * 16

-- StructAndPathSizeAligned: through the byte behind the path, and counted from the list entry.
abbrev pub struct_and_path_size : ℕ → ℕ
struct_and_path_size path_length =
    align_up_to_qword (offset_of_event + offset_of_path + path_length + 1)

-- The bytes of the memory from an address on.
unfoldable pub bytes_at : Memory → ℕ → ℕ → List ℕ
bytes_at m a zero = []
bytes_at m a (suc n) = m a ∷ bytes_at m (a + 1) n

-- EventSize
unfoldable pub event_size : ℕ → List DebugEntry → ℕ
event_size path_length debug =
    let n =
      (struct_and_path_size path_length
        + size_of_debug_directory * length debug
        + debug_data_size debug)
      % 2 ^ 32 in
    (n + (chunk_alignment - 1)) % 2 ^ 32 / chunk_alignment * chunk_alignment

-- The event that is built in fresh memory; `pool` is what that memory held.
unfoldable pub image_chunk : Memory → ℕ → ℕ → List ℕ → List DebugEntry → OutChunk
image_chunk pool load_address size path debug =
    let aligned = struct_and_path_size (length path) in
    let headers = size_of_debug_directory * length debug in
    let raw = debug_data_size debug in
    let total = event_size (length path) debug in
    record {
      header = record { type = chunk_type_image_info; reserved = 0; size = total };
      rest =
          u64_bytes load_address
          ++ (u32_bytes size
              ++ (u16_bytes aligned
                  ++ (u16_bytes headers
                      ++ (u16_bytes (headers + raw)
                          ++ (u16_bytes (length path)
                              ++ (path
                                  ++ (bytes_at pool (offset_of_path + length path)
                                        (aligned - (offset_of_path + length path))
                                      ++ (debug_headers headers debug
                                          ++ (debug_data debug
                                              ++ replicate (total - (aligned + headers + raw))
                                                  0)))))))));
      body = [];
    }

-- `memory` tells whether ExAllocatePoolWithTag succeeds.
unfoldable pub on_image_load :
    Bool → Memory → ℕ → ℕ → List ℕ → List DebugEntry → Sink × Dropped → Sink × Dropped
on_image_load memory pool load_address size path debug (s, d) =
    if ltb 0x7fff (length path)
    then (s, d)
    else if memory
    then (
      record s {
        image_info_queue = image_chunk pool load_address size path debug ∷ s.image_info_queue;
      },
      d,
    )
    else (s, record d { image_info_events = increment d.image_info_events })
