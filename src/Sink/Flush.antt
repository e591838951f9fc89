-- ===== src/Sink/Flush.antt =====
-- JpkfagsWrite, JpkfagsFlushChunk, JpkfagsFlushImageInfoEventQueue and
-- JpkfagsOnProcessBufferDefEventSink, and the file header that JpkfagpCreateDefaultEventSink writes.
use Prim.Native.Nat.{max}
use ntrace.Base.{
  ℕ, ◌+◌, ◌-◌, ◌*◌, ◌/◌, ◌%◌, ◌^◌, Bool, Option, some, none, List, [], ◌∷◌, ◌++◌, length, ltb,
  if◌then◌else◌,
}
use ntrace.Base.Bytes.{Memory, store, u32_bytes}
use ntrace.Format.{
  chunk_header_bytes, segment_size, size_of_file_header, chunk_type_pad, ClientId,
  chunk_type_trace_buffer, offset_of_transitions, size_of_transition, file_header_bytes,
  header_signature, header_version, characteristic_timestamp_tsc, characteristic_32bit,
}
use ntrace.Sink.{Zw, OutChunk, Sink, nt_success, status_success}

-- JpkfagsWrite: the file is written at the position of the sink, which stays.
unfoldable pub write : Zw → Sink → List ℕ → ℕ × Sink
write zw s bytes =
    let status = zw.write_file s.file_position (length bytes) in
    if nt_success status
    then (
      status,
      record s {
        content = store s.content s.file_position bytes;
        file_size = max s.file_size (s.file_position + length bytes);
      },
    )
    else (status, s)

-- FilePosition += n
abbrev pub advance : ℕ → Sink → Sink
advance n s = record s { file_position = s.file_position + n }

-- InterlockedIncrement( &Statistics->FailedChunkFlushes )
abbrev pub count_failure : Sink → Sink
count_failure s = record s { failed_chunk_flushes = (s.failed_chunk_flushes + 1) % 2 ^ 32 }

-- The room left in the segment that the position lies in.
abbrev pub remaining : Sink → ℕ
remaining s = segment_size - s.file_position % segment_size

-- The pad chunk before a chunk that would not fit.
unfoldable pub pad : Zw → Sink → ℕ × Sink
unfolding write
pad zw s =
    let n = remaining s in
    let (status, t) =
      write zw s (chunk_header_bytes (record { type = chunk_type_pad; reserved = 0; size = n })) in
    if nt_success status then (status, advance n t) else (status, count_failure t)

-- The chunk in one write, or the structure and the body in two.
unfoldable pub write_chunk : Zw → Sink → OutChunk → ℕ × Sink
unfolding write
write_chunk zw s c =
    let head = chunk_header_bytes c.header ++ c.rest in
    let (status, t) = write zw s head in
    if nt_success status
    then elim c.body [
      | [] ↦ (status, advance c.header.size t)
      | b ∷ body ↦
          let u = advance (c.header.size - length (b ∷ body)) t in
          let (status', v) = write zw u (b ∷ body) in
          if nt_success status' then (status', advance (length (b ∷ body)) v) else (status', v)
    ]
    else (status, t)

-- What follows the writes: the buffers of the file are flushed, or the failure is counted.
unfoldable pub conclude : Zw → ℕ × Sink → ℕ × Sink
conclude zw (status, s) =
    if nt_success status
    then elim zw.flush_buffers_file [ none ↦ (status_success, s) | some status' ↦ (status', s) ]
    else (status, count_failure s)

-- JpkfagsFlushChunk
unfoldable pub flush_chunk : Zw → Sink → OutChunk → ℕ × Sink
flush_chunk zw s c =
    if ltb (remaining s) c.header.size
    then (let (status, t) = pad zw s in
        if nt_success status then conclude zw (write_chunk zw t c) else (status, t))
    else conclude zw (write_chunk zw s c)

-- JpkfagsFlushImageInfoEventQueue: the events leave the queue whether they can be written or not.
unfoldable pub flush_events : Zw → List OutChunk → Sink → Sink
flush_events zw [] s = s
flush_events zw (e ∷ events) s = flush_events zw events (flush_chunk zw s e).1

unfoldable pub flush_image_info_event_queue : Zw → Sink → Sink
flush_image_info_event_queue zw s =
    flush_events zw s.image_info_queue (record s { image_info_queue = [] })

-- The chunk of a buffer: header and client in one structure, the buffer as the body.
abbrev pub trace_chunk : ClientId → List ℕ → OutChunk
trace_chunk client buffer = record {
  header = record {
    type = chunk_type_trace_buffer;
    reserved = 0;
    size = offset_of_transitions + size_of_transition * (length buffer / size_of_transition);
  };
  rest = u32_bytes client.process_id ++ u32_bytes client.thread_id;
  body = buffer;
}

-- JpkfagsOnProcessBufferDefEventSink
unfoldable pub on_process_buffer : Zw → List ℕ → ClientId → Sink → Sink
on_process_buffer zw buffer client s =
    (flush_chunk zw (flush_image_info_event_queue zw s) (trace_chunk client buffer)).1

-- STATUS_NO_MEMORY
abbrev pub status_no_memory : ℕ
status_no_memory = 0xc0000017

-- JpkfagpCreateDefaultEventSink, given the status of ZwCreateFile and whether
-- ExAllocatePoolWithTag succeeds: the status, and the sink if the file header was written.
unfoldable pub create_default_event_sink : Zw → ℕ → Bool → Memory → ℕ × Option Sink
create_default_event_sink zw create_file memory empty_file =
    if nt_success create_file
    then (if memory
        then (let s : Sink = record {
          content = empty_file;
          file_size = 0;
          file_position = 0;
          image_info_queue = [];
          failed_chunk_flushes = 0;
        } in
            let (status, t) = write zw s (
              file_header_bytes (record {
                signature = header_signature;
                version = header_version;
                characteristics = characteristic_timestamp_tsc + characteristic_32bit;
              })) in
            if nt_success status
            then (status_success, some (advance size_of_file_header t))
            else (status, none))
        else (status_no_memory, none))
    else (create_file, none)

-- JpkfagsDeleteDefEventSink: what is queued is written before the file is closed.
unfoldable pub delete_def_event_sink : Zw → Sink → Sink
delete_def_event_sink zw s = flush_image_info_event_queue zw s
