-- ===== src/RoundTrip/Log.antt =====
-- The log of a session: which buffers stand where in the file.
use ntrace.Base.{
  ℕ, ◌+◌, ◌%◌, ◌^◌, ◌≤◌, ◌<◌, ◌≡◌, refl, ap₂, ◌∙◌, List, [], ◌∷◌, ◌++◌, ◌&&◌, length, append-nil,
  arith, ltb, ◌==◌, if◌then◌else◌, Bool-cases, inl, inr, All, All-append,
}
use ntrace.Format.{
  ChunkHeader, ClientId, client_at, chunk_type_trace_buffer, chunk_type_image_info,
  size_of_file_header, segment_size, file_header_at,
}
use ntrace.Format.Layout.{Run, Run-le}
use ntrace.Reader.Clients.{equals_client}
use ntrace.Reader.Inventory.Registered.{trace_offsets}
use ntrace.Sink.{Zw, OutChunk, Sink}
use ntrace.Sink.Flush.{flush_chunk, trace_chunk, write_chunk, pad, conclude, remaining}
use ntrace.Reader.Header.{IsSupported}
use ntrace.Sink.Agree.{file_header_at-AgreesBelow, HasBytes}
use ntrace.Sink.Laid.{Writes, IsOutput, Laid, bytes_of, length-bytes_of, Run-AgreesBelow}
use ntrace.Sink.Chunks.{Flushed, flush_chunk-Flushed, padding, place}
use ntrace.RoundTrip.{Entry, offsets_of}
use ntrace.RoundTrip.Offsets.{IsWide, trace_offsets-append, trace_offsets-AgreesBelow}

-- A chunk that is queued for an image.
pub record IsImage (c : OutChunk) : Type 0 where
  pub output : IsOutput c
  pub type : c.header.type ≡ chunk_type_image_info

-- A buffer of the size that the buffers of the library have, of a client in range.
pub record IsBuffer (client : ClientId) (bytes : List ℕ) : Type 0 where
  pub process : client.process_id < 2 ^ 32
  pub thread : client.thread_id < 2 ^ 32
  pub some_bytes : 0 < length bytes
  pub whole : length bytes % 16 ≡ 0
  pub fits : 16 + length bytes ≤ segment_size

-- The chunk of a logged buffer stands in the file behind the sink.
pub record Stands (s : Sink) (e : Entry) : Type 0 where
  pub buffer : IsBuffer e.client e.bytes
  pub inside : e.offset < s.file_size
  pub before : e.offset + (16 + length e.bytes) ≤ s.file_position
  pub bytes : HasBytes s.content e.offset (bytes_of (trace_chunk e.client e.bytes))

-- The file holds sound chunks; those of a client are the buffers logged for it, in order.
pub record Logged (s : Sink) (log : List Entry) : Type 0 where
  pub headers : List ChunkHeader
  pub laid : Laid s headers
  pub header : IsSupported (file_header_at s.content 0)
  pub some_bytes : 0 < s.file_size
  pub wide : All IsWide headers
  pub offsets :
      (c : ClientId) → trace_offsets s.content c size_of_file_header headers ≡ offsets_of c log
  pub kept : All (Stands s) log
  pub queued : All IsImage s.image_info_queue

pub offsets_of-append :
    (c : ClientId) (log more : List Entry)
    → offsets_of c (log ++ more) ≡ offsets_of c log ++ offsets_of c more
unfolding offsets_of
offsets_of-append c [] more = refl
offsets_of-append c (e ∷ log) more = ground (arith, offsets_of-append c log more)

pub image_info_queue-flush_chunk :
    (zw : Zw) (s : Sink) (c : OutChunk)
    → (flush_chunk zw s c).1.image_info_queue ≡ s.image_info_queue
unfolding flush_chunk pad write_chunk conclude
image_info_queue-flush_chunk zw s c = ground arith

module _ (zw : Zw) (works : Writes zw) (s : Sink) (log : List Entry) (logged : Logged s log)
    (c : OutChunk) (output : IsOutput c) where
  pub flushed : Flushed s c logged.headers (flush_chunk zw s c).1
  flushed = flush_chunk-Flushed zw works s c logged.headers output logged.laid

  pub Stands-flush :
      (log : List Entry) → All (Stands s) log → All (Stands (flush_chunk zw s c).1) log
  Stands-flush [] h = tt
  Stands-flush (e ∷ log) (a, h) = (
    record {
      buffer = a.buffer;
      inside = omega (arith, flushed.grows, a.inside);
      before = ground (arith, flushed.position, a.before);
      bytes = λ k i q l.
          flushed.old i (
            omega (
              arith,
              a.before,
              length-bytes_of (trace_chunk e.client e.bytes).header
                  (trace_chunk e.client e.bytes).rest e.bytes,
            ))
          ∙ a.bytes k i q l;
    },
    Stands-flush log h,
  )

  pub header-flush : IsSupported (file_header_at (flush_chunk zw s c).1.content 0)
  header-flush =
      rw
        (file_header_at-AgreesBelow s.file_position s.content (flush_chunk zw s c).1.content
          flushed.old 0
          (omega (
            arith,
            Run-le s.content s.file_size size_of_file_header s.file_position logged.headers
                logged.laid.run,
          )))
        logged.header

  -- The offsets that the chunk adds: its own, if it holds a trace of the client.
  pub offsets-flush :
      (k : ClientId)
      → trace_offsets
          (flush_chunk zw s c).1.content
          k
          size_of_file_header
          (logged.headers ++ (padding s c ++ (c.header ∷ [])))
        ≡ offsets_of k log
          ++ (if c.header.type == chunk_type_trace_buffer
                && equals_client (client_at (flush_chunk zw s c).1.content (place s c)) k
              then place s c ∷ []
              else [])
  unfolding trace_offsets
  offsets-flush k =
      trace_offsets-append t.content s.file_size size_of_file_header s.file_position k
        logged.headers (padding s c ++ (c.header ∷ [])) run
      ∙ ap₂ ◌++◌
          (trace_offsets-AgreesBelow s.content t.content s.file_size size_of_file_header
              s.file_position k logged.headers flushed.old logged.wide logged.laid.run
            ∙ logged.offsets k)
          tail
    where
      t : Sink
      t = (flush_chunk zw s c).1

      run : Run t.content s.file_size size_of_file_header logged.headers s.file_position
      run =
          Run-AgreesBelow s.content t.content s.file_size s.file_size size_of_file_header
            s.file_position logged.headers flushed.old (omega arith) logged.laid.sound
            logged.laid.run

      tail : trace_offsets t.content k s.file_position (padding s c ++ (c.header ∷ [])) ≡ (
          if c.header.type == chunk_type_trace_buffer
            && equals_client (client_at t.content (place s c)) k
          then place s c ∷ []
          else [])
      tail = elim (Bool-cases (ltb (remaining s) c.header.size)) [
        | inl e ↦ rw e (ground arith)
        | inr e ↦ rw e (ground arith)
      ]

  pub IsWide-flush :
      IsWide c.header → All IsWide (logged.headers ++ (padding s c ++ (c.header ∷ [])))
  IsWide-flush w =
      All-append IsWide logged.headers (padding s c ++ (c.header ∷ [])) logged.wide
        (elim (Bool-cases (ltb (remaining s) c.header.size)) [
          | inl e ↦ rw e ((λ q. absurd (omega arith)), (w, tt))
          | inr e ↦ rw e (w, tt)
        ])

  -- An image chunk adds no entry to the log.
  pub image-Logged : c.header.type ≡ chunk_type_image_info → Logged (flush_chunk zw s c).1 log
  image-Logged e = record {
    headers = logged.headers ++ (padding s c ++ (c.header ∷ []));
    laid = flushed.laid;
    header = header-flush;
    some_bytes = omega (arith, flushed.grows, logged.some_bytes);
    wide = IsWide-flush (λ q. absurd (omega arith));
    offsets = λ k. offsets-flush k ∙ ground (arith, append-nil (offsets_of k log));
    kept = Stands-flush log logged.kept;
    queued = rw (image_info_queue-flush_chunk zw s c) logged.queued;
  }
