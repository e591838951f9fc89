-- ===== src/RoundTrip/Logging.antt =====
-- How the log of a session grows with each event, and the log of a new sink.
use ntrace.Base.{
  ℕ, ◌+◌, ◌≡◌, refl, sym, ◌∙◌, List, [], ◌∷◌, ◌++◌, append-nil, arith, inl, All, All-append, ap,
  true, some, append_assoc, map,
}
use ntrace.Format.{
  ClientId, file_header_at, FileHeader, file_header_bytes, header_signature, header_version,
  characteristic_timestamp_tsc, characteristic_32bit,
}
use ntrace.Reader.Inventory.Registered.{trace_offsets}
use ntrace.Sink.{Zw, OutChunk, Sink, status_success}
use ntrace.Sink.Flush.{
  flush_chunk, flush_events, flush_image_info_event_queue, trace_chunk, create_default_event_sink,
  on_process_buffer,
}
use ntrace.Sink.Laid.{Writes, IsOutput}
use ntrace.Sink.Chunks.{padding, place}
use ntrace.RoundTrip.{Entry, offsets_of, Event, buffer, image, handle, session, buffers}
use ntrace.RoundTrip.Offsets.{client_at-HasBytes}
use ntrace.Base.Bytes.{Memory, store}
use ntrace.RoundTrip.Log.{
  Logged, Stands, IsImage, IsBuffer, image-Logged, image_info_queue-flush_chunk, offsets-flush,
  IsWide-flush, header-flush, flushed, Stands-flush, offsets_of-append,
}
use ntrace.Sink.Writes.{write_lem}

pub trace_chunk-IsOutput :
    (client : ClientId) (bytes : List ℕ)
    → IsBuffer client bytes
    → IsOutput (trace_chunk client bytes)
trace_chunk-IsOutput client bytes b = record {
  reserved = refl;
  known = omega arith;
  whole = omega (arith, b.some_bytes);
  small = omega (arith, b.whole, b.fits);
  aligned = omega (arith, b.whole);
  counted = omega (arith, b.whole);
}

Stands-queue :
    (s : Sink) (log : List Entry)
    → All (Stands s) log
    → All (Stands (record s { image_info_queue = [] })) log
Stands-queue s [] h = tt
Stands-queue s (e ∷ log) (a, h) = (
  record { buffer = a.buffer; inside = a.inside; before = a.before; bytes = a.bytes },
  Stands-queue s log h,
)

module _ (zw : Zw) (works : Writes zw) where
  pub trace-Logged :
      (s : Sink) (log : List Entry) (client : ClientId) (bytes : List ℕ)
      → Logged s log
      → IsBuffer client bytes
      → Logged (flush_chunk zw s (trace_chunk client bytes)).1 (
          log
          ++ (record { client = client; offset = place s (trace_chunk client bytes); bytes = bytes }
              ∷ []))
  unfolding offsets_of
  trace-Logged s log client bytes logged b =
      let c = trace_chunk client bytes in
      let o = trace_chunk-IsOutput client bytes b in
      let f = flushed zw works s log logged c o in
      let entry : Entry = record { client = client; offset = place s c; bytes = bytes } in
      record {
        headers = logged.headers ++ (padding s c ++ (c.header ∷ []));
        laid = f.laid;
        header = header-flush zw works s log logged c o;
        some_bytes = omega (arith, f.grows, logged.some_bytes);
        wide = IsWide-flush zw works s log logged c o (λ q. omega arith);
        offsets = λ k.
            offsets-flush zw works s log logged c o k
            ∙ rw
                (client_at-HasBytes (flush_chunk zw s c).1.content (place s c) c.header client bytes
                  b.process b.thread f.new)
                (sym (offsets_of-append k log (entry ∷ [])));
        kept =
            All-append (Stands (flush_chunk zw s c).1) log _
              (Stands-flush zw works s log logged c o log logged.kept)
              (
                record {
                  buffer = b;
                  inside = omega (arith, f.reached);
                  before = omega (arith, f.position, b.whole);
                  bytes = f.new;
                },
                tt,
              );
        queued = rw (image_info_queue-flush_chunk zw s c) logged.queued;
      }

  events-Logged :
      (events : List OutChunk) (s : Sink) (log : List Entry)
      → Logged s log
      → All IsImage events
      → Logged (flush_events zw events s) log
  unfolding flush_events
  events-Logged [] s log l h = l
  events-Logged (e ∷ events) s log l h =
      events-Logged events (flush_chunk zw s e).1 log
        (image-Logged zw works s log l e h.0.output h.0.type) h.1

  pub queue-Logged :
      (s : Sink) (log : List Entry) → Logged s log → Logged (flush_image_info_event_queue zw s) log
  unfolding flush_image_info_event_queue
  queue-Logged s log l =
      events-Logged s.image_info_queue (record s { image_info_queue = [] }) log
        (record {
          headers = l.headers;
          laid = record {
            run = l.laid.run;
            sound = l.laid.sound;
            inside = l.laid.inside;
            aligned = l.laid.aligned;
          };
          header = l.header;
          some_bytes = l.some_bytes;
          wide = l.wide;
          offsets = l.offsets;
          kept = Stands-queue s log l.kept;
          queued = tt;
        })
        l.queued

-- Events that the agent hands to the sink.
abbrev pub IsEvent : Event → Type 0
IsEvent (buffer client bytes) = IsBuffer client bytes
IsEvent (image c) = IsImage c

Stands-image :
    (s : Sink) (c : OutChunk) (log : List Entry)
    → All (Stands s) log
    → All (Stands (record s { image_info_queue = c ∷ s.image_info_queue })) log
Stands-image s c [] h = tt
Stands-image s c (e ∷ log) (a, h) = (
  record { buffer = a.buffer; inside = a.inside; before = a.before; bytes = a.bytes },
  Stands-image s c log h,
)

abbrev pub contents : List Entry → List (ClientId × List ℕ)
contents = map (λ (e : Entry). (e.client, e.bytes))

module _ (zw : Zw) (works : Writes zw) where
  queued-Logged :
      (s : Sink) (log : List Entry) (c : OutChunk)
      → Logged s log
      → IsImage c
      → Logged (record s { image_info_queue = c ∷ s.image_info_queue }) log
  queued-Logged s log c l i = record {
    headers = l.headers;
    laid = record {
      run = l.laid.run;
      sound = l.laid.sound;
      inside = l.laid.inside;
      aligned = l.laid.aligned;
    };
    header = l.header;
    some_bytes = l.some_bytes;
    wide = l.wide;
    offsets = l.offsets;
    kept = Stands-image s c log l.kept;
    queued = (i, l.queued);
  }

  pub session-Logged :
      (events : List Event) (s : Sink) (log : List Entry)
      → Logged s log
      → All IsEvent events
      → (more : List Entry) × Logged (session zw events s) (log ++ more)
        × (contents more ≡ buffers events)
  unfolding session handle on_process_buffer buffers
  session-Logged [] s log l h = ([], rw append-nil l, refl)
  session-Logged (buffer client bytes ∷ events) s log l h =
      let q = flush_image_info_event_queue zw s in
      let entry : Entry = record {
        client = client;
        offset = place q (trace_chunk client bytes);
        bytes = bytes;
      } in
      let (more, r, e) =
        session-Logged events (on_process_buffer zw bytes client s) (log ++ (entry ∷ []))
          (trace-Logged zw works q log client bytes (queue-Logged zw works s log l) h.0) h.1 in
      (entry ∷ more, rw append_assoc at r, ap (λ xs. (client, bytes) ∷ xs) e)
  session-Logged (image c ∷ events) s log l h =
      session-Logged events (record s { image_info_queue = c ∷ s.image_info_queue }) log
        (queued-Logged s log c l h.0) h.1

  -- The sink that JpkfagpCreateDefaultEventSink makes.
  abbrev fresh : Memory → Sink
  fresh empty_file = record {
    content = empty_file;
    file_size = 0;
    file_position = 0;
    image_info_queue = [];
    failed_chunk_flushes = 0;
  }

  abbrev header_of_sink : FileHeader
  header_of_sink = record {
    signature = header_signature;
    version = header_version;
    characteristics = characteristic_timestamp_tsc + characteristic_32bit;
  }

  file_header_at-store :
      (m : Memory)
      → file_header_at (store m 0 (file_header_bytes header_of_sink)) 0 ≡ header_of_sink
  unfolding file_header_at store file_header_bytes
  file_header_at-store m = refl

  pub created : Memory → Sink
  created empty_file = record {
    content = store empty_file 0 (file_header_bytes header_of_sink);
    file_size = 16;
    file_position = 16;
    image_info_queue = [];
    failed_chunk_flushes = 0;
  }

  pub create-created :
      (empty_file : Memory)
      → create_default_event_sink zw status_success true empty_file
        ≡ (status_success, some (created empty_file))
  unfolding create_default_event_sink file_header_bytes created
  create-created empty_file =
      ground (arith, write_lem zw works (fresh empty_file) (file_header_bytes header_of_sink))

  pub created-Logged : (empty_file : Memory) → Logged (created empty_file) []
  unfolding created offsets_of trace_offsets
  created-Logged empty_file = record {
    headers = [];
    laid = record { run = refl; sound = tt; inside = omega arith; aligned = refl };
    header =
        rw (file_header_at-store empty_file)
          (record { signature = refl; version = refl; timestamp = inl refl; bitness = refl });
    some_bytes = omega arith;
    wide = tt;
    offsets = λ c. refl;
    kept = tt;
    queued = tt;
  }
