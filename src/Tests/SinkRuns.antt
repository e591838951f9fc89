-- ===== src/Tests/SinkRuns.antt =====
-- The sink on single chunks and events.
use ntrace.Base.{◌<◌, ◌≡◌, refl, arith, true, List, [], ◌∷◌, none, some}
use ntrace.Base.Bytes.{store}
use ntrace.Format.{ChunkHeader, chunk_header_at, chunk_header_bytes}
use ntrace.Sink.{Zw, OutChunk, Sink}
use ntrace.Sink.Flush.{flush_chunk, trace_chunk}
use ntrace.Sink.Laid.{Laid}
use ntrace.Sink.Chunks.{Flushed, flush_chunk-Flushed}
use ntrace.Sink.Events.{Moment, Dropped, DebugEntry, on_image_load}
use ntrace.Sink.Events.Transitions.{on_exit, callback, Reacts, callback-Reacts}
use ntrace.Sink.Events.Images.{Describes, on_image_load-Describes}
use ntrace.Sink.Events.Directory.{debug_bytes}
use ntrace.RoundTrip.Log.{IsBuffer}
use ntrace.RoundTrip.Logging.{trace_chunk-IsOutput}
use ntrace.Tests.Data.{thread, nothing, two_transitions}

abbrev zw : Zw
zw = record { write_file = λ p n. 0; flush_buffers_file = none }

-- A sink whose position is 32 bytes before the end of the first segment, behind a run of chunks.
abbrev near_end : Sink
near_end = record {
  content =
      store nothing 16 (chunk_header_bytes (record { type = 0; reserved = 0; size = 262096 }));
  file_size = 262112;
  file_position = 262112;
  image_info_queue = [];
  failed_chunk_flushes = 0;
}

abbrev big_pad : ChunkHeader
big_pad = record { type = 0; reserved = 0; size = 262096 }

near_end-Laid : Laid near_end (big_pad ∷ [])
unfolding store chunk_header_bytes chunk_header_at
near_end-Laid = record {
  run = (omega arith, refl, refl);
  sound = (
    record { reserved = refl; whole = omega arith; small = omega arith; known = omega arith },
    tt,
  );
  inside = omega arith;
  aligned = refl;
}

thread-IsBuffer : IsBuffer thread two_transitions
thread-IsBuffer = record {
  process = omega arith;
  thread = omega arith;
  some_bytes = omega arith;
  whole = refl;
  fits = omega arith;
}

flush_chunk-Flushed_example :
    Flushed near_end
      (trace_chunk thread two_transitions)
      (big_pad ∷ [])
      (flush_chunk zw near_end (trace_chunk thread two_transitions)).1
flush_chunk-Flushed_example =
    flush_chunk-Flushed zw (λ p n. refl) near_end (trace_chunk thread two_transitions)
      (big_pad ∷ []) (trace_chunk-IsOutput thread two_transitions thread-IsBuffer) near_end-Laid

abbrev none_dropped : Dropped
none_dropped = record {
  entry_events = 0;
  exit_events = 0;
  unwind_events = 0;
  image_info_events = 0;
}

abbrev moment : Moment
moment = record { buffer = some 64; time = 9; procedure = 0x1000 }

callback-Reacts_example :
    Reacts on_exit moment 1 nothing none_dropped (callback on_exit moment 1 (nothing, none_dropped))
callback-Reacts_example =
    callback-Reacts on_exit moment 1 nothing none_dropped (omega arith) (omega arith) (omega arith)

-- A debug directory with one entry of 5 bytes.
abbrev debug : List DebugEntry
debug =
    record {
      head = 0 ∷ 0 ∷ 0 ∷ 0 ∷ 0 ∷ 0 ∷ 0 ∷ 0 ∷ 0 ∷ 0 ∷ 0 ∷ 0 ∷ 2 ∷ 0 ∷ 0 ∷ 0 ∷ [];
      data_of = 82 ∷ 83 ∷ 68 ∷ 83 ∷ 1 ∷ [];
    }
    ∷ []

debug-small : debug_bytes debug < 65536
unfolding debug_bytes
debug-small = omega arith

on_image_load-Describes_example :
    (c : OutChunk) × (on_image_load true nothing 0x80400000 4096
        (97 ∷ 98 ∷ [])
        debug
        (near_end, none_dropped)
      ≡ (record near_end { image_info_queue = c ∷ [] }, none_dropped))
    × Describes nothing 0x80400000 4096 (97 ∷ 98 ∷ []) debug c
on_image_load-Describes_example =
    on_image_load-Describes nothing 0x80400000 4096 (97 ∷ 98 ∷ []) debug near_end none_dropped
      (omega arith) (omega arith) (omega arith) (refl, tt) debug-small
