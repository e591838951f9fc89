-- ===== src/RoundTrip.antt =====
-- The trace file between the kernel agent that writes it (Jpkfbt/jpkfag) and the library that reads
-- it (Jptrcr/jptrcr): a session of the sink, and what the reader finds in its file.
pub mod Offsets
pub mod Log
pub mod Logging
pub mod Session
pub mod Enumerated
use ntrace.Base.{ℕ, List, [], ◌∷◌, Bool, Option, some, none, if◌then◌else◌}
use ntrace.Format.{ClientId}
use ntrace.Sink.{Zw, OutChunk, Sink}
use ntrace.Sink.Flush.{on_process_buffer}
use ntrace.Reader.Clients.{equals_client}

-- What happens to a sink: a buffer is handed to it, or an image event is queued.
pub data Event : Type 0 where
  buffer : ClientId → List ℕ → Event
  image : OutChunk → Event

unfoldable pub handle : Zw → Event → Sink → Sink
handle zw (buffer client bytes) s = on_process_buffer zw bytes client s
handle zw (image chunk) s = record s { image_info_queue = chunk ∷ s.image_info_queue }

unfoldable pub session : Zw → List Event → Sink → Sink
session zw [] s = s
session zw (e ∷ events) s = session zw events (handle zw e s)

-- A buffer that was written: whose, where its chunk stands, and its bytes.
pub record Entry : Type 0 where
  pub client : ClientId
  pub offset : ℕ
  pub bytes : List ℕ

-- The offsets of the entries of a client.
unfoldable pub offsets_of : ClientId → List Entry → List ℕ
offsets_of c [] = []
offsets_of c (e ∷ log) =
    let rest = offsets_of c log in if equals_client e.client c then e.offset ∷ rest else rest

-- The log holds the buffers of the events, in order.
unfoldable pub buffers : List Event → List (ClientId × List ℕ)
buffers [] = []
buffers (buffer client bytes ∷ events) = (client, bytes) ∷ buffers events
buffers (image chunk ∷ events) = buffers events
