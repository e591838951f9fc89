-- ===== src/RoundTrip/Offsets.antt =====
-- How the offsets of the trace chunks of a client change as a file grows.
use ntrace.Base.{ℕ, ◌+◌, ◌^◌, ◌≤◌, ◌<◌, ◌≡◌, refl, ap, List, [], ◌∷◌, ◌++◌, arith, All}
use ntrace.Base.Bytes.{Memory, u32_bytes}
use ntrace.Format.{ChunkHeader, chunk_header_bytes, ClientId, client_at, chunk_type_trace_buffer}
use ntrace.Format.Layout.{Run, Run-le}
use ntrace.Reader.Inventory.Registered.{trace_offsets}
use ntrace.Sink.Agree.{AgreesBelow, client_at-AgreesBelow, HasBytes}

-- A trace chunk has room for its client.
abbrev pub IsWide : ChunkHeader → Type 0
IsWide h = h.type ≡ chunk_type_trace_buffer → 16 ≤ h.size

pub trace_offsets-append :
    (m : Memory) (size offset last : ℕ) (c : ClientId) (hs ks : List ChunkHeader)
    → Run m size offset hs last
    → trace_offsets m c offset (hs ++ ks) ≡ trace_offsets m c offset hs ++ trace_offsets m c last ks
unfolding trace_offsets
trace_offsets-append m size offset last c [] ks r = ap (λ o. trace_offsets m c o ks) r
trace_offsets-append m size offset last c (x ∷ hs) ks r =
    ground (arith, trace_offsets-append m size (offset + x.size) last c hs ks r.2)

pub trace_offsets-AgreesBelow :
    (m m' : Memory) (size offset last : ℕ) (c : ClientId) (hs : List ChunkHeader)
    → AgreesBelow last m m'
    → All IsWide hs
    → Run m size offset hs last
    → trace_offsets m' c offset hs ≡ trace_offsets m c offset hs
unfolding trace_offsets
trace_offsets-AgreesBelow m m' size offset last c [] agree w r = refl
trace_offsets-AgreesBelow m m' size offset last c (x ∷ hs) agree w r = ground (
  arith,
  trace_offsets-AgreesBelow m m' size (offset + x.size) last c hs agree w.1 r.2,
  Run-le m size (offset + x.size) last hs r.2,
  client_at-AgreesBelow last m m' agree offset,
  w.0,
)

-- The client of a chunk in range is read back as it was written.
pub client_at-HasBytes :
    (m : Memory) (a : ℕ) (h : ChunkHeader) (client : ClientId) (rest : List ℕ)
    → client.process_id < 2 ^ 32
    → client.thread_id < 2 ^ 32
    → HasBytes m a (
        chunk_header_bytes h
        ++ ((u32_bytes client.process_id ++ u32_bytes client.thread_id) ++ rest))
    → client_at m a ≡ client
unfolding client_at chunk_header_bytes
client_at-HasBytes m a h client rest p t new = ground (
  arith,
  new 8 (a + 8),
  new 9 (a + 8 + 1),
  new 10 (a + 8 + 2),
  new 11 (a + 8 + 3),
  new 12 (a + 12),
  new 13 (a + 12 + 1),
  new 14 (a + 12 + 2),
  new 15 (a + 12 + 3),
)
