-- ===== src/Format/Layout.antt =====
-- The layout of a trace file that the head of include/jptrcfmt.h describes: a sequence of chunks
-- behind the file header.
use ntrace.Base.{ℕ, ◌+◌, ◌≤◌, ◌<◌, ◌≡◌, List, [], ◌∷◌, ◌++◌, arith}
use ntrace.Base.Bytes.{Memory}
use ntrace.Format.{
  ChunkHeader, chunk_header_at, size_of_chunk_header, segment_size, chunk_type_trace_buffer,
}

-- The chunks of a file from an offset to its end: each header stands where the one before it says.
abbrev pub HoldsChunks : Memory → ℕ → ℕ → List ChunkHeader → Type 0
HoldsChunks m size offset [] = size ≤ offset
HoldsChunks m size offset (h ∷ hs) =
    (offset < size) × (chunk_header_at m offset ≡ h) × HoldsChunks m size (offset + h.size) hs

-- A header that the format allows, of a type that the reader knows.
pub record IsSound (h : ChunkHeader) : Type 0 where
  pub reserved : h.reserved ≡ 0
  pub whole : size_of_chunk_header ≤ h.size
  pub small : h.size ≤ segment_size
  pub known : h.type ≤ chunk_type_trace_buffer

-- The chunks between two offsets, each of which begins inside the file.
abbrev pub Run : Memory → ℕ → ℕ → List ChunkHeader → ℕ → Type 0
Run m size offset [] last = offset ≡ last
Run m size offset (h ∷ hs) last =
    (offset < size) × (chunk_header_at m offset ≡ h) × Run m size (offset + h.size) hs last

pub Run-HoldsChunks :
    (m : Memory) (size offset last : ℕ) (hs : List ChunkHeader)
    → Run m size offset hs last
    → size ≤ last
    → HoldsChunks m size offset hs
Run-HoldsChunks m size offset last [] r h = omega arith
Run-HoldsChunks m size offset last (x ∷ hs) r h =
    (r.0, r.1, Run-HoldsChunks m size (offset + x.size) last hs r.2 h)

pub Run-append :
    (m : Memory) (size offset middle last : ℕ) (hs ks : List ChunkHeader)
    → Run m size offset hs middle
    → Run m size middle ks last
    → Run m size offset (hs ++ ks) last
Run-append m size offset middle last [] ks r q = rw r q
Run-append m size offset middle last (x ∷ hs) ks r q =
    (r.0, r.1, Run-append m size (offset + x.size) middle last hs ks r.2 q)

pub Run-le :
    (m : Memory) (size offset last : ℕ) (hs : List ChunkHeader)
    → Run m size offset hs last
    → offset ≤ last
Run-le m size offset last [] r = omega arith
Run-le m size offset last (x ∷ hs) r = omega (arith, Run-le m size (offset + x.size) last hs r.2)
