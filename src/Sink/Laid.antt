-- ===== src/Sink/Laid.antt =====
-- The chunks in the file that a sink has written, and how a write adds to them.
use Prim.Native.Nat.{max}
use ntrace.Base.{
  ℕ, ◌+◌, ◌%◌, ◌≤◌, ◌<◌, ◌≡◌, refl, sym, ◌∙◌, true, List, [], ◌∷◌, ◌++◌, length, length-append,
  arith, All, All-append,
}
use ntrace.Base.Bytes.{Memory}
use ntrace.Format.{
  ChunkHeader, chunk_header_at, chunk_header_bytes, segment_size, chunk_alignment,
  size_of_chunk_header, size_of_file_header, chunk_type_pad, chunk_type_trace_buffer,
}
use ntrace.Format.Layout.{IsSound, Run, Run-append, Run-le}
use ntrace.Sink.{Zw, OutChunk, Sink, nt_success}
use ntrace.Sink.Flush.{remaining}
use ntrace.Sink.Agree.{AgreesBelow, chunk_header_at-AgreesBelow, chunk_header_at-HasBytes, HasBytes}

-- The writes succeed.
abbrev pub Writes : Zw → Type 0
Writes zw = (p n : ℕ) → nt_success (zw.write_file p n) ≡ true

-- A chunk that the code may hand to JpkfagsFlushChunk: what its assertions ask for, a size of at
-- most a segment, and as many bytes as its header says.
pub record IsOutput (c : OutChunk) : Type 0 where
  pub reserved : c.header.reserved ≡ 0
  pub known : c.header.type ≤ chunk_type_trace_buffer
  pub whole : size_of_chunk_header < c.header.size
  pub small : c.header.size ≤ segment_size
  pub aligned : c.header.size % chunk_alignment ≡ 0
  pub counted : size_of_chunk_header + length c.rest + length c.body ≡ c.header.size

-- The file behind the sink holds these chunks between the file header and the position, and the
-- position is aligned.
pub record Laid (s : Sink) (hs : List ChunkHeader) : Type 0 where
  pub run : Run s.content s.file_size size_of_file_header hs s.file_position
  pub sound : All IsSound hs
  pub inside : s.file_size ≤ s.file_position
  pub aligned : s.file_position % chunk_alignment ≡ 0

abbrev pub bytes_of : OutChunk → List ℕ
bytes_of c = chunk_header_bytes c.header ++ (c.rest ++ c.body)

pub length-chunk_header_bytes : (h : ChunkHeader) → length (chunk_header_bytes h) ≡ 8
unfolding chunk_header_bytes
length-chunk_header_bytes h = refl

pub Run-AgreesBelow :
    (m m' : Memory) (size size' offset last : ℕ) (hs : List ChunkHeader)
    → AgreesBelow last m m'
    → size ≤ size'
    → All IsSound hs
    → Run m size offset hs last
    → Run m' size' offset hs last
Run-AgreesBelow m m' size size' offset last [] agree h s r = r
Run-AgreesBelow m m' size size' offset last (x ∷ hs) agree h s r = (
  omega (arith, r.0),
  chunk_header_at-AgreesBelow last m m' agree offset
        (omega (arith, Run-le m size (offset + x.size) last hs r.2, s.0.whole))
      ∙ r.1,
  Run-AgreesBelow m m' size size' (offset + x.size) last hs agree h s.1 r.2,
)

-- What a chunk leaves in the file: its bytes at the position, which moves behind it.
pub record Written (s : Sink) (c : OutChunk) (t : Sink) : Type 0 where
  pub position : t.file_position ≡ s.file_position + c.header.size
  pub size : t.file_size ≡ max s.file_size (s.file_position + c.header.size)
  pub old : AgreesBelow s.file_position s.content t.content
  pub new : HasBytes t.content s.file_position (bytes_of c)

pub length-bytes_of :
    (h : ChunkHeader) (rest body : List ℕ)
    → length (chunk_header_bytes h ++ (rest ++ body)) ≡ 8 + length rest + length body
length-bytes_of h rest body = omega (
  arith,
  length-append (chunk_header_bytes h) (rest ++ body),
  length-append rest body,
  length-chunk_header_bytes h,
)

-- The header of a pad chunk that fills the segment.
abbrev pub pad_header : Sink → ChunkHeader
pad_header s = record { type = chunk_type_pad; reserved = 0; size = remaining s }

-- A chunk written at the position extends the file by it.
pub Written-Laid :
    (s t : Sink) (c : OutChunk) (hs : List ChunkHeader)
    → IsOutput c
    → Laid s hs
    → Written s c t
    → Laid t (hs ++ (c.header ∷ []))
Written-Laid s t c hs o l w =
    let q : chunk_header_at t.content s.file_position ≡ c.header =
      chunk_header_at-HasBytes t.content s.file_position c.header (c.rest ++ c.body)
        (omega (arith, o.known)) (omega (arith, o.reserved)) (omega (arith, o.small)) w.new in
    record {
      run =
          Run-append t.content t.file_size size_of_file_header s.file_position t.file_position hs
            (c.header ∷ [])
            (Run-AgreesBelow s.content t.content s.file_size t.file_size size_of_file_header
              s.file_position hs w.old (omega (arith, w.size)) l.sound l.run)
            (omega (arith, w.size, o.whole), q, sym w.position);
      sound = All-append IsSound hs (c.header ∷ []) l.sound (
        record {
          reserved = o.reserved;
          whole = omega (arith, o.whole);
          small = o.small;
          known = o.known;
        },
        tt,
      );
      inside = omega (arith, w.size, w.position, l.inside);
      aligned = omega (arith, w.position, l.aligned, o.aligned);
    }
