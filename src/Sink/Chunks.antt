-- ===== src/Sink/Chunks.antt =====
-- Where JpkfagsFlushChunk puts a chunk.
use ntrace.Base.{
  ℕ, ◌+◌, ◌-◌, ◌/◌, ◌≤◌, ◌≡◌, sym, ap, ◌∙◌, true, false, List, [], ◌∷◌, ◌++◌, append_assoc, arith,
  ltb, if◌then◌else◌, Bool-cases, inl, inr, subst,
}
use ntrace.Format.{ChunkHeader, segment_size}
use ntrace.Sink.{Zw, OutChunk, Sink, nt_success}
use ntrace.Sink.Flush.{pad, write_chunk, flush_chunk, remaining, conclude}
use ntrace.Sink.Agree.{AgreesBelow, store-AgreesBelow, HasBytes}
use ntrace.Sink.Laid.{Writes, IsOutput, Laid, bytes_of, pad_header, Written-Laid}
use ntrace.Sink.Writes.{write_chunk-Written, pad_lem, pad-Laid}

-- The pad chunk, if one is needed, and the offset at which the chunk then stands.
abbrev pub padding : Sink → OutChunk → List ChunkHeader
padding s c = if ltb (remaining s) c.header.size then pad_header s ∷ [] else []

abbrev pub place : Sink → OutChunk → ℕ
place s c =
    if ltb (remaining s) c.header.size then s.file_position + remaining s else s.file_position

-- What a flushed chunk leaves in the file.
pub record Flushed (s : Sink) (c : OutChunk) (hs : List ChunkHeader) (t : Sink) : Type 0 where
  pub laid : Laid t (hs ++ (padding s c ++ (c.header ∷ [])))
  pub position : t.file_position ≡ place s c + c.header.size
  pub reached : place s c + c.header.size ≤ t.file_size
  pub grows : s.file_size ≤ t.file_size
  pub one_segment : place s c / segment_size ≡ (place s c + c.header.size - 1) / segment_size
  pub old : AgreesBelow s.file_position s.content t.content
  pub new : HasBytes t.content (place s c) (bytes_of c)

module _ (zw : Zw) (works : Writes zw) where
  conclude-state : (r : ℕ × Sink) → nt_success r.0 ≡ true → (conclude zw r).1 ≡ r.1
  unfolding conclude
  conclude-state (status, s) e = ground arith

  flush_chunk-fits :
      (s : Sink) (c : OutChunk)
      → IsOutput c
      → ltb (remaining s) c.header.size ≡ false
      → (flush_chunk zw s c).1 ≡ (write_chunk zw s c).1
  unfolding flush_chunk
  flush_chunk-fits s c o e =
      rw (e, flush_chunk)
        (conclude-state (write_chunk zw s c) (write_chunk-Written zw works s c o).0)

  flush_chunk-pads :
      (s : Sink) (c : OutChunk)
      → IsOutput c
      → ltb (remaining s) c.header.size ≡ true
      → (flush_chunk zw s c).1 ≡ (write_chunk zw (pad zw s).1 c).1
  unfolding flush_chunk
  flush_chunk-pads s c o e =
      rw (e, flush_chunk, (pad_lem zw works s).0)
        (conclude-state (write_chunk zw (pad zw s).1 c)
          (write_chunk-Written zw works (pad zw s).1 c o).0)

  -- While the writes succeed, on a file of sound chunks and for a chunk whose header has a known type,
  -- a reserved field of 0 and an aligned size, which is that of its bytes, more than its header and at
  -- most a segment, JpkfagsFlushChunk adds the chunk to those of the file, whole and within one
  -- segment, behind a pad chunk exactly if the segment has too little room left; what the file held
  -- stays, and the chunk's own bytes stand at its place.
  pub flush_chunk-Flushed :
      (s : Sink) (c : OutChunk) (hs : List ChunkHeader)
      → IsOutput c
      → Laid s hs
      → Flushed s c hs (flush_chunk zw s c).1
  flush_chunk-Flushed s c hs o l = elim (Bool-cases (ltb (remaining s) c.header.size)) [
    | inl e ↦
        let p = (pad zw s).1 in
        let w = (write_chunk-Written zw works p c o).1 in
        let q : p.file_position ≡ s.file_position + remaining s =
          ap (λ (t : Sink). t.file_position) (pad_lem zw works s).1 in
        let a : AgreesBelow s.file_position s.content p.content =
          subst (λ (t : Sink). AgreesBelow s.file_position s.content t.content)
            (sym (pad_lem zw works s).1)
            (store-AgreesBelow s.content s.file_position s.file_position _ (omega arith)) in
        rw (flush_chunk-pads s c o e) (record {
          laid = rw e (
              rw append_assoc at (
                Written-Laid p (write_chunk zw p c).1 c (hs ++ (pad_header s ∷ [])) o
                  (pad-Laid zw works s hs l) w));
          position = rw e (w.position ∙ ap (λ (n : ℕ). n + c.header.size) q);
          reached = rw e (omega (arith, w.size, q));
          grows = omega (arith, w.size, ap (λ (t : Sink). t.file_size) (pad_lem zw works s).1);
          one_segment = ground (arith, o.whole, o.small);
          old = λ i h. w.old i (omega (arith, q)) ∙ a i h;
          new = rw (e, ← q) w.new;
        })
    | inr e ↦
        let w = (write_chunk-Written zw works s c o).1 in
        rw (flush_chunk-fits s c o e) (record {
          laid = rw e (Written-Laid s (write_chunk zw s c).1 c hs o l w);
          position = rw e w.position;
          reached = rw e (omega (arith, w.size));
          grows = omega (arith, w.size);
          one_segment = ground (arith, o.whole);
          old = w.old;
          new = rw e w.new;
        })
  ]
