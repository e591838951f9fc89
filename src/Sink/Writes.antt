-- ===== src/Sink/Writes.antt =====
-- What the writes of JpkfagsFlushChunk do to the file while they succeed.
use Prim.Native.Nat.{max}
use ntrace.Base.{
  ℕ, zero, suc, ◌+◌, ◌-◌, ◌≤◌, ◌<◌, ◌≡◌, refl, sym, ap, ◌∙◌, true, List, [], ◌∷◌, ◌++◌, length,
  length-append, append-nil, append_assoc, ltb→lt, get_or, arith, All-append, ltb, Bool-cases, inl,
  inr,
}
use ntrace.Base.Bytes.{Memory, store, store_before, store_inside}
use ntrace.Format.{ChunkHeader, chunk_header_at, chunk_header_bytes, size_of_file_header}
use ntrace.Format.Layout.{IsSound, Run-append}
use ntrace.Sink.{Zw, OutChunk, Sink, nt_success}
use ntrace.Sink.Flush.{write, pad, write_chunk, remaining, advance}
use ntrace.Sink.Agree.{store-AgreesBelow, chunk_header_at-HasBytes}
use ntrace.Sink.Laid.{
  Writes, IsOutput, Laid, Written, length-bytes_of, length-chunk_header_bytes, pad_header,
  Run-AgreesBelow,
}

pub get_or-append_left :
    (xs ys : List ℕ) (k : ℕ) → k < length xs → get_or (xs ++ ys) k 0 ≡ get_or xs k 0
get_or-append_left [] ys k h = absurd (omega arith)
get_or-append_left (x ∷ xs) ys zero h = refl
get_or-append_left (x ∷ xs) ys (suc k) h = get_or-append_left xs ys k (omega arith)

pub get_or-append_right :
    (xs ys : List ℕ) (i k : ℕ) → i ≡ length xs + k → get_or (xs ++ ys) i 0 ≡ get_or ys k 0
get_or-append_right [] ys i k e = let e' : i ≡ k = omega arith in ap (λ n. get_or ys n 0) e'
get_or-append_right (x ∷ xs) ys zero k e = absurd (omega arith)
get_or-append_right (x ∷ xs) ys (suc i) k e = get_or-append_right xs ys i k (omega arith)

-- Two adjacent writes are one.
store-store :
    (m : Memory) (a at k : ℕ) (xs ys : List ℕ)
    → at ≡ a + length xs
    → k < length xs + length ys
    → store (store m a xs) at ys (a + k) ≡ get_or (xs ++ ys) k 0
store-store m a at k xs ys e h = elim (Bool-cases (ltb k (length xs))) [
  | inl t ↦
      let l : k < length xs = ltb→lt k (length xs) t in
      store_before (store m a xs) at ys (a + k) (omega arith)
      ∙ store_inside m a xs (a + k) k refl l
      ∙ sym (get_or-append_left xs ys k l)
  | inr f ↦
      let l : length xs ≤ k = ground arith in
      store_inside (store m a xs) at ys (a + k) (k - length xs) (omega arith) (omega arith)
      ∙ sym (get_or-append_right xs ys k (k - length xs) (omega arith))
]

module _ (zw : Zw) (works : Writes zw) where
  pub write_lem :
      (s : Sink) (bytes : List ℕ)
      → (nt_success (write zw s bytes).0 ≡ true)
        × ((write zw s bytes).1 ≡ record s {
          content = store s.content s.file_position bytes;
          file_size = max s.file_size (s.file_position + length bytes);
        })
  unfolding write
  write_lem s bytes = ground (arith, works s.file_position (length bytes))

  -- The sink behind the writes of a chunk.
  written : Sink → ChunkHeader → List ℕ → List ℕ → Sink
  written s h rest [] = record s {
    content = store s.content s.file_position (chunk_header_bytes h ++ rest);
    file_size = max s.file_size (s.file_position + (8 + length rest));
    file_position = s.file_position + h.size;
  }
  written s h rest (b ∷ body) =
      let head = 8 + length rest in
      let at = s.file_position + (h.size - suc (length body)) in
      record s {
        content =
            store (store s.content s.file_position (chunk_header_bytes h ++ rest)) at (b ∷ body);
        file_size = max (max s.file_size (s.file_position + head)) (at + suc (length body));
        file_position = at + suc (length body);
      }

  write_chunk-written :
      (s : Sink) (h : ChunkHeader) (rest body : List ℕ)
      → let r = write_chunk zw s (record { header = h; rest = rest; body = body }) in
        (nt_success r.0 ≡ true) × (r.1 ≡ written s h rest body)
  unfolding write_chunk written
  write_chunk-written s h rest [] = ground (
    arith,
    write_lem s (chunk_header_bytes h ++ rest),
    length-append (chunk_header_bytes h) rest,
    length-chunk_header_bytes h,
  )
  write_chunk-written s h rest (b ∷ body) = ground (
    arith,
    write_lem s (chunk_header_bytes h ++ rest),
    write_lem (advance (h.size - suc (length body)) (write zw s (chunk_header_bytes h ++ rest)).1)
        (b ∷ body),
    length-append (chunk_header_bytes h) rest,
    length-chunk_header_bytes h,
  )

  written-Written :
      (s : Sink) (h : ChunkHeader) (rest body : List ℕ)
      → 8 + length rest + length body ≡ h.size
      → Written s (record { header = h; rest = rest; body = body }) (written s h rest body)
  unfolding written
  written-Written s h rest [] e = record {
    position = refl;
    size = omega arith;
    old = store-AgreesBelow s.content s.file_position s.file_position _ (omega arith);
    new = λ k i q l.
        rw (q, append-nil)
          (store_inside s.content s.file_position (chunk_header_bytes h ++ rest)
            (s.file_position + k) k refl
            (omega (
              arith,
              length-append (chunk_header_bytes h) rest,
              length-chunk_header_bytes h,
              length-bytes_of h rest [],
            )));
  }
  written-Written s h rest (b ∷ body) e = record {
    position = omega arith;
    size = omega arith;
    old = λ i k.
        store_before _ (s.file_position + (h.size - suc (length body))) (b ∷ body) i (omega arith)
        ∙ store_before s.content s.file_position (chunk_header_bytes h ++ rest) i k;
    new = λ k i q l.
        rw (q, ← append_assoc (chunk_header_bytes h) rest (b ∷ body))
          (store-store s.content s.file_position (s.file_position + (h.size - suc (length body))) k
            (chunk_header_bytes h ++ rest) (b ∷ body)
            (omega (arith, length-append (chunk_header_bytes h) rest, length-chunk_header_bytes h))
            (omega (
              arith,
              length-append (chunk_header_bytes h) rest,
              length-chunk_header_bytes h,
              length-bytes_of h rest (b ∷ body),
            )));
  }

  pub write_chunk-Written :
      (s : Sink) (c : OutChunk)
      → IsOutput c
      → (nt_success (write_chunk zw s c).0 ≡ true) × Written s c (write_chunk zw s c).1
  write_chunk-Written s c o =
      let r = write_chunk-written s c.header c.rest c.body in
      (r.0, rw r.1 (written-Written s c.header c.rest c.body o.counted))

  pub pad_lem :
      (s : Sink)
      → (nt_success (pad zw s).0 ≡ true)
        × ((pad zw s).1 ≡ record s {
          content = store s.content s.file_position (chunk_header_bytes (pad_header s));
          file_size = max s.file_size (s.file_position + 8);
          file_position = s.file_position + remaining s;
        })
  unfolding pad
  pad_lem s = ground (
    arith,
    write_lem s (chunk_header_bytes (pad_header s)),
    length-chunk_header_bytes (pad_header s),
  )

-- A pad chunk fills the segment.
pub pad-Laid :
    (zw : Zw) (works : Writes zw) (s : Sink) (hs : List ChunkHeader)
    → Laid s hs
    → Laid (pad zw s).1 (hs ++ (pad_header s ∷ []))
pad-Laid zw works s hs l =
    let m = store s.content s.file_position (chunk_header_bytes (pad_header s)) in
    let q : chunk_header_at m s.file_position ≡ pad_header s =
      chunk_header_at-HasBytes m s.file_position (pad_header s) [] (omega arith) (omega arith)
        (omega arith)
        (λ k i e h. rw append-nil (
          store_inside s.content s.file_position (chunk_header_bytes (pad_header s)) i k e
            (rw append-nil at h))) in
    rw (pad_lem zw works s).1 (record {
      run =
          Run-append m (max s.file_size (s.file_position + 8)) size_of_file_header s.file_position
            (s.file_position + remaining s) hs (pad_header s ∷ [])
            (Run-AgreesBelow s.content m s.file_size (max s.file_size (s.file_position + 8))
              size_of_file_header s.file_position hs
              (store-AgreesBelow s.content s.file_position s.file_position _ (omega arith))
              (omega arith) l.sound l.run)
            (omega arith, q, refl);
      sound = All-append IsSound hs (pad_header s ∷ []) l.sound (
        record {
          reserved = refl;
          whole = omega (arith, l.aligned);
          small = omega arith;
          known = omega arith;
        },
        tt,
      );
      inside = omega (arith, l.inside, l.aligned);
      aligned = omega (arith, l.aligned);
    })
