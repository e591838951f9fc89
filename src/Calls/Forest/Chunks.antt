-- ===== src/Calls/Forest/Chunks.antt =====
-- The enumeration over the chunks of a file that hold the transitions of a forest.
use ntrace.Base.{
  ℕ, ◌+◌, ◌-◌, ◌≤◌, ◌<◌, ◌≡◌, refl, sym, ap, ◌∙◌, Bool, false, List, [], ◌∷◌, ◌++◌, fun_ext, All,
  arith, if◌then◌else◌,
}
use ntrace.Base.Bytes.{Memory}
use ntrace.Format.{
  ClientId, Transition, chunk_header_at, offset_of_transitions, chunk_type_trace_buffer,
}
use ntrace.Reader.{Hr, ok, Os, View, Pointer, target}
use ntrace.Reader.Map.{map_at}
use ntrace.Reader.Map.Window.{map_at-Maps, IsOn, MapsViews}
use ntrace.Calls.{ChunkRef, Symbols}
use ntrace.Calls.Scan.{State, Outcome, go, stop, fail, ◌>>=◌, scan_chunk, step}
use ntrace.Calls.Enum.{enum_chunk, enum_chunks, read_transitions, transition_count, Reply}
use ntrace.Calls.Forest.{Located}
use ntrace.Calls.Forest.Below.{scan}

-- The transitions of a chunk, each with its place.
abbrev pub locate : ChunkRef → ℕ → List Transition → List Located
locate ref index [] = []
locate ref index (t ∷ ts) =
    record { ref = ref; index = index; transition = t } ∷ locate ref (index + 1) ts

>>=_assoc : (o : Outcome) (f g : State → Outcome) → (o >>= f >>= g) ≡ (o >>= λ s. f s >>= g)
>>=_assoc (go s) f g = refl
>>=_assoc (stop s) f g = refl
>>=_assoc (fail e s) f g = refl

module _ (symbols : Symbols) (include_all : Bool) where
  scan_chunk-scan :
      (ref : ChunkRef) (index : ℕ) (ts : List Transition) (s : State)
      → scan_chunk symbols include_all ref index ts s
        ≡ scan symbols include_all (locate ref index ts) s
  unfolding scan_chunk scan
  scan_chunk-scan ref index [] s = refl
  scan_chunk-scan ref index (t ∷ ts) s =
      ap (◌>>=◌ (step symbols include_all ref index t s))
        (fun_ext (scan_chunk-scan ref (index + 1) ts))

  scan-append :
      (ls ms : List Located) (s : State)
      → scan symbols include_all (ls ++ ms) s
        ≡ (scan symbols include_all ls s >>= scan symbols include_all ms)
  unfolding scan
  scan-append [] ms s = refl
  scan-append (l ∷ ls) ms s =
      ap (◌>>=◌ (step symbols include_all l.ref l.index l.transition s))
        (fun_ext (scan-append ls ms))
      ∙ sym (
          >>=_assoc (step symbols include_all l.ref l.index l.transition s)
            (scan symbols include_all ls) (scan symbols include_all ms))

-- The transitions of the chunk at `a`, from the index `first` on, each with its place.
abbrev pub located_chunk : Memory → ChunkRef → ℕ → ℕ → List Located
located_chunk m ref a first = locate ref first (
    read_transitions m (a + offset_of_transitions) first
      (transition_count (chunk_header_at m a).size - first))

-- The same for the chunks of a client at these offsets, the first of them from `first` on.
unfoldable pub located_from : Memory → ClientId → ℕ → ℕ → List ℕ → List Located
located_from m client position first [] = []
located_from m client position first (a ∷ offsets) =
    located_chunk m (record { client = client; position = position }) a first
    ++ located_from m client (position + 1) 0 offsets

-- A chunk of the file that the enumeration can read.
abbrev pub IsReadable : Memory → ℕ → ℕ → Type 0
IsReadable m size a = (a < size) × ((chunk_header_at m a).type ≡ chunk_type_trace_buffer)

-- The index lies in the first of the chunks, or just behind it.
abbrev pub StartsInside : Memory → List ℕ → ℕ → Type 0
StartsInside m [] index = Unit {0}
StartsInside m (a ∷ offsets) index = index ≤ transition_count (chunk_header_at m a).size

-- Where the enumeration starts in its first chunk.
abbrev pub first_index : Bool → ℕ → ℕ
first_index skip_first index = if skip_first then index + 1 else index

-- The result code and the state at the end.
abbrev pub answer : Outcome → Hr × State
answer (go s) = (Hr.s_ok, s)
answer (stop s) = (Hr.s_ok, s)
answer (fail e s) = (e, s)

-- A reply with this answer, and a window on the same file.
pub record Replies (m : Memory) (size : ℕ) (o : Outcome) (r : Reply) : Type 0 where
  pub answered : (r.0, r.2) ≡ answer o
  pub window : IsOn m size r.1

module _ (os : Os) (symbols : Symbols) (include_all : Bool) (system : MapsViews os) (m : Memory)
    (size : ℕ) (client : ClientId) where
  enum_chunk-scan :
      (a : ℕ) (ref : ChunkRef) (index : ℕ) (skip : Bool) (s : State)
      → (chunk_header_at m a).type ≡ chunk_type_trace_buffer
      → index ≤ transition_count (chunk_header_at m a).size
      → enum_chunk os symbols include_all m a ref index skip s
        ≡ scan symbols include_all (located_chunk m ref a (first_index skip index)) s
  unfolding enum_chunk
  enum_chunk-scan a ref index skip s e h = ground (
    arith,
    scan_chunk-scan symbols include_all ref (first_index skip index)
        (read_transitions m (a + offset_of_transitions) (first_index skip index)
          (transition_count (chunk_header_at m a).size - first_index skip index))
        s,
  )

  continue :
      (o : Outcome) (position : ℕ) (offsets : List ℕ) (tail : List Located) (w : View)
      → IsOn m size w
      → ((s : State)
          → Replies m size
              (scan symbols include_all tail s)
              (enum_chunks os symbols include_all client position offsets 0 false w s))
      → Replies m size (o >>= scan symbols include_all tail) (elim o [
        | go s' ↦ enum_chunks os symbols include_all client position offsets 0 false w s'
        | stop s' ↦ (Hr.s_ok, w, s')
        | fail e s' ↦ (e, w, s')
      ])
  continue (go s) position offsets tail w i next = next s
  continue (stop s) position offsets tail w i next = record { answered = refl; window = i }
  continue (fail e s) position offsets tail w i next = record { answered = refl; window = i }

  -- One round of the loop over the chunks, where the chunk is mapped.
  enum_chunks-mapped :
      (position a : ℕ) (offsets : List ℕ) (index : ℕ) (skip : Bool) (v w : View) (s : State)
      (p : Pointer)
      → map_at os v a ≡ (ok p, w)
      → enum_chunks os symbols include_all client position (a ∷ offsets) index skip v s
        ≡ elim (enum_chunk os symbols include_all w.content
            (target p)
            (record { client = client; position = position })
            index
            skip
            s) [
              | go s' ↦
                  enum_chunks os symbols include_all client (position + 1) offsets 0 false w s'
              | stop s' ↦ (Hr.s_ok, w, s')
              | fail e s' ↦ (e, w, s')
            ]
  unfolding enum_chunks
  enum_chunks-mapped position a offsets index skip v w s p e = ground arith

  pub starts_at_zero : (offsets : List ℕ) → StartsInside m offsets 0
  starts_at_zero [] = tt
  starts_at_zero (a ∷ offsets) = omega arith

  pub enum_chunks-scan :
      (position : ℕ) (offsets : List ℕ) (index : ℕ) (skip : Bool) (v : View) (s : State)
      → IsOn m size v
      → All (IsReadable m size) offsets
      → StartsInside m offsets index
      → Replies m size
          (scan symbols include_all
            (located_from m client position (first_index skip index) offsets)
            s)
          (enum_chunks os symbols include_all client position offsets index skip v s)
  unfolding located_from scan enum_chunks
  enum_chunks-scan position [] index skip v s c h k = record { answered = refl; window = c }
  enum_chunks-scan position (a ∷ offsets) index skip v s c h k =
      let (p, w, e, r) =
        map_at-Maps os v a system.0 system.1 c.consistent (rw c.file_size (h.0.0)) in
      let i : IsOn m size w = record {
        content = r.same.content ∙ c.content;
        file_size = r.same.file_size ∙ c.file_size;
        consistent = r.consistent;
      } in
      rw (enum_chunks-mapped position a offsets index skip v w s p e) (
        rw
          (
            i.content,
            r.refers,
            scan-append symbols include_all (located_chunk m ref a (first_index skip index)) tail s,
            enum_chunk-scan a ref index skip s h.0.1 k,
          )
          (continue (scan symbols include_all (located_chunk m ref a (first_index skip index)) s)
            (position + 1) offsets tail w i
            (λ s'.
              enum_chunks-scan (position + 1) offsets 0 false w s' i h.1 (starts_at_zero offsets))))
    where
      ref : ChunkRef
      ref = record { client = client; position = position }

      tail : List Located
      tail = located_from m client (position + 1) 0 offsets
