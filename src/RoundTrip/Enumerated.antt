-- ===== src/RoundTrip/Enumerated.antt =====
-- JptrcrEnumCalls on the file of a session.
use ntrace.Base.{
  ℕ, zero, suc, ◌+◌, ◌-◌, ◌*◌, ◌/◌, ◌≤◌, ◌≡◌, refl, ap, ap₂, ◌∙◌, true, Option, some, none, List,
  [], ◌∷◌, ◌++◌, length, arith, if◌then◌else◌, inl, inr, All, get_or, Bool-cases,
}
use ntrace.Base.Bytes.{Memory}
use ntrace.Base.Table.{Hashtable}
use ntrace.Format.{
  ChunkHeader, chunk_header_bytes, chunk_header_at, ClientId, Transition, transition_at,
}
use ntrace.Reader.{Hr, Os}
use ntrace.Reader.Map.Window.{MapsViews}
use ntrace.Reader.Modules.{LoadedModule}
use ntrace.Reader.Clients.{equals_client}
use ntrace.Reader.Inventory.{Surroundings, Opening, File, open_file}
use ntrace.Reader.Inventory.Registered.{appended, Succeeds}
use ntrace.Calls.{ChunkRef, Symbol}
use ntrace.Calls.Enum.{read_transitions, transition_count, enum_calls, symbols_of}
use ntrace.Calls.Forest.{Located, Forest, call, trace, IsTraced, Lists}
use ntrace.Calls.Forest.Chunks.{locate, located_chunk, located_from, IsReadable}
use ntrace.Calls.Forest.Exports.{enum_calls-Lists}
use ntrace.Sink.{Zw, Sink, status_success}
use ntrace.Sink.Flush.{trace_chunk, create_default_event_sink}
use ntrace.Sink.Agree.{HasBytes, chunk_header_at-HasBytes}
use ntrace.Sink.Laid.{Writes, bytes_of}
use ntrace.RoundTrip.{Event, Entry, offsets_of, buffers, session}
use ntrace.RoundTrip.Log.{Stands}
use ntrace.RoundTrip.Logging.{IsEvent, contents}
use ntrace.RoundTrip.Session.{Opens, session-ReadsBack}

-- The transitions in the bytes of a buffer.
unfoldable pub transitions_in : List ℕ → List Transition
transitions_in bytes = read_transitions (λ i. get_or bytes i 0) 0 0 (length bytes / 16)

-- The transitions that a thread put into its buffers, each with its place: the number of the buffer
-- among those of the thread, and the index in the buffer.
unfoldable pub recorded : ClientId → ℕ → List (ClientId × List ℕ) → List Located
recorded c position [] = []
recorded c position ((client, bytes) ∷ buffers) =
    let rest = recorded c position buffers in
    let later = recorded c (position + 1) buffers in
    if equals_client client c
    then locate (record { client = c; position = position }) 0 (transitions_in bytes) ++ later
    else rest

transition_at-buffer :
    (m : Memory) (a j : ℕ) (client : ClientId) (bytes : List ℕ)
    → HasBytes m a (bytes_of (trace_chunk client bytes))
    → j + 16 ≤ length bytes
    → transition_at m (a + 16 + j) ≡ transition_at (λ i. get_or bytes i 0) j
unfolding transition_at chunk_header_bytes
transition_at-buffer m a j client bytes new h = ground (
  arith,
  new (16 + j) (a + 16 + j),
  new (17 + j) (a + 16 + j + 1),
  new (18 + j) (a + 16 + j + 2),
  new (19 + j) (a + 16 + j + 3),
  new (20 + j) (a + 16 + j + 4),
  new (21 + j) (a + 16 + j + 4 + 1),
  new (22 + j) (a + 16 + j + 4 + 2),
  new (23 + j) (a + 16 + j + 4 + 3),
  new (24 + j) (a + 16 + j + 8),
  new (25 + j) (a + 16 + j + 8 + 1),
  new (26 + j) (a + 16 + j + 8 + 2),
  new (27 + j) (a + 16 + j + 8 + 3),
  new (28 + j) (a + 16 + j + 12),
  new (29 + j) (a + 16 + j + 12 + 1),
  new (30 + j) (a + 16 + j + 12 + 2),
  new (31 + j) (a + 16 + j + 12 + 3),
)

read_transitions-buffer :
    (m : Memory) (a index n : ℕ) (client : ClientId) (bytes : List ℕ)
    → HasBytes m a (bytes_of (trace_chunk client bytes))
    → 16 * (index + n) ≤ length bytes
    → read_transitions m (a + 16) index n ≡ read_transitions (λ i. get_or bytes i 0) 0 index n
unfolding read_transitions
read_transitions-buffer m a index zero client bytes new h = refl
read_transitions-buffer m a index (suc n) client bytes new h =
    ap₂ ◌∷◌
      (transition_at-buffer m a (16 * index) client bytes new (omega arith)
        ∙ ap (transition_at (λ i. get_or bytes i 0)) (omega arith))
      (read_transitions-buffer m a (index + 1) n client bytes new (omega arith))

module _ (s : Sink) where
  header-Stands :
      (e : Entry)
      → Stands s e
      → chunk_header_at s.content e.offset ≡ (trace_chunk e.client e.bytes).header
  header-Stands e t =
      chunk_header_at-HasBytes s.content e.offset (trace_chunk e.client e.bytes).header
        ((trace_chunk e.client e.bytes).rest ++ e.bytes) (omega arith) (omega arith)
        (omega (arith, t.buffer.fits)) t.bytes

  located_chunk-Stands :
      (ref : ChunkRef) (e : Entry)
      → Stands s e
      → located_chunk s.content ref e.offset 0 ≡ locate ref 0 (transitions_in e.bytes)
  unfolding transitions_in
  located_chunk-Stands ref e t =
      let n : transition_count (chunk_header_at s.content e.offset).size - 0 ≡ length e.bytes / 16 =
        rw (header-Stands e t) (omega (arith, t.buffer.fits)) in
      rw n (
        ap (locate ref 0) (
          read_transitions-buffer s.content e.offset 0 (length e.bytes / 16) e.client e.bytes
            t.bytes (omega arith)))

  located_from-Stands :
      (c : ClientId) (position : ℕ) (log : List Entry)
      → All (Stands s) log
      → located_from s.content c position 0 (offsets_of c log) ≡ recorded c position (contents log)
  unfolding located_from offsets_of recorded
  located_from-Stands c position [] h = refl
  located_from-Stands c position (e ∷ log) h = elim (Bool-cases (equals_client e.client c)) [
    | inl q ↦
        rw (q, offsets_of, recorded)
          (ap₂ ◌++◌ (located_chunk-Stands (record { client = c; position = position }) e h.0)
            (located_from-Stands c (position + 1) log h.1))
    | inr q ↦ rw (q, offsets_of, recorded) (located_from-Stands c position log h.1)
  ]

  IsReadable-Stands :
      (c : ClientId) (log : List Entry)
      → All (Stands s) log
      → All (IsReadable s.content s.file_size) (offsets_of c log)
  unfolding offsets_of
  IsReadable-Stands c [] h = tt
  IsReadable-Stands c (e ∷ log) h = elim (Bool-cases (equals_client e.client c)) [
    | inl q ↦
        rw (q, offsets_of)
          (
            (h.0.inside, ap (λ (x : ChunkHeader). x.type) (header-Stands e h.0)),
            IsReadable-Stands c log h.1,
          )
    | inr q ↦ rw (q, offsets_of) (IsReadable-Stands c log h.1)
  ]

-- A client with buffers has an entry in the table.
some_entry :
    (offsets : List ℕ) (m : Memory) (c : ClientId) (l : Located) (ls : List Located)
    → located_from m c 0 0 offsets ≡ l ∷ ls
    → appended none offsets ≡ some offsets
unfolding located_from appended
some_entry [] m c l ls e = absurd (ground arith)
some_entry (x ∷ xs) m c l ls e = refl

module _ (os : Os) (clients : Hashtable ClientId (List ℕ)) (modules : Hashtable ℕ LoadedModule)
    (around : Surroundings) (succeeds : Succeeds around) (system : MapsViews os) (opening : Opening)
    (ready : Opens opening) (zw : Zw) (works : Writes zw) where
  -- Suppose that the buffers handed to a new sink hold one or more whole transitions, and fit into a
  -- segment together with their chunk and client header; that the ids of their threads are numbers of
  -- 32 bits; that every image event handed to it is an image chunk with a reserved field of 0 and a
  -- size that is that of its bytes, more than its header, aligned, and at most a segment, which the
  -- code does not ensure; that the writes succeed; and that on the reader's side the file can be opened
  -- and mapped, the system maps and unmaps views, and all allocations and path conversions succeed. If
  -- then the transitions in the buffers of a thread are the trace of a forest of calls with at least
  -- one call, each left with the procedure that it was entered with, JptrcrOpenFile opens the file of
  -- the session, and JptrcrEnumCalls delivers for the thread the calls on the top level of the forest,
  -- in order, each with its own times, procedure, handle, result and number of calls below it.
  pub session-enum_calls :
      (sym_from_addr : ℕ → Option Symbol) (empty_file : Memory) (events : List Event) (c : ClientId)
      (enter leave : Located) (children later : Forest)
      → All IsEvent events
      → IsTraced (call enter leave children later)
      → recorded c 0 (buffers events) ≡ trace (call enter leave children later) []
      → (sink : Sink) × (create_default_event_sink zw status_success true empty_file
          ≡ (status_success, some sink))
        × (g : File clients modules) × (open_file os clients modules around opening
              (session zw events sink).content
              (session zw events sink).file_size
            ≡ some (Hr.s_ok, g))
        × ((enum_calls os
              (symbols_of sym_from_addr modules g.modules_table)
              (clients.get g.clients_table)
              c
              g.view).0
            ≡ Hr.s_ok)
        × Lists
            (enum_calls os
              (symbols_of sym_from_addr modules g.modules_table)
              (clients.get g.clients_table)
              c
              g.view).2.delivered
            (call enter leave children later)
  unfolding trace
  session-enum_calls sym_from_addr empty_file events c enter leave children later ok well_formed
        same =
      let r =
        session-ReadsBack os clients modules around succeeds system opening ready zw works
          empty_file events ok in
      let t = session zw events r.sink in
      let g = r.opened.file in
      let located : located_from t.content c 0 0 (offsets_of c r.log)
          ≡ trace (call enter leave children later) [] =
        located_from-Stands t c 0 r.log r.stands ∙ ap (recorded c 0) r.complete ∙ same in
      let entry =
        r.opened.entries c ∙ some_entry (offsets_of c r.log) t.content c enter _ located in
      let answer =
        enum_calls-Lists os (symbols_of sym_from_addr modules g.modules_table)
          (clients.get g.clients_table) system t.content t.file_size c (offsets_of c r.log)
          (call enter leave children later) g.view entry r.opened.window
          (record {
            readable = IsReadable-Stands t c r.log r.stands;
            contents = located;
            well_formed = well_formed;
          }) in
      (r.sink, r.creates, g, r.opened.opens, answer.0, answer.1)
