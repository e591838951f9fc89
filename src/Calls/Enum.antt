-- ===== src/Calls/Enum.antt =====
-- JptrcrsEnumCalls over the chunks of a client, and the exports JptrcrEnumCalls and
-- JptrcrEnumChildCalls of client.c. The chunk list of the client is given by the offsets of its
-- chunks in the file. The callback is taken not to change the file's mapping.
use ntrace.Base.{
  ℕ, zero, suc, ◌+◌, ◌-◌, ◌*◌, ◌/◌, ◌%◌, ◌^◌, Bool, true, false, not, List, [], ◌∷◌, Option, some,
  none, ◌==◌, ltb, if◌then◌else◌, drop,
}
use ntrace.Base.Bytes.{Memory}
use ntrace.Format.{
  ClientId, Transition, transition_at, chunk_header_at, chunk_type_trace_buffer,
  offset_of_transitions, size_of_transition,
}
use ntrace.Reader.{Hr, ok, err, Os, View, target}
use ntrace.Reader.Map.{map_at}
use ntrace.Base.Table.{Hashtable}
use ntrace.Reader.Modules.{LoadedModule, get_module}
use ntrace.Calls.{Symbol, ChunkRef, CallHandle, Symbols}
use ntrace.Calls.Scan.{State, Outcome, go, stop, fail, start, scan_chunk}

-- `n` transitions from `index` on, of the array at `a`.
unfoldable pub read_transitions : Memory → ℕ → ℕ → ℕ → List Transition
read_transitions m a index zero = []
read_transitions m a index (suc n) =
    transition_at m (a + size_of_transition * index) ∷ read_transitions m a (index + 1) n

-- How many transitions the size of a chunk tells (ULONG arithmetic).
abbrev pub transition_count : ℕ → ℕ
transition_count size = (size + 2 ^ 32 - offset_of_transitions) % 2 ^ 32 / size_of_transition

-- A result code, the window at the end, and the state with the calls delivered.
abbrev pub Reply : Type 0
Reply = Hr × View × State

module _ (os : Os) (symbols : Symbols) (include_all : Bool) where
  -- One chunk, mapped at `a`, from `index` on.
  unfoldable pub enum_chunk : Memory → ℕ → ChunkRef → ℕ → Bool → State → Outcome
  enum_chunk m a ref index skip_first s =
      if not ((chunk_header_at m a).type == chunk_type_trace_buffer)
      then fail Hr.e_invalid_call_handle s
      else let count = transition_count (chunk_header_at m a).size in
        if ltb count index
        then fail Hr.e_invalid_call_handle s
        else let first = if skip_first then index + 1 else index in
          scan_chunk symbols include_all ref first
            (read_transitions m (a + offset_of_transitions) first (count - first)) s

  -- The list of sibling chunks, from the one at `position` on.
  unfoldable pub enum_chunks : ClientId → ℕ → List ℕ → ℕ → Bool → View → State → Reply
  enum_chunks client position [] index skip_first v s = (Hr.s_ok, v, s)
  enum_chunks client position (offset ∷ offsets) index skip_first v s =
      let (mapping, w) = map_at os v offset in
      elim mapping [
        | ok p ↦
            elim (enum_chunk w.content (target p) (record { client = client; position = position })
              index skip_first s) [
                | go s' ↦ enum_chunks client (position + 1) offsets 0 false w s'
                | stop s' ↦ (Hr.s_ok, w, s')
                | fail e s' ↦ (e, w, s')
              ]
        | err e ↦ (e, w, s)
      ]

-- The symbols of a file: its own table of modules answers JptrcrGetModule.
unfoldable pub symbols_of :
    (ℕ → Option Symbol) → (modules : Hashtable ℕ LoadedModule) → modules.Table → Symbols
symbols_of sym_from_addr modules t = record {
  sym_from_addr = sym_from_addr;
  get_module = λ load_address old. (get_module modules t load_address old).1;
}

-- `clients` is the table of clients: the offsets of each client's chunks, in the order of the file.
module _ (os : Os) (symbols : Symbols) (clients : ClientId → Option (List ℕ)) where
  -- JptrcrEnumCalls: the top level calls of a client. A client that is not known has none.
  unfoldable pub enum_calls : ClientId → View → Reply
  enum_calls client v = elim (clients client) [
    | none ↦ (Hr.s_false, v, start)
    | some offsets ↦ enum_chunks os symbols true client 0 offsets 0 false v start
  ]

  -- The chunk that a JPTRCRP_CHUNK_REF stands for, and those behind it.
  unfoldable pub siblings : ChunkRef → List ℕ
  siblings ref = elim (clients ref.client) [ none ↦ [] | some offsets ↦ drop ref.position offsets ]

  -- JptrcrEnumChildCalls: the calls made directly by the call of a handle.
  unfoldable pub enum_child_calls : CallHandle → View → Reply
  enum_child_calls handle v = elim handle.chunk [
    | none ↦ (Hr.e_invalidarg, v, start)
    | some ref ↦
        enum_chunks os symbols false ref.client ref.position (siblings ref) handle.index true v
          start
  ]
