-- ===== src/Reader/Clients.antt =====
-- The clients table of Jptrcr/jptrcr/client.c: for each client the offsets of its chunks, the
-- JPTRCRP_CHUNK_REF list, in the order in which they were registered. A change of the entry that
-- the table holds a pointer to is written as a `put` under its key.
use ntrace.Base.{ℕ, Bool, ◌&&◌, some, none, List, [], ◌∷◌, ◌++◌, ◌==◌, if◌then◌else◌}
use ntrace.Base.Table.{Hashtable}
use ntrace.Format.{ClientId}
use ntrace.Reader.{Hr}

-- JptrcrpHashClient and JptrcrpEqualsClient.
unfoldable pub hash_client : ClientId → ℕ
hash_client c = c.thread_id

unfoldable pub equals_client : ClientId → ClientId → Bool
equals_client a b = a.thread_id == b.thread_id && a.process_id == b.process_id

-- Whether the two calls of malloc succeed.
pub record Mallocs : Type 0 where
  pub client : Bool
  pub chunk_ref : Bool

module _ (ht : Hashtable ClientId (List ℕ)) where
  -- The chunk reference is allocated and put at the end of the list of the client.
  add_chunk_ref : Mallocs → ht.Table → ClientId → List ℕ → ℕ → Hr × ht.Table
  add_chunk_ref mallocs t client offsets offset =
      if mallocs.chunk_ref
      then (Hr.s_ok, (ht.put t client (offsets ++ (offset ∷ []))).0)
      else (Hr.e_outofmemory, t)

  -- JptrcrpRegisterTraceBufferClient
  unfoldable pub register_trace_buffer_client : Mallocs → ht.Table → ClientId → ℕ → Hr × ht.Table
  unfolding add_chunk_ref
  register_trace_buffer_client mallocs t client offset = elim (ht.get t client) [
    | none ↦
        if mallocs.client
        then add_chunk_ref mallocs (ht.put t client []).0 client [] offset
        else (Hr.e_outofmemory, t)
    | some offsets ↦ add_chunk_ref mallocs t client offsets offset
  ]
