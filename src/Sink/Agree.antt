-- ===== src/Sink/Agree.antt =====
-- What the reader sees of bytes that the sink wrote.
use ntrace.Base.{ℕ, get_or, ◌+◌, ◌^◌, ◌≤◌, ◌<◌, ◌≡◌, List, ◌++◌, length, arith}
use ntrace.Base.Bytes.{Memory, store, store_before}
use ntrace.Format.{
  ChunkHeader, chunk_header_at, chunk_header_bytes, client_at, transition_at, file_header_at,
}

-- The memories have the same bytes below an address.
abbrev pub AgreesBelow : ℕ → Memory → Memory → Type 0
AgreesBelow p m m' = (i : ℕ) → i < p → m' i ≡ m i

pub store-AgreesBelow :
    (m : Memory) (a p : ℕ) (bytes : List ℕ) → p ≤ a → AgreesBelow p m (store m a bytes)
store-AgreesBelow m a p bytes h i k = store_before m a bytes i (omega arith)

module _ (p : ℕ) (m m' : Memory) (agree : AgreesBelow p m m') where
  pub chunk_header_at-AgreesBelow : (a : ℕ) → a + 8 ≤ p → chunk_header_at m' a ≡ chunk_header_at m a
  unfolding chunk_header_at
  chunk_header_at-AgreesBelow a h = ground (
    arith,
    agree a,
    agree (a + 1),
    agree (a + 2),
    agree (a + 2 + 1),
    agree (a + 4),
    agree (a + 4 + 1),
    agree (a + 4 + 2),
    agree (a + 4 + 3),
  )

  pub file_header_at-AgreesBelow : (a : ℕ) → a + 8 ≤ p → file_header_at m' a ≡ file_header_at m a
  unfolding file_header_at
  file_header_at-AgreesBelow a h = ground (
    arith,
    agree a,
    agree (a + 1),
    agree (a + 2),
    agree (a + 3),
    agree (a + 4),
    agree (a + 4 + 1),
    agree (a + 6),
    agree (a + 6 + 1),
  )

  pub client_at-AgreesBelow : (a : ℕ) → a + 16 ≤ p → client_at m' a ≡ client_at m a
  unfolding client_at
  client_at-AgreesBelow a h = ground (
    arith,
    agree (a + 8),
    agree (a + 8 + 1),
    agree (a + 8 + 2),
    agree (a + 8 + 3),
    agree (a + 12),
    agree (a + 12 + 1),
    agree (a + 12 + 2),
    agree (a + 12 + 3),
  )

  pub transition_at-AgreesBelow : (a : ℕ) → a + 16 ≤ p → transition_at m' a ≡ transition_at m a
  unfolding transition_at
  transition_at-AgreesBelow a h = ground (
    arith,
    agree a,
    agree (a + 1),
    agree (a + 2),
    agree (a + 3),
    agree (a + 4),
    agree (a + 4 + 1),
    agree (a + 4 + 2),
    agree (a + 4 + 3),
    agree (a + 8),
    agree (a + 8 + 1),
    agree (a + 8 + 2),
    agree (a + 8 + 3),
    agree (a + 12),
    agree (a + 12 + 1),
    agree (a + 12 + 2),
    agree (a + 12 + 3),
  )

-- The memory has these bytes at an address.
abbrev pub HasBytes : Memory → ℕ → List ℕ → Type 0
HasBytes m a bytes = (k i : ℕ) → i ≡ a + k → k < length bytes → m i ≡ get_or bytes k 0

-- A header in range is read back as it was written.
pub chunk_header_at-HasBytes :
    (m : Memory) (a : ℕ) (h : ChunkHeader) (rest : List ℕ)
    → h.type < 2 ^ 16
    → h.reserved < 2 ^ 16
    → h.size < 2 ^ 32
    → HasBytes m a (chunk_header_bytes h ++ rest)
    → chunk_header_at m a ≡ h
unfolding chunk_header_at chunk_header_bytes
chunk_header_at-HasBytes m a h rest t r s new = ground (
  arith,
  new 0 a,
  new 1 (a + 1),
  new 2 (a + 2),
  new 3 (a + 2 + 1),
  new 4 (a + 4),
  new 5 (a + 4 + 1),
  new 6 (a + 4 + 2),
  new 7 (a + 4 + 3),
)
