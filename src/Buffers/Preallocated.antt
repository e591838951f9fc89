-- ===== src/Buffers/Preallocated.antt =====
-- Jpfbt/jpfbt/km_buffer.c: the thread data of the kernel mode build comes from the pool or, where the pool
-- cannot be used, from blocks that have been allocated beforehand. A block is known by a number.
use ntrace.Base.{
  ℕ, zero, suc, ◌+◌, ◌%◌, ◌≡◌, refl, Bool, true, false, not, ◌&&◌, ◌||◌, Option, none, some, List,
  [], ◌∷◌, ◌++◌, ltb, ◌==◌, if◌then◌else◌, update, arith,
}
use ntrace.Patching.{Status, success, no_memory, invalid_parameter, is_success}

-- The lists of JPFBT_GLOBAL_DATA for thread data: ThreadDataPreallocationList and ThreadDataFreeList; the
-- AllocationType of each block, JpfbtpPoolAllocated or not; the blocks that have been given back to the
-- pool; and FailedAllocationsFromPreallocatedPool.
pub record ThreadBlocks : Type 0 where
  pub preallocated : List ℕ
  pub delayed : List ℕ
  pub from_pool : ℕ → Bool
  pub freed : List ℕ
  pub failed : ℕ

-- The loop of JpfbtsPreallocateThreadData, which pushes the blocks of an array.
unfoldable pub push_blocks : ℕ → ℕ → List ℕ → List ℕ
push_blocks index zero list = list
push_blocks index (suc n) list = push_blocks (index + 1) n (index ∷ list)

-- JpfbtsPreallocateThreadData; `array` is the block of all, if there is memory.
unfoldable pub preallocate_thread_data : Option ℕ → ℕ → ThreadBlocks → Status × ThreadBlocks
unfolding push_blocks
preallocate_thread_data none n s = (no_memory, s)
preallocate_thread_data (some array) n s =
    (success, record s { preallocated = push_blocks array n s.preallocated })

-- JpfbtpAllocateThreadDataForCurrentThread: `lazy` unless DisableLazyThreadDataAllocations, `low` if the
-- IRQL is at most DISPATCH_LEVEL, and what the pool has. That the words of the thread are set cannot fail.
unfoldable pub allocate_thread_data :
    Bool → Bool → Option ℕ → ThreadBlocks → Option ℕ × ThreadBlocks
allocate_thread_data lazy low pool s =
    if lazy && low
    then (elim pool [
      | none ↦ (none, s)
      | some b ↦ (some b, record s { from_pool = update s.from_pool b true })
    ])
    else elim s.preallocated [
      | [] ↦ (none, record s { failed = s.failed + 1 })
      | b ∷ rest ↦
          (some b, record s { preallocated = rest; from_pool = update s.from_pool b false })
    ]

-- JpfbtpFreeThreadData: a block of the pool is given back with those that had to wait, or has to wait.
unfoldable pub free_thread_data : Bool → ℕ → ThreadBlocks → ThreadBlocks
free_thread_data low b s =
    if not (s.from_pool b)
    then record s { preallocated = b ∷ s.preallocated }
    else if low
    then record s { delayed = []; freed = s.delayed ++ b ∷ s.freed }
    else record s { delayed = b ∷ s.delayed }

popped :
    (low : Bool) (pool : Option ℕ) (b : ℕ) (s : ThreadBlocks) (list : List ℕ)
    → s.preallocated ≡ list
    → (allocate_thread_data false low pool s).0 ≡ some b
    → (free_thread_data low b (allocate_thread_data false low pool s).1).preallocated ≡ list
unfolding allocate_thread_data free_thread_data
popped low pool b s [] e h = absurd (ground (arith, e, h))
popped low pool b s (c ∷ rest) e h =
    let same : c ≡ b = ground (arith, e, h) in ground (arith, e, h, same)

-- Without lazy allocation, a block that is got and given back is on the list again, at any IRQL.
pub free-allocate_thread_data :
    (low : Bool) (pool : Option ℕ) (b : ℕ) (s : ThreadBlocks)
    → (allocate_thread_data false low pool s).0 ≡ some b
    → (free_thread_data low b (allocate_thread_data false low pool s).1).preallocated
      ≡ s.preallocated
free-allocate_thread_data low pool b s h = popped low pool b s s.preallocated refl h

-- Thread data of the pool waits to be freed above DISPATCH_LEVEL, and goes with the next that is freed
-- below.
pub free-free_thread_data :
    (b c : ℕ) (s : ThreadBlocks)
    → s.from_pool b ≡ true
    → s.from_pool c ≡ true
    → let t = free_thread_data true c (free_thread_data false b s) in
      (t.delayed ≡ []) × (t.freed ≡ b ∷ s.delayed ++ c ∷ s.freed)
unfolding free_thread_data
free-free_thread_data b c s h k = (ground (arith, h, k), ground (arith, h, k))

-- JPFBT_MAX_BUFFER_SIZE is given; the statuses are those of JpfbtpGetSymbolPointers, of the allocation of
-- the state and the buffers, of the creation of the collector thread and of its reference.
pub record Creating : Type 0 where
  pub max_buffer_size : ℕ
  pub symbol_pointers : Status
  pub state : Status
  pub array : Option ℕ
  pub thread : Status
  pub reference : Status

-- JpfbtpCreateGlobalState of km_buffer.c: its status, the blocks, and whether there is a collector thread
-- and a state. A reference to the thread that cannot be had does not make it fail.
unfoldable pub create_global_state :
    Creating → ℕ → ℕ → Bool → ThreadBlocks → Status × Bool × Bool × ThreadBlocks
unfolding preallocate_thread_data is_success
create_global_state c buffer_size preallocations start_thread s =
    let (status, s') = preallocate_thread_data c.array preallocations s in
    if ltb 1024 preallocations || ltb c.max_buffer_size buffer_size || not (buffer_size % 8 == 0)
    then (invalid_parameter, false, false, s)
    else if not (is_success c.symbol_pointers)
    then (c.symbol_pointers, false, false, s)
    else if not (is_success c.state)
    then (c.state, false, false, s)
    else if not (is_success status)
    then (status, false, false, s)
    else if not start_thread
    then (success, false, true, s')
    else if is_success c.thread
    then (success, is_success c.reference, true, s')
    else (c.thread, false, false, s)
