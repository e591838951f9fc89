-- ===== src/Agent/Lifecycle.antt =====
-- Jpfbt/jpfbt/main.c: the library is initialized and taken down. `none` stands for the null pointer in
-- JpfbtpGlobalState.
use ntrace.Base.{
  ℕ, ◌%◌, ◌/◌, Bool, true, false, not, ◌&&◌, ◌||◌, Option, none, some, List, [], ◌∷◌, ltb, ◌==◌,
  if◌then◌else◌, length,
}
use ntrace.Agent.{
  Status, success, invalid_parameter, no_memory, not_initialized, already_initialized,
  invalid_buffer_size, still_patched, patches_active, is_success,
}

-- What is kept of a thread: the number of the frames on its thunk stack, and its current buffer.
pub record StackedThread : Type 0 where
  pub frames : ℕ
  pub current_buffer : Option ℕ

-- JPFBT_GLOBAL_DATA, of its tables and lists the numbers of entries where nothing else is asked for.
pub record GlobalData : Type 0 where
  pub patch_count : ℕ
  pub threads : List StackedThread
  pub dirty : List ℕ
  pub free : ℕ
  pub collected : ℕ
  pub preallocated : ℕ
  pub failed_preallocated : ℕ
  pub reentrant : ℕ
  pub events : ℕ
  pub unwindings : ℕ
  pub teardowns : ℕ

-- MEMORY_ALLOCATION_ALIGNMENT of the 32 bit system
abbrev memory_allocation_alignment : ℕ
memory_allocation_alignment = 8

-- JPFBT_FLAG_DISABLE_LAZY_ALLOCATION, the second bit
has_lazy_bit : ℕ → Bool
has_lazy_bit flags = (flags / 2) % 2 == 1

-- What initializing asks of its surroundings: the status of AuxKlibInitialize,
-- JpfbtpCreateGlobalState with the new state, and the status of JpfbtpInitializePatchTable.
pub record Setup : Type 0 where
  pub aux_klib : Status
  pub create_global_state : ℕ → ℕ → ℕ → Status × GlobalData
  pub patch_table : Status

-- JpfbtInitializeEx of the kernel mode build, with all routines given.
unfoldable pub initialize_ex :
    Setup → ℕ → ℕ → ℕ → ℕ → Option GlobalData → Status × Option GlobalData
unfolding is_success has_lazy_bit
initialize_ex setup buffer_count buffer_size preallocations flags global =
    let (status, new) = setup.create_global_state buffer_count buffer_size preallocations in
    if ltb 7 flags || (has_lazy_bit flags && (preallocations == 0))
    then (invalid_parameter, global)
    else if not (is_success setup.aux_klib)
    then (setup.aux_klib, global)
    else if not (buffer_size % memory_allocation_alignment == 0)
    then (invalid_buffer_size, global)
    else elim global [
      | some g ↦ (already_initialized, some g)
      | none ↦
          if not (is_success status)
          then (status, none)
          else if not (is_success setup.patch_table)
          then (no_memory, none)
          else (success, some new)
    ]

-- The loop over the threads, which ends at one with frames: whether it did, the threads that are left,
-- and the dirty buffers.
unfoldable pub free_threads : List StackedThread → List ℕ → Bool × List StackedThread × List ℕ
free_threads [] dirty = (false, [], dirty)
free_threads (t ∷ ts) dirty =
    let with_buffer : List ℕ = elim t.current_buffer [ none ↦ dirty | some b ↦ b ∷ dirty ] in
    let rest = free_threads ts with_buffer in
    if not (t.frames == 0) then (true, t ∷ ts, dirty) else rest

-- JpfbtUninitialize, with the dirty buffers that the collector gets to process at its end.
unfoldable pub uninitialize : Option GlobalData → Status × Option GlobalData × List ℕ
unfolding free_threads
uninitialize none = (not_initialized, none, [])
uninitialize (some g) =
    let (active, threads, dirty) = free_threads g.threads g.dirty in
    if not (g.patch_count == 0)
    then (still_patched, some g, [])
    else if active
    then (patches_active, some (record g { threads = threads; dirty = dirty }), [])
    else (success, none, dirty)

-- JPFBT_STATISTICS
pub record FbtStatistics : Type 0 where
  pub patch_count : ℕ
  pub free : ℕ
  pub dirty : ℕ
  pub collected : ℕ
  pub free_preallocation_pool_size : ℕ
  pub failed_preallocation_pool_allocations : ℕ
  pub reentrant_thunk_executions_detected : ℕ
  pub events_captured : ℕ
  pub exceptions_unwindings : ℕ
  pub thread_teardowns : ℕ

-- JpfbtQueryStatistics
unfoldable pub query_statistics : Option GlobalData → Status × Option FbtStatistics
query_statistics none = (not_initialized, none)
query_statistics (some g) = (
  success,
  some (record {
    patch_count = g.patch_count;
    free = g.free;
    dirty = length g.dirty;
    collected = g.collected;
    free_preallocation_pool_size = g.preallocated;
    failed_preallocation_pool_allocations = g.failed_preallocated;
    reentrant_thunk_executions_detected = g.reentrant;
    events_captured = g.events;
    exceptions_unwindings = g.unwindings;
    thread_teardowns = g.teardowns;
  }),
)
