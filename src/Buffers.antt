-- ===== src/Buffers.antt =====
-- Jpfbt/jpfbt/buffer.c: the buffers that threads fill with events and the collector hands on, as the
-- kernel mode build has them. A buffer is known by its number in the blob that holds all; the two
-- interlocked lists are lists of such numbers, the last one pushed first.
pub mod Slist
pub mod ThreadWords
pub mod Preallocated
pub mod Allocate
pub mod Steps
pub mod Ownership
pub mod Held
pub mod Stream
pub mod Initial
pub mod Paths
pub mod Processing
use ntrace.Base.{
  ℕ, zero, suc, ◌+◌, ◌-◌, ◌*◌, ◌%◌, ◌^◌, Bool, true, false, not, ◌||◌, ◌&&◌, Option, some, none,
  List, [], ◌∷◌, ◌++◌, ltb, ◌==◌, if◌then◌else◌, update, reverse_onto, length,
}
use ntrace.Base.Bytes.{Memory, store, bytes_from}
use ntrace.Format.{ClientId}

-- JPFBT_BUFFER
pub record Buffer : Type 0 where
  pub client : ClientId
  pub buffer_size : ℕ
  pub used_size : ℕ
  pub content : Memory

-- What buffer.c keeps of JPFBT_GLOBAL_DATA, and of each thread's JPFBT_THREAD_DATA its
-- CurrentBuffer. `notified` is the state of the event that the collector waits for.
pub record Pool : Type 0 where
  pub buffers : ℕ → Buffer
  pub free : List ℕ
  pub dirty : List ℕ
  pub buffer_size : ℕ
  pub current : ℕ → Option ℕ
  pub notified : Bool
  pub collected : ℕ

-- The thread that calls: the number of its thread data, and the ids that it has at the time.
pub record Caller : Type 0 where
  pub thread : ℕ
  pub process_id : ℕ
  pub thread_id : ℕ
  pub thread_address : ℕ

-- There are several idle threads, of id 0; each is known by its address.
unfoldable pub identity : Caller → ClientId
identity c =
    if c.thread_id == 0
    then record { process_id = c.process_id; thread_id = c.thread_address % 2 ^ 32 }
    else record { process_id = c.process_id; thread_id = c.thread_id }

-- 0xDEADBEEF
abbrev pub dead_beef : ℕ
dead_beef = 0xdeadbeef

-- The loop of JpfbtpInitializeBuffersGlobalState over `n` buffers from `index` on.
unfoldable pub initialize_from : ℕ → ℕ → ℕ → Pool → Pool
initialize_from buffer_size index zero p = p
initialize_from buffer_size index (suc n) p = initialize_from buffer_size (index + 1) n (record p {
  buffers = update p.buffers index (record (p.buffers index) {
    client = record { process_id = dead_beef; thread_id = dead_beef };
    buffer_size = buffer_size;
    used_size = 0;
  });
  free = index ∷ p.free;
})

-- The state before the loop.
abbrev pub blank : ℕ → (ℕ → Buffer) → Pool
blank buffer_size blob = record {
  buffers = blob;
  free = [];
  dirty = [];
  buffer_size = buffer_size;
  current = λ t. none;
  notified = false;
  collected = 0;
}

-- JpfbtpInitializeBuffersGlobalState, given what the memory of the blob holds. No thread has thread
-- data yet.
unfoldable pub initialize : ℕ → ℕ → (ℕ → Buffer) → Pool
initialize buffer_count buffer_size blob =
    initialize_from buffer_size 0 buffer_count (blank buffer_size blob)

-- The room left in a buffer (SIZE_T arithmetic).
unfoldable pub room : Buffer → ℕ
room b = (b.buffer_size + 2 ^ 32 - b.used_size) % 2 ^ 32

-- The buffer of a thread is pushed onto the dirty list.
unfoldable pub retire : ℕ → ℕ → Pool → Pool
retire thread b p = record p { dirty = b ∷ p.dirty; current = update p.current thread none }

-- JpfbtpTriggerDirtyBufferCollection
abbrev pub trigger : Pool → Pool
trigger p = record p { notified = true }

-- A fresh buffer is popped from the free list and gets the caller's ids.
unfoldable pub acquire : Caller → ℕ → List ℕ → Pool → Pool
unfolding identity
acquire c b rest p = record p {
  free = rest;
  buffers = update p.buffers b (record (p.buffers b) { client = identity c });
  current = update p.current c.thread (some b);
}

unfoldable pub fresh_buffer : Caller → Pool → Option ℕ × Pool
fresh_buffer c p = elim p.free [ [] ↦ (none, p) | b ∷ rest ↦ (some b, acquire c b rest p) ]

-- JpfbtsGetBuffer
unfoldable pub find_buffer : Caller → ℕ → Pool → Option ℕ × Pool
find_buffer c required p = elim (p.current c.thread) [
  | none ↦ fresh_buffer c p
  | some b ↦
      if ltb (room (p.buffers b)) required
      then fresh_buffer c (trigger (retire c.thread b p))
      else (some b, p)
]

-- UsedSize += NetSize
unfoldable pub use_up : ℕ → ℕ → Pool → Pool
use_up b net_size p = record p {
  buffers =
      update p.buffers b (record (p.buffers b) { used_size = (p.buffers b).used_size + net_size });
}

-- JpfbtGetBuffer of a library that is initialized, for a thread that has its thread data: the buffer
-- and the offset in it of the space that the caller may write to.
unfoldable pub get_buffer : Caller → ℕ → Pool → Option (ℕ × ℕ) × Pool
get_buffer c net_size p =
    if net_size == 0 || ltb p.buffer_size net_size
    then (none, p)
    else (let (found, q) = find_buffer c net_size p in
        elim found [
          | none ↦ (none, q)
          | some b ↦ (some (b, (q.buffers b).used_size), use_up b net_size q)
        ])

-- What an event callback does with the space: it writes its bytes there. Whether it got any is told.
unfoldable pub write_event : Caller → List ℕ → Pool → Bool × Pool
write_event c bytes p =
    let (found, q) = get_buffer c (length bytes) p in
    elim found [
      | none ↦ (false, q)
      | some (b, offset) ↦ (
        true,
        record q {
          buffers =
              update q.buffers b
                (record (q.buffers b) { content = store (q.buffers b).content offset bytes });
        },
      )
    ]

-- The bytes in use in a buffer.
abbrev pub used_bytes : Buffer → List ℕ
used_bytes b = bytes_from b.content 0 b.used_size

-- One buffer is handed to the routine and goes back to the free list.
unfoldable pub recycle : ℕ → Pool → Pool
recycle b p = record p {
  buffers = update p.buffers b (record (p.buffers b) { used_size = 0 });
  free = b ∷ p.free;
  collected = (p.collected + 1) % 2 ^ 32;
}

-- The loop over the buffers, and what the routine was called with.
unfoldable pub process_all : List ℕ → Pool → List (ClientId × List ℕ) × Pool
process_all [] p = ([], p)
process_all (b ∷ bs) p =
    let (calls, q) = process_all bs (recycle b p) in
    (((p.buffers b).client, used_bytes (p.buffers b)) ∷ calls, q)

pub data Status : Type 0 where
  success timeout unsuccessful : Status

-- What the collector waits for: the time runs out, or the event is signalled, with the pool as it is
-- then and whether the collector is to stop.
pub data Wait : Type 0 where
  times_out : Wait
  signalled : Pool → Bool → Wait

abbrev pub Collected : Type 0
Collected = Status × List (ClientId × List ℕ) × Pool

unfoldable pub process_flushed : Pool → Collected
process_flushed p =
    let (calls, q) = process_all (reverse_onto p.dirty []) (record p { dirty = [] }) in
    (success, calls, q)

-- The list is looked at: it is processed, or the collector stops, or it waits.
unfoldable pub collect_or : Bool → Pool → Option Collected → Option Collected
collect_or stop p waiting = elim p.dirty [
  | b ∷ bs ↦ some (process_flushed p)
  | [] ↦ if stop then some (unsuccessful, [], p) else waiting
]

-- JpfbtProcessBuffers, with a routine and an initialized library; `none` while it waits.
unfoldable pub process_buffers : List Wait → Bool → Pool → Option Collected
process_buffers [] stop p = collect_or stop p none
process_buffers (times_out ∷ later) stop p = collect_or stop p (some (timeout, [], p))
process_buffers (signalled q stopped ∷ later) stop p =
    let rest = process_buffers later stopped q in collect_or stop p rest

-- JpfbtpTeardownThreadDataForExitingThread, for a thread that has thread data: its buffer, if it has
-- one, is pushed onto the dirty list, without a signal.
unfoldable pub teardown : ℕ → Pool → Pool
teardown thread p = elim (p.current thread) [ none ↦ p | some b ↦ retire thread b p ]
