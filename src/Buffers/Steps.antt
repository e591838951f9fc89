-- ===== src/Buffers/Steps.antt =====
-- The threads and the collector side by side: the steps that the operations of buffer.c are made of,
-- each with at most one interlocked operation, in any order.
use ntrace.Base.{ℕ, ◌+◌, ◌≤◌, ◌≡◌, some, none, List, [], ◌∷◌, ◌++◌, update, reverse_onto, length}
use ntrace.Base.Bytes.{store}
use ntrace.Format.{ClientId}
use ntrace.Buffers.{Pool, Caller, identity, retire, trigger, acquire, used_bytes, recycle}

-- The pool, the buffers that the collector has taken off the dirty list, in the order in which it
-- processes them, and the past: what was written for whom, and what was handed on.
pub record System : Type 0 where
  pub pool : Pool
  pub collecting : List ℕ
  pub written : List (ClientId × List ℕ)
  pub delivered : List (ClientId × List ℕ)

-- The bytes of an event at the end of a buffer, whose UsedSize has been moved on.
unfoldable pub fill : ℕ → List ℕ → Pool → Pool
fill b bytes p = record p {
  buffers = update p.buffers b (record (p.buffers b) {
    used_size = (p.buffers b).used_size + length bytes;
    content = store (p.buffers b).content (p.buffers b).used_size bytes;
  });
}

-- The threads by the numbers of their thread data. No two have the same ids.
pub record Threads : Type 0 where
  pub caller : ℕ → Caller
  pub numbered : (t : ℕ) → (caller t).thread ≡ t
  pub distinct : (t u : ℕ) → identity (caller t) ≡ identity (caller u) → t ≡ u

abbrev pub client_of : Threads → ℕ → ClientId
client_of threads t = identity (threads.caller t)

-- A thread does without its buffer (because the room is too small, or because it exits); signals the
-- collector; takes a buffer off the free list; writes an event. The collector takes the dirty list;
-- hands a buffer on.
pub data Step (threads : Threads) (s : System) : System → Type 0 where
  retires :
      (t b : ℕ) → s.pool.current t ≡ some b → Step threads s (record s { pool = retire t b s.pool })
  notifies : Step threads s (record s { pool = trigger s.pool })
  acquires :
      (t b : ℕ) (rest : List ℕ)
      → s.pool.current t ≡ none
      → s.pool.free ≡ b ∷ rest
      → Step threads s (record s { pool = acquire (threads.caller t) b rest s.pool })
  writes :
      (t b : ℕ) (bytes : List ℕ)
      → s.pool.current t ≡ some b
      → (s.pool.buffers b).used_size + length bytes ≤ (s.pool.buffers b).buffer_size
      → Step threads s (record s {
        pool = fill b bytes s.pool;
        written = s.written ++ ((client_of threads t, bytes) ∷ []);
      })
  takes :
      s.collecting ≡ []
      → Step threads s (record s {
        pool = record (s.pool) { dirty = [] };
        collecting = reverse_onto s.pool.dirty [];
      })
  hands_on :
      (b : ℕ) (rest : List ℕ)
      → s.collecting ≡ b ∷ rest
      → Step threads s (record s {
        pool = recycle b s.pool;
        collecting = rest;
        delivered =
            s.delivered ++ (((s.pool.buffers b).client, used_bytes (s.pool.buffers b)) ∷ []);
      })

pub data Reach (threads : Threads) (s : System) : System → Type 0 where
  here : Reach threads s s
  next : {t u : System} → Reach threads s t → Step threads t u → Reach threads s u

pub Reach-append :
    {threads : Threads} {s t u : System} → Reach threads s t → Reach threads t u → Reach threads s u
Reach-append r here = r
Reach-append r (next q st) = next (Reach-append r q) st
