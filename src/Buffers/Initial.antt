-- ===== src/Buffers/Initial.antt =====
-- A library that has just been initialized.
use ntrace.Base.{ℕ, zero, suc, ◌+◌, ◌<◌, ◌≡◌, inl, refl, none, [], tally, ltb, if◌then◌else◌, arith}
use ntrace.Buffers.{Buffer, Pool, blank, initialize, initialize_from}
use ntrace.Buffers.Steps.{System, Threads}
use ntrace.Buffers.Ownership.{Owned}
use ntrace.Buffers.Held.{bytes_for}
use ntrace.Buffers.Stream.{Streams}

-- The buffers up to `i` are initialized and free.
record Started (size i : ℕ) (p : Pool) : Type 0 where
  frees : (b : ℕ) → tally b p.free ≡ (if ltb b i then 1 else 0)
  dirty : p.dirty ≡ []
  current : (t : ℕ) → p.current t ≡ none
  same_size : p.buffer_size ≡ size
  sized : (b : ℕ) → b < i → ((p.buffers b).buffer_size ≡ size) × ((p.buffers b).used_size ≡ 0)

initialize_from-Started :
    (size i n : ℕ) (p : Pool) → Started size i p → Started size (i + n) (initialize_from size i n p)
unfolding initialize_from
initialize_from-Started size i zero p s = let e : i + 0 ≡ i = omega arith in rw e s
initialize_from-Started size i (suc n) p s =
    let e : i + suc n ≡ i + 1 + n = omega arith in
    rw e (
      initialize_from-Started size (i + 1) n _ (record {
        frees = λ b. ground (arith, s.frees b);
        dirty = s.dirty;
        current = s.current;
        same_size = s.same_size;
        sized = λ b h. ground (arith, s.sized b);
      }))

-- An initialized library, before any event.
abbrev pub started : Pool → System
started p = record { pool = p; collecting = []; written = []; delivered = [] }

-- A library that has just been initialized has each of its buffers on the free list, and nothing has
-- been written or handed on.
pub initialize-Owned :
    (threads : Threads) (buffer_count buffer_size : ℕ) (blob : ℕ → Buffer)
    → Owned threads buffer_count (started (initialize buffer_count buffer_size blob))
      × Streams threads (started (initialize buffer_count buffer_size blob))
unfolding initialize bytes_for
initialize-Owned threads n size blob =
    let p = initialize n size blob in
    let s = initialize_from-Started size 0 n (blank size blob) (record {
      frees = λ b. ground arith;
      dirty = refl;
      current = λ t. refl;
      same_size = refl;
      sized = λ b h. absurd (omega arith);
    }) in
    (
      record {
        once = λ b. ground (arith, s.frees b, s.dirty);
        known = λ b h. ground (arith, s.frees b, s.dirty);
        apart = λ t b e. ground (arith, s.current t);
        single = λ t u b e f. ground (arith, s.current t);
        kept = λ b h. inl (ground (arith, s.frees b, s.dirty));
        within = λ b h. ground (arith, s.sized b (omega arith));
        sized = λ b h. ground (arith, s.sized b (omega arith), s.same_size);
        empty = λ b h. ground (arith, s.frees b, s.sized b);
        named = λ t b e. ground (arith, s.current t);
      },
      λ t. ground (arith, s.dirty, s.current t),
    )
