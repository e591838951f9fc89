-- ===== src/Buffers/Ownership.antt =====
-- Who has a buffer: it is free, dirty, being collected, or the current one of a thread.
use ntrace.Base.{
  ℕ, ◌+◌, ◌≤◌, ◌<◌, ◌≡◌, ◌⊎◌, inl, inr, ◌∙◌, some, none, List, [], ◌∷◌, update_ne, tally,
  reverse_onto, tally-reverse_onto, length, arith, ◌==◌, Bool-cases,
}
use ntrace.Format.{ClientId}
use ntrace.Buffers.{retire, acquire, use_up, recycle}
use ntrace.Buffers.Steps.{
  System, Threads, client_of, fill, Step, retires, notifies, acquires, writes, takes, hands_on,
  Reach, here, next,
}

-- How often a buffer stands in the lists.
abbrev pub listed : ℕ → System → ℕ
listed b s = tally b s.pool.free + tally b s.pool.dirty + tally b s.collecting

-- `n` buffers, each in one place; none is lost. Its use stays within its size, a free one is empty,
-- and the one of a thread has the thread's ids.
pub record Owned (threads : Threads) (n : ℕ) (s : System) : Type 0 where
  pub once : (b : ℕ) → listed b s ≤ 1
  pub known : (b : ℕ) → n ≤ b → listed b s ≡ 0
  pub apart : (t b : ℕ) → s.pool.current t ≡ some b → (listed b s ≡ 0) × (b < n)
  pub single : (t u b : ℕ) → s.pool.current t ≡ some b → s.pool.current u ≡ some b → t ≡ u
  pub kept : (b : ℕ) → b < n → (listed b s ≡ 1) ⊎ ((t : ℕ) × (s.pool.current t ≡ some b))
  pub within : (b : ℕ) → b < n → (s.pool.buffers b).used_size ≤ (s.pool.buffers b).buffer_size
  pub sized : (b : ℕ) → b < n → (s.pool.buffers b).buffer_size ≡ s.pool.buffer_size
  pub empty : (b : ℕ) → 0 < tally b s.pool.free → (s.pool.buffers b).used_size ≡ 0
  pub named :
      (t b : ℕ) → s.pool.current t ≡ some b → (s.pool.buffers b).client ≡ client_of threads t

module _ (threads : Threads) (n : ℕ) where
  retires-Owned :
      (s : System) (t b : ℕ)
      → s.pool.current t ≡ some b
      → Owned threads n s
      → Owned threads n (record s { pool = retire t b s.pool })
  unfolding retire
  retires-Owned s t b e o =
      let a = o.apart t b e in
      record {
        once = λ c. ground (arith, o.once c);
        known = λ c h. ground (arith, o.known c h);
        apart = λ u c h. ground (arith, o.apart u c, o.single t u c);
        single = λ u v c h k. ground (arith, o.single u v c);
        kept = λ c h. elim (o.kept c h) [
          | inl q ↦ inl (ground arith)
          | inr (u, w) ↦ elim (Bool-cases (t == u)) [
            | inl q ↦ inl (ground (arith, w))
            | inr q ↦ inr (u, update_ne s.pool.current t none u (ground arith) ∙ w)
          ]
        ];
        within = o.within;
        sized = o.sized;
        empty = o.empty;
        named = λ u c h. ground (arith, o.named u c);
      }

  acquires-Owned :
      (s : System) (t b : ℕ) (rest : List ℕ)
      → s.pool.current t ≡ none
      → s.pool.free ≡ b ∷ rest
      → Owned threads n s
      → Owned threads n (record s { pool = acquire (threads.caller t) b rest s.pool })
  unfolding acquire
  acquires-Owned s t b rest e f o =
      let m : (threads.caller t).thread ≡ t = threads.numbered t in
      let l : 1 ≤ listed b s = ground (arith, f) in
      let k : b < n = ground (arith, o.known b) in
      record {
        once = λ c. ground (arith, f, o.once c);
        known = λ c h. ground (arith, f, o.known c h);
        apart = λ u c h. ground (arith, f, m, o.apart u c, o.once b);
        single = λ u v c h j. ground (arith, m, o.single u v c, o.apart u c, o.apart v c);
        kept = λ c h. elim (o.kept c h) [
          | inl q ↦ elim (Bool-cases (b == c)) [
            | inl i ↦ inr (t, ground (arith, m))
            | inr i ↦ inl (ground (arith, f))
          ]
          | inr (u, w) ↦ inr (u, ground (arith, m, e, w))
        ];
        within = λ c l. ground (arith, o.within c);
        sized = λ c l. ground (arith, o.sized c);
        empty = λ c h. ground (arith, f, o.empty c);
        named = λ u c h. ground (arith, m, o.named u c, o.apart u c);
      }

  writes-Owned :
      (s : System) (t b : ℕ) (bytes : List ℕ) (w : List (ClientId × List ℕ))
      → s.pool.current t ≡ some b
      → (s.pool.buffers b).used_size + length bytes ≤ (s.pool.buffers b).buffer_size
      → Owned threads n s
      → Owned threads n (record s { pool = fill b bytes s.pool; written = w })
  unfolding fill use_up
  writes-Owned s t b bytes w e f o = record {
    once = o.once;
    known = o.known;
    apart = o.apart;
    single = o.single;
    kept = o.kept;
    within = λ c l. ground (arith, o.within c);
    sized = λ c l. ground (arith, o.sized c);
    empty = λ c h. ground (arith, o.empty c, o.apart t b);
    named = λ u c h. ground (arith, o.named u c);
  }

  takes-Owned :
      (s : System)
      → s.collecting ≡ []
      → Owned threads n s
      → Owned threads n (record s {
        pool = record (s.pool) { dirty = [] };
        collecting = reverse_onto s.pool.dirty [];
      })
  takes-Owned s e o = record {
    once = λ c. ground (arith, e, o.once c, tally-reverse_onto c s.pool.dirty []);
    known = λ c h. ground (arith, e, o.known c h, tally-reverse_onto c s.pool.dirty []);
    apart = λ u c h. ground (arith, e, o.apart u c h, tally-reverse_onto c s.pool.dirty []);
    single = o.single;
    kept = λ c h. elim (o.kept c h) [
      | inl q ↦ inl (ground (arith, e, tally-reverse_onto c s.pool.dirty []))
      | inr w ↦ inr w
    ];
    within = o.within;
    sized = o.sized;
    empty = o.empty;
    named = o.named;
  }

  hands_on-Owned :
      (s : System) (b : ℕ) (rest : List ℕ) (d : List (ClientId × List ℕ))
      → s.collecting ≡ b ∷ rest
      → Owned threads n s
      → Owned threads n (record s { pool = recycle b s.pool; collecting = rest; delivered = d })
  unfolding recycle
  hands_on-Owned s b rest d e o = record {
    once = λ c. ground (arith, e, o.once c);
    known = λ c h. ground (arith, e, o.known c h);
    apart = λ u c h. ground (arith, e, o.apart u c h);
    single = o.single;
    kept = λ c h. elim (o.kept c h) [ inl q ↦ inl (ground (arith, e)) | inr w ↦ inr w ];
    within = λ c l. ground (arith, o.within c);
    sized = λ c l. ground (arith, o.sized c);
    empty = λ c h. ground (arith, o.empty c);
    named = λ u c h. ground (arith, o.named u c);
  }

  -- Every step of the threads and of the collector keeps the buffers in one place each: none is lost,
  -- none has two owners, and none is filled beyond its size.
  pub Step-Owned : {s s' : System} → Step threads s s' → Owned threads n s → Owned threads n s'
  Step-Owned {s = s} (retires t b e) o = retires-Owned s t b e o
  Step-Owned {s = s} notifies o = record {
    once = o.once;
    known = o.known;
    apart = o.apart;
    single = o.single;
    kept = o.kept;
    within = o.within;
    sized = o.sized;
    empty = o.empty;
    named = o.named;
  }
  Step-Owned {s = s} (acquires t b rest e f) o = acquires-Owned s t b rest e f o
  Step-Owned {s = s} (writes t b bytes e f) o = writes-Owned s t b bytes _ e f o
  Step-Owned {s = s} (takes e) o = takes-Owned s e o
  Step-Owned {s = s} (hands_on b rest e) o = hands_on-Owned s b rest _ e o

  -- Whatever the threads and the collector do, in any order: of the buffers each stays in one place, on
  -- the free list, on the dirty list, with the collector or with one thread, and none is lost; what a
  -- buffer holds fits into it, and a thread's buffer has the thread's ids.
  pub Reach-Owned : {s s' : System} → Reach threads s s' → Owned threads n s → Owned threads n s'
  Reach-Owned here o = o
  Reach-Owned (next r st) o = Step-Owned st (Reach-Owned r o)
