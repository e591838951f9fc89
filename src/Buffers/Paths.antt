-- ===== src/Buffers/Paths.antt =====
-- The operations of buffer.c as sequences of steps, and what they come to.
use ntrace.Base.{
  ℕ, ◌+◌, ◌^◌, ◌≤◌, ◌<◌, ◌≡◌, ◌⊎◌, inl, inr, refl, sym, ap, ◌∙◌, fun_ext, Bool, true, false, ◌||◌,
  Option, some, none, List, [], ◌∷◌, ◌++◌, update, length, arith, ◌==◌, ltb, if◌then◌else◌,
  Bool-cases, Option-cases, subst,
}
use ntrace.Base.Bytes.{store}
use ntrace.Format.{ClientId}
use ntrace.Buffers.{
  Buffer, Pool, Caller, room, retire, trigger, acquire, fresh_buffer, find_buffer, use_up,
  get_buffer, write_event,
}
use ntrace.Buffers.Steps.{
  System, Threads, client_of, fill, retires, notifies, acquires, writes, Reach, here, next,
  Reach-append,
}
use ntrace.Buffers.Ownership.{Owned, Reach-Owned}

abbrev pub with_pool : System → Pool → System
with_pool s p = record s { pool = p }

pub List-cases {ℓ} :
    {A : Type ℓ} (xs : List A) → (xs ≡ []) ⊎ ((x : A) × (ys : List A) × (xs ≡ x ∷ ys))
List-cases [] = inl refl
List-cases (x ∷ xs) = inr (x, xs, refl)

module _ (threads : Threads) (n : ℕ) where
  -- What a search for a buffer comes to.
  record Found (t required : ℕ) (s : System) (r : Option ℕ × Pool) : Type 0 where
    path : Reach threads s (with_pool s r.1)
    gives : r.0 ≡ r.1.current t
    roomy :
        (b : ℕ) → r.0 ≡ some b → (r.1.buffers b).used_size + required ≤ (r.1.buffers b).buffer_size

  fresh_buffer_none : (c : Caller) (p : Pool) → p.free ≡ [] → fresh_buffer c p ≡ (none, p)
  unfolding fresh_buffer
  fresh_buffer_none c p e = ground arith

  fresh_buffer-some :
      (c : Caller) (p : Pool) (b : ℕ) (rest : List ℕ)
      → p.free ≡ b ∷ rest
      → fresh_buffer c p ≡ (some b, acquire c b rest p)
  unfolding fresh_buffer
  fresh_buffer-some c p b rest e = ground arith

  fresh_buffer-Found :
      (t required : ℕ) (s : System)
      → s.pool.current t ≡ none
      → Owned threads n s
      → required ≤ s.pool.buffer_size
      → Found t required s (fresh_buffer (threads.caller t) s.pool)
  unfolding acquire
  fresh_buffer-Found t required s e o h = elim (List-cases s.pool.free) [
    | inl f ↦
        subst (Found t required s) (sym (fresh_buffer_none (threads.caller t) s.pool f))
          (record { path = here; gives = sym e; roomy = λ b q. absurd (ground arith) })
    | inr (b, rest, f) ↦
        subst (Found t required s) (sym (fresh_buffer-some (threads.caller t) s.pool b rest f))
          (record {
            path = next here (acquires t b rest e f);
            gives = ground (arith, threads.numbered t);
            roomy = λ c q. ground (arith, f, o.empty b, o.sized b, o.known b);
          })
  ]

  -- A search that goes on from another state.
  Found-after :
      (t required : ℕ) (s : System) (p : Pool) (r : Option ℕ × Pool)
      → Reach threads s (with_pool s p)
      → Found t required (with_pool s p) r
      → Found t required s r
  Found-after t required s p r q f = record {
    path = Reach-append q f.path;
    gives = f.gives;
    roomy = f.roomy;
  }

  -- The three ways of a search.
  module _ (c : Caller) (t required : ℕ) (p : Pool) (same : c.thread ≡ t) where
    find_buffer_none : p.current t ≡ none → find_buffer c required p ≡ fresh_buffer c p
    unfolding find_buffer
    find_buffer_none e = ground arith

    find_buffer_full :
        (b : ℕ)
        → p.current t ≡ some b
        → ltb (room (p.buffers b)) required ≡ true
        → find_buffer c required p ≡ fresh_buffer c (trigger (retire t b p))
    unfolding find_buffer
    find_buffer_full b e q = ground arith

    find_buffer_roomy :
        (b : ℕ)
        → p.current t ≡ some b
        → ltb (room (p.buffers b)) required ≡ false
        → find_buffer c required p ≡ (some b, p)
    unfolding find_buffer
    find_buffer_roomy b e q = ground arith

  find_buffer-Found :
      (t required : ℕ) (s : System)
      → Owned threads n s
      → required ≤ s.pool.buffer_size
      → s.pool.buffer_size < 2 ^ 32
      → Found t required s (find_buffer (threads.caller t) required s.pool)
  unfolding retire room
  find_buffer-Found t required s o h l =
      let c = threads.caller t in
      let m = threads.numbered t in
      elim (Option-cases (s.pool.current t)) [
        | inl e ↦
            subst (Found t required s) (sym (find_buffer_none c t required s.pool m e))
              (fresh_buffer-Found t required s e o h)
        | inr (b, e) ↦ elim (Bool-cases (ltb (room (s.pool.buffers b)) required)) [
          | inl q ↦
              let p = trigger (retire t b s.pool) in
              let path : Reach threads s (with_pool s p) =
                next (next here (retires t b e)) notifies in
              subst (Found t required s) (sym (find_buffer_full c t required s.pool m b e q)) (
                Found-after t required s p _ path (
                  fresh_buffer-Found t required (with_pool s p) (ground arith)
                    (Reach-Owned threads n path o) h))
          | inr q ↦
              subst (Found t required s) (sym (find_buffer_roomy c t required s.pool m b e q))
                (record {
                  path = here;
                  gives = sym e;
                  roomy = λ d i. ground (arith, o.within b, o.sized b, o.apart t b e);
                })
        ]
      ]

  -- The three ways of JpfbtGetBuffer.
  module _ (c : Caller) (size : ℕ) (p : Pool) where
    get_buffer_refused :
        (size == 0 || ltb p.buffer_size size) ≡ true → get_buffer c size p ≡ (none, p)
    unfolding get_buffer
    get_buffer_refused e = ground (arith, e)

    get_buffer_lost :
        (q : Pool)
        → (size == 0 || ltb p.buffer_size size) ≡ false
        → find_buffer c size p ≡ (none, q)
        → get_buffer c size p ≡ (none, q)
    unfolding get_buffer
    get_buffer_lost q e f = ground (arith, e, f)

    get_buffer_done :
        (q : Pool) (b : ℕ)
        → (size == 0 || ltb p.buffer_size size) ≡ false
        → find_buffer c size p ≡ (some b, q)
        → get_buffer c size p ≡ (some (b, (q.buffers b).used_size), use_up b size q)
    unfolding get_buffer
    get_buffer_done q b e f = ground (arith, e, f)

  -- The three ways of an event.
  module _ (c : Caller) (bytes : List ℕ) (p : Pool) where
    write_event_none :
        (q : Pool) → get_buffer c (length bytes) p ≡ (none, q) → write_event c bytes p ≡ (false, q)
    unfolding write_event
    write_event_none q e = ground (arith, e)

    filled :
        (q : Pool) (b : ℕ)
        → record (use_up b (length bytes) q) {
          buffers =
              update
                (use_up b (length bytes) q).buffers
                b
                (record ((use_up b (length bytes) q).buffers b) {
                  content =
                      store
                        ((use_up b (length bytes) q).buffers b).content
                        (q.buffers b).used_size
                        bytes;
                });
        }
          ≡ fill b bytes q
    unfolding use_up fill
    filled q b = ap (λ (f : ℕ → Buffer). record q { buffers = f }) (fun_ext λ i. ground arith)

    write_event-some :
        (q : Pool) (b offset : ℕ)
        → get_buffer c (length bytes) p ≡ (some (b, offset), q)
        → write_event c bytes p ≡ (
          true,
          record q {
            buffers =
                update q.buffers b
                  (record (q.buffers b) { content = store (q.buffers b).content offset bytes });
          },
        )
    unfolding write_event
    write_event-some q b offset e = ground (arith, e)

    write_event_done :
        (q : Pool) (b : ℕ)
        → (length bytes == 0 || ltb p.buffer_size (length bytes)) ≡ false
        → find_buffer c (length bytes) p ≡ (some b, q)
        → write_event c bytes p ≡ (true, fill b bytes q)
    write_event_done q b e f =
        write_event-some (use_up b (length bytes) q) b (q.buffers b).used_size
          (get_buffer_done c (length bytes) p q b e f)
        ∙ ap (λ (x : Pool). (true, x)) (filled q b)

  -- An event of a thread is written into a buffer of its own, or there was no buffer for it.
  pub record Wrote (t : ℕ) (bytes : List ℕ) (s : System) (r : Bool × Pool) : Type 0 where
    pub written : List (ClientId × List ℕ)
    pub path : Reach threads s (record s { pool = r.1; written = written })
    pub tells :
        written ≡ (if r.0 then s.written ++ ((client_of threads t, bytes) ∷ []) else s.written)

  -- If each buffer is in one place, and the buffers are smaller than 4 GB: writing an event is a sequence
  -- of steps of its thread, at the end of which the event has been written for the thread, if
  -- JpfbtGetBuffer gave a buffer, or nothing has been written.
  pub write_event-Wrote :
      (t : ℕ) (bytes : List ℕ) (s : System)
      → Owned threads n s
      → s.pool.buffer_size < 2 ^ 32
      → Wrote t bytes s (write_event (threads.caller t) bytes s.pool)
  write_event-Wrote t bytes s o l =
      let c = threads.caller t in
      elim (Bool-cases (length bytes == 0 || ltb s.pool.buffer_size (length bytes))) [
        | inl e ↦
            subst (Wrote t bytes s)
              (sym (
                write_event_none c bytes s.pool s.pool
                  (get_buffer_refused c (length bytes) s.pool e)))
              (record { written = s.written; path = here; tells = refl })
        | inr e ↦
            go e (find_buffer c (length bytes) s.pool) refl
              (find_buffer-Found t (length bytes) s o (ground arith) l)
      ]
    where
      go :
          (length bytes == 0 || ltb s.pool.buffer_size (length bytes)) ≡ false
          → (r : Option ℕ × Pool) → find_buffer (threads.caller t) (length bytes) s.pool ≡ r
          → Found t (length bytes) s r
          → Wrote t bytes s (write_event (threads.caller t) bytes s.pool)
      go e (none, q) f w =
          subst (Wrote t bytes s)
            (sym (
              write_event_none (threads.caller t) bytes s.pool q
                (get_buffer_lost (threads.caller t) (length bytes) s.pool q e f)))
            (record { written = s.written; path = w.path; tells = refl })
      go e (some b, q) f w =
          subst (Wrote t bytes s) (sym (write_event_done (threads.caller t) bytes s.pool q b e f))
            (record {
              written = s.written ++ ((client_of threads t, bytes) ∷ []);
              path = next w.path (writes t b bytes (sym w.gives) (w.roomy b refl));
              tells = refl;
            })
