-- ===== src/Buffers/Processing.antt =====
-- The collector's call and the exit of a thread as sequences of steps, and what the routine is called
-- with.
use ntrace.Base.{
  ℕ, ◌≤◌, ◌≡◌, ◌≢◌, inl, inr, refl, sym, ap, ap₂, subst, ◌∙◌, Bool, true, false, Option, some, none,
  List, [], ◌∷◌, ◌++◌, append_assoc, append-nil, tally, reverse_onto, tally-reverse_onto, arith,
  Bool-cases, Option-cases,
}
use ntrace.Format.{ClientId}
use ntrace.Buffers.{
  Pool, used_bytes, recycle, process_all, process_flushed, process_buffers, collect_or, Collected,
  Wait, times_out, signalled, teardown, success, timeout, unsuccessful,
}
use ntrace.Buffers.Steps.{
  System, Threads, retires, takes, hands_on, Reach, here, next, Reach-append,
}
use ntrace.Buffers.Ownership.{Owned, Reach-Owned}
use ntrace.Buffers.Held.{inside, inside-update}
use ntrace.Buffers.Paths.{with_pool, List-cases}

-- The state after the buffers were handed on, and the calls made.
abbrev pub handed_on : System → List (ClientId × List ℕ) → Pool → System
handed_on s calls q = record s { pool = q; collecting = []; delivered = s.delivered ++ calls }

-- Every buffer once: the routine gets what each holds when the loop starts.
process_all-calls :
    (bs : List ℕ) (p : Pool)
    → ((b : ℕ) → tally b bs ≤ 1)
    → (process_all bs p).0 ≡ inside p.buffers bs
unfolding process_all recycle
process_all-calls [] p h = refl
process_all-calls (b ∷ bs) p h = ap (◌∷◌ ((p.buffers b).client, used_bytes (p.buffers b))) (
    process_all-calls bs (recycle b p) (λ c. ground (arith, h c))
    ∙ inside-update p.buffers b (record (p.buffers b) { used_size = 0 }) bs (ground (arith, h b)))

process_all-dirty : (bs : List ℕ) (p : Pool) → (process_all bs p).1.dirty ≡ p.dirty
unfolding process_all recycle
process_all-dirty [] p = refl
process_all-dirty (b ∷ bs) p = process_all-dirty bs (recycle b p)

-- The buffers come to lie on the free list, the last one processed on top.
process_all-free : (bs : List ℕ) (p : Pool) → (process_all bs p).1.free ≡ reverse_onto bs p.free
unfolding process_all recycle
process_all-free [] p = refl
process_all-free (b ∷ bs) p = process_all-free bs (recycle b p)

-- What a call is told while it waits: the pool is that of a state reached meanwhile, in which this
-- collector holds no buffer.
pub data Waited (threads : Threads) : System → List Wait → Type 0 where
  done : {s : System} → Waited threads s []
  out : {s : System} (later : List Wait) → Waited threads s (times_out ∷ later)
  woken :
      {s : System} (s' : System) (q : Pool) (stop : Bool) (later : List Wait)
      → Reach threads s s'
      → s'.collecting ≡ []
      → s'.pool ≡ q
      → Waited threads s' later
      → Waited threads s (signalled q stop ∷ later)

module _ (threads : Threads) where
  process_all-path :
      (bs : List ℕ) (s : System)
      → s.collecting ≡ bs
      → Reach threads s (handed_on s (process_all bs s.pool).0 (process_all bs s.pool).1)
  unfolding process_all
  process_all-path [] s e =
      subst (Reach threads s)
        (ap₂
          (λ (xs : List ℕ) (d : List (ClientId × List ℕ)). record s {
            collecting = xs;
            delivered = d;
          })
          e (sym (append-nil s.delivered)))
        here
  process_all-path (b ∷ bs) s e =
      let x : ClientId × List ℕ = ((s.pool.buffers b).client, used_bytes (s.pool.buffers b)) in
      let s' : System = record s {
        pool = recycle b s.pool;
        collecting = bs;
        delivered = s.delivered ++ (x ∷ []);
      } in
      let r = process_all bs (recycle b s.pool) in
      Reach-append (next here (hands_on b bs e)) (
        subst (Reach threads s')
          (ap
            (λ (d : List (ClientId × List ℕ)). record s {
              pool = r.1;
              collecting = [];
              delivered = d;
            })
            (append_assoc s.delivered (x ∷ []) r.0))
          (process_all-path bs s' refl))

  -- One pass of the collector.
  pub record Processed (s : System) (calls : List (ClientId × List ℕ)) (q : Pool) : Type 0 where
    pub path : Reach threads s (handed_on s calls q)
    pub first_in_first_out : calls ≡ inside s.pool.buffers (reverse_onto s.pool.dirty [])
    pub none_left : q.dirty ≡ []
    pub released : q.free ≡ reverse_onto (reverse_onto s.pool.dirty []) s.pool.free

  process_flushed-Processed :
      (n : ℕ) (s : System)
      → s.collecting ≡ []
      → Owned threads n s
      → Processed s (process_flushed s.pool).1 (process_flushed s.pool).2
  unfolding process_flushed
  process_flushed-Processed n s e o =
      let bs = reverse_onto s.pool.dirty [] in
      let p : Pool = record (s.pool) { dirty = [] } in
      record {
        path =
            Reach-append (next here (takes e))
              (process_all-path bs (record s { pool = p; collecting = bs }) refl);
        first_in_first_out =
            process_all-calls bs p
              (λ b. omega (arith, tally-reverse_onto b s.pool.dirty [], o.once b));
        none_left = process_all-dirty bs p;
        released = process_all-free bs p;
      }

  -- A thread that exits does without its buffer.
  pub teardown-path : (t : ℕ) (s : System) → Reach threads s (with_pool s (teardown t s.pool))
  unfolding teardown
  teardown-path t s = elim (Option-cases (s.pool.current t)) [
    | inl e ↦ subst (λ p. Reach threads s (with_pool s p)) (ground (arith, e)) here
    | inr (b, e) ↦
        subst (λ p. Reach threads s (with_pool s p)) (ground (arith, e)) (next here (retires t b e))
  ]

  -- What a call returns: buffers were there and all were processed, or there were none and the routine
  -- was not called.
  pub Outcome : System → Collected → Type 0
  Outcome s (success, calls, q) = (s.pool.dirty ≢ []) × Processed s calls q
  Outcome s (_, calls, q) = (s.pool.dirty ≡ []) × (calls ≡ []) × (q ≡ s.pool)

  -- A look at the list.
  module _ (n : ℕ) (stop : Bool) (s : System) (waiting : Option Collected) where
    collect_or-some :
        s.pool.dirty ≢ [] → collect_or stop s.pool waiting ≡ some (process_flushed s.pool)
    unfolding collect_or
    collect_or-some h = elim (List-cases s.pool.dirty) [
      | inl e ↦ absurd (h e)
      | inr (b, bs, e) ↦ ground (arith, e)
    ]

    collect_or_stop :
        s.pool.dirty ≡ []
        → stop ≡ true
        → collect_or stop s.pool waiting ≡ some (unsuccessful, [], s.pool)
    unfolding collect_or
    collect_or_stop e f = ground (arith, e, f)

    collect_or_wait : s.pool.dirty ≡ [] → stop ≡ false → collect_or stop s.pool waiting ≡ waiting
    unfolding collect_or
    collect_or_wait e f = ground (arith, e, f)

  -- What a look at the list comes to, if the wait comes to the like.
  look_at_list :
      (n : ℕ) (stop : Bool) (s : System) (waiting : Option Collected) (r : Collected)
      → s.collecting ≡ []
      → Owned threads n s
      → (s.pool.dirty ≡ [] → waiting ≡ some r → (s' : System) × Reach threads s s' × Outcome s' r)
      → collect_or stop s.pool waiting ≡ some r
      → (s' : System) × Reach threads s s' × Outcome s' r
  unfolding Outcome process_flushed
  look_at_list n stop s waiting r e o w h = elim (List-cases s.pool.dirty) [
    | inr (b, bs, f) ↦
        let d : s.pool.dirty ≢ [] = λ q. ground (arith, f, q) in
        let i : process_flushed s.pool ≡ r =
          ground (arith, collect_or-some n stop s waiting d, h) in
        (s, here, subst (Outcome s) i (d, process_flushed-Processed n s e o))
    | inl f ↦ elim (Bool-cases stop) [
      | inl g ↦
          let i : (unsuccessful, [], s.pool) ≡ r =
            ground (arith, collect_or_stop n stop s waiting f g, h) in
          (s, here, subst (Outcome s) i (f, refl, refl))
      | inr g ↦ w f (sym (collect_or_wait n stop s waiting f g) ∙ h)
    ]
  ]

  -- If each buffer is in one place, and the collector holds none: a call of JpfbtProcessBuffers that
  -- returns has looked at the list in a state that was reached while it waited. Either there were dirty
  -- buffers, and all of them were handed to the routine, first in, first out, and freed, by the steps of
  -- the collector; or there were none, the routine was not called, and nothing was changed.
  pub process_buffers-Outcome :
      (n : ℕ) (waits : List Wait) (stop : Bool) (s : System) (r : Collected)
      → Waited threads s waits
      → s.collecting ≡ []
      → Owned threads n s
      → process_buffers waits stop s.pool ≡ some r
      → (s' : System) × Reach threads s s' × Outcome s' r
  unfolding Outcome process_buffers
  process_buffers-Outcome n [] stop s r w e o h =
      look_at_list n stop s none r e o (λ f g. absurd (ground (arith, g))) h
  process_buffers-Outcome n (times_out ∷ later) stop s r w e o h =
      look_at_list n stop s (some (timeout, [], s.pool)) r e o
        (λ f g.
          let i : (timeout, [], s.pool) ≡ r = ground (arith, g) in
          (s, here, subst (Outcome s) i (f, refl, refl)))
        h
  process_buffers-Outcome n (signalled q stopped ∷ later) stop s r (woken s' _ _ _ p e' m w) e o h =
      look_at_list n stop s (process_buffers later stopped q) r e o
        (λ f g.
          let (t, path, u) =
            process_buffers-Outcome n later stopped s' r w e' (Reach-Owned threads n p o)
              (ap (process_buffers later stopped) m ∙ g) in
          (t, Reach-append p path, u))
        h
