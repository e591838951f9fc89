-- ===== src/Buffers/Stream.antt =====
-- What happens to the bytes of a thread: they are handed on in the order in which they were written.
use ntrace.Base.{
  ℕ, ◌+◌, ◌≡◌, ◌≢◌, inl, inr, refl, sym, ap, ap₂, ◌∙◌, some, none, List, [], ◌∷◌, ◌++◌, append-nil,
  append_assoc, update_self, tally, reverse_onto, tally-reverse_onto, length, arith, ◌==◌, ==_iff,
  Bool-cases,
}
use ntrace.Base.Bytes.{store, bytes_from, bytes_from-store}
use ntrace.Format.{ClientId}
use ntrace.Buffers.{Buffer, Pool, retire, acquire, used_bytes, recycle}
use ntrace.Buffers.Steps.{
  System, Threads, client_of, fill, Step, retires, notifies, acquires, writes, takes, hands_on,
  Reach, here, next,
}
use ntrace.Buffers.Ownership.{Owned, listed, Step-Owned}
use ntrace.Buffers.Held.{
  bytes_for, bytes_for-append, inside, held, append_behind, held-some, held_none, bytes_for-turned,
  elsewhere, held-update, bytes_for-own, bytes_for-other,
}

-- All that was written for a thread was handed on, is being collected, waits, or is in its buffer, in
-- this order.
abbrev pub Streams : Threads → System → Type 0
Streams threads s =
    (t : ℕ)
    → bytes_for (client_of threads t) s.written
      ≡ bytes_for (client_of threads t) s.delivered
        ++ (bytes_for (client_of threads t) (inside s.pool.buffers s.collecting)
            ++ (bytes_for (client_of threads t)
                  (inside s.pool.buffers (reverse_onto s.pool.dirty []))
                ++ held s.pool t))

module _ (threads : Threads) where
  -- The bytes of a thread behind the collector's list move from its buffer to the dirty list.
  retires_tail :
      (p : Pool) (u b t : ℕ)
      → p.current u ≡ some b
      → (p.buffers b).client ≡ client_of threads u
      → bytes_for (client_of threads t) (inside p.buffers (reverse_onto p.dirty [])) ++ held p t
        ≡ bytes_for (client_of threads t) (inside p.buffers (reverse_onto (b ∷ p.dirty) []))
          ++ held (retire u b p) t
  unfolding retire
  retires_tail p u b t e m =
      let c = client_of threads t in
      let x = bytes_for c (inside p.buffers (reverse_onto p.dirty [])) in
      elim (Bool-cases (u == t)) [
        | inl q ↦
            let i : u ≡ t = (==_iff u t).0 q in
            let w = held-some p t b (rw i at e) in
            let z = held_none (retire u b p) t (ground arith) in
            ap (◌++◌ x) w
            ∙ sym (
                ap₂ ◌++◌
                  (bytes_for-turned p.buffers c b p.dirty
                    ∙ ap (◌++◌ x) (bytes_for-own threads t _ _ (rw i at m)))
                  z
                ∙ append-nil (x ++ used_bytes (p.buffers b)))
        | inr q ↦
            let z : held (retire u b p) t ≡ held p t = rw (q, held) refl in
            sym (
              ap₂ ◌++◌
                (bytes_for-turned p.buffers c b p.dirty
                  ∙ ap (◌++◌ x) (bytes_for-other threads t u _ _ m (λ i. ground (arith, i)))
                  ∙ append-nil x)
                z)
      ]

  retires-Streams :
      (s : System) (n u b : ℕ)
      → s.pool.current u ≡ some b
      → Owned threads n s
      → Streams threads s
      → Streams threads (record s { pool = retire u b s.pool })
  unfolding retire
  retires-Streams s n u b e o h t =
      h t
      ∙ ap
          (λ x.
            bytes_for (client_of threads t) s.delivered
            ++ (bytes_for (client_of threads t) (inside s.pool.buffers s.collecting) ++ x))
          (retires_tail s.pool u b t e (o.named u b e))

  acquires-Streams :
      (s : System) (n u b : ℕ) (rest : List ℕ)
      → s.pool.current u ≡ none
      → s.pool.free ≡ b ∷ rest
      → Owned threads n s
      → Streams threads s
      → Streams threads (record s { pool = acquire (threads.caller u) b rest s.pool })
  unfolding acquire bytes_from
  acquires-Streams s n u b rest e f o h t =
      let p = s.pool in
      let q = acquire (threads.caller u) b rest p in
      let v : Buffer = record (p.buffers b) { client = client_of threads u } in
      let m : (threads.caller u).thread ≡ u = threads.numbered u in
      let l : listed b s ≡ 1 = ground (arith, f, o.once b) in
      let z : (p.buffers b).used_size ≡ 0 = o.empty b (ground (arith, f)) in
      let same : held p t ≡ held q t = elim (Bool-cases (u == t)) [
        | inl i ↦
            let j : u ≡ t = (==_iff u t).0 i in
            held_none p t (rw j at e)
            ∙ sym (
                held-some q t b (ground (arith, m))
                ∙ ap used_bytes (update_self p.buffers b v)
                ∙ ap (bytes_from v.content 0) z)
        | inr i ↦
            held-update p b t v (λ k. absurd (ground (arith, o.apart t b k))) ∙ rw (m, i, held) refl
      ] in
      h t
      ∙ ap (λ x. bytes_for (client_of threads t) s.delivered ++ x)
          (elsewhere p.buffers b v s.collecting (reverse_onto p.dirty []) (client_of threads t)
            (held p t) (held q t) (ground (arith, f, l))
            (ground (arith, f, l, tally-reverse_onto b p.dirty [])) same)

  writes-Streams :
      (s : System) (n u b : ℕ) (bytes : List ℕ)
      → s.pool.current u ≡ some b
      → Owned threads n s
      → Streams threads s
      → Streams threads (record s {
        pool = fill b bytes s.pool;
        written = s.written ++ ((client_of threads u, bytes) ∷ []);
      })
  unfolding fill
  writes-Streams s n u b bytes e o h t =
      let p = s.pool in
      let q = fill b bytes p in
      let c = client_of threads t in
      let old = p.buffers b in
      let v : Buffer = record old {
        used_size = old.used_size + length bytes;
        content = store old.content old.used_size bytes;
      } in
      let a : listed b s ≡ 0 = (o.apart u b e).0 in
      let x : tally b s.collecting ≡ 0 = omega (arith, a) in
      let y : tally b (reverse_onto p.dirty []) ≡ 0 =
        omega (arith, a, tally-reverse_onto b p.dirty []) in
      let dirty = reverse_onto p.dirty [] in
      elim (Bool-cases (u == t)) [
        | inl i ↦
            let j : u ≡ t = (==_iff u t).0 i in
            let longer : held q t ≡ held p t ++ bytes =
              held-some q t b (rw j at e)
              ∙ ap used_bytes (update_self p.buffers b v)
              ∙ bytes_from-store old.content old.used_size bytes
              ∙ ap (λ ys. ys ++ bytes) (sym (held-some p t b (rw j at e))) in
            bytes_for-append c s.written ((client_of threads u, bytes) ∷ [])
            ∙ ap₂ ◌++◌ (h t)
                (bytes_for-own threads t (client_of threads u) bytes (ap (client_of threads) j))
            ∙ append_behind (bytes_for c s.delivered) _ _ (held p t) bytes
            ∙ ap (λ z. bytes_for c s.delivered ++ z)
                (elsewhere p.buffers b v s.collecting dirty c (held p t ++ bytes) (held q t) x y
                  (sym longer))
        | inr i ↦
            let k : u ≢ t = λ r. ground (arith, r) in
            bytes_for-append c s.written ((client_of threads u, bytes) ∷ [])
            ∙ ap (◌++◌ (bytes_for c s.written))
                (bytes_for-other threads t u (client_of threads u) bytes refl k)
            ∙ append-nil (bytes_for c s.written)
            ∙ h t
            ∙ ap (λ z. bytes_for c s.delivered ++ z)
                (elsewhere p.buffers b v s.collecting dirty c (held p t) (held q t) x y
                  (held-update p b t v (λ r. k (sym (o.single t u b r e)))))
      ]

  takes-Streams :
      (s : System)
      → s.collecting ≡ []
      → Streams threads s
      → Streams threads (record s {
        pool = record (s.pool) { dirty = [] };
        collecting = reverse_onto s.pool.dirty [];
      })
  unfolding bytes_for
  takes-Streams s e h t =
      h t
      ∙ ap
          (λ (xs : List ℕ).
            bytes_for (client_of threads t) s.delivered
            ++ (bytes_for (client_of threads t) (inside s.pool.buffers xs)
                ++ (bytes_for (client_of threads t)
                      (inside s.pool.buffers (reverse_onto s.pool.dirty []))
                    ++ held s.pool t)))
          e

  hands_on-Streams :
      (s : System) (n b : ℕ) (rest : List ℕ)
      → s.collecting ≡ b ∷ rest
      → Owned threads n s
      → Streams threads s
      → Streams threads (record s {
        pool = recycle b s.pool;
        collecting = rest;
        delivered =
            s.delivered ++ (((s.pool.buffers b).client, used_bytes (s.pool.buffers b)) ∷ []);
      })
  unfolding recycle
  hands_on-Streams s n b rest e o h t =
      let p = s.pool in
      let c = client_of threads t in
      let old = p.buffers b in
      let dirty = reverse_onto p.dirty [] in
      let head : List (ClientId × List ℕ) = (old.client, used_bytes old) ∷ [] in
      let l : listed b s ≡ 1 = ground (arith, e, o.once b) in
      let start : bytes_for c (inside p.buffers s.collecting)
          ≡ bytes_for c head ++ bytes_for c (inside p.buffers rest) =
        ap (λ (xs : List ℕ). bytes_for c (inside p.buffers xs)) e
        ∙ bytes_for-append c head (inside p.buffers rest) in
      h t
      ∙ ap
          (λ z.
            bytes_for c s.delivered ++ (z ++ (bytes_for c (inside p.buffers dirty) ++ held p t)))
          start
      ∙ ap (◌++◌ (bytes_for c s.delivered))
          (append_assoc (bytes_for c head) (bytes_for c (inside p.buffers rest)) _)
      ∙ sym (append_assoc (bytes_for c s.delivered) (bytes_for c head) _)
      ∙ ap₂ ◌++◌ (sym (bytes_for-append c s.delivered head)) (
          elsewhere p.buffers b (record old { used_size = 0 }) rest dirty c (held p t)
            (held (recycle b p) t) (ground (arith, e, l))
            (ground (arith, e, l, tally-reverse_onto b p.dirty []))
            (held-update p b t (record old { used_size = 0 })
              (λ k. absurd (ground (arith, o.apart t b k)))))

  Step-Streams :
      (n : ℕ) {s s' : System}
      → Step threads s s'
      → Owned threads n s
      → Streams threads s
      → Streams threads s'
  Step-Streams n {s = s} (retires t b e) o h = retires-Streams s n t b e o h
  Step-Streams n {s = s} notifies o h = h
  Step-Streams n {s = s} (acquires t b rest e f) o h = acquires-Streams s n t b rest e f o h
  Step-Streams n {s = s} (writes t b bytes e f) o h = writes-Streams s n t b bytes e o h
  Step-Streams n {s = s} (takes e) o h = takes-Streams s e h
  Step-Streams n {s = s} (hands_on b rest e) o h = hands_on-Streams s n b rest e o h

  -- Whatever the threads and the collector do, in any order: the bytes written for a thread are those
  -- handed on for it, then those being collected, those on the dirty list from its far end, and those
  -- in its current buffer, in the order in which they were written, none lost, doubled or changed.
  pub Reach-Streams :
      (n : ℕ) {s s' : System}
      → Reach threads s s'
      → Owned threads n s
      → Streams threads s
      → Owned threads n s' × Streams threads s'
  Reach-Streams n here o h = (o, h)
  Reach-Streams n (next r st) o h =
      let (p, q) = Reach-Streams n r o h in (Step-Owned threads n st p, Step-Streams n st p q)
