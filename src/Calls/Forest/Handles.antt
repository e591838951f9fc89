-- ===== src/Calls/Forest/Handles.antt =====
-- A call handle leads back to the place of its call in the trace.
use ntrace.Base.{
  ℕ, zero, suc, ◌+◌, ◌-◌, ◌*◌, ◌≤◌, ◌≡◌, refl, sym, ap, List, [], ◌∷◌, ◌++◌, arith, drop,
}
use ntrace.Base.Bytes.{Memory}
use ntrace.Format.{
  ClientId, transition_at, size_of_transition, chunk_header_at, offset_of_transitions,
}
use ntrace.Calls.Enum.{read_transitions, transition_count}
use ntrace.Calls.Forest.{Located}
use ntrace.Calls.Forest.Chunks.{locate, located_from, StartsInside}

-- What stands behind a transition of the client's chunks is found from its chunk and index.
pub record Found (m : Memory) (client : ClientId) (position : ℕ) (offsets : List ℕ) (l : Located)
    (rest : List Located) : Type 0 where
  pub same_client : l.ref.client ≡ client
  pub behind : position ≤ l.ref.position
  pub inside : StartsInside m (drop (l.ref.position - position) offsets) l.index
  pub next :
      located_from m client l.ref.position (l.index + 1) (drop (l.ref.position - position) offsets)
      ≡ rest

module _ (m : Memory) (client : ClientId) (l : Located) (rest : List Located) where
  Found-in_chunk :
      (position a first n : ℕ) (offsets : List ℕ) (pre : List Located)
      → n ≡ transition_count (chunk_header_at m a).size - first
      → ((pre' : List Located)
          → located_from m client (position + 1) 0 offsets ≡ pre' ++ (l ∷ rest)
          → Found m client (position + 1) offsets l rest)
      → locate
            (record { client = client; position = position })
            first
            (read_transitions m (a + offset_of_transitions) first n)
          ++ located_from m client (position + 1) 0 offsets
        ≡ pre ++ (l ∷ rest)
      → Found m client position (a ∷ offsets) l rest
  unfolding read_transitions located_from
  Found-in_chunk position a first zero offsets pre c tail e = later (tail pre e)
    where
      later :
          Found m client (position + 1) offsets l rest
          → Found m client position (a ∷ offsets) l rest
      later f =
          let d : l.ref.position - position ≡ suc (l.ref.position - (position + 1)) =
            omega (arith, f.behind) in
          record {
            same_client = f.same_client;
            behind = omega (arith, f.behind);
            inside = rw d f.inside;
            next = rw d f.next;
          }
  Found-in_chunk position a first (suc n) offsets [] c tail e = record {
    same_client = ap (λ (x : Located). x.ref.client) (sym h);
    behind = omega (arith, q);
    inside = rw z (omega (arith, i));
    next = rw (z, q, i, located_from, k) r;
  }
    where
      h :
          record {
            ref = record { client = client; position = position };
            index = first;
            transition = transition_at m (a + offset_of_transitions + size_of_transition * first);
          }
          ≡ l
      h = cc

      q : l.ref.position ≡ position
      q = ap (λ (x : Located). x.ref.position) (sym h)

      i : l.index ≡ first
      i = ap (λ (x : Located). x.index) (sym h)

      z : l.ref.position - position ≡ 0
      z = omega (arith, q)

      k : transition_count (chunk_header_at m a).size - (first + 1) ≡ n
      k = omega arith

      r :
          locate
              (record { client = client; position = position })
              (first + 1)
              (read_transitions m (a + offset_of_transitions) (first + 1) n)
            ++ located_from m client (position + 1) 0 offsets
          ≡ rest
      r = cc
  Found-in_chunk position a first (suc n) offsets (x ∷ pre) c tail e =
      Found-in_chunk position a (first + 1) n offsets pre (omega arith) tail (cc)

  pub found :
      (position first : ℕ) (offsets : List ℕ) (pre : List Located)
      → located_from m client position first offsets ≡ pre ++ (l ∷ rest)
      → Found m client position offsets l rest
  unfolding located_from
  found position first [] [] e = absurd (cc)
  found position first [] (x ∷ pre) e = absurd (cc)
  found position first (a ∷ offsets) pre e =
      Found-in_chunk position a first (transition_count (chunk_header_at m a).size - first) offsets
        pre refl (λ pre' e'. found (position + 1) 0 offsets pre' e') e
