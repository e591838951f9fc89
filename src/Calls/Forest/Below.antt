-- ===== src/Calls/Forest/Below.antt =====
-- The loop over located transitions, and how it passes over the calls below the current one.
use ntrace.Base.{
  ℕ, zero, suc, ◌+◌, ◌%◌, ◌^◌, ◌<◌, ◌≡◌, refl, sym, ap, ◌∙◌, ◌⊎◌, Bool, List, [], ◌∷◌, arith,
}
use ntrace.Format.{Transition, transition_entry, transition_exit, transition_unwind}
use ntrace.Calls.{Symbols}
use ntrace.Calls.Scan.{State, Outcome, go, ◌>>=◌, count_child, step, on_entry, on_exit}
use ntrace.Calls.Forest.{Located, Forest, quiet, call, trace, calls_in, IsTraced, traced}

abbrev pub count_children : ℕ → State → State
count_children zero s = s
count_children (suc n) s = count_children n (record s { call = count_child s.call })

count_children-add :
    (m n : ℕ) (s : State) → count_children n (count_children m s) ≡ count_children (m + n) s
count_children-add zero n s = let e : n ≡ zero + n = omega arith in ap (λ k. count_children k s) e
count_children-add (suc m) n s =
    let e : suc (m + n) ≡ suc m + n = omega arith in
    count_children-add m n (record s { call = count_child s.call }) ∙ ap (λ k. count_children k s) e

pub count_children-at_depth :
    (n x : ℕ) (s : State)
    → record (count_children n s) { depth = x } ≡ count_children n (record s { depth = x })
count_children-at_depth zero x s = refl
count_children-at_depth (suc n) x s =
    count_children-at_depth n x (record s { call = count_child s.call })

pub depth-count_children : (n : ℕ) (s : State) → (count_children n s).depth ≡ s.depth
depth-count_children zero s = refl
depth-count_children (suc n) s = depth-count_children n (record s { call = count_child s.call })

pub delivered-count_children : (n : ℕ) (s : State) → (count_children n s).delivered ≡ s.delivered
delivered-count_children zero s = refl
delivered-count_children (suc n) s =
    delivered-count_children n (record s { call = count_child s.call })

pub call-count_children :
    (n : ℕ) (s : State)
    → s.call.child_calls < 2 ^ 32
    → (count_children n s).call
      ≡ record (s.call) { child_calls = (s.call.child_calls + n) % 2 ^ 32 }
call-count_children zero s h = ground arith
call-count_children (suc n) s h =
    ground (arith, call-count_children n (record s { call = count_child s.call }))

module _ (symbols : Symbols) (include_all : Bool) where
  unfoldable pub scan : List Located → State → Outcome
  scan [] s = go s
  scan (l ∷ ls) s = step symbols include_all l.ref l.index l.transition s >>= scan ls

  pub step-entry :
      (l : Located) (s : State)
      → l.transition.type ≡ transition_entry
      → step symbols include_all l.ref l.index l.transition s
        ≡ go (on_entry l.ref l.index l.transition s)
  unfolding step
  step-entry l s e = ground arith

  pub step-leave :
      (l : Located) (s : State)
      → (l.transition.type ≡ transition_exit) ⊎ (l.transition.type ≡ transition_unwind)
      → step symbols include_all l.ref l.index l.transition s
        ≡ on_exit symbols include_all l.transition s
  unfolding step
  step-leave l s e = ground arith

  on_exit-below :
      (t : Transition) (s : State) (d : ℕ)
      → s.depth ≡ suc (suc d)
      → on_exit symbols include_all t s ≡ go (record s { depth = suc d })
  unfolding on_exit
  on_exit-below t s d h = ground arith

  on_entry-below :
      (l : Located) (s : State) (d : ℕ)
      → s.depth ≡ suc d
      → on_entry l.ref l.index l.transition s
        ≡ record s { depth = suc (suc d); call = count_child s.call }
  unfolding on_entry
  on_entry-below l s d h = ground arith

  -- Below a call, a forest only adds to the number of child calls.
  pub scan_below :
      (f : Forest) (rest : List Located) (s : State) (d : ℕ)
      → IsTraced f
      → s.depth ≡ suc d
      → scan (trace f rest) s ≡ scan rest (count_children (calls_in f) s)
  unfolding scan trace calls_in
  scan_below quiet rest s d t h = refl
  scan_below (call enter leave children later) rest s d (traced e x p t u) h =
      rw (step-entry enter s e, on_entry-below enter s d h)
        (rw (scan_below children (leave ∷ trace later rest) inner (suc d) t refl) (
          rw
            (
              step-leave leave (count_children k inner) x,
              on_exit-below leave.transition (count_children k inner) d
                  (depth-count_children k inner),
              count_children-at_depth k (suc d) inner,
            )
            (rw (scan_below later rest (count_children k outer) d u (depth-count_children k outer))
              (ap (scan rest) (
                count_children-add k (calls_in later) outer
                ∙ ap
                    (λ x.
                      count_children (k + calls_in later)
                        (record s { depth = x; call = count_child s.call }))
                    (sym h))))))
    where
      k : ℕ
      k = calls_in children

      inner : State
      inner = record s { depth = suc (suc d); call = count_child s.call }

      outer : State
      outer = record s { depth = suc d; call = count_child s.call }
