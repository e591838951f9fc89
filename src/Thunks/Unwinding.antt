-- ===== src/Thunks/Unwinding.antt =====
-- How far the thunk stack is popped.
use ntrace.Base.{
  ℕ, zero, suc, ◌+◌, ◌-◌, ◌≤◌, ◌<◌, ◌≡◌, inl, inr, refl, ap, sym, ◌∙◌, some, none, ◌==◌, arith,
  Option-cases, Bool-cases,
}
use ntrace.Thunks.{bottom, Seh, Stack, registration, pop_from, unwind_thunkstack}

-- From a frame on, the first one with an own registration, and the stack pointer behind it.
pub record Popped (seh : ℕ → Seh) (from sp : ℕ) : Type 0 where
  pub frame : ℕ
  pub later : from ≤ frame
  pub own : (r : ℕ) × (registration (seh frame) ≡ some r)
  pub first : (i : ℕ) → from ≤ i → i < frame → registration (seh i) ≡ none
  pub behind : sp ≡ frame + 1

own_frame :
    (seh : ℕ → Seh) (frame r : ℕ) → registration (seh frame) ≡ some r → Popped seh frame (frame + 1)
own_frame seh frame r f = record {
  frame = frame;
  later = omega arith;
  own = (r, f);
  first = λ i a b. absurd (omega (arith, a, b));
  behind = refl;
}

pop_from-Popped :
    (seh : ℕ → Seh) (frame n k r : ℕ)
    → k < n
    → registration (seh (frame + k)) ≡ some r
    → (sp : ℕ) × (pop_from seh frame n ≡ some sp) × Popped seh frame sp
unfolding pop_from
pop_from-Popped seh frame zero k r l e = absurd (omega arith)
pop_from-Popped seh frame (suc n) zero r l e =
    let z : frame + 0 ≡ frame = omega arith in
    let f : registration (seh frame) ≡ some r = ap (λ i. registration (seh i)) (sym z) ∙ e in
    (frame + 1, ground (arith, f), own_frame seh frame r f)
pop_from-Popped seh frame (suc n) (suc k) r l e = elim (Option-cases (registration (seh frame))) [
  | inr (q, f) ↦ (frame + 1, ground (arith, f), own_frame seh frame q f)
  | inl f ↦
      let z : frame + suc k ≡ frame + 1 + k = omega arith in
      let (sp, g, p) =
        pop_from-Popped seh (frame + 1) n k r (omega (arith, l))
          (ap (λ i. registration (seh i)) (sym z) ∙ e) in
      (
        sp,
        ground (arith, f, g),
        record {
          frame = p.frame;
          later = omega (arith, p.later);
          own = p.own;
          first = λ i a b. elim (Bool-cases (frame == i)) [
            | inl q ↦
                let j : frame ≡ i = ground (arith, q) in ap (λ m. registration (seh m)) (sym j) ∙ f
            | inr q ↦ p.first i (ground (arith, a, q)) b
          ];
          behind = p.behind;
        },
      )
]

-- If some frame of the thunk stack has an own registration: unwinding pops the frames up to and
-- including the first one that has, and touches no frame and no handler.
pub unwind_thunkstack-Popped :
    (s : Stack) (k r : ℕ)
    → s.stack_pointer ≤ k
    → k < bottom
    → registration (s.seh k) ≡ some r
    → (sp : ℕ) × (unwind_thunkstack s ≡ some (record s { stack_pointer = sp }))
      × Popped s.seh s.stack_pointer sp
unfolding unwind_thunkstack
unwind_thunkstack-Popped s k r h l e =
    let z : s.stack_pointer + (k - s.stack_pointer) ≡ k = omega (arith, h) in
    let (sp, g, p) =
      pop_from-Popped s.seh s.stack_pointer (bottom - s.stack_pointer) (k - s.stack_pointer) r
        (omega (arith, h, l)) (ap (λ i. registration (s.seh i)) z ∙ e) in
    (sp, ground (arith, g), p)
