-- ===== src/Patching/Same.antt =====
-- Machines that differ in the protections kept with the patches alone; what the parts of
-- JpfbtpPatchCode do to a machine.
use ntrace.Base.{
  ℕ, ◌≡◌, inl, inr, refl, ap, ◌∙◌, Bool, false, Option, some, none, List, [], ◌∷◌, ◌==◌, arith,
  Bool-cases,
}
use ntrace.Base.Bytes.{bytes_from}
use ntrace.Patching.{Action, patch, unpatch, CodePatch, Machine, copy, copy_all}
use ntrace.Patching.Copies.{copy_step}
use ntrace.Patching.Threads.{Os}
use ntrace.Patching.Apply.{protect, make_writable, protect_again}

abbrev pub bare : CodePatch → CodePatch
bare p = record p { protection = 0 }

pub record Same (s t : Machine) : Type 0 where
  pub code_same : t.code ≡ s.code
  pub patches_same : (i : ℕ) → bare (t.patches i) ≡ bare (s.patches i)

Same-refl : (s : Machine) → Same s s
Same-refl s = record { code_same = refl; patches_same = λ i. refl }

pub Same-trans : {s t u : Machine} → Same s t → Same t u → Same s u
Same-trans a b = record {
  code_same = b.code_same ∙ a.code_same;
  patches_same = λ i. b.patches_same i ∙ a.patches_same i;
}

protect-Same : (k o : ℕ) (s : Machine) → Same s (protect k o s)
unfolding protect
protect-Same k o s = record { code_same = refl; patches_same = λ i. ground arith }

copy-Same :
    (action : Action) (k : ℕ) (s t : Machine) → Same s t → Same (copy action k s) (copy action k t)
unfolding copy
copy-Same patch k s t h =
    let b = h.patches_same k in
    let target : (t.patches k).target ≡ (s.patches k).target = ap (λ (p : CodePatch). p.target) b in
    let size : (t.patches k).code_size ≡ (s.patches k).code_size =
      ap (λ (p : CodePatch). p.code_size) b in
    let new : (t.patches k).new_code ≡ (s.patches k).new_code =
      ap (λ (p : CodePatch). p.new_code) b in
    let kept : bytes_from t.code (t.patches k).target (t.patches k).code_size
        ≡ bytes_from s.code (s.patches k).target (s.patches k).code_size =
      rw (h.code_same, target, size) refl in
    record {
      code_same = rw (h.code_same, target, new) refl;
      patches_same = λ i. elim (Bool-cases (k == i)) [
        | inl q ↦ rw q (
            ap
              (λ (p : CodePatch). record (bare p) {
                old_code = bytes_from t.code (t.patches k).target (t.patches k).code_size;
              })
              b
            ∙ ap (λ (xs : List ℕ). record (bare (s.patches k)) { old_code = xs }) kept)
        | inr q ↦ rw q (h.patches_same i)
      ];
    }
copy-Same unpatch k s t h =
    let b = h.patches_same k in
    let target : (t.patches k).target ≡ (s.patches k).target = ap (λ (p : CodePatch). p.target) b in
    let old : (t.patches k).old_code ≡ (s.patches k).old_code =
      ap (λ (p : CodePatch). p.old_code) b in
    record { code_same = rw (h.code_same, target, old) refl; patches_same = h.patches_same }

-- Copying does the same to machines that are the same.
pub copy_all-Same :
    (action : Action) (ks : List ℕ) (s t : Machine)
    → Same s t
    → Same (copy_all action ks s) (copy_all action ks t)
unfolding copy_all
copy_all-Same action [] s t h = h
copy_all-Same action (k ∷ ks) s t h =
    let d : (t.patches k).doomed ≡ (s.patches k).doomed =
      ap (λ (p : CodePatch). p.doomed) (h.patches_same k) in
    copy_all-Same action ks (copy_step action k s) (copy_step action k t)
      (elim (Bool-cases (s.patches k).doomed) [
        | inl q ↦ rw (d, q) h
        | inr q ↦ rw (d, q) (copy-Same action k s t h)
      ])

module _ (os : Os) where
  pub make_writable-Same :
      (ks : List ℕ) (s : Machine) (w : os.World) → Same s (make_writable os ks s w).1
  unfolding make_writable
  make_writable-Same [] s w = Same-refl s
  make_writable-Same (k ∷ ks) s w = elim (Bool-cases (s.patches k).doomed) [
    | inl q ↦ rw q (make_writable-Same ks s w)
    | inr q ↦ rw q (
        go (λ t v. make_writable-Same ks t v)
          (os.virtual_protect w (s.patches k).target (s.patches k).code_size 0x40))
  ]
    where
      go :
          ((t : Machine) (v : os.World) → Same t (make_writable os ks t v).1)
          → (r : Option ℕ × os.World)
          → Same s
              (elim r.0 as (λ x. Bool × Machine × os.World) [
                | none ↦ (false, s, r.1)
                | some o ↦ make_writable os ks (elim r.0 [ none ↦ s | some o ↦ protect k o s ]) r.1
              ]).1
      go more (none, w') = Same-refl s
      go more (some o, w') = Same-trans (protect-Same k o s) (more (protect k o s) w')

  pub protect_again-Same :
      (ks : List ℕ) (s : Machine) (w : os.World) → Same s (protect_again os ks s w).0
  unfolding protect_again
  protect_again-Same [] s w = Same-refl s
  protect_again-Same (k ∷ ks) s w = elim (Bool-cases (s.patches k).doomed) [
    | inl q ↦ rw q (protect_again-Same ks s w)
    | inr q ↦ rw q (
        go (λ t v. protect_again-Same ks t v)
          (os.virtual_protect w (s.patches k).target (s.patches k).code_size
            (s.patches k).protection))
  ]
    where
      go :
          ((t : Machine) (v : os.World) → Same t (protect_again os ks t v).0)
          → (r : Option ℕ × os.World)
          → Same s (protect_again os ks (elim r.0 [ none ↦ s | some o ↦ protect k o s ]) r.1).0
      go more (none, w') = more s w'
      go more (some o, w') = Same-trans (protect-Same k o s) (more (protect k o s) w')
