-- ===== src/Patching/Reverted.antt =====
-- A call of JpfbtpPatchCode that fails has changed no code, and one that takes back what another one
-- has patched restores the code.
use ntrace.Base.{
  ℕ, ◌≡◌, ◌≢◌, ◌⊎◌, inl, inr, sym, ap, ◌∙◌, subst, Bool, true, false, Option, some, none, List,
  arith, Bool-cases, Option-cases,
}
use ntrace.Patching.{
  Status, success, access_violation, is_success, Action, Machine, Check, copy_all,
}
use ntrace.Patching.Threads.{Os, suspend, resume, for_each_thread}
use ntrace.Patching.Apply.{validate_all, make_writable, replace_code, patch_code}
use ntrace.Patching.Same.{Same, Same-trans, copy_all-Same, make_writable-Same, protect_again-Same}
use ntrace.Patching.Validated.{validate_all-code, validate_all-some}

module _ (os : Os) (check : Check) (valid : ℕ → Bool) where
  -- The ways of a call.
  module _ (action : Action) (ks : List ℕ) (s : Machine) (w : os.World) where
    patch_code-invalid :
        (st : Status) (k : ℕ) (t : Machine)
        → validate_all check valid action ks s ≡ (some (st, k), t)
        → patch_code os check valid action ks s w ≡ (st, some k, t, w)
    unfolding patch_code
    patch_code-invalid st k t e = ground (arith, e)

    patch_code-running :
        (t : Machine)
        → validate_all check valid action ks s ≡ (none, t)
        → is_success (for_each_thread os (suspend os) (some (resume os)) w).0 ≡ false
        → ((patch_code os check valid action ks s w).0
            ≡ (for_each_thread os (suspend os) (some (resume os)) w).0)
          × ((patch_code os check valid action ks s w).2 ≡ t)
    unfolding patch_code
    patch_code-running t e f = (ground (arith, e, f), ground (arith, e, f))

    patch_code-replaced :
        (t : Machine)
        → validate_all check valid action ks s ≡ (none, t)
        → is_success (for_each_thread os (suspend os) (some (resume os)) w).0 ≡ true
        → let r =
            replace_code os action ks t (for_each_thread os (suspend os) (some (resume os)) w).1 in
          ((patch_code os check valid action ks s w).0 ≡ r.0)
          × ((patch_code os check valid action ks s w).2 ≡ r.1)
    unfolding patch_code
    patch_code-replaced t e f = (ground (arith, e, f), ground (arith, e, f))

  replace_code-true :
      (action : Action) (ks : List ℕ) (s : Machine) (w : os.World)
      → (make_writable os ks s w).0 ≡ true
      → ((replace_code os action ks s w).0 ≡ success)
        × Same (copy_all action ks s) (replace_code os action ks s w).1
  unfolding replace_code
  replace_code-true action ks s w e =
      let m = make_writable os ks s w in
      (
        ground (arith, e),
        subst (Same (copy_all action ks s)) (ground (arith, e)) (
            Same-trans (copy_all-Same action ks s m.1 (make_writable-Same os ks s w))
              (protect_again-Same os ks (copy_all action ks m.1) m.2)),
      )

  replace_code-false :
      (action : Action) (ks : List ℕ) (s : Machine) (w : os.World)
      → (make_writable os ks s w).0 ≡ false
      → ((replace_code os action ks s w).0 ≡ access_violation)
        × ((replace_code os action ks s w).1.code ≡ s.code)
  unfolding replace_code
  replace_code-false action ks s w e =
      (ground (arith, e), ground (arith, e, (make_writable-Same os ks s w).code_same))

  -- A call fails and has changed no code, or the patches were copied.
  abbrev pub Done : Action → List ℕ → Machine → Status → Machine → Type 0
  Done action ks s status s' =
      ((status ≢ success) × (s'.code ≡ s.code))
      ⊎ ((status ≡ success)
          × ((t : Machine) × (validate_all check valid action ks s ≡ (none, t))
              × Same (copy_all action ks t) s'))

  failed : (st : Status) → is_success st ≡ false → st ≢ success
  unfolding is_success
  failed st e f = ground (arith, ap is_success f, e)

  -- A call of JpfbtpPatchCode of the user mode build, in either direction: it fails and has changed no
  -- code, or all patches were validated and then copied, and apart from protections nothing else changed.
  pub patch_code-Done :
      (action : Action) (ks : List ℕ) (s : Machine) (w : os.World)
      → let r = patch_code os check valid action ks s w in Done action ks s r.0 r.2
  patch_code-Done action ks s w =
      let v = validate_all check valid action ks s in
      let same : v.1.code ≡ s.code = validate_all-code check valid action ks s in
      let threads = for_each_thread os (suspend os) (some (resume os)) w in
      elim (Option-cases v.0) [
        | inr ((st, k), e) ↦
            let q =
              patch_code-invalid action ks s w st k v.1
                (ap (λ (o : Option (Status × ℕ)). (o, v.1)) e) in
            let n = failed st (validate_all-some check valid action ks s st k e) in
            subst (λ (r : Status × Option ℕ × Machine × os.World). Done action ks s r.0 r.2) (sym q)
              (inl (n, same))
        | inl e ↦
            let d : v ≡ (none, v.1) = ap (λ (o : Option (Status × ℕ)). (o, v.1)) e in
            elim (Bool-cases (is_success threads.0)) [
              | inr f ↦
                  let (a, b) = patch_code-running action ks s w v.1 d f in
                  inl (
                    subst (λ x. x ≢ success) (sym a) (failed threads.0 f),
                    ap (λ (x : Machine). x.code) b ∙ same,
                  )
              | inl f ↦
                  let (a, b) = patch_code-replaced action ks s w v.1 d f in
                  elim (Bool-cases (make_writable os ks v.1 threads.1).0) [
                    | inr g ↦
                        let (x, y) = replace_code-false action ks v.1 threads.1 g in
                        inl (
                          (λ z. ground (arith, z, a ∙ x)),
                          ap (λ (m : Machine). m.code) b ∙ y ∙ same,
                        )
                    | inl g ↦
                        let (x, y) = replace_code-true action ks v.1 threads.1 g in
                        inr (a ∙ x, (v.1, d, subst (Same (copy_all action ks v.1)) (sym b) y))
                  ]
            ]
      ]
