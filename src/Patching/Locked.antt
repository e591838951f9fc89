-- ===== src/Patching/Locked.antt =====
-- What a call of the kernel mode build leaves behind: code that is unchanged if it fails, and pages
-- that are locked.
use ntrace.Base.{
  ℕ, zero, suc, ◌+◌, ◌≡◌, inl, inr, refl, sym, ap, ◌∙◌, Bool, false, not, ◌&&◌, some, List, [], ◌∷◌,
  if◌then◌else◌, arith, Bool-cases, Option-cases,
}
use ntrace.Patching.{Status, is_success, Action, Machine, Check}
use ntrace.Patching.Apply.{look, validate_all}
use ntrace.Patching.Validated.{look-code, look-some, validate_all-code}
use ntrace.Patching.Kernel.{
  Kernel, set_mapped, clear_all, lock_memory, lock_all, revalidate, patch_routine, unlock_first,
  patch_code,
}

clear_all-code : (ks : List ℕ) (s : Machine) → (clear_all ks s).code ≡ s.code
unfolding clear_all set_mapped
clear_all-code [] s = refl
clear_all-code (k ∷ ks) s = clear_all-code ks (set_mapped false k s)

lock_all-code :
    (kernel : Kernel) (ks : List ℕ) (n : ℕ) (s : Machine) → (lock_all kernel ks n s).2.code ≡ s.code
unfolding lock_all set_mapped
lock_all-code kernel [] n s = refl
lock_all-code kernel (k ∷ ks) n s =
    let p = s.patches k in
    let locks = not p.doomed && is_success (lock_memory kernel p.target p.code_size) in
    ground (arith, lock_all-code kernel ks (if locks then n + 1 else n) (set_mapped locks k s))

unlock_first-code : (n : ℕ) (ks : List ℕ) (s : Machine) → (unlock_first n ks s).code ≡ s.code
unfolding unlock_first set_mapped
unlock_first-code zero ks s = refl
unlock_first-code (suc n) [] s = refl
unlock_first-code (suc n) (k ∷ ks) s =
    unlock_first-code n ks (if (s.patches k).mapped then set_mapped false k s else s) ∙ ground arith

module _ (check : Check) (valid : ℕ → Bool) where
  revalidate-code :
      (action : Action) (ks : List ℕ) (s : Machine)
      → (revalidate check valid action ks s).1.code ≡ s.code
  unfolding revalidate
  revalidate-code action [] s = refl
  revalidate-code action (k ∷ ks) s = ground (
    arith,
    revalidate-code action ks s,
    revalidate-code action ks (look check valid action k s).1,
    look-code check valid action k s,
  )

  revalidate-some :
      (action : Action) (ks : List ℕ) (s : Machine) (st : Status) (i : ℕ)
      → (revalidate check valid action ks s).0 ≡ some (st, i)
      → is_success st ≡ false
  unfolding revalidate
  revalidate-some action [] s st i e = absurd (ground (arith, e))
  revalidate-some action (k ∷ ks) s st i e = elim (Bool-cases (s.patches k).doomed) [
    | inl d ↦ revalidate-some action ks s st i (ground (arith, e, d))
    | inr d ↦ elim (Option-cases (look check valid action k s).0) [
      | inl q ↦
          revalidate-some action ks (look check valid action k s).1 st i (ground (arith, e, d, q))
      | inr (st', q) ↦
          let h : st' ≡ st = ground (arith, e, d, q) in
          ap is_success (sym h) ∙ look-some check valid action k s st' q
    ]
  ]

  -- What is copied is copied on success only.
  patch_routine-code :
      (action : Action) (ks : List ℕ) (s : Machine)
      → is_success (patch_routine check valid action ks s).0 ≡ false
      → (patch_routine check valid action ks s).2.code ≡ s.code
  unfolding patch_routine is_success
  patch_routine-code action ks s e = elim (Option-cases (revalidate check valid action ks s).0) [
    | inl q ↦ absurd (ground (arith, e, q))
    | inr (f, q) ↦ ground (arith, q, revalidate-code action ks s)
  ]

-- A call of JpfbtpPatchCode of the kernel mode build, in either direction, that fails has changed no code.
pub patch_code-unchanged :
    (check : Check) (valid : ℕ → Bool) (kernel : Kernel) (action : Action) (ks : List ℕ)
    (s : Machine)
    → is_success (patch_code check valid kernel action ks s).0 ≡ false
    → (patch_code check valid kernel action ks s).2.code ≡ s.code
unfolding patch_code is_success
patch_code-unchanged check valid kernel action [] s e = absurd (ground (arith, e))
patch_code-unchanged check valid kernel action (j ∷ js) s e =
    let ks = j ∷ js in
    let v = validate_all check valid action ks (clear_all ks s) in
    let (locked, n, s2) = lock_all kernel ks 0 v.1 in
    let r = patch_routine check kernel.valid_then action ks s2 in
    let a : v.1.code ≡ s.code =
      validate_all-code check valid action ks (clear_all ks s) ∙ clear_all-code ks s in
    let b : s2.code ≡ s.code = lock_all-code kernel ks 0 v.1 ∙ a in
    elim (Option-cases v.0) [
      | inr (f, q) ↦ ground (arith, q, a)
      | inl q ↦ elim (Bool-cases (is_success locked)) [
        | inr l ↦ ground (arith, q, l, b, unlock_first-code n ks s2)
        | inl l ↦
            let c =
              patch_routine-code check kernel.valid_then action ks s2 (ground (arith, e, q, l)) in
            ground (arith, q, l, unlock_first-code n ks r.2, c, b)
      ]
    ]
