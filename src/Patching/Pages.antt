-- ===== src/Patching/Pages.antt =====
-- Which pages stay locked after a call of the kernel mode build.
use ntrace.Base.{
  ℕ, ◌≤◌, ◌<◌, ◌≡◌, ◌≢◌, ◌⊎◌, inl, inr, refl, sym, ap, ◌∙◌, subst, Bool, true, false, List, [], ◌∷◌,
  tally, arith, Bool-cases, Option-cases,
}
use ntrace.Patching.{
  success, is_success, is_already_patched, validate, doom, copy, patch, unpatch, CodePatch, Machine,
  Check, copy_all,
}
use ntrace.Patching.Apply.{look, validate_all}
use ntrace.Patching.Restore.{copy_all-stripped}
use ntrace.Patching.Validated.{look-patch, validate_all-patch}
use ntrace.Patching.Kernel.{
  Kernel, set_mapped, clear_all, lock_memory, lock_all, revalidate, patch_routine, unlock_first,
  patch_code,
}
use ntrace.Patching.Locking.{Clear, unlock-all}

clear_all-mapped :
    (ks : List ℕ) (s : Machine) (i : ℕ)
    → ((s.patches i).mapped ≡ false) ⊎ (0 < tally i ks)
    → ((clear_all ks s).patches i).mapped ≡ false
unfolding clear_all set_mapped
clear_all-mapped [] s i (inl e) = e
clear_all-mapped [] s i (inr h) = absurd (omega arith)
clear_all-mapped (k ∷ ks) s i h = clear_all-mapped ks (set_mapped false k s) i (ground (arith, h))

clear_all-doomed :
    (ks : List ℕ) (s : Machine) (i : ℕ) → ((clear_all ks s).patches i).doomed ≡ (s.patches i).doomed
unfolding clear_all set_mapped
clear_all-doomed [] s i = refl
clear_all-doomed (k ∷ ks) s i = clear_all-doomed ks (set_mapped false k s) i ∙ ground arith

clear_all-Clear :
    (ks : List ℕ) (s : Machine)
    → ((k : ℕ) → 0 < tally k ks → (s.patches k).doomed ≡ false)
    → ((k : ℕ) → tally k ks ≤ 1)
    → Clear ks (clear_all ks s)
clear_all-Clear ks s d u = record {
  sane = λ k m. clear_all-doomed ks s k ∙ d k m;
  once = u;
  unmapped = λ k m. clear_all-mapped ks s k (inr m);
}

revalidate-patch :
    (check : Check) (valid : ℕ → Bool) (ks : List ℕ) (s : Machine)
    → (revalidate check valid patch ks s).1 ≡ s
unfolding revalidate
revalidate-patch check valid [] s = refl
revalidate-patch check valid (k ∷ ks) s = ground (
  arith,
  look-patch check valid k s,
  revalidate-patch check valid ks s,
  revalidate-patch check valid ks (look check valid patch k s).1,
)

patch_routine-mapped :
    (check : Check) (valid : ℕ → Bool) (ks : List ℕ) (s : Machine) (i : ℕ)
    → ((patch_routine check valid patch ks s).2.patches i).mapped ≡ (s.patches i).mapped
unfolding patch_routine
patch_routine-mapped check valid ks s i =
    let t = (revalidate check valid patch ks s).1 in
    let e : t ≡ s = revalidate-patch check valid ks s in
    let f : (t.patches i).mapped ≡ (s.patches i).mapped =
      ap (λ (x : Machine). (x.patches i).mapped) e in
    let g : ((copy_all patch ks t).patches i).mapped ≡ (t.patches i).mapped =
      ap (λ (p : CodePatch). p.mapped) (copy_all-stripped patch ks i t) in
    elim (Option-cases (revalidate check valid patch ks s).0) [
      | inl q ↦ ground (arith, q, f, g)
      | inr (x, q) ↦ ground (arith, q, f)
    ]

-- After a call of JpfbtpPatchCode of the kernel mode build that instruments by different patches, none of
-- them doomed, whether it succeeds or fails, none of their MDLs is left.
pub patch_code-unlocked :
    (check : Check) (valid : ℕ → Bool) (kernel : Kernel) (ks : List ℕ) (s : Machine)
    → ((k : ℕ) → 0 < tally k ks → (s.patches k).doomed ≡ false)
    → ((k : ℕ) → tally k ks ≤ 1)
    → (k : ℕ) → 0 < tally k ks
    → ((patch_code check valid kernel patch ks s).2.patches k).mapped ≡ false
unfolding patch_code
patch_code-unlocked check valid kernel [] s d u i m = absurd (omega arith)
patch_code-unlocked check valid kernel (j ∷ js) s d u i m =
    let ks = j ∷ js in
    let v = validate_all check valid patch ks (clear_all ks s) in
    let same : v.1 ≡ clear_all ks s = validate_all-patch check valid ks (clear_all ks s) in
    let c : Clear ks v.1 = subst (Clear ks) (sym same) (clear_all-Clear ks s d u) in
    let l = lock_all kernel ks 0 v.1 in
    let r = patch_routine check kernel.valid_then patch ks l.2 in
    elim (Option-cases v.0) [
      | inr (f, q) ↦ ground (arith, q, c.unmapped i m)
      | inl q ↦ elim (Bool-cases (is_success l.0)) [
        | inr b ↦ ground (arith, q, b, unlock-all kernel ks 0 v.1 l.2 c (λ k n. refl) i m)
        | inl b ↦ ground (
          arith,
          q,
          b,
          unlock-all kernel ks 0 v.1 r.2 c
              (λ k n. patch_routine-mapped check kernel.valid_then ks l.2 k) i m,
        )
      ]
    ]

-- When the kernel mode build takes back two patches, of which the first one's procedure is gone and the
-- second one's is there and can be locked, the call succeeds, but the MDL of the second is not freed.
pub patch_code-locked :
    (check : Check) (valid : ℕ → Bool) (kernel : Kernel) (j k : ℕ) (s : Machine)
    → j ≢ k
    → (s.patches k).doomed ≡ false
    → valid (s.patches j).procedure ≡ false
    → valid (s.patches k).procedure ≡ true
    → kernel.valid_then (s.patches k).procedure ≡ true
    → s.code (s.patches k).procedure ≡ 0xEB
    → kernel.mdl (s.patches k).target (s.patches k).code_size ≡ true
    → kernel.lockable (s.patches k).target (s.patches k).code_size ≡ true
    → let r = patch_code check valid kernel unpatch (j ∷ k ∷ []) s in
      (r.0 ≡ success) × ((r.2.patches k).mapped ≡ true)
unfolding patch_code clear_all validate_all look validate doom lock_all lock_memory set_mapped
    patch_routine revalidate unlock_first copy_all copy is_success is_already_patched
patch_code-locked check valid kernel j k s n d h i l e a b = (ground (arith, n), ground (arith, n))
