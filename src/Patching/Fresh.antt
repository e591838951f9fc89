-- ===== src/Patching/Fresh.antt =====
-- Patches as JpfbtsInitializeCodePatch makes them: what the procedures do once they are applied, and
-- that they can be taken back.
use ntrace.Base.{
  ℕ, ◌+◌, ◌-◌, ◌^◌, ◌≤◌, ◌<◌, ◌≡◌, ◌≢◌, ◌⊎◌, inl, inr, sym, ap, ◌∙◌, subst, Bool, true, Option,
  none, List, tally, get_or, length, arith,
}
use ntrace.Base.Bytes.{store, store_inside}
use ntrace.Patching.{
  Status, success, is_already_patched, patch, unpatch, CodePatch, Machine, Check, copy_all,
}
use ntrace.Patching.Jumps.{Diverted}
use ntrace.Patching.Copies.{copy_all-inside}
use ntrace.Patching.Restore.{Ready, copy_all-unpatch, copy_all-stripped}
use ntrace.Patching.Threads.{Os}
use ntrace.Patching.Apply.{patch_code, validate_all}
use ntrace.Patching.Validated.{validate_all-patch, validate_all-unpatch}
use ntrace.Patching.Same.{Same, copy_all-Same}
use ntrace.Patching.Reverted.{patch_code-Done}
use ntrace.Patching.Initialized.{
  Initialized, Known, Initialized-Known, Diverts, Initialized-Diverts, Diverted-cong,
}

-- Patches of different procedures, which do not reach into one another.
pub record Fresh (thunk : ℕ) (s : Machine) (ks : List ℕ) : Type 0 where
  pub initialized : (k : ℕ) → 0 < tally k ks → Initialized thunk (s.patches k)
  pub different : (k : ℕ) → tally k ks ≤ 1
  pub away :
      (j k : ℕ)
      → 0 < tally j ks
      → 0 < tally k ks
      → j ≢ k
      → ((s.patches j).procedure + 7 ≤ (s.patches k).procedure)
        ⊎ ((s.patches k).procedure + 7 ≤ (s.patches j).procedure)

module _ (thunk : ℕ) (bounded : thunk < 2 ^ 32) (s : Machine) (ks : List ℕ)
    (f : Fresh thunk s ks) where
  known : (k : ℕ) → 0 < tally k ks → Known thunk (s.patches k)
  known k m = Initialized-Known thunk (s.patches k) (f.initialized k m)

  long : (k : ℕ) → 0 < tally k ks → length (s.patches k).new_code ≡ 7
  unfolding Diverts
  long k m = (Initialized-Diverts thunk (s.patches k) bounded (f.initialized k m)).0

  Fresh-Ready : Ready s ks
  unfolding known
  Fresh-Ready = record {
    laid = record {
      once = f.different;
      apart = λ j k a m m' n (h, l). ground (
        arith,
        f.away j k m m' n,
        (known j m).behind,
        (known k m').behind,
        (f.initialized j m).room,
        (f.initialized k m').room,
        long j m,
        long k m',
        h,
        l,
      );
    };
    sound = λ k m. (known k m).sane;
    sized = λ k m. long k m ∙ sym (known k m).seven;
  }

  -- The code over a procedure once all are copied.
  copied-Diverted :
      (k : ℕ) → 0 < tally k ks → Diverted (copy_all patch ks s).code (s.patches k).procedure thunk
  unfolding Diverts
  copied-Diverted k m =
      let p = s.patches k in
      let i = f.initialized k m in
      let b = (known k m).behind in
      let l = long k m in
      Diverted-cong (store s.code (p.procedure - 5) p.new_code) (copy_all patch ks s).code
        p.procedure thunk i.room
        (λ a g h.
          copy_all-inside patch ks k a s Fresh-Ready.laid m (known k m).sane
            (omega (arith, b, g), omega (arith, b, h, l, i.room))
          ∙ ap (λ t. get_or p.new_code (a - t) 0) b
          ∙ sym (
              store_inside s.code (p.procedure - 5) p.new_code a (a - (p.procedure - 5))
                (omega (arith, g)) (omega (arith, g, h, l, i.room))))
        ((Initialized-Diverts thunk p bounded i).1 s.code)

  module _ (os : Os) (check : Check) (valid : ℕ → Bool) (w : os.World) where
    abbrev pub patched : Status × Option ℕ × Machine × os.World
    patched = patch_code os check valid patch ks s w

    patched-Same : patched.0 ≡ success → Same (copy_all patch ks s) patched.2
    patched-Same e = elim (patch_code-Done os check valid patch ks s w) [
      | inl (n, c) ↦ absurd (n e)
      | inr (g, (t, v, h)) ↦
          let q : t ≡ s =
            sym (ap (λ (x : Option (Status × ℕ) × Machine). x.1) v)
            ∙ validate_all-patch check valid ks s in
          subst (λ (x : Machine). Same (copy_all patch ks x) patched.2) q h
    ]

    pub patched_procedure :
        patched.0 ≡ success → (k : ℕ) → (patched.2.patches k).procedure ≡ (s.patches k).procedure
    patched_procedure e k =
        ap (λ (p : CodePatch). p.procedure) ((patched-Same e).patches_same k)
        ∙ ap (λ (p : CodePatch). p.procedure) (copy_all-stripped patch ks k s)

    -- Once a call has succeeded, every procedure leads to the thunk.
    pub patch_code-Diverted :
        patched.0 ≡ success
        → (k : ℕ) → 0 < tally k ks
        → Diverted patched.2.code (s.patches k).procedure thunk
    patch_code-Diverted e k m =
        subst (λ c. Diverted c (s.patches k).procedure thunk) (sym (patched-Same e).code_same)
          (copied-Diverted k m)

    -- A later call that takes the patches back, if the code is still there.
    module _ (done : patched.0 ≡ success)
        (there : (k : ℕ) → 0 < tally k ks → valid (s.patches k).procedure ≡ true) (w' : os.World)
        (undone : (patch_code os check valid unpatch ks patched.2 w').0 ≡ success) where
      unpatched-Same :
          Same (copy_all unpatch ks patched.2) (patch_code os check valid unpatch ks patched.2 w').2
      unfolding is_already_patched
      unpatched-Same =
          let t = patched.2 in
          let v : validate_all check valid unpatch ks t ≡ (none, t) =
            validate_all-unpatch check valid ks t
              (λ k m. ap valid (patched_procedure done k) ∙ there k m)
              (λ k m.
                let j : t.code (t.patches k).procedure ≡ 0xEB =
                  ap t.code (patched_procedure done k) ∙ (patch_code-Diverted done k m).jumps in
                ground (arith, j)) in
          let machine : Option (Status × ℕ) × Machine → Machine = λ x. x.1 in
          elim (patch_code-Done os check valid unpatch ks t w') [
            | inl (n, c) ↦ absurd (n undone)
            | inr (g, (u, v', h)) ↦
                subst
                  (λ (x : Machine).
                    Same (copy_all unpatch ks x) (patch_code os check valid unpatch ks t w').2)
                  (sym (ap machine v') ∙ ap machine v) h
          ]

      pub unpatched_procedure :
          (k : ℕ)
          → ((patch_code os check valid unpatch ks patched.2 w').2.patches k).procedure
            ≡ (patched.2.patches k).procedure
      unpatched_procedure k =
          ap (λ (p : CodePatch). p.procedure) (unpatched-Same.patches_same k)
          ∙ ap (λ (p : CodePatch). p.procedure) (copy_all-stripped unpatch ks k patched.2)

      -- The code is as it was before.
      pub patch_code-unpatch : (patch_code os check valid unpatch ks patched.2 w').2.code ≡ s.code
      patch_code-unpatch =
          unpatched-Same.code_same
          ∙ (copy_all-Same unpatch ks (copy_all patch ks s) patched.2 (patched-Same done)).code_same
          ∙ copy_all-unpatch ks s Fresh-Ready
