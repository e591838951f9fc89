-- ===== src/Patching/Validated.antt =====
-- What validating a list of patches comes to.
use ntrace.Base.{
  ℕ, ◌<◌, ◌≡◌, inl, inr, refl, sym, ap, ◌∙◌, subst, Bool, true, false, Option, some, none, List, [],
  ◌∷◌, tally, arith, Bool-cases, Option-cases,
}
use ntrace.Patching.{
  Status, is_success, is_already_patched, Action, patch, unpatch, Machine, Check, validate, doom,
}
use ntrace.Patching.Apply.{look, validate_all}

module _ (check : Check) (valid : ℕ → Bool) where
  pub look-patch : (k : ℕ) (s : Machine) → (look check valid patch k s).1 ≡ s
  unfolding look
  look-patch k s = ground arith

  pub look-code :
      (action : Action) (k : ℕ) (s : Machine) → (look check valid action k s).1.code ≡ s.code
  unfolding look doom
  look-code patch k s = ground arith
  look-code unpatch k s = ground arith

  validate_all-on :
      (action : Action) (k : ℕ) (ks : List ℕ) (s t : Machine)
      → look check valid action k s ≡ (none, t)
      → validate_all check valid action (k ∷ ks) s ≡ validate_all check valid action ks t
  unfolding validate_all
  validate_all-on action k ks s t e = ground (arith, e)

  validate_all-stop :
      (action : Action) (k : ℕ) (ks : List ℕ) (s t : Machine) (st : Status)
      → look check valid action k s ≡ (some st, t)
      → validate_all check valid action (k ∷ ks) s ≡ (some (st, k), t)
  unfolding validate_all
  validate_all-stop action k ks s t st e = ground (arith, e)

  -- What holds of a machine, and is kept by each look, holds after validation.
  validate_all-keeps :
      (P : Machine → Type 0) (action : Action)
      → ((k : ℕ) (s : Machine) → P s → P (look check valid action k s).1)
      → (ks : List ℕ) (s : Machine) → P s
      → P (validate_all check valid action ks s).1
  unfolding validate_all
  validate_all-keeps P action f [] s p = p
  validate_all-keeps P action f (k ∷ ks) s p =
      let r = look check valid action k s in
      elim (Option-cases r.0) [
        | inl e ↦
            subst (λ (x : Option (Status × ℕ) × Machine). P x.1)
              (sym (validate_all-on action k ks s r.1 (ap (λ (o : Option Status). (o, r.1)) e)))
              (validate_all-keeps P action f ks r.1 (f k s p))
        | inr (st, e) ↦
            subst (λ (x : Option (Status × ℕ) × Machine). P x.1)
              (sym
                (validate_all-stop action k ks s r.1 st (ap (λ (o : Option Status). (o, r.1)) e)))
              (f k s p)
      ]

  pub validate_all-patch : (ks : List ℕ) (s : Machine) → (validate_all check valid patch ks s).1 ≡ s
  validate_all-patch ks s =
      validate_all-keeps (λ t. t ≡ s) patch (λ k t e. look-patch k t ∙ e) ks s refl

  pub validate_all-code :
      (action : Action) (ks : List ℕ) (s : Machine)
      → (validate_all check valid action ks s).1.code ≡ s.code
  validate_all-code action ks s =
      validate_all-keeps (λ t. t.code ≡ s.code) action (λ k t e. look-code action k t ∙ e) ks s refl

  look-unpatch :
      (k : ℕ) (s : Machine)
      → valid (s.patches k).procedure ≡ true
      → is_already_patched s.code (s.patches k).procedure ≡ true
      → look check valid unpatch k s ≡ (none, s)
  unfolding look validate is_success
  look-unpatch k s a b = ground (arith, a, b)

  -- Patches whose procedures are still there and begin with the jump validate.
  pub validate_all-unpatch :
      (ks : List ℕ) (s : Machine)
      → ((k : ℕ) → 0 < tally k ks → valid (s.patches k).procedure ≡ true)
      → ((k : ℕ) → 0 < tally k ks → is_already_patched s.code (s.patches k).procedure ≡ true)
      → validate_all check valid unpatch ks s ≡ (none, s)
  unfolding validate_all
  validate_all-unpatch [] s h j = refl
  validate_all-unpatch (k ∷ ks) s h j =
      validate_all-on unpatch k ks s s (look-unpatch k s (h k (ground arith)) (j k (ground arith)))
      ∙ validate_all-unpatch ks s (λ i m. h i (ground arith)) (λ i m. j i (ground arith))

  pub look-some :
      (action : Action) (k : ℕ) (s : Machine) (st : Status)
      → (look check valid action k s).0 ≡ some st
      → is_success st ≡ false
  unfolding look
  look-some patch k s st e =
      elim (Bool-cases (is_success (validate check valid patch s.code (s.patches k).procedure))) [
        | inl q ↦ absurd (ground (arith, e, q))
        | inr q ↦
            let f : validate check valid patch s.code (s.patches k).procedure ≡ st =
              ground (arith, e, q) in
            ap is_success (sym f) ∙ q
      ]
  look-some unpatch k s st e = absurd (ground (arith, e))

  -- Validation ends early with a failure.
  pub validate_all-some :
      (action : Action) (ks : List ℕ) (s : Machine) (st : Status) (i : ℕ)
      → (validate_all check valid action ks s).0 ≡ some (st, i)
      → is_success st ≡ false
  unfolding validate_all
  validate_all-some action [] s st i e = absurd (ground (arith, e))
  validate_all-some action (k ∷ ks) s st i e =
      let r = look check valid action k s in
      elim (Option-cases r.0) [
        | inl q ↦
            let f = validate_all-on action k ks s r.1 (ap (λ (o : Option Status). (o, r.1)) q) in
            validate_all-some action ks r.1 st i
              (sym (ap (λ (x : Option (Status × ℕ) × Machine). x.0) f) ∙ e)
        | inr (st', q) ↦
            let f =
              validate_all-stop action k ks s r.1 st' (ap (λ (o : Option Status). (o, r.1)) q) in
            let g : some (st', k) ≡ some (st, i) =
              sym (ap (λ (x : Option (Status × ℕ) × Machine). x.0) f) ∙ e in
            let h : st' ≡ st = ground (arith, g) in
            ap is_success (sym h) ∙ look-some action k s st' q
      ]
