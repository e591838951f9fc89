-- ===== src/Patching/Copies.antt =====
-- The bytes of the machine's code before and after the patches of a list are copied.
use ntrace.Base.{
  ℕ, ◌+◌, ◌-◌, ◌≤◌, ◌<◌, ◌≡◌, ◌≢◌, ◌⊎◌, inl, inr, refl, ap, ap₂, ◌∙◌, false, List, [], ◌∷◌, ◌==◌,
  ==_iff, if◌then◌else◌, tally, length, get_or, arith, Bool-cases,
}
use ntrace.Base.Bytes.{store, store_before, store_after, store_inside}
use ntrace.Patching.{Action, patch, unpatch, CodePatch, Machine, copy, copy_all}

-- What is written over the target.
abbrev pub payload : Action → CodePatch → List ℕ
payload patch p = p.new_code
payload unpatch p = p.old_code

-- All but what was replaced.
abbrev pub stripped : CodePatch → CodePatch
stripped p = record p { old_code = [] }

abbrev pub In : Action → CodePatch → ℕ → Type 0
In action p a = (p.target ≤ a) × (a < p.target + length (payload action p))

-- An address is before or behind the target.
abbrev pub Out : Action → CodePatch → ℕ → Type 0
Out action p a = (a < p.target) ⊎ (p.target + length (payload action p) ≤ a)

-- The patches of a list are different ones and have targets apart.
pub record Laid (action : Action) (patches : ℕ → CodePatch) (ks : List ℕ) : Type 0 where
  pub once : (k : ℕ) → tally k ks ≤ 1
  pub apart :
      (j k a : ℕ)
      → 0 < tally j ks
      → 0 < tally k ks
      → j ≢ k
      → In action (patches j) a
      → Out action (patches k) a

-- One step of the loop.
abbrev pub copy_step : Action → ℕ → Machine → Machine
copy_step action k s = if (s.patches k).doomed then s else copy action k s

module _ (action : Action) where
  pub copy_step-stripped :
      (k i : ℕ) (s : Machine) → stripped ((copy_step action k s).patches i) ≡ stripped (s.patches i)
  unfolding copy
  copy_step-stripped k i s = go action
    where
      go : (b : Action) → stripped ((copy_step b k s).patches i) ≡ stripped (s.patches i)
      go patch = ground arith
      go unpatch = ground arith

  copy_step-payload :
      (k i : ℕ) (s : Machine)
      → payload action ((copy_step action k s).patches i) ≡ payload action (s.patches i)
  unfolding copy
  copy_step-payload k i s = go action
    where
      go : (b : Action) → payload b ((copy_step b k s).patches i) ≡ payload b (s.patches i)
      go patch = ground arith
      go unpatch = ground arith

  pub copy_step-target :
      (k i : ℕ) (s : Machine) → ((copy_step action k s).patches i).target ≡ (s.patches i).target
  copy_step-target k i s = ap (λ (p : CodePatch). p.target) (copy_step-stripped k i s)

  pub copy_step-doomed :
      (k i : ℕ) (s : Machine) → ((copy_step action k s).patches i).doomed ≡ (s.patches i).doomed
  copy_step-doomed k i s = ap (λ (p : CodePatch). p.doomed) (copy_step-stripped k i s)

  copy_step-In :
      (k i a : ℕ) (s : Machine)
      → In action ((copy_step action k s).patches i) a
      → In action (s.patches i) a
  copy_step-In k i a s (h, l) = (
    omega (arith, h, copy_step-target k i s),
    omega (
      arith,
      l,
      copy_step-target k i s,
      ap (λ (xs : List ℕ). length xs) (copy_step-payload k i s),
    ),
  )

  copy_step-Out :
      (k i a : ℕ) (s : Machine)
      → Out action (s.patches i) a
      → Out action ((copy_step action k s).patches i) a
  copy_step-Out k i a s (inl h) = inl (omega (arith, h, copy_step-target k i s))
  copy_step-Out k i a s (inr h) = inr (
      omega (
        arith,
        h,
        copy_step-target k i s,
        ap (λ (xs : List ℕ). length xs) (copy_step-payload k i s),
      ))

  pub copy_step-Laid :
      (k : ℕ) (ks : List ℕ) (s : Machine)
      → Laid action s.patches (k ∷ ks)
      → Laid action (copy_step action k s).patches ks
  copy_step-Laid k ks s l = record {
    once = λ i. ground (arith, l.once i);
    apart = λ j i a h h' n r.
        copy_step-Out k i a s
          (l.apart j i a (ground arith) (ground arith) n (copy_step-In k j a s r));
  }

  -- What one step does to a byte.
  pub copy_step-outside :
      (k a : ℕ) (s : Machine)
      → Out action (s.patches k) a
      → (copy_step action k s).code a ≡ s.code a
  unfolding copy
  copy_step-outside k a s h = go action h
    where
      away :
          (bytes : List ℕ) (at : ℕ)
          → (a < at) ⊎ (at + length bytes ≤ a)
          → store s.code at bytes a ≡ s.code a
      away bytes at (inl l) = store_before s.code at bytes a l
      away bytes at (inr l) = store_after s.code at bytes a l

      go : (b : Action) → Out b (s.patches k) a → (copy_step b k s).code a ≡ s.code a
      go patch o = ground (arith, away (s.patches k).new_code (s.patches k).target o)
      go unpatch o = ground (arith, away (s.patches k).old_code (s.patches k).target o)

  copy_step-inside :
      (k a : ℕ) (s : Machine)
      → (s.patches k).doomed ≡ false
      → In action (s.patches k) a
      → (copy_step action k s).code a
        ≡ get_or (payload action (s.patches k)) (a - (s.patches k).target) 0
  unfolding copy
  copy_step-inside k a s d h = go action h
    where
      within :
          (bytes : List ℕ) (at : ℕ)
          → at ≤ a
          → a < at + length bytes
          → store s.code at bytes a ≡ get_or bytes (a - at) 0
      within bytes at l m = store_inside s.code at bytes a (a - at) (omega arith) (omega arith)

      go :
          (b : Action)
          → In b (s.patches k) a
          → (copy_step b k s).code a ≡ get_or (payload b (s.patches k)) (a - (s.patches k).target) 0
      go patch (l, m) = ground (arith, d, within (s.patches k).new_code (s.patches k).target l m)
      go unpatch (l, m) = ground (arith, d, within (s.patches k).old_code (s.patches k).target l m)

  -- What the loop does to a byte.
  pub copy_all-outside :
      (ks : List ℕ) (a : ℕ) (s : Machine)
      → ((k : ℕ) → 0 < tally k ks → Out action (s.patches k) a)
      → (copy_all action ks s).code a ≡ s.code a
  unfolding copy_all
  copy_all-outside [] a s h = refl
  copy_all-outside (k ∷ ks) a s h =
      copy_all-outside ks a (copy_step action k s)
        (λ i m. copy_step-Out k i a s (h i (ground arith)))
      ∙ copy_step-outside k a s (h k (ground arith))

  pub copy_all-inside :
      (ks : List ℕ) (k a : ℕ) (s : Machine)
      → Laid action s.patches ks
      → 0 < tally k ks
      → (s.patches k).doomed ≡ false
      → In action (s.patches k) a
      → (copy_all action ks s).code a
        ≡ get_or (payload action (s.patches k)) (a - (s.patches k).target) 0
  unfolding copy_all
  copy_all-inside [] k a s l m d h = absurd (omega arith)
  copy_all-inside (j ∷ ks) k a s l m d h = elim (Bool-cases (j == k)) [
    | inl q ↦
        let e : j ≡ k = (==_iff j k).0 q in
        copy_all-outside ks a (copy_step action j s) (λ i r.
          copy_step-Out j i a s
            (l.apart k i a m (ground arith) (λ f. ground (arith, l.once i, f)) h))
        ∙ ap (λ (i : ℕ). (copy_step action i s).code a) e
        ∙ copy_step-inside k a s d h
    | inr q ↦
        copy_all-inside ks k a (copy_step action j s) (copy_step-Laid j ks s l) (ground (arith, m))
          (copy_step-doomed j k s ∙ d)
          (
            omega (arith, h.0, copy_step-target j k s),
            omega (
              arith,
              h.1,
              copy_step-target j k s,
              ap (λ (xs : List ℕ). length xs) (copy_step-payload j k s),
            ),
          )
        ∙ ap₂ (λ (xs : List ℕ) (t : ℕ). get_or xs (a - t) 0) (copy_step-payload j k s)
            (copy_step-target j k s)
  ]
