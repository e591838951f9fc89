-- ===== src/Patching/Instrument/Made.antt =====
-- The patches that are made for the procedures of a call.
use ntrace.Base.{
  ℕ, ◌+◌, ◌^◌, ◌≤◌, ◌<◌, ◌≡◌, ◌≢◌, ◌⊎◌, inl, inr, refl, sym, ap, ap₂, ◌∙◌, subst, Option, some,
  none, List, [], ◌∷◌, ◌==◌, ==_iff, update, update_self, length, map, tally, arith, Bool-cases,
  Option-cases,
}
use ntrace.Patching.{CodePatch, Machine, initialize_code_patch, trampoline_and_prolog}
use ntrace.Patching.Fresh.{Fresh}
use ntrace.Patching.Instrument.{initialize_all}
use ntrace.Patching.Instrument.Register.{procedures_of, apart-map, tally-map}

-- Procedures with room for the patches, which do not reach into one another.
pub record Spaced (procedures : List ℕ) : Type 0 where
  pub different : (p : ℕ) → tally p procedures ≤ 1
  pub room : (p : ℕ) → 0 < tally p procedures → 5 ≤ p
  pub bounded : (p : ℕ) → 0 < tally p procedures → p < 2 ^ 32
  pub away :
      (p q : ℕ)
      → 0 < tally p procedures
      → 0 < tally q procedures
      → p ≢ q
      → (p + 7 ≤ q) ⊎ (q + 7 ≤ p)

-- The patches of a list have been initialized for procedures.
pub record Made (thunk : ℕ) (ks procedures : List ℕ) (before after : ℕ → CodePatch) : Type 0 where
  pub of : procedures_of after ks ≡ procedures
  pub each :
      (k : ℕ) → 0 < tally k ks → initialize_code_patch thunk (after k).procedure ≡ some (after k)
  pub rest : (i : ℕ) → tally i ks ≡ 0 → after i ≡ before i

initialized_procedure :
    (thunk procedure : ℕ) (p : CodePatch)
    → initialize_code_patch thunk procedure ≡ some p
    → p.procedure ≡ procedure
unfolding initialize_code_patch
initialized_procedure thunk procedure p e =
    elim (Option-cases (trampoline_and_prolog thunk procedure)) [
      | inl q ↦ absurd (ground (arith, e, q))
      | inr (payload, q) ↦ ground (arith, e, q)
    ]

pub procedures_of-same :
    (before after : ℕ → CodePatch) (ks : List ℕ)
    → ((k : ℕ) → (after k).procedure ≡ (before k).procedure)
    → procedures_of after ks ≡ procedures_of before ks
procedures_of-same before after [] h = refl
procedures_of-same before after (k ∷ ks) h = ap₂ ◌∷◌ (h k) (procedures_of-same before after ks h)

pub initialize_all-Made :
    (thunk : ℕ) (ks procedures : List ℕ) (patches : ℕ → CodePatch)
    → ((k : ℕ) → tally k ks ≤ 1)
    → length ks ≡ length procedures
    → (initialize_all thunk ks procedures patches).0 ≡ none
    → Made thunk ks procedures patches (initialize_all thunk ks procedures patches).1
unfolding initialize_all
initialize_all-Made thunk [] [] patches u l e = record {
  of = refl;
  each = λ k m. absurd (omega arith);
  rest = λ i h. refl;
}
initialize_all-Made thunk [] (p ∷ ps) patches u l e = absurd (omega (arith, l))
initialize_all-Made thunk (k ∷ ks) [] patches u l e = absurd (omega (arith, l))
initialize_all-Made thunk (k ∷ ks) (procedure ∷ ps) patches u l e =
    elim (Option-cases (initialize_code_patch thunk procedure)) [
      | inl q ↦ absurd (ground (arith, e, q))
      | inr (p, q) ↦
          let old = update patches k p in
          let on : initialize_all thunk (k ∷ ks) (procedure ∷ ps) patches
              ≡ initialize_all thunk ks ps old =
            ground (arith, q) in
          let r =
            initialize_all-Made thunk ks ps old (λ i. ground (arith, u i)) (omega (arith, l))
              (sym (ap (λ (x : Option ℕ × (ℕ → CodePatch)). x.0) on) ∙ e) in
          let new = (initialize_all thunk ks ps old).1 in
          let here : new k ≡ p = r.rest k (ground (arith, u k)) ∙ update_self patches k p in
          let named : (new k).procedure ≡ procedure =
            ap (λ (x : CodePatch). x.procedure) here ∙ initialized_procedure thunk procedure p q in
          subst
            (λ (x : Option ℕ × (ℕ → CodePatch)). Made thunk (k ∷ ks) (procedure ∷ ps) patches x.1)
            (sym on)
            (record {
              of = ap₂ ◌∷◌ named r.of;
              each = λ i m. elim (Bool-cases (k == i)) [
                | inl f ↦
                    subst (λ j. initialize_code_patch thunk (new j).procedure ≡ some (new j))
                      ((==_iff k i).0 f)
                      (ap (initialize_code_patch thunk) named ∙ q ∙ ap some (sym here))
                | inr f ↦ r.each i (ground (arith, m, f))
              ];
              rest = λ i h. r.rest i (ground (arith, h)) ∙ ground (arith, h);
            })
    ]

-- Patches made for spaced procedures are fresh.
pub Made-Fresh :
    (thunk : ℕ) (ks procedures : List ℕ) (before : ℕ → CodePatch) (s : Machine)
    → ((k : ℕ) → tally k ks ≤ 1)
    → Spaced procedures
    → Made thunk ks procedures before s.patches
    → Fresh thunk s ks
Made-Fresh thunk ks procedures before s u d m =
    let f : ℕ → ℕ = λ k. (s.patches k).procedure in
    let among : (k : ℕ) → 0 < tally k ks → 0 < tally (f k) procedures =
      λ k h. subst (λ (ps : List ℕ). 0 < tally (f k) ps) m.of (tally-map f ks k h) in
    let once : (p : ℕ) → tally p (map f ks) ≤ 1 =
      λ p. subst (λ (ps : List ℕ). tally p ps ≤ 1) (sym m.of) (d.different p) in
    record {
      initialized = λ k h. record {
        made = m.each k h;
        room = d.room (f k) (among k h);
        bounded = d.bounded (f k) (among k h);
      };
      different = u;
      away =
          λ j k h i n. d.away (f j) (f k) (among j h) (among k i) (apart-map f ks j k once h i n);
    }
