-- ===== src/Patching/Initialized.antt =====
-- What is known of a patch as JpfbtsInitializeCodePatch makes it.
use ntrace.Base.{
  ℕ, ◌+◌, ◌-◌, ◌%◌, ◌^◌, ◌≤◌, ◌<◌, ◌≡◌, ◌⊎◌, inl, inr, refl, sym, ap, ◌∙◌, subst, false, Option,
  some, none, List, length, arith,
}
use ntrace.Base.Bytes.{Memory, store}
use ntrace.Patching.{CodePatch, initialize_code_patch, trampoline_and_prolog, distance, max_long}
use ntrace.Patching.Jumps.{Diverted, call_target, short_jump_target, trampoline_and_prolog-Diverted}

-- A patch that has been initialized.
pub record Initialized (thunk : ℕ) (p : CodePatch) : Type 0 where
  pub made : initialize_code_patch thunk p.procedure ≡ some p
  pub room : 5 ≤ p.procedure
  pub bounded : p.procedure < 2 ^ 32

-- What is known of an initialized patch.
pub record Known (thunk : ℕ) (p : CodePatch) : Type 0 where
  pub payload_made : trampoline_and_prolog thunk p.procedure ≡ some p.new_code
  pub behind : p.target ≡ p.procedure - 5
  pub seven : p.code_size ≡ 7
  pub sane : p.doomed ≡ false

pub Initialized-Known : (thunk : ℕ) (p : CodePatch) → Initialized thunk p → Known thunk p
unfolding initialize_code_patch
Initialized-Known thunk p h = go (trampoline_and_prolog thunk p.procedure) refl
  where
    go : (r : Option (List ℕ)) → trampoline_and_prolog thunk p.procedure ≡ r → Known thunk p
    go none e = absurd (ground (arith, h.made, e))
    go (some payload) e =
        let t : p.target ≡ (p.procedure + 2 ^ 32 - 5) % 2 ^ 32 = ground (arith, h.made, e) in
        record {
          payload_made = ground (arith, h.made, e);
          behind = omega (arith, t, h.room, h.bounded);
          seven = ground (arith, h.made, e);
          sane = ground (arith, h.made, e);
        }

unfoldable pub Diverts : (thunk : ℕ) (p : CodePatch) → Type 0
Diverts thunk p =
    (length p.new_code ≡ 7)
    × ((m : Memory) → Diverted (store m (p.procedure - 5) p.new_code) p.procedure thunk)

pub Initialized-Diverts :
    (thunk : ℕ) (p : CodePatch) → thunk < 2 ^ 32 → Initialized thunk p → Diverts thunk p
unfolding Diverts
Initialized-Diverts thunk p u h = (
  long (λ i. i),
  λ m. (go m (trampoline_and_prolog-Diverted m thunk p.procedure h.room h.bounded u)).1,
)
  where
    made : trampoline_and_prolog thunk p.procedure ≡ some p.new_code
    made = (Initialized-Known thunk p h).payload_made

    go :
        (m : Memory)
        → ((max_long < distance thunk p.procedure)
            × (trampoline_and_prolog thunk p.procedure ≡ none))
          ⊎ ((payload : List ℕ) × (trampoline_and_prolog thunk p.procedure ≡ some payload)
              × (length payload ≡ 7)
              × Diverted (store m (p.procedure - 5) payload) p.procedure thunk)
        → (length p.new_code ≡ 7)
          × Diverted (store m (p.procedure - 5) p.new_code) p.procedure thunk
    go m (inl (far, e)) = absurd (ground (arith, e, made))
    go m (inr (payload, e, l, d)) =
        let q : payload ≡ p.new_code = ground (arith, e, made) in
        (
          ap (λ (xs : List ℕ). length xs) (sym q) ∙ l,
          subst (λ xs. Diverted (store m (p.procedure - 5) xs) p.procedure thunk) q d,
        )

    long : Memory → length p.new_code ≡ 7
    long m = (go m (trampoline_and_prolog-Diverted m thunk p.procedure h.room h.bounded u)).0

-- The seven bytes decide.
pub Diverted-cong :
    (m m' : Memory) (procedure thunk : ℕ)
    → 5 ≤ procedure
    → ((i : ℕ) → procedure - 5 ≤ i → i < procedure + 2 → m' i ≡ m i)
    → Diverted m procedure thunk
    → Diverted m' procedure thunk
unfolding short_jump_target call_target
Diverted-cong m m' procedure thunk h e d =
    let a = procedure - 5 in
    record {
      jumps = e procedure (omega arith) (omega arith) ∙ d.jumps;
      backwards = rw (e (procedure + 1) (omega arith) (omega arith)) d.backwards;
      calls = e a (omega arith) (omega arith) ∙ d.calls;
      thunk_called =
          rw
            (
              e (a + 1) (omega arith) (omega arith),
              e (a + 1 + 1) (omega arith) (omega arith),
              e (a + 1 + 2) (omega arith) (omega arith),
              e (a + 1 + 3) (omega arith) (omega arith),
            )
            d.thunk_called;
    }
