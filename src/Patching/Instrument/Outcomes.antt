-- ===== src/Patching/Instrument/Outcomes.antt =====
-- What a call that instruments comes to: it fails and leaves all as it was, or each patch is applied and
-- registered.
use ntrace.Base.{
  ℕ, ◌≤◌, ◌≡◌, ◌≢◌, ◌⊎◌, inl, inr, refl, sym, ap, ◌∙◌, subst, Bool, true, false, List, length,
  tally, arith, Bool-cases, Option-cases,
}
use ntrace.Base.Table.{Hashtable}
use ntrace.Patching.{Status, success, is_success, patch, Check}
use ntrace.Patching.Threads.{Os}
use ntrace.Patching.Apply.{patch_code}
use ntrace.Patching.Reverted.{patch_code-Done}
use ntrace.Patching.Fresh.{Fresh}
use ntrace.Patching.Instrument.{
  Allocator, allocate_from, mark, initialize_all, Library, register_all, Outcome, instrument,
}
use ntrace.Patching.Instrument.Register.{
  mark-freed, allocate_from-block, length-allocate_from, procedures_of,
}
use ntrace.Patching.Instrument.Made.{Spaced, initialize_all-Made, Made-Fresh}
use ntrace.Patching.Instrument.Session.{
  is_success-success, Honest, allocate_from-once, Unchanged, apply_fails, apply_done, blocks,
  prepared, instrument_poor, instrument_partial, instrument_far, instrument_applied,
}

module _ (table : Hashtable ℕ ℕ) (os : Os) (check : Check) (valid : ℕ → Bool) (thunk : ℕ) where
  abbrev pub Failed : Library table → Outcome table os check valid thunk → Type 0
  Failed l r = (r.0 ≢ success) × Unchanged table os check valid thunk l r.2

  module _ (memory : Allocator) (procedures : List ℕ) (l : Library table) (w : os.World)
      (honest : Honest memory l.live) where
    freed :
        (i : ℕ)
        → mark false
            (blocks table os check valid thunk memory procedures l w)
            (mark true (blocks table os check valid thunk memory procedures l w) l.live)
            i
          ≡ l.live i
    freed i = mark-freed (blocks table os check valid thunk memory procedures l w) l.live i (λ k m.
        let (j, e) = allocate_from-block memory.block 0 (length procedures) k m in
        honest.free j k e)

    -- If the allocator gives out free blocks only: JpfbtsInstrumentProcedure succeeds, or it fails and
    -- the code, the patch database and the allocated blocks are as before.
    pub instrument-Failed :
        let r = instrument table os check valid thunk memory procedures l w in
        (r.0 ≡ success) ⊎ Failed l r
    unfolding is_success
    instrument-Failed =
        let ks = blocks table os check valid thunk memory procedures l w in
        let p = prepared table os check valid thunk memory procedures l w in
        let P : Outcome table os check valid thunk → Type 0 = λ r. (r.0 ≡ success) ⊎ Failed l r in
        elim (Bool-cases memory.array) [
          | inr a ↦
              subst P (sym (instrument_poor table os check valid thunk memory procedures l w a)) (
                inr (
                  (λ e. ground (arith, e)),
                  record { code = refl; database = refl; live = λ i. refl },
                ))
          | inl a ↦ elim (Bool-cases (allocate_from memory.block 0 (length procedures)).0) [
            | inr b ↦
                subst P
                  (sym (instrument_partial table os check valid thunk memory procedures l w a b))
                  (inr (
                    (λ e. ground (arith, e)),
                    record { code = refl; database = refl; live = freed },
                  ))
            | inl b ↦ elim (Option-cases (initialize_all thunk ks procedures l.machine.patches).0) [
              | inr (q, c) ↦
                  subst P
                    (sym (instrument_far table os check valid thunk memory procedures l w q a b c))
                    (inr (
                      (λ e. ground (arith, e)),
                      record { code = refl; database = refl; live = freed },
                    ))
              | inl c ↦
                  subst P
                    (sym
                      (instrument_applied table os check valid thunk memory procedures l w a b c))
                    (elim (Bool-cases
                      (is_success (patch_code os check valid patch ks p.machine w).0)) [
                        | inl d ↦ inl (apply_done table os check valid thunk ks p w d).0
                        | inr d ↦
                            let (x, y) = apply_fails table os check valid thunk ks p w d in
                            elim (patch_code-Done os check valid patch ks p.machine w) [
                              | inl (n, same) ↦ inr (
                                (λ e. n (sym x ∙ e)),
                                subst (Unchanged table os check valid thunk l) (sym y)
                                    (record { code = same; database = refl; live = freed }),
                              )
                              | inr (e, h) ↦ absurd (ground (arith, d, ap is_success e))
                            ]
                      ])
            ]
          ]
        ]

  -- What a call that succeeds has done.
  pub record Applied (memory : Allocator) (procedures : List ℕ) (l : Library table) (w : os.World)
      : Type 0 where
    pub fresh :
        Fresh thunk
          (prepared table os check valid thunk memory procedures l w).machine
          (blocks table os check valid thunk memory procedures l w)
    pub named :
        procedures_of
          (prepared table os check valid thunk memory procedures l w).machine.patches
          (blocks table os check valid thunk memory procedures l w)
        ≡ procedures
    pub patched :
        (patch_code os check valid patch
          (blocks table os check valid thunk memory procedures l w)
          (prepared table os check valid thunk memory procedures l w).machine
          w).0
        ≡ success
    pub becomes :
        let m =
          (patch_code os check valid patch
            (blocks table os check valid thunk memory procedures l w)
            (prepared table os check valid thunk memory procedures l w).machine
            w).2 in
        (instrument table os check valid thunk memory procedures l w).2
        ≡ record (prepared table os check valid thunk memory procedures l w) {
          machine = m;
          database =
              register_all table
                (blocks table os check valid thunk memory procedures l w)
                m.patches
                l.database;
        }

  pub instrument-Applied :
      (memory : Allocator) (procedures : List ℕ) (l : Library table) (w : os.World)
      → Honest memory l.live
      → Spaced procedures
      → (instrument table os check valid thunk memory procedures l w).0 ≡ success
      → Applied memory procedures l w
  unfolding is_success
  instrument-Applied memory procedures l w honest spaced h =
      let ks = blocks table os check valid thunk memory procedures l w in
      let p = prepared table os check valid thunk memory procedures l w in
      let to : (r : Outcome table os check valid thunk)
          → instrument table os check valid thunk memory procedures l w ≡ r
          → r.0 ≡ success =
        λ r e. sym (ap (λ (x : Outcome table os check valid thunk). x.0) e) ∙ h in
      elim (Bool-cases memory.array) [
        | inr a ↦ absurd (
            let c = to _ (instrument_poor table os check valid thunk memory procedures l w a) in
            ground (arith, c))
        | inl a ↦ elim (Bool-cases (allocate_from memory.block 0 (length procedures)).0) [
          | inr b ↦ absurd (
              let c =
                to _ (instrument_partial table os check valid thunk memory procedures l w a b) in
              ground (arith, c))
          | inl b ↦ elim (Option-cases (initialize_all thunk ks procedures l.machine.patches).0) [
            | inr (q, c) ↦ absurd (
                let d =
                  to _ (instrument_far table os check valid thunk memory procedures l w q a b c) in
                ground (arith, d))
            | inl c ↦
                let on =
                  instrument_applied table os check valid thunk memory procedures l w a b c in
                let once : (k : ℕ) → tally k ks ≤ 1 =
                  λ k. allocate_from-once memory l.live 0 (length procedures) k honest in
                let made =
                  initialize_all-Made thunk ks procedures l.machine.patches once
                    (length-allocate_from memory.block 0 (length procedures) b) c in
                elim (Bool-cases (is_success (patch_code os check valid patch ks p.machine w).0)) [
                  | inl d ↦ record {
                    fresh =
                        Made-Fresh thunk ks procedures l.machine.patches p.machine once spaced made;
                    named = made.of;
                    patched = is_success-success _ d;
                    becomes =
                        ap (λ (x : Outcome table os check valid thunk). x.2) on
                        ∙ (apply_done table os check valid thunk ks p w d).1;
                  }
                  | inr d ↦
                      let e : (patch_code os check valid patch ks p.machine w).0 ≡ success =
                        sym (apply_fails table os check valid thunk ks p w d).0 ∙ to _ on in
                      absurd (success_fails _ d e)
                ]
          ]
        ]
      ]
    where
      success_fails : (st : Status) → is_success st ≡ false → st ≢ success
      success_fails st d e = ground (arith, ap is_success e, d)
