-- ===== src/Patching/Instrument/Undone.antt =====
-- Procedures that are instrumented lead to the thunk, and are found again to be taken back.
use ntrace.Base.{
  ℕ, ◌^◌, ◌≤◌, ◌<◌, ◌≡◌, inl, inr, sym, ap, ◌∙◌, subst, Bool, true, false, none, List, [], ◌∷◌,
  ◌==◌, ==_iff, length, map, tally, arith, Bool-cases,
}
use ntrace.Base.Table.{Hashtable}
use ntrace.Patching.{success, is_success, patch, unpatch, Machine, Check}
use ntrace.Patching.Jumps.{Diverted}
use ntrace.Patching.Threads.{Os}
use ntrace.Patching.Apply.{patch_code}
use ntrace.Patching.Fresh.{
  patch_code-Diverted, patch_code-unpatch, patched_procedure, unpatched_procedure,
}
use ntrace.Patching.Instrument.{
  Allocator, mark, Library, register_all, find_all, unregister_all, instrument,
  unpatch_and_unregister, uninstrument,
}
use ntrace.Patching.Instrument.Register.{
  mark-freed, allocate_from-block, procedures_of, find_all-register, unregister_all-other,
  unregister_all-none, register_all-other, tally-map,
}
use ntrace.Patching.Instrument.Made.{Spaced, procedures_of-same}
use ntrace.Patching.Instrument.Session.{is_success-success, Honest, blocks, prepared}
use ntrace.Patching.Instrument.Outcomes.{Applied, instrument-Applied}

-- A procedure of a list is that of one of the patches.
patch_of :
    (f : ℕ → ℕ) (ks : List ℕ) (p : ℕ)
    → 0 < tally p (map f ks)
    → (k : ℕ) × (0 < tally k ks) × (f k ≡ p)
patch_of f [] p h = absurd (omega arith)
patch_of f (k ∷ ks) p h = elim (Bool-cases (f k == p)) [
  | inl q ↦ (k, ground arith, (==_iff (f k) p).0 q)
  | inr q ↦ let (j, m, e) = patch_of f ks p (ground (arith, h, q)) in (j, ground (arith, m), e)
]

module _ (table : Hashtable ℕ ℕ) (os : Os) (check : Check) (valid : ℕ → Bool) (thunk : ℕ) where
  -- The ways of taking patches back.
  module _ (memory : Allocator) (procedures : List ℕ) (ks : List ℕ) (l : Library table)
      (w : os.World) where
    unpatch_done :
        (unpatch_and_unregister table os check valid thunk ks l w).0 ≡ success
        → let m = (patch_code os check valid unpatch ks l.machine w).2 in
          ((patch_code os check valid unpatch ks l.machine w).0 ≡ success)
          × ((unpatch_and_unregister table os check valid thunk ks l w).1 ≡ record {
            machine = m;
            database = unregister_all table ks m.patches l.database;
            live = mark false ks l.live;
          })
    unfolding unpatch_and_unregister is_success
    unpatch_done e =
        elim (Bool-cases (is_success (patch_code os check valid unpatch ks l.machine w).0)) [
          | inl q ↦ (is_success-success _ q, ground (arith, q))
          | inr q ↦
              let f : (patch_code os check valid unpatch ks l.machine w).0 ≡ success =
                ground (arith, e, q) in
              absurd (ground (arith, q, ap is_success f))
        ]

    uninstrument_found :
        find_all table l.database procedures ≡ (none, ks)
        → (uninstrument table os check valid thunk memory procedures l w).0 ≡ success
        → ((unpatch_and_unregister table os check valid thunk ks l w).0 ≡ success)
          × ((uninstrument table os check valid thunk memory procedures l w).2
              ≡ (unpatch_and_unregister table os check valid thunk ks l w).1)
    unfolding uninstrument
    uninstrument_found e s = elim (Bool-cases memory.array) [
      | inl a ↦ (ground (arith, e, s, a), ground (arith, e, a))
      | inr a ↦ absurd (ground (arith, s, a))
    ]

  module _ (memory : Allocator) (procedures : List ℕ) (l : Library table) (w : os.World)
      (bounded : thunk < 2 ^ 32) (honest : Honest memory l.live) (spaced : Spaced procedures)
      (done : (instrument table os check valid thunk memory procedures l w).0 ≡ success) where
    abbrev ks : List ℕ
    ks = blocks table os check valid thunk memory procedures l w

    abbrev start : Library table
    start = prepared table os check valid thunk memory procedures l w

    abbrev after : Library table
    after = (instrument table os check valid thunk memory procedures l w).2

    abbrev machine : Machine
    machine = (patch_code os check valid patch ks start.machine w).2

    applied : Applied table os check valid thunk memory procedures l w
    applied = instrument-Applied table os check valid thunk memory procedures l w honest spaced done

    same_procedure : (k : ℕ) → (machine.patches k).procedure ≡ (start.machine.patches k).procedure
    same_procedure k =
        patched_procedure thunk bounded start.machine ks applied.fresh os check valid w
          applied.patched k

    -- If the allocator gives out different free blocks, the procedures are different ones, at least seven
    -- bytes apart, with room before them, and JpfbtsInstrumentProcedure succeeds: then each of them jumps
    -- back by five bytes, to a call of the thunk.
    pub instrument-Diverted : (p : ℕ) → 0 < tally p procedures → Diverted after.machine.code p thunk
    instrument-Diverted p h =
        let (k, m, e) =
          patch_of (λ k. (start.machine.patches k).procedure) ks p
            (subst (λ (ps : List ℕ). 0 < tally p ps) (sym applied.named) h) in
        subst (λ (x : Library table). Diverted x.machine.code p thunk) (sym applied.becomes)
          (subst (λ q. Diverted machine.code q thunk) e
            (patch_code-Diverted thunk bounded start.machine ks applied.fresh os check valid w
              applied.patched k m))

    still_named : procedures_of machine.patches ks ≡ procedures
    still_named =
        procedures_of-same start.machine.patches machine.patches ks same_procedure ∙ applied.named

    found : find_all table after.database procedures ≡ (none, ks)
    found =
        ap (λ (x : Library table). find_all table x.database procedures) applied.becomes
        ∙ ap (find_all table (register_all table ks machine.patches l.database)) (sym still_named)
        ∙ find_all-register table machine.patches ks l.database
            (λ p. subst (λ (ps : List ℕ). tally p ps ≤ 1) (sym still_named) (spaced.different p))

    valid_patch :
        ((p : ℕ) → 0 < tally p procedures → valid p ≡ true)
        → (k : ℕ) → 0 < tally k ks
        → valid (start.machine.patches k).procedure ≡ true
    valid_patch there k m = there (start.machine.patches k).procedure (
        subst (λ (ps : List ℕ). 0 < tally (start.machine.patches k).procedure ps) applied.named
          (tally-map (λ i. (start.machine.patches i).procedure) ks k m))

    -- All is as it was before the procedures were instrumented, and they are not in the database.
    pub record Undone (l' : Library table) : Type 0 where
      pub code : l'.machine.code ≡ l.machine.code
      pub gone : (p : ℕ) → 0 < tally p procedures → table.get l'.database p ≡ none
      pub kept : (p : ℕ) → tally p procedures ≡ 0 → table.get l'.database p ≡ table.get l.database p
      pub live : (i : ℕ) → l'.live i ≡ l.live i

    -- A later call that removes the instrumentation.
    module _ (memory' : Allocator) (w' : os.World)
        (there : (p : ℕ) → 0 < tally p procedures → valid p ≡ true)
        (undone : (uninstrument table os check valid thunk memory' procedures after w').0
          ≡ success) where
      abbrev reverted : Machine
      reverted = (patch_code os check valid unpatch ks machine w').2

      abbrev end : Library table
      end = record {
        machine = reverted;
        database =
            unregister_all table ks reverted.patches
              (register_all table ks machine.patches l.database);
        live = mark false ks (mark true ks l.live);
      }

      -- The patches were taken back, and the call comes to that.
      ended :
          ((patch_code os check valid unpatch ks machine w').0 ≡ success)
          × ((uninstrument table os check valid thunk memory' procedures after w').2 ≡ end)
      ended =
          let (u, b) = uninstrument_found memory' procedures ks after w' found undone in
          let (f, c) = unpatch_done memory' procedures ks after w' u in
          let library : Library table → Library table = λ x.
            let m = (patch_code os check valid unpatch ks x.machine w').2 in
            record {
              machine = m;
              database = unregister_all table ks m.patches x.database;
              live = mark false ks x.live;
            } in
          (
            subst (λ m. (patch_code os check valid unpatch ks m w').0 ≡ success)
                (ap (λ (x : Library table). x.machine) applied.becomes) f,
            b ∙ c ∙ ap library applied.becomes,
          )

      named_then : procedures_of reverted.patches ks ≡ procedures
      named_then =
          procedures_of-same machine.patches reverted.patches ks (
            unpatched_procedure thunk bounded start.machine ks applied.fresh os check valid w
              applied.patched (valid_patch there) w' ended.0)
          ∙ still_named

      -- Suppose that the allocator gives out different free blocks, that the thunk has an address of 32
      -- bits, and that the procedures of an array are different ones, at least seven bytes apart, with
      -- room for the patch before them. If JpfbtsInstrumentProcedure instruments them with success, and
      -- then, while all of them are still valid addresses, a call of JpfbtsUninstrumentProcedure for
      -- the same array removes their instrumentation with success, then the code is as it was before,
      -- the procedures are not in the patch database, and its other entries and the allocated blocks
      -- are as before.
      pub uninstrument-Undone :
          Undone (uninstrument table os check valid thunk memory' procedures after w').2
      uninstrument-Undone =
          let old = register_all table ks machine.patches l.database in
          subst Undone (sym ended.1) (record {
            code =
                patch_code-unpatch thunk bounded start.machine ks applied.fresh os check valid w
                  applied.patched (valid_patch there) w' ended.0;
            gone = λ p h.
                unregister_all-none table reverted.patches ks old p
                  (subst (λ (ps : List ℕ). 0 < tally p ps) (sym named_then) h);
            kept = λ p h.
                unregister_all-other table reverted.patches ks old p (ap (tally p) named_then ∙ h)
                ∙ register_all-other table machine.patches ks l.database p
                    (ap (tally p) still_named ∙ h);
            live = λ i. mark-freed ks l.live i (λ k m.
                let (j, q) = allocate_from-block memory.block 0 (length procedures) k m in
                honest.free j k q);
          })
