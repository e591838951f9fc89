-- ===== src/Patching/Instrument.antt =====
-- Jpfbt/jpfbt/instrument.c: procedures are instrumented, and their instrumentation is removed, with the
-- patch database, a hash table from procedures to their patches. The lock of the database is held
-- throughout.
pub mod Register
pub mod Made
pub mod Session
pub mod Outcomes
pub mod Undone
use ntrace.Base.{
  ℕ, zero, suc, ◌+◌, ◌-◌, ◌≤◌, ◌<◌, ◌≡◌, Bool, true, false, not, ◌&&◌, ◌||◌, Option, some, none,
  List, [], ◌∷◌, ltb, ◌==◌, if◌then◌else◌, update, length, map,
}
use ntrace.Base.Table.{Hashtable}
use ntrace.Patching.{
  Status, success, no_memory, invalid_parameter, proc_too_far, not_patched, is_success, Action,
  patch, unpatch, CodePatch, Machine, Check, initialize_code_patch,
}
use ntrace.Patching.Threads.{Os}
use ntrace.Patching.Apply.{patch_code}

-- What the allocator does for a call: whether it has the array, and the address of each patch that it
-- has memory for.
pub record Allocator : Type 0 where
  pub array : Bool
  pub block : ℕ → Option ℕ

-- The loop that allocates the patches: those that were, and whether all were.
unfoldable pub allocate_from : (ℕ → Option ℕ) → ℕ → ℕ → Bool × List ℕ
allocate_from block index zero = (true, [])
allocate_from block index (suc n) =
    let (all, ks) = allocate_from block (index + 1) n in
    elim (block index) [ none ↦ (false, []) | some k ↦ (all, k ∷ ks) ]

unfoldable pub mark : Bool → List ℕ → (ℕ → Bool) → ℕ → Bool
mark value [] live = live
mark value (k ∷ ks) live = mark value ks (update live k value)

-- The loop that initializes the patches; the procedure that it fails for.
unfoldable pub initialize_all : ℕ → List ℕ → List ℕ → (ℕ → CodePatch) → Option ℕ × (ℕ → CodePatch)
unfolding initialize_code_patch
initialize_all thunk (k ∷ ks) (procedure ∷ procedures) patches =
    elim (initialize_code_patch thunk procedure) [
      | none ↦ (some procedure, patches)
      | some p ↦ initialize_all thunk ks procedures (update patches k p)
    ]
initialize_all thunk _ _ patches = (none, patches)

module _ (table : Hashtable ℕ ℕ) where
  -- The code with the patches, the patch database, and which blocks are allocated.
  pub record Library : Type 0 where
    pub machine : Machine
    pub database : table.Table
    pub live : ℕ → Bool

  -- The loop that registers the patches. The table is enlarged now and then, which its entries do not
  -- tell.
  unfoldable pub register_all : List ℕ → (ℕ → CodePatch) → table.Table → table.Table
  register_all [] patches t = t
  register_all (k ∷ ks) patches t = register_all ks patches (table.put t (patches k).procedure k).0

  -- JpfbtsFindCodePatch for each of the procedures; the first one that is not instrumented.
  unfoldable pub find_all : table.Table → List ℕ → Option ℕ × List ℕ
  find_all t [] = (none, [])
  find_all t (procedure ∷ procedures) =
      let (missing, ks) = find_all t procedures in
      elim (table.get t procedure) [ none ↦ (some procedure, []) | some k ↦ (missing, k ∷ ks) ]

  -- The loop that takes the patches out of the table.
  unfoldable pub unregister_all : List ℕ → (ℕ → CodePatch) → table.Table → table.Table
  unregister_all [] patches t = t
  unregister_all (k ∷ ks) patches t =
      unregister_all ks patches (table.remove t (patches k).procedure).0

  module _ (os : Os) (check : Check) (valid : ℕ → Bool) (thunk : ℕ) where
    -- A status, the procedure that the call failed for, the library and the world.
    abbrev pub Outcome : Type 0
    Outcome = Status × Option ℕ × Library × os.World

    -- The patches are applied and registered, or freed.
    unfoldable pub apply : List ℕ → Library → os.World → Outcome
    unfolding patch_code register_all mark is_success
    apply ks l w =
        let (status, failed, m, w') = patch_code os check valid patch ks l.machine w in
        if is_success status
        then (
          success,
          none,
          record l { machine = m; database = register_all ks m.patches l.database },
          w',
        )
        else (
          status,
          elim failed [ none ↦ none | some k ↦ some (m.patches k).procedure ],
          record l { machine = m; live = mark false ks l.live },
          w',
        )

    -- JpfbtsInstrumentProcedure, with the library initialized.
    unfoldable pub instrument : Allocator → List ℕ → Library → os.World → Outcome
    unfolding allocate_from initialize_all apply mark
    instrument memory procedures l w =
        let (all, ks) = allocate_from memory.block 0 (length procedures) in
        let (failed, patches) = initialize_all thunk ks procedures l.machine.patches in
        let m = record (l.machine) { patches = patches } in
        if not memory.array
        then (no_memory, none, l, w)
        else if not all
        then (no_memory, none, record l { live = mark false ks (mark true ks l.live) }, w)
        else elim failed [
          | some procedure ↦ (
            proc_too_far,
            some procedure,
            record l { machine = m; live = mark false ks (mark true ks l.live) },
            w,
          )
          | none ↦ apply ks (record l { machine = m; live = mark true ks l.live }) w
        ]

    -- JpfbtsUnpatchAndUnregister
    unfoldable pub unpatch_and_unregister :
        List ℕ → Library → os.World → Status × Library × os.World
    unfolding patch_code unregister_all mark is_success
    unpatch_and_unregister ks l w =
        let (status, failed, m, w') = patch_code os check valid unpatch ks l.machine w in
        if is_success status
        then (
          success,
          record {
            machine = m;
            database = unregister_all ks m.patches l.database;
            live = mark false ks l.live;
          },
          w',
        )
        else (status, record l { machine = m }, w')

    -- JpfbtsUninstrumentProcedure
    unfoldable pub uninstrument : Allocator → List ℕ → Library → os.World → Outcome
    unfolding find_all unpatch_and_unregister
    uninstrument memory procedures l w =
        let (missing, ks) = find_all l.database procedures in
        let (status, l', w') = unpatch_and_unregister ks l w in
        if not memory.array then (no_memory, none, l, w) else elim missing [
          | some procedure ↦ (not_patched, some procedure, l, w)
          | none ↦ (status, none, l', w')
        ]

    -- JpfbtRemoveInstrumentationAllProcedures
    unfoldable pub remove_all : Allocator → Library → os.World → Status × Library × os.World
    unfolding unpatch_and_unregister
    remove_all memory l w =
        if table.count l.database == 0
        then (success, l, w)
        else if not memory.array
        then (no_memory, l, w)
        else unpatch_and_unregister (map (λ (e : ℕ × ℕ). e.1) (table.entries l.database)) l w

    -- JpfbtInstrumentProcedure, with the library initialized and an array of procedures. The actions
    -- of instrumenting are named as those of patching.
    unfoldable pub instrument_procedure : Action → Allocator → List ℕ → Library → os.World → Outcome
    unfolding instrument uninstrument
    instrument_procedure action memory procedures l w =
        if length procedures == 0 || ltb 0xFFFF (length procedures)
        then (invalid_parameter, none, l, w)
        else elim action [
          | patch ↦ instrument memory procedures l w
          | unpatch ↦ uninstrument memory procedures l w
        ]
