-- ===== src/Patching/Instrument/Session.antt =====
-- The parts of a call that instruments.
use ntrace.Base.{
  ℕ, zero, suc, ◌+◌, ◌≤◌, ◌<◌, ◌≡◌, ◌≢◌, inl, inr, refl, ap, ◌∙◌, Bool, true, false, Option, some,
  none, List, ◌==◌, ==_iff, length, tally, arith, Bool-cases, Option-cases,
}
use ntrace.Base.Table.{Hashtable}
use ntrace.Patching.{Status, success, no_memory, proc_too_far, is_success, patch, Check}
use ntrace.Patching.Threads.{Os}
use ntrace.Patching.Apply.{patch_code}
use ntrace.Patching.Instrument.{
  Allocator, allocate_from, mark, initialize_all, Library, register_all, apply, instrument,
}

pub is_success-success : (st : Status) → is_success st ≡ true → st ≡ success
unfolding is_success
is_success-success success e = refl
is_success-success st e = absurd (ground (arith, e))

-- The blocks that the allocator gives are free and different ones.
pub record Honest (memory : Allocator) (live : ℕ → Bool) : Type 0 where
  pub free : (j k : ℕ) → memory.block j ≡ some k → live k ≡ false
  pub single : (i j k : ℕ) → memory.block i ≡ some k → memory.block j ≡ some k → i ≡ j

-- The patches that are allocated are different ones.
allocate_from-later :
    (block : ℕ → Option ℕ) (index n k : ℕ)
    → 0 < tally k (allocate_from block index n).1
    → (j : ℕ) × ((index ≤ j) × (block j ≡ some k))
unfolding allocate_from
allocate_from-later block index zero k h = absurd (omega arith)
allocate_from-later block index (suc n) k h = elim (Option-cases (block index)) [
  | inl e ↦ absurd (ground (arith, h, e))
  | inr (b, e) ↦ elim (Bool-cases (b == k)) [
    | inl q ↦ (index, (omega arith, e ∙ ap some ((==_iff b k).0 q)))
    | inr q ↦
        let (j, (i, f)) = allocate_from-later block (index + 1) n k (ground (arith, h, e, q)) in
        (j, (omega (arith, i), f))
  ]
]

pub allocate_from-once :
    (memory : Allocator) (live : ℕ → Bool) (index n k : ℕ)
    → Honest memory live
    → tally k (allocate_from memory.block index n).1 ≤ 1
unfolding allocate_from
allocate_from-once memory live index zero k h = omega arith
allocate_from-once memory live index (suc n) k h = elim (Option-cases (memory.block index)) [
  | inl e ↦ ground (arith, e)
  | inr (b, e) ↦ elim (Bool-cases (tally k (allocate_from memory.block (index + 1) n).1 == 0)) [
    | inl q ↦ ground (arith, e, q)
    | inr q ↦
        let (j, (i, f)) = allocate_from-later memory.block (index + 1) n k (ground (arith, q)) in
        let m : b ≢ k = λ g. omega (arith, i, h.single index j k (e ∙ ap some g) f) in
        ground (arith, e, m, allocate_from-once memory live (index + 1) n k h)
  ]
]

module _ (table : Hashtable ℕ ℕ) (os : Os) (check : Check) (valid : ℕ → Bool) (thunk : ℕ) where
  -- The code, the database and the blocks are as before.
  pub record Unchanged (l l' : Library table) : Type 0 where
    pub code : l'.machine.code ≡ l.machine.code
    pub database : l'.database ≡ l.database
    pub live : (i : ℕ) → l'.live i ≡ l.live i

  module _ (ks : List ℕ) (l : Library table) (w : os.World) where
    pub apply_fails :
        is_success (patch_code os check valid patch ks l.machine w).0 ≡ false
        → let r = apply table os check valid thunk ks l w in
          (r.0 ≡ (patch_code os check valid patch ks l.machine w).0)
          × (r.2 ≡ record l {
            machine = (patch_code os check valid patch ks l.machine w).2;
            live = mark false ks l.live;
          })
    unfolding apply
    apply_fails e = (ground (arith, e), ground (arith, e))

    pub apply_done :
        is_success (patch_code os check valid patch ks l.machine w).0 ≡ true
        → let r = apply table os check valid thunk ks l w in
          let m = (patch_code os check valid patch ks l.machine w).2 in
          (r.0 ≡ success)
          × (r.2 ≡ record l { machine = m; database = register_all table ks m.patches l.database })
    unfolding apply
    apply_done e = (ground (arith, e), ground (arith, e))

  -- The ways of a call.
  module _ (memory : Allocator) (procedures : List ℕ) (l : Library table) (w : os.World) where
    abbrev pub blocks : List ℕ
    blocks = (allocate_from memory.block 0 (length procedures)).1

    abbrev pub prepared : Library table
    prepared = record l {
      machine = record (l.machine) {
        patches = (initialize_all thunk blocks procedures l.machine.patches).1;
      };
      live = mark true blocks l.live;
    }

    pub instrument_poor :
        memory.array ≡ false
        → instrument table os check valid thunk memory procedures l w ≡ (no_memory, none, l, w)
    unfolding instrument
    instrument_poor e = ground (arith, e)

    pub instrument_partial :
        memory.array ≡ true
        → (allocate_from memory.block 0 (length procedures)).0 ≡ false
        → instrument table os check valid thunk memory procedures l w
          ≡ (no_memory, none, record l { live = mark false blocks (mark true blocks l.live) }, w)
    unfolding instrument
    instrument_partial e f = ground (arith, e, f)

    pub instrument_far :
        (p : ℕ)
        → memory.array ≡ true
        → (allocate_from memory.block 0 (length procedures)).0 ≡ true
        → (initialize_all thunk blocks procedures l.machine.patches).0 ≡ some p
        → instrument table os check valid thunk memory procedures l w ≡ (
          proc_too_far,
          some p,
          record prepared { live = mark false blocks (mark true blocks l.live) },
          w,
        )
    unfolding instrument
    instrument_far p e f g = ground (arith, e, f, g)

    pub instrument_applied :
        memory.array ≡ true
        → (allocate_from memory.block 0 (length procedures)).0 ≡ true
        → (initialize_all thunk blocks procedures l.machine.patches).0 ≡ none
        → instrument table os check valid thunk memory procedures l w
          ≡ apply table os check valid thunk blocks prepared w
    unfolding instrument
    instrument_applied e f g = ground (arith, e, f, g)
