-- ===== src/Patching/Apply.antt =====
-- JpfbtpPatchCode of Jpfbt/jpfbt/um_patch.c.
use ntrace.Base.{ℕ, Bool, true, false, Option, some, none, List, [], ◌∷◌, if◌then◌else◌, update}
use ntrace.Patching.{
  Status, success, access_violation, is_success, Action, patch, unpatch, Machine, Check, validate,
  doom, copy_all,
}
use ntrace.Patching.Threads.{Os, suspend, resume, for_each_thread}

-- One patch is looked at: a failure, when instrumenting, ends the loop; when taking back, the patch is
-- doomed.
unfoldable pub look : Check → (ℕ → Bool) → Action → ℕ → Machine → Option Status × Machine
unfolding is_success validate doom
look check valid action k s =
    let status = validate check valid action s.code (s.patches k).procedure in
    if is_success status
    then (none, s)
    else elim action [ patch ↦ (some status, s) | unpatch ↦ (none, doom k s) ]

-- The loop that validates: the failure, if it ends early, with the patch that failed.
unfoldable pub validate_all :
    Check → (ℕ → Bool) → Action → List ℕ → Machine → Option (Status × ℕ) × Machine
unfolding look
validate_all check valid action [] s = (none, s)
validate_all check valid action (k ∷ ks) s =
    let (failure, s') = look check valid action k s in
    let rest = validate_all check valid action ks s' in
    elim failure [ none ↦ rest | some status ↦ (some (status, k), s') ]

-- The previous protection is kept with a patch.
unfoldable pub protect : ℕ → ℕ → Machine → Machine
protect k old s = record s {
  patches = update s.patches k (record (s.patches k) { protection = old });
}

-- PAGE_EXECUTE_READWRITE
abbrev pub page_execute_readwrite : ℕ
page_execute_readwrite = 0x40

module _ (os : Os) where
  -- The loop that makes the code writable.
  unfoldable pub make_writable : List ℕ → Machine → os.World → Bool × Machine × os.World
  unfolding protect
  make_writable [] s w = (true, s, w)
  make_writable (k ∷ ks) s w =
      let p = s.patches k in
      let (old, w') = os.virtual_protect w p.target p.code_size page_execute_readwrite in
      let skipped = make_writable ks s w in
      let rest = make_writable ks (elim old [ none ↦ s | some o ↦ protect k o s ]) w' in
      if p.doomed then skipped else elim old [ none ↦ (false, s, w') | some o ↦ rest ]

  -- The loop that protects the code again; a failure is passed over.
  unfoldable pub protect_again : List ℕ → Machine → os.World → Machine × os.World
  unfolding protect
  protect_again [] s w = (s, w)
  protect_again (k ∷ ks) s w =
      let p = s.patches k in
      let (old, w') = os.virtual_protect w p.target p.code_size p.protection in
      let skipped = protect_again ks s w in
      let rest = protect_again ks (elim old [ none ↦ s | some o ↦ protect k o s ]) w' in
      if p.doomed then skipped else rest

  -- What the code does while the other threads are suspended.
  unfoldable pub replace_code : Action → List ℕ → Machine → os.World → Status × Machine × os.World
  unfolding make_writable copy_all protect_again
  replace_code action ks s w =
      let (writable, s1, w1) = make_writable ks s w in
      let (s2, w2) = protect_again ks (copy_all action ks s1) w1 in
      if writable then (success, s2, w2) else (access_violation, s1, w1)

  -- JpfbtpPatchCode, with the patch that failed. It is asked for when instrumenting only.
  unfoldable pub patch_code :
      Check
      → (ℕ → Bool)
      → Action
      → List ℕ
      → Machine
      → os.World
      → Status × Option ℕ × Machine × os.World
  unfolding validate_all replace_code is_success for_each_thread suspend resume
  patch_code check valid action ks s w =
      let (failure, s1) = validate_all check valid action ks s in
      let (suspended, w1) = for_each_thread os (suspend os) (some (resume os)) w in
      let (status, s2, w2) = replace_code action ks s1 w1 in
      elim failure [
        | some (failed, k) ↦ (failed, some k, s1, w)
        | none ↦
            if is_success suspended
            then (status, none, s2, (for_each_thread os (resume os) none w2).1)
            else (suspended, none, s1, w1)
      ]
