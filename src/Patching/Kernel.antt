-- ===== src/Patching/Kernel.antt =====
-- JpfbtpPatchCode of Jpfbt/jpfbt/km_patch.c: the pages of the code are locked and mapped, and one
-- processor copies while the others wait.
use ntrace.Base.{
  ℕ, zero, suc, ◌+◌, Bool, false, not, ◌&&◌, ◌||◌, Option, some, none, List, [], ◌∷◌, if◌then◌else◌,
  update,
}
use ntrace.Patching.{
  Status, success, access_violation, insufficient_resources, is_success, Action, Machine, Check,
  copy_all,
}
use ntrace.Patching.Apply.{look, validate_all}

-- What the kernel does for a call: whether there is an MDL for an address and a size, whether its pages
-- can be locked, and which addresses are valid when the processors have been stopped.
pub record Kernel : Type 0 where
  pub mdl : ℕ → ℕ → Bool
  pub lockable : ℕ → ℕ → Bool
  pub valid_then : ℕ → Bool

-- Mdl is set, or becomes NULL.
unfoldable pub set_mapped : Bool → ℕ → Machine → Machine
set_mapped b k s = record s { patches = update s.patches k (record (s.patches k) { mapped = b }) }

-- The loop that clears the MDLs.
unfoldable pub clear_all : List ℕ → Machine → Machine
unfolding set_mapped
clear_all [] s = s
clear_all (k ∷ ks) s = clear_all ks (set_mapped false k s)

-- JpfbtsLockMemory
unfoldable pub lock_memory : Kernel → ℕ → ℕ → Status
lock_memory kernel target size =
    if not (kernel.mdl target size)
    then insufficient_resources
    else if not (kernel.lockable target size)
    then access_violation
    else success

-- The loop that locks the code of the patches that are not doomed, and counts them.
unfoldable pub lock_all : Kernel → List ℕ → ℕ → Machine → Status × ℕ × Machine
unfolding set_mapped lock_memory is_success
lock_all kernel [] n s = (success, n, s)
lock_all kernel (k ∷ ks) n s =
    let p = s.patches k in
    let status = lock_memory kernel p.target p.code_size in
    let locks = not p.doomed && is_success status in
    let rest = lock_all kernel ks (if locks then n + 1 else n) (set_mapped locks k s) in
    if p.doomed || is_success status then rest else (status, n, s)

-- The second pass of JpfbtsPatchRoutine, which leaves out doomed patches: the failure that ends it.
unfoldable pub revalidate :
    Check → (ℕ → Bool) → Action → List ℕ → Machine → Option (Status × ℕ) × Machine
unfolding look
revalidate check valid action [] s = (none, s)
revalidate check valid action (k ∷ ks) s =
    let (failure, s') = look check valid action k s in
    let skipped = revalidate check valid action ks s in
    let rest = revalidate check valid action ks s' in
    if (s.patches k).doomed
    then skipped
    else elim failure [ none ↦ rest | some status ↦ (some (status, k), s') ]

-- JpfbtsPatchRoutine on the processor that is chosen: the status, and the patch that failed when
-- instrumenting.
unfoldable pub patch_routine :
    Check → (ℕ → Bool) → Action → List ℕ → Machine → Status × Option ℕ × Machine
unfolding revalidate copy_all
patch_routine check valid action ks s =
    let (failure, s') = revalidate check valid action ks s in
    elim failure [
      | none ↦ (success, none, copy_all action ks s')
      | some (status, k) ↦ (status, some k, s')
    ]

-- The loop that frees the MDLs of the first `n` patches.
unfoldable pub unlock_first : ℕ → List ℕ → Machine → Machine
unfolding set_mapped
unlock_first zero ks s = s
unlock_first (suc n) [] s = s
unlock_first (suc n) (k ∷ ks) s =
    unlock_first n ks (if (s.patches k).mapped then set_mapped false k s else s)

-- JpfbtpPatchCode, with the patch that failed. It is asked for when instrumenting only.
unfoldable pub patch_code :
    Check → (ℕ → Bool) → Kernel → Action → List ℕ → Machine → Status × Option ℕ × Machine
unfolding clear_all validate_all lock_all patch_routine unlock_first is_success
patch_code check valid kernel action [] s = (success, none, s)
patch_code check valid kernel action (j ∷ js) s =
    let ks = j ∷ js in
    let (failure, s1) = validate_all check valid action ks (clear_all ks s) in
    let (locked, n, s2) = lock_all kernel ks 0 s1 in
    let (status, failed, s3) = patch_routine check kernel.valid_then action ks s2 in
    elim failure [
      | some (status, k) ↦ (status, some k, s1)
      | none ↦
          if is_success locked
          then (status, failed, unlock_first n ks s3)
          else (locked, none, unlock_first n ks s2)
    ]
