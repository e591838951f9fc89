-- ===== src/Patching.antt =====
-- Jpfbt/jpfbt/instrument.c: the code that is written over a procedure, and the checks before. A
-- CodePatch is known by a number that stands for the pointer to it; code is the memory of the machine.
pub mod Jumps
pub mod Checks
pub mod Threads
pub mod Opened
pub mod Passed
pub mod Suspended
pub mod Apply
pub mod Kernel
pub mod Locked
pub mod Locking
pub mod Pages
pub mod Copies
pub mod Restore
pub mod Same
pub mod Validated
pub mod Reverted
pub mod Initialized
pub mod Fresh
pub mod Instrument
use ntrace.Base.{
  ℕ, zero, suc, ◌+◌, ◌-◌, ◌*◌, ◌%◌, ◌^◌, Bool, true, false, not, ◌||◌, ◌&&◌, Option, some, none,
  List, [], ◌∷◌, ◌++◌, ltb, ◌==◌, if◌then◌else◌, update,
}
use ntrace.Base.Bytes.{Memory, read_u16, u32_bytes, store, bytes_from}

pub data Status : Type 0 where
  success no_memory invalid_parameter invalid_handle not_initialized : Status
  proc_too_far already_patched not_patchable not_patched : Status
  access_violation insufficient_resources suspend_failure : Status

-- NT_SUCCESS
unfoldable pub is_success : Status → Bool
is_success success = true
is_success _ = false

-- JPFBT_PATCH_ACTION. JPFBT_INSTRUMENTATION_ACTION has the same values under other names, and the
-- code compares the one with the other.
pub data Action : Type 0 where
  patch unpatch : Action

-- JPFBT_CODE_PATCH; `doomed` is its only flag. The user mode build has `protection`, the kernel mode
-- build has `mapped`: whether Mdl holds an MDL of locked pages.
pub record CodePatch : Type 0 where
  pub procedure : ℕ
  pub target : ℕ
  pub code_size : ℕ
  pub new_code : List ℕ
  pub old_code : List ℕ
  pub doomed : Bool
  pub protection : ℕ
  pub mapped : Bool

pub record Machine : Type 0 where
  pub code : Memory
  pub patches : ℕ → CodePatch

-- JpfbtsIsAlreadyPatched: the procedure begins with a short jump.
unfoldable pub is_already_patched : Memory → ℕ → Bool
is_already_patched m procedure = m procedure == 0xEB

-- MAXLONG
abbrev pub max_long : ℕ
max_long = 0x7fffffff

-- The value of _abs64 of a difference.
abbrev pub distance : ℕ → ℕ → ℕ
distance a b = if ltb a b then b - a else a - b

-- JpfbtAssembleNearCall: the bytes of the call. Addresses have 32 bits.
unfoldable pub assemble_near_call : ℕ → ℕ → Option (List ℕ)
assemble_near_call instruction_va target_va =
    let behind = (instruction_va + 5) % 2 ^ 32 in
    if ltb max_long (distance target_va behind)
    then none
    else some (0xE8 ∷ u32_bytes ((target_va + 2 ^ 32 - behind) % 2 ^ 32))

-- JpfbtsInitializeTrampolineAndProlog, with JpfbtsInitializeFunctionCallThunkTrampoline: `thunk` is
-- the address of JpfbtpFunctionCallThunk.
unfoldable pub trampoline_and_prolog : ℕ → ℕ → Option (List ℕ)
unfolding assemble_near_call
trampoline_and_prolog thunk procedure =
    elim (assemble_near_call ((procedure + 2 ^ 32 - 5) % 2 ^ 32) thunk) [
      | none ↦ none
      | some call ↦ some (call ++ (0xEB ∷ 0xF9 ∷ []))
    ]

-- JpfbtsInitializeCodePatch, for a patch whose memory is zeroed.
unfoldable pub initialize_code_patch : ℕ → ℕ → Option CodePatch
unfolding trampoline_and_prolog
initialize_code_patch thunk procedure = elim (trampoline_and_prolog thunk procedure) [
  | none ↦ none
  | some payload ↦ some (record {
    procedure = procedure;
    target = (procedure + 2 ^ 32 - 5) % 2 ^ 32;
    code_size = 7;
    new_code = payload;
    old_code = [];
    doomed = false;
    protection = 0;
    mapped = false;
  })
]

-- The bytes at an address are all the same.
unfoldable pub filled_with : Memory → ℕ → ℕ → ℕ → Bool
filled_with m value a zero = true
filled_with m value a (suc n) = let rest = filled_with m value (a + 1) n in (m a == value) && rest

-- JpfbtpIsPaddingAvailableResidentValidMemory
unfoldable pub is_padding_available : Memory → ℕ → ℕ → Bool
unfolding filled_with
is_padding_available m procedure length =
    if ltb 10 length
    then false
    else filled_with m 0x90 (procedure - length) length
      || filled_with m 0xCC (procedure - length) length
      || filled_with m 0 (procedure - length) length

-- JpfbtpIsHotpatchableResidentValidMemory
unfoldable pub is_hotpatchable : Memory → ℕ → Bool
is_hotpatchable m procedure = read_u16 m procedure == 0xFF8B

-- What a check finds: instrumentable or not, or a failure.
abbrev pub Check : Type 0
Check = Memory → ℕ → Status × Bool

-- JpfbtCheckProcedureInstrumentability of um_icheck.c; `faults` tells for which procedures reading
-- raises an access violation.
unfoldable pub check_user : (ℕ → Bool) → Check
unfolding is_hotpatchable is_padding_available
check_user faults m procedure =
    if procedure == 0
    then (invalid_parameter, false)
    else if faults procedure
    then (access_violation, false)
    else (success, is_hotpatchable m procedure && is_padding_available m procedure 5)

-- JpfbtCheckProcedureInstrumentability of km_icheck.c; `valid` is MmIsAddressValid.
unfoldable pub check_kernel : (ℕ → Bool) → Check
unfolding is_hotpatchable is_padding_available
check_kernel valid m procedure =
    if procedure == 0
    then (invalid_parameter, false)
    else if not (valid (procedure - 5)) || not (valid (procedure - 5 + 7))
    then (success, false)
    else (success, is_hotpatchable m procedure && is_padding_available m procedure 5)

-- JpfbtsValidateCodePatch; `valid` is JpfbtpIsCodeAddressValid.
unfoldable pub validate : Check → (ℕ → Bool) → Action → Memory → ℕ → Status
unfolding is_already_patched is_success
validate check valid patch m procedure =
    let (status, instrumentable) = check m procedure in
    if is_already_patched m procedure
    then already_patched
    else if not (is_success status)
    then status
    else if not instrumentable
    then not_patchable
    else success
validate check valid unpatch m procedure =
    if valid procedure && is_already_patched m procedure then success else access_violation

-- Flags |= JPFBT_CODE_PATCH_FLAG_DOOMED
unfoldable pub doom : ℕ → Machine → Machine
doom k s = record s { patches = update s.patches k (record (s.patches k) { doomed = true }) }

-- A patch is written to its target, or what it replaced is written back.
unfoldable pub copy : Action → ℕ → Machine → Machine
copy patch k s =
    let p = s.patches k in
    record {
      code = store s.code p.target p.new_code;
      patches = update s.patches k (record p { old_code = bytes_from s.code p.target p.code_size });
    }
copy unpatch k s = record s { code = store s.code (s.patches k).target (s.patches k).old_code }

-- The loop over the patches that are not doomed.
unfoldable pub copy_all : Action → List ℕ → Machine → Machine
unfolding copy
copy_all action [] s = s
copy_all action (k ∷ ks) s =
    copy_all action ks (if (s.patches k).doomed then s else copy action k s)
