-- ===== src/Agent/Pointers.antt =====
-- Jpkfbt/jpkfag/control.c: the procedures of a request are checked against the modules that are loaded.
use ntrace.Base.{
  ℕ, suc, ◌+◌, ◌%◌, ◌/◌, ◌^◌, Bool, not, ◌&&◌, Option, none, some, List, [], ◌∷◌, ltb, leb, ◌==◌,
  if◌then◌else◌,
}
use ntrace.Agent.{Status, no_memory, outside_system_range, outside_module, is_success}

-- AUX_MODULE_EXTENDED_INFO
pub record ModuleInfo : Type 0 where
  pub image_base : ℕ
  pub image_size : ℕ
  pub file_name_offset : ℕ
  pub full_path_name : List ℕ

-- What checking asks of the system: MmSystemRangeStart, the status of the first query of
-- AuxKlibQueryModuleInformation, whether the pool has room, and the second query, with the modules.
pub record Modules : Type 0 where
  pub system_range_start : ℕ
  pub query_size : Status
  pub has_pool : Bool
  pub query : Status × List ModuleInfo

-- The test of a module in JpkfagsIsValidCodePointer; addresses have 32 bits.
unfoldable pub contains : ModuleInfo → ℕ → Bool
contains m pointer =
    leb m.image_base pointer && ltb pointer ((m.image_base + m.image_size) % 2 ^ 32)

-- JpkfagsIsValidCodePointer: the index of the first module that the pointer falls into.
unfoldable pub is_valid_code_pointer : ℕ → List ModuleInfo → Option ℕ
unfolding contains
is_valid_code_pointer pointer [] = none
is_valid_code_pointer pointer (m ∷ ms) =
    let rest = is_valid_code_pointer pointer ms in
    if contains m pointer then some 0 else elim rest [ none ↦ none | some i ↦ some (suc i) ]

-- FileNameOffset & 0x8000
unfoldable pub is_marked : ModuleInfo → Bool
is_marked m = (m.file_name_offset / 2 ^ 15) % 2 == 1

-- FileNameOffset |= 0x8000 for the module of an index.
unfoldable pub mark_module : ℕ → List ModuleInfo → List ModuleInfo
unfolding is_marked
mark_module i [] = []
mark_module ℕ.zero (m ∷ ms) =
    (if is_marked m then m else record m { file_name_offset = m.file_name_offset + 2 ^ 15 }) ∷ ms
mark_module (suc i) (m ∷ ms) = m ∷ mark_module i ms

-- The loop that compares the procedures with the start of the system range; the first one below.
unfoldable pub below_range : ℕ → List ℕ → Option ℕ
below_range start [] = none
below_range start (p ∷ ps) = let rest = below_range start ps in if ltb p start then some p else rest

-- The loop that matches the procedures with modules: the first one outside all of them, and the modules
-- with the marks of those involved.
unfoldable pub match_modules : List ℕ → List ModuleInfo → Option ℕ × List ModuleInfo
unfolding is_valid_code_pointer mark_module
match_modules [] ms = (none, ms)
match_modules (p ∷ ps) ms = elim (is_valid_code_pointer p ms) [
  | none ↦ (some p, ms)
  | some i ↦ match_modules ps (mark_module i ms)
]

-- The calls of OnImageInvolved, one for each module that is marked.
unfoldable pub involved : List ModuleInfo → List (ℕ × ℕ × List ℕ)
unfolding is_marked
involved [] = []
involved (m ∷ ms) =
    let rest = involved ms in
    if is_marked m then (m.image_base, m.image_size, m.full_path_name) ∷ rest else rest

-- JpkfagsCheckProcedurePointers: the failed procedure, if it is set, and the calls of OnImageInvolved,
-- which an event sink has if there is one.
unfoldable pub check_procedure_pointers :
    Modules → List ℕ → Bool → Status × Option ℕ × List (ℕ × ℕ × List ℕ)
unfolding below_range match_modules involved is_success
check_procedure_pointers modules procedures has_sink =
    let (status, loaded) = modules.query in
    let (failed, marked) = match_modules procedures loaded in
    let images = if has_sink then involved marked else [] in
    elim (below_range modules.system_range_start procedures) [
      | some p ↦ (outside_system_range, some p, [])
      | none ↦
          if not (is_success modules.query_size)
          then (modules.query_size, none, [])
          else if not modules.has_pool
          then (no_memory, none, [])
          else if not (is_success status)
          then (status, none, [])
          else elim failed [
            | some p ↦ (outside_module, some p, images)
            | none ↦ (status, none, images)
          ]
    ]
