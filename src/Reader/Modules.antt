-- ===== src/Reader/Modules.antt =====
-- Jptrcr/jptrcr/module.c: the table of the modules of a trace file.
use ntrace.Base.{
  ℕ, ◌%◌, ◌^◌, Bool, true, false, Option, some, none, List, [], ◌∷◌, ◌==◌, if◌then◌else◌,
}
use ntrace.Base.Table.{Hashtable}
use ntrace.Reader.{Hr}
use ntrace.Calls.{Module}

-- JptrcrpHashModule truncates the load address to a ULONG; JptrcrpEqualsModule compares it whole.
unfoldable pub hash_module : ℕ → ℕ
hash_module load_address = load_address % 2 ^ 32

unfoldable pub equals_module : ℕ → ℕ → Bool
equals_module a b = a == b

-- '\\'
abbrev pub backslash : ℕ
backslash = 92

has_backslash : List ℕ → Bool
has_backslash [] = false
has_backslash (c ∷ path) = if c == backslash then true else has_backslash path

-- The part of a path behind its last backslash, or all of it (wcsrchr and the test of its result).
unfoldable pub file_name : List ℕ → List ℕ
unfolding has_backslash
file_name [] = []
file_name (c ∷ path) =
    let rest = file_name path in
    if has_backslash path then rest else if c == backslash then path else c ∷ path

-- JPTRCRP_LOADED_MODULE, with the path and the name that its JPTRCR_MODULE refers to.
pub record LoadedModule : Type 0 where
  pub information : Module
  pub path : List ℕ
  pub name : List ℕ
  pub symbols_loaded : Bool

-- What loading a module asks of its surroundings: malloc, MultiByteToWideChar (the wide characters
-- of the path, or the error), and whether SymLoadModuleEx finds symbols.
pub record Loads : Type 0 where
  pub malloc : Bool
  pub to_wide : Hr × List ℕ
  pub symbols : Bool

module _ (ht : Hashtable ℕ LoadedModule) where
  -- JptrcrpLoadModule. A module that was registered at the address before is replaced.
  unfoldable pub load_module : Loads → ht.Table → ℕ → ℕ → Hr × ht.Table
  load_module loads t load_address size =
      if loads.malloc
      then (let (status, path) = loads.to_wide in
          elim status [
            | Hr.s_ok ↦ (
              Hr.s_ok,
              (ht.put t load_address (record {
                information = record { load_address = load_address; size = size };
                path = path;
                name = file_name path;
                symbols_loaded = loads.symbols;
              })).0,
            )
            | e ↦ (e, t)
          ])
      else (Hr.e_outofmemory, t)

  -- JptrcrGetModule for a file that is open: the result code and the out parameter, which keeps
  -- what it held if the address is 0.
  unfoldable pub get_module : ht.Table → ℕ → Option Module → Hr × Option Module
  get_module t load_address old =
      if load_address == 0 then (Hr.e_invalidarg, old) else elim (ht.get t load_address) [
        | none ↦ (Hr.e_module_unknown, none)
        | some loaded ↦ (Hr.s_ok, some loaded.information)
      ]
