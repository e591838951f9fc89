-- ===== src/Tracing/Points.antt =====
-- Jpfsv/jpfsv/tracetab.c: the table of the tracepoints, by the address of their procedure.
use ntrace.Base.{
  ℕ, ◌-◌, ◌%◌, ◌^◌, Bool, true, false, not, Option, none, some, List, [], ◌∷◌, ◌==◌, if◌then◌else◌,
  map, take,
}
use ntrace.Base.Table.{Hashtable}
use ntrace.Tracing.{
  HResult, s_ok, e_unexpected, e_outofmemory, peer_died, tracepoint_exists, tracepoint_not_found,
  remove_tracepoint, Session,
}

-- JPFSV_TRACEPOINT. Names are their characters.
pub record Tracepoint : Type 0 where
  pub procedure : ℕ
  pub module_name : List ℕ
  pub symbol_name : List ℕ

-- JpfsvsHashTracepoint and JpfsvsEqualsTracepoint
unfoldable pub hash_tracepoint : ℕ → ℕ
hash_tracepoint key = key % 2 ^ 32

unfoldable pub equals_tracepoint : ℕ → ℕ → Bool
equals_tracepoint a b = a == b

-- What the code asks its surroundings: SymFromAddr, with the address and the name of the symbol;
-- SymGetModuleInfo64, with the name of the module; and whether malloc has room for the entry of a
-- procedure, and for arrays.
pub record Symbols : Type 0 where
  pub symbol_at : ℕ → Option (ℕ × List ℕ)
  pub module_at : ℕ → Option (List ℕ)
  pub has_entry : ℕ → Bool
  pub has_array : Bool

-- L"(Unknown module)"
abbrev unknown_module : List ℕ
unknown_module =
    40 ∷ 85 ∷ 110 ∷ 107 ∷ 110 ∷ 111 ∷ 119 ∷ 110 ∷ 32 ∷ 109 ∷ 111 ∷ 100 ∷ 117 ∷ 108 ∷ 101 ∷ 41 ∷ []

-- JPFSVP_MAX_MODULE_NAME_CCH and JPFSVP_MAX_SYMBOL_NAME_CCH
abbrev max_name : ℕ
max_name = 64

-- StringCchCopy into a buffer of that size: what does not fit, with the final zero, is cut off.
string_copy : List ℕ → List ℕ
string_copy = take (max_name - 1)

-- The names of a procedure, before they are copied into its entry. For an unknown symbol the buffer
-- that the text is printed to is given as SymInfo->NameLen characters, of which there are none: both
-- names stay empty.
unfoldable pub describe : Symbols → ℕ → List ℕ × List ℕ
describe symbols procedure = elim (symbols.symbol_at procedure) [
  | none ↦ ([], [])
  | some (address, name) ↦ elim (symbols.module_at address) [
    | none ↦ (unknown_module, name)
    | some m ↦ (m, name)
  ]
]

-- The entry of a procedure.
unfoldable pub make_entry : Symbols → ℕ → Tracepoint
unfolding describe string_copy
make_entry symbols procedure = record {
  procedure = procedure;
  module_name = string_copy (describe symbols procedure).0;
  symbol_name = string_copy (describe symbols procedure).1;
}

module _ (table : Hashtable ℕ Tracepoint) where
  -- JpfsvpAddEntryTracepointTable
  unfoldable pub add_entry : Symbols → ℕ → table.Table → HResult × table.Table
  unfolding make_entry
  add_entry symbols procedure t =
      let (t', old) = table.put t procedure (make_entry symbols procedure) in
      if not (symbols.has_entry procedure)
      then (e_outofmemory, t)
      else elim old [ none ↦ (s_ok, t') | some e ↦ (tracepoint_exists, t') ]

  -- JpfsvpRemoveEntryTracepointTable
  unfoldable pub remove_entry : ℕ → table.Table → HResult × table.Table
  remove_entry procedure t =
      let (t', old) = table.remove t procedure in
      elim old [ none ↦ (tracepoint_not_found, t') | some e ↦ (s_ok, t') ]

  -- JpfsvpExistsEntryTracepointTable
  unfoldable pub exists_entry : ℕ → table.Table → Bool
  exists_entry procedure t = elim (table.get t procedure) [ none ↦ false | some e ↦ true ]

  -- JpfsvpGetEntryTracepointTable
  unfoldable pub get_entry : ℕ → table.Table → HResult × Option Tracepoint
  get_entry procedure t = elim (table.get t procedure) [
    | none ↦ (tracepoint_not_found, none)
    | some e ↦ (s_ok, some e)
  ]

  -- JpfsvpEnumTracepointTable: what the callback gets, one call for each entry.
  unfoldable pub enum_entries : table.Table → List Tracepoint
  enum_entries t = map (λ (e : ℕ × Tracepoint). e.1) (table.entries t)

  -- The calls of JpfsvsCollectProceduresHashtableCallback, which fill the array of procedures.
  unfoldable pub collect_procedures : List (ℕ × Tracepoint) → List ℕ
  collect_procedures [] = []
  collect_procedures ((key, e) ∷ es) = key ∷ collect_procedures es

  -- The calls of JpfsvsDeleteEntryHashtableCallback
  unfoldable pub flush_entries : List (ℕ × Tracepoint) → table.Table → table.Table
  flush_entries [] t = t
  flush_entries ((key, e) ∷ es) t = flush_entries es (table.remove t key).0

  -- JpfsvpFlushTracepointTable
  unfoldable pub flush_table : table.Table → table.Table
  unfolding flush_entries
  flush_table t = flush_entries (table.entries t) t

  -- JpfsvpDeleteTracepointTable, less the memory of the hash table
  unfoldable pub delete_table : table.Table → HResult
  delete_table t = if table.count t == 0 then s_ok else e_unexpected

  module _ (session : Session) where
    -- JpfsvpRemoveAllTracepointsButKeepThemInTracepointTable
    unfoldable pub remove_all : Symbols → table.Table → session.World → HResult × session.World
    unfolding collect_procedures
    remove_all symbols t w =
        let (status, failed, w') =
          session.instrument remove_tracepoint (collect_procedures (table.entries t)) w in
        if table.count t == 0
        then (s_ok, w)
        else if not symbols.has_array
        then (e_outofmemory, w)
        else elim status [ peer_died ↦ (s_ok, w') | st ↦ (st, w') ]
