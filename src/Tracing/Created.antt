-- ===== src/Tracing/Created.antt =====
-- Jpfsv/jpfsv/context.c: contexts are created, with the symbols of their modules, and deleted.
use ntrace.Base.{
  ℕ, ◌+◌, ◌-◌, ◌≡◌, ◌≢◌, inl, inr, Bool, true, false, not, ◌&&◌, ◌||◌, Option, none, some, List, [],
  ◌∷◌, drop, ltb, ◌==◌, if◌then◌else◌, length, arith, Option-cases,
}
use ntrace.Tracing.{
  nt_error, HResult, s_ok, s_false, e_invalidarg, e_outofmemory, failure, succeeded,
}

-- JPFSV_MODULE_INFO
pub record KernelModule : Type 0 where
  pub module_path : List ℕ
  pub load_address : ℕ
  pub module_size : ℕ

-- L"nt"
abbrev nt : List ℕ
nt = 110 ∷ 116 ∷ []

-- JpfsvLoadModuleContext, with a path; `load` is SymLoadModuleEx: the address, or 0 with the error.
unfoldable pub load_module_context : (Bool → KernelModule → ℕ × ℕ) → Bool → KernelModule → HResult
load_module_context load aliased m =
    let (address, err) = load aliased m in
    if m.load_address == 0
    then e_invalidarg
    else if not (address == 0)
    then s_ok
    else if err == 0
    then s_false
    else failure (nt_error err)

-- Whether a path is longer than four characters and the last four are those of ".exe", in either case.
is_exe : List ℕ → Bool
is_exe (d ∷ a ∷ b ∷ c ∷ []) =
    (d == 46) && (a == 101 || a == 69) && (b == 120 || b == 88) && (c == 101 || c == 69)
is_exe _ = false

unfoldable pub is_kernel_image : List ℕ → Bool
unfolding is_exe
is_kernel_image path = ltb 4 (length path) && is_exe (drop (length path - 4) path)

-- The loop of JpfsvsLoadKernelModules over the modules that are enumerated: whether one has been loaded,
-- and the first failure.
unfoldable pub load_modules :
    (Bool → KernelModule → ℕ × ℕ)
    → List KernelModule
    → Bool × Option HResult
    → Bool × Option HResult
unfolding load_module_context is_kernel_image succeeded
load_modules load [] so_far = so_far
load_modules load (m ∷ ms) (loaded, first) =
    let hr = load_module_context load (is_kernel_image m.module_path) m in
    let next : Bool × Option HResult =
      if succeeded hr
      then (true, first)
      else (loaded, elim first [ none ↦ some hr | some h ↦ some h ]) in
    load_modules load ms next

-- JpfsvsLoadKernelModules; `enumeration` is what JpfsvEnumModules comes to, with the items.
unfoldable pub load_kernel_modules :
    (Bool → KernelModule → ℕ × ℕ) → HResult × List KernelModule → HResult
unfolding load_modules succeeded
load_kernel_modules load enumeration =
    let (hr, modules) = enumeration in
    let (loaded, first) = load_modules load modules (false, none) in
    if not (succeeded hr)
    then hr
    else if loaded
    then s_ok
    else elim first [ none ↦ s_ok | some h ↦ h ]

-- What a process has open: process handles, symbol sessions of dbghelp, blocks, tracepoint tables and
-- critical sections.
pub record Ledger : Type 0 where
  pub handles : ℕ
  pub symbol_sessions : ℕ
  pub blocks : ℕ
  pub tables : ℕ
  pub sections : ℕ

-- What creating asks of its surroundings: OpenProcess (an error or nothing), malloc,
-- JpfsvpInitializeTracepointTable, SymInitialize with the translated error, whether the debugger runs
-- on WOW64 with the error for that, and the modules of the kernel.
pub record Creation : Type 0 where
  pub open_process : Option ℕ
  pub has_block : Bool
  pub has_table : Bool
  pub sym_initialize : Option HResult
  pub wow64 : Option HResult
  pub kernel_modules : HResult

-- JPFSV_KERNEL
abbrev pub jpfsv_kernel : ℕ
jpfsv_kernel = 0xFFFFFFFF

-- The code at Cleanup, for a failure: what has been got until then.
unfoldable pub clean_up : Bool → Bool → Bool → Bool → Ledger → Ledger
clean_up has_handle sym_initialized has_context table_initialized l = record {
  handles = if has_handle then l.handles - 1 else l.handles;
  symbol_sessions = if sym_initialized then l.symbol_sessions - 1 else l.symbol_sessions;
  blocks = if has_context then l.blocks - 1 else l.blocks;
  tables = if table_initialized then l.tables - 1 else l.tables;
  sections = if has_context then l.sections - 1 else l.sections;
}

-- JpfsvsCreateContext behind the opening of the process; `has_handle` unless it is the kernel.
unfoldable pub build_context : Creation → Bool → Ledger → HResult × Ledger
unfolding clean_up succeeded
build_context c has_handle l =
    let l1 = record l { blocks = l.blocks + 1; sections = l.sections + 1 } in
    let l2 = record l1 { tables = l.tables + 1 } in
    let l3 = record l2 { symbol_sessions = l.symbol_sessions + 1 } in
    let kernel : HResult = elim c.wow64 [ none ↦ c.kernel_modules | some hr ↦ hr ] in
    if not c.has_block
    then (e_outofmemory, clean_up has_handle false false false l)
    else if not c.has_table
    then (e_outofmemory, clean_up has_handle false true false l1)
    else elim c.sym_initialize [
      | some hr ↦ (hr, clean_up has_handle false true true l2)
      | none ↦
          if has_handle || succeeded kernel
          then (if has_handle then s_ok else kernel, l3)
          else (kernel, clean_up has_handle true true true l3)
    ]

-- JpfsvsCreateContext
unfoldable pub create_context : Creation → ℕ → Ledger → HResult × Ledger
unfolding build_context
create_context c process_id l =
    if process_id == 0
    then (e_invalidarg, l)
    else if process_id == jpfsv_kernel
    then build_context c false l
    else elim c.open_process [
      | some err ↦ (failure (nt_error err), l)
      | none ↦ build_context c true (record l { handles = l.handles + 1 })
    ]

-- JpfsvsDeleteContext of a context without a trace session and without tracepoints.
unfoldable pub delete_context : Bool → Ledger → Ledger
delete_context has_handle l = record {
  handles = if has_handle then l.handles - 1 else l.handles;
  symbol_sessions = l.symbol_sessions - 1;
  blocks = l.blocks - 1;
  tables = l.tables - 1;
  sections = l.sections - 1;
}

-- The failures of SymInitialize and of WOW64 are failures.
pub record HasErrors (c : Creation) : Type 0 where
  pub symbols : (hr : HResult) → c.sym_initialize ≡ some hr → succeeded hr ≡ false

abbrev Same : Ledger → Ledger → Type 0
Same a b =
    (a.handles ≡ b.handles)
    × (a.symbol_sessions ≡ b.symbol_sessions)
    × (a.blocks ≡ b.blocks)
    × (a.tables ≡ b.tables)
    × (a.sections ≡ b.sections)

-- A context that cannot be created leaves nothing open.
pub create_context_fails :
    (c : Creation) (process_id : ℕ) (l : Ledger)
    → HasErrors c
    → succeeded (create_context c process_id l).0 ≡ false
    → Same (create_context c process_id l).1 l
unfolding create_context build_context clean_up succeeded
create_context_fails c process_id l f h =
    (ground (arith, h), ground (arith, h), ground (arith, h), ground (arith, h), ground (arith, h))

create_context-symbols :
    (c : Creation) (process_id : ℕ) (l : Ledger) (hr : HResult)
    → c.sym_initialize ≡ some hr
    → succeeded hr ≡ false
    → succeeded (create_context c process_id l).0 ≢ true
unfolding create_context build_context succeeded
create_context-symbols c process_id l hr e f h = ground (arith, e, f, h)

-- Deleting a context closes what creating it has opened.
pub delete-create_context :
    (c : Creation) (process_id : ℕ) (l : Ledger)
    → HasErrors c
    → succeeded (create_context c process_id l).0 ≡ true
    → Same (delete_context (not (process_id == jpfsv_kernel)) (create_context c process_id l).1) l
unfolding create_context build_context clean_up succeeded delete_context
delete-create_context c process_id l f h = elim (Option-cases c.sym_initialize) [
  | inl e ↦ (
    ground (arith, h, e),
    ground (arith, h, e),
    ground (arith, h, e),
    ground (arith, h, e),
    ground (arith, h, e),
  )
  | inr (hr, e) ↦ absurd (create_context-symbols c process_id l hr e (f.symbols hr e) h)
]
