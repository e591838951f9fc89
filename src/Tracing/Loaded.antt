-- ===== src/Tracing/Loaded.antt =====
-- Jpfsv/jpfsv/context.c: the table of the contexts that are loaded. A context is known by a number, which
-- stands for its address.
use ntrace.Base.{
  ℕ, ◌+◌, ◌-◌, ◌%◌, ◌^◌, ◌≡◌, ◌∙◌, Bool, true, false, not, Option, none, some, ◌==◌, if◌then◌else◌,
  update, arith,
}
use ntrace.Base.Table.{Hashtable}
use ntrace.Tracing.{HResult, s_ok, e_invalidarg, succeeded}

-- JpfsvsHashProcessId and JpfsvsEqualsProcessId
unfoldable pub hash_process_id : ℕ → ℕ
hash_process_id key = key % 2 ^ 32

unfoldable pub equals_process_id : ℕ → ℕ → Bool
equals_process_id a b = a % 2 ^ 32 == b % 2 ^ 32

module _ (table : Hashtable ℕ ℕ) where
  -- JpfsvsLoadedContexts, with the reference counts and the processes of the contexts, and which of them
  -- exist.
  pub record Contexts : Type 0 where
    pub loaded : table.Table
    pub references : ℕ → ℕ
    pub process_of : ℕ → ℕ
    pub exists : ℕ → Bool

  add_reference : ℕ → Contexts → Contexts
  add_reference c s = record s { references = update s.references c (s.references c + 1) }

  -- JpfsvLoadContext. `create` is JpfsvsCreateContext, during which other threads may load contexts, with
  -- the new context. An entry that is replaced tells that another thread has been faster; then the new
  -- context, which is in the table by now, is deleted.
  unfoldable pub load_context :
      (Contexts → HResult × ℕ × Contexts) → ℕ → Contexts → HResult × Option ℕ × Contexts
  unfolding add_reference succeeded
  load_context create process_id s =
      let (hr, c, s1) = create s in
      let (t, old) = table.put s1.loaded process_id c in
      let s2 = record s1 { loaded = t } in
      if process_id == 0 then (e_invalidarg, none, s) else elim (table.get s.loaded process_id) [
        | some d ↦ (s_ok, some d, add_reference d s)
        | none ↦ if not (succeeded hr) then (hr, none, s1) else elim old [
          | none ↦ (s_ok, some c, add_reference c s2)
          | some d ↦
              (s_ok, some c, add_reference c (record s2 { exists = update s2.exists c false }))
        ]
      ]

  -- JpfsvUnloadContext
  unfoldable pub unload_context : ℕ → Contexts → HResult × Contexts
  unload_context c s =
      let less = record s { references = update s.references c (s.references c - 1) } in
      if not (s.exists c)
      then (e_invalidarg, s)
      else if s.references c - 1 == 0
      then (
        s_ok,
        record less {
          loaded = (table.remove s.loaded (s.process_of c)).0;
          exists = update s.exists c false;
        },
      )
      else (s_ok, less)

  -- JpfsvIsContextLoaded
  unfoldable pub is_context_loaded : ℕ → Contexts → HResult × Bool
  is_context_loaded process_id s =
      if process_id == 0
      then (e_invalidarg, false)
      else elim (table.get s.loaded process_id) [ none ↦ (s_ok, false) | some c ↦ (s_ok, true) ]

  -- If another thread loads the context of the process while JpfsvsCreateContext runs, the call succeeds
  -- with a context that has been deleted and that the table leads to.
  pub load_context_dangles :
      (create : Contexts → HResult × ℕ × Contexts) (process_id d : ℕ) (s : Contexts)
      → (process_id == 0) ≡ false
      → table.get s.loaded process_id ≡ none
      → (create s).0 ≡ s_ok
      → table.get (create s).2.loaded process_id ≡ some d
      → let c = (create s).1 in
        let r = load_context create process_id s in
        (r.0 ≡ s_ok)
        × (r.1 ≡ some c)
        × (r.2.exists c ≡ false)
        × (table.get r.2.loaded process_id ≡ some c)
  unfolding load_context add_reference succeeded
  load_context_dangles create process_id d s z n h o =
      let c = (create s).1 in
      let s1 = (create s).2 in
      let old = table.put-old s1.loaded process_id c ∙ o in
      (
        ground (arith, z, n, h, old),
        ground (arith, z, n, h, old),
        ground (arith, z, n, h, old),
        ground (arith, z, n, h, old, table.get-put_self s1.loaded process_id c),
      )
