-- ===== src/Tracing/Context.antt =====
-- Jpfsv/jpfsv/context.c: the trace session, the event processor and the tracepoints of a context, which
-- the lock of the context guards.
use ntrace.Base.{
  ℕ, ◌+◌, ◌-◌, Bool, true, false, not, ◌||◌, Option, none, some, List, [], ◌∷◌, ltb, ◌==◌,
  if◌then◌else◌, length,
}
use ntrace.Base.Table.{Hashtable}
use ntrace.Tracing.{
  HResult, s_ok, s_false, e_unexpected, e_invalidarg, e_outofmemory, peer_died, no_tracesession,
  succeeded, is_ok_or_died, TraceAction, add_tracepoint, remove_tracepoint, member, Session,
}
use ntrace.Tracing.Points
use ntrace.Tracing.Points.{
  Tracepoint, Symbols, add_entry, remove_entry, exists_entry, flush_table, remove_all,
}

-- Check 2: whether a procedure is left out because it has a tracepoint.
abbrev pub barred : TraceAction → (ℕ → Bool) → ℕ → Bool
barred add_tracepoint listed p = listed p
barred remove_tracepoint listed p = false

-- The loop that takes duplicates and, to add tracepoints, procedures that have one already out of the
-- array; none if it meets a null pointer.
unfoldable pub clean : TraceAction → (ℕ → Bool) → List ℕ → List ℕ → Option (List ℕ)
clean action listed seen [] = some []
clean action listed seen (p ∷ ps) =
    let rest = clean action listed (p ∷ seen) ps in
    if p == 0
    then none
    else if member p seen || barred action listed p
    then rest
    else elim rest [ none ↦ none | some qs ↦ some (p ∷ qs) ]

-- What detaching makes of the outcome of stopping.
unfoldable pub tolerate : HResult → HResult
tolerate peer_died = s_ok
tolerate hr = hr

module _ (table : Hashtable ℕ Tracepoint) where
  -- The loop that updates the table of tracepoints; `status` is the outcome so far.
  unfoldable pub update_entries :
      Symbols → TraceAction → HResult → List ℕ → table.Table → HResult × table.Table
  unfolding add_entry remove_entry succeeded
  update_entries symbols action status [] t = (status, t)
  update_entries symbols action status (p ∷ ps) t =
      let one : HResult × table.Table = elim action [
        | add_tracepoint ↦ add_entry table symbols p t
        | remove_tracepoint ↦ remove_entry table p t
      ] in
      let rest = update_entries symbols action one.0 ps one.1 in
      if succeeded one.0 then rest else one

module _ (table : Hashtable ℕ Tracepoint) (session : Session) where
  -- JPFSV_CONTEXT: whether its signature is right, the recursion count of its lock, whether it has a
  -- trace session and an event processor, TraceStarted, and the tracepoints. `world` is the rest of the
  -- system, the session included.
  pub record Context : Type 0 where
    pub signed : Bool
    pub held : ℕ
    pub attached : Bool
    pub started : Bool
    pub processor : Bool
    pub points : table.Table
    pub world : session.World

  unfoldable pub enter_lock : Context → Context
  enter_lock c = record c { held = c.held + 1 }

  unfoldable pub leave_lock : Context → Context
  leave_lock c = record c { held = c.held - 1 }

  -- JpfsvAttachContext; `create` is JpfsvpCreateKernelTraceSession with its arguments, or
  -- JpfsvpCreateProcessTraceSession, as the context is that of the kernel or of a process.
  unfoldable pub attach_context :
      (session.World → HResult × session.World) → Context → HResult × Context
  unfolding enter_lock leave_lock succeeded
  attach_context create c =
      let e = enter_lock c in
      let (status, w) = create c.world in
      if not c.signed
      then (e_invalidarg, c)
      else if c.attached
      then (s_false, leave_lock e)
      else if succeeded status
      then (status, leave_lock (record e { attached = true; world = w }))
      else (status, leave_lock (record e { world = w }))

  -- JpfsvStartTraceContext; `create` is JpfsvpCreateDiagEventProcessor.
  unfoldable pub start_trace : HResult → ℕ → ℕ → Context → HResult × Context
  unfolding enter_lock leave_lock succeeded
  start_trace create buffer_count buffer_size c =
      let e = enter_lock c in
      let (status, w) = session.start buffer_count buffer_size c.world in
      if not c.signed
      then (e_invalidarg, c)
      else if not (succeeded create)
      then (create, leave_lock e)
      else if not c.attached
      then (no_tracesession, leave_lock e)
      else if succeeded status
      then (status, leave_lock (record e { started = true; processor = true; world = w }))
      else (status, leave_lock (record e { world = w }))

  -- JpfsvStopTraceContext. Without a session the lock is not left.
  unfoldable pub stop_trace : Symbols → Bool → Context → HResult × Context
  unfolding enter_lock leave_lock succeeded is_ok_or_died flush_table remove_all
  stop_trace symbols wait c =
      let e = record (enter_lock c) { points = flush_table table c.points } in
      let (removed, w) = remove_all table session symbols c.points c.world in
      let (status, w') = session.stop wait w in
      if not c.signed
      then (e_invalidarg, c)
      else if not c.started
      then (e_unexpected, c)
      else if not c.attached
      then (no_tracesession, enter_lock c)
      else if not (succeeded removed)
      then (removed, leave_lock (record e { world = w }))
      else if is_ok_or_died status
      then (status, leave_lock (record e { started = false; processor = false; world = w' }))
      else (status, leave_lock (record e { world = w' }))

  -- The end of detaching: the session is let go.
  unfoldable pub let_go : Context → HResult × Context
  unfolding leave_lock succeeded
  let_go c =
      let (status, w) = session.dereference c.world in
      if succeeded status
      then (status, leave_lock (record c { attached = false; world = w }))
      else (status, leave_lock (record c { world = w }))

  -- JpfsvDetachContext
  unfoldable pub detach_context : Symbols → Bool → Context → HResult × Context
  unfolding enter_lock leave_lock succeeded stop_trace tolerate let_go
  detach_context symbols wait c =
      let e = enter_lock c in
      let (stopped, s) = stop_trace symbols wait e in
      if not c.signed
      then (e_invalidarg, c)
      else if not c.attached
      then (no_tracesession, leave_lock e)
      else if not c.started
      then let_go e
      else if succeeded (tolerate stopped)
      then let_go s
      else (tolerate stopped, leave_lock s)

  -- JpfsvSetTracePointsContext, with an array of procedures; also the procedure that the session
  -- failed for.
  unfoldable pub set_tracepoints :
      Symbols → TraceAction → List ℕ → Context → HResult × Option ℕ × Context
  unfolding enter_lock leave_lock succeeded clean exists_entry update_entries
  set_tracepoints symbols action raw c =
      let e = enter_lock c in
      let cleaned = clean action (λ p. exists_entry table p c.points) [] raw in
      if not c.signed || length raw == 0 || ltb 0xFFFF (length raw)
      then (e_invalidarg, none, c)
      else if not symbols.has_array
      then (e_outofmemory, none, c)
      else if not c.attached
      then (no_tracesession, none, leave_lock e)
      else elim cleaned [
        | none ↦ (e_invalidarg, none, leave_lock e)
        | some ps ↦
            let (status, failed, w) = session.instrument action ps c.world in
            let (updated, t) = update_entries table symbols action status ps c.points in
            if length ps == 0
            then (s_ok, none, leave_lock e)
            else if succeeded status
            then (updated, failed, leave_lock (record e { points = t; world = w }))
            else (status, failed, leave_lock (record e { world = w }))
      ]

  -- JpfsvCountTracePointsContext
  unfoldable pub count_tracepoints : Context → HResult × ℕ
  count_tracepoints c =
      if not c.signed
      then (e_invalidarg, 0)
      else if not c.attached
      then (no_tracesession, 0)
      else (s_ok, table.count c.points)

  -- JpfsvGetTracepointContext
  unfoldable pub get_tracepoint : ℕ → Context → HResult × Option Tracepoint
  unfolding Points.get_entry
  get_tracepoint procedure c =
      if not c.signed || procedure == 0
      then (e_invalidarg, none)
      else if not c.attached
      then (no_tracesession, none)
      else Points.get_entry table procedure c.points

  -- JpfsvEnumTracePointsContext
  unfoldable pub enum_tracepoints : Context → HResult × List Tracepoint
  unfolding Points.enum_entries
  enum_tracepoints c =
      if not c.signed
      then (e_invalidarg, [])
      else if not c.attached
      then (no_tracesession, [])
      else (s_ok, Points.enum_entries table c.points)

  -- JpfsvExistsTracepointContext; none for the value that is neither TRUE nor FALSE.
  unfoldable pub exists_tracepoint : ℕ → Context → Option Bool
  unfolding exists_entry
  exists_tracepoint procedure c =
      if c.signed then some (exists_entry table procedure c.points) else none

  -- JpfsvCheckProcedureInstrumentability
  unfoldable pub check_instrumentability : ℕ → Context → HResult × Bool × ℕ
  check_instrumentability procedure c =
      if not c.signed || procedure == 0
      then (e_invalidarg, false, 0)
      else if not c.attached
      then (no_tracesession, false, 0)
      else session.check procedure c.world
