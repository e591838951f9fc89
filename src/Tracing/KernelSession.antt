-- ===== src/Tracing/KernelSession.antt =====
-- Jpfsv/jpfsv/tracekern.c: the trace session of the kernel.
use ntrace.Base.{
  ℕ, ◌+◌, ◌-◌, ◌≡◌, inl, inr, ◌∙◌, Bool, true, false, not, ◌&&◌, Option, none, some, List, ◌==◌,
  if◌then◌else◌, length, leb, arith, Bool-cases,
}
use ntrace.Tracing.{
  NtStatus, nt_error, nt_succeeded, HResult, s_ok, e_unexpected, e_invalidarg, e_outofmemory,
  failure, succeeded, hresult_from_nt, TraceAction, add_tracepoint, remove_tracepoint, Session,
  Atomic, hresult_from_nt-succeeded, hresult_from_nt-ne, IsAtomic, IsDecisive,
}

-- JPFSV_TRACING_TYPE, which a client may also give a number out of its range.
pub data TracingType : Type 0 where
  tracing_default tracing_wmk tracing_unknown : TracingType

-- The library Jpkfbt, with the driver behind its handle: JpkfbtAttach, JpkfbtInitializeTracing,
-- JpkfbtShutdownTracing, JpkfbtInstrumentProcedure, JpkfbtCheckProcedureInstrumentability
-- and JpkfbtDetach.
pub record Driver : Type 1 where
  pub World : Type 0
  pub attach : TracingType → World → NtStatus × World
  pub initialize_tracing : TracingType → Option (List ℕ) → ℕ → ℕ → World → NtStatus × World
  pub shutdown_tracing : World → NtStatus × World
  pub instrument_procedure : TraceAction → List ℕ → World → NtStatus × Option ℕ × World
  pub check_instrumentability : ℕ → World → NtStatus × Bool × ℕ
  pub detach : World → NtStatus × World
  pub traced : World → ℕ → Bool

-- MAX_PATH
abbrev max_path : ℕ
max_path = 260

-- STRSAFE_E_INSUFFICIENT_BUFFER
abbrev strsafe_e_insufficient_buffer : ℕ
strsafe_e_insufficient_buffer = 0x8007007A

module _ (driver : Driver) where
  -- JPFSVP_KM_TRACE_SESSION with the system; `freed` once its memory has been freed.
  pub record KernelSession : Type 0 where
    pub reference_count : ℕ
    pub tracing_type : TracingType
    pub trace_active : Bool
    pub log_file_path : Option (List ℕ)
    pub freed : Bool
    pub world : driver.World

  -- JpfsvsStartKernelTraceSession
  unfoldable pub start_kernel : ℕ → ℕ → KernelSession → HResult × KernelSession
  unfolding nt_succeeded hresult_from_nt
  start_kernel buffer_count buffer_size s =
      let (status, w) =
        driver.initialize_tracing s.tracing_type s.log_file_path buffer_count buffer_size s.world in
      if s.trace_active
      then (e_unexpected, s)
      else if nt_succeeded status
      then (s_ok, record s { trace_active = true; world = w })
      else (hresult_from_nt status, record s { world = w })

  -- JpfsvsStopKernelTraceSession
  unfoldable pub stop_kernel : Bool → KernelSession → HResult × KernelSession
  unfolding nt_succeeded hresult_from_nt
  stop_kernel wait s =
      let (status, w) = driver.shutdown_tracing s.world in
      if nt_succeeded status
      then (s_ok, record s { trace_active = false; world = w })
      else (hresult_from_nt status, record s { world = w })

  -- JpfsvsInstrumentProcedureKernelTraceSession
  unfoldable pub instrument_kernel :
      TraceAction → List ℕ → KernelSession → HResult × Option ℕ × KernelSession
  unfolding hresult_from_nt
  instrument_kernel action procedures s =
      let (status, failed, w) = driver.instrument_procedure action procedures s.world in
      (hresult_from_nt status, failed, record s { world = w })

  -- JpfsvsCheckProcedureInstrumentabilityKernelTraceSession
  unfoldable pub check_kernel_session : ℕ → KernelSession → HResult × Bool × ℕ
  unfolding hresult_from_nt
  check_kernel_session procedure s =
      let (status, instrumentable, padding) = driver.check_instrumentability procedure s.world in
      if procedure == 0
      then (e_invalidarg, false, 0)
      else (hresult_from_nt status, instrumentable, padding)

  -- JpfsvsDeleteKernelTraceSession
  unfoldable pub delete_kernel : KernelSession → HResult × KernelSession
  unfolding hresult_from_nt
  delete_kernel s =
      let (status, w) = driver.detach s.world in
      (hresult_from_nt status, record s { freed = true; world = w })

  -- JpfsvsReferenceKernelTraceSession
  unfoldable pub reference_kernel : KernelSession → KernelSession
  reference_kernel s = record s { reference_count = s.reference_count + 1 }

  -- JpfsvsDereferenceKernelTraceSession
  unfoldable pub dereference_kernel : KernelSession → HResult × KernelSession
  unfolding delete_kernel reference_kernel succeeded
  dereference_kernel s =
      let s' = record s { reference_count = s.reference_count - 1 } in
      let (status, d) = delete_kernel s' in
      if not (s.reference_count - 1 == 0)
      then (s_ok, s')
      else if succeeded status
      then (status, d)
      else (status, reference_kernel d)

  -- JpfsvpCreateKernelTraceSession: the session, and the system. `memory` is what malloc says.
  unfoldable pub create_kernel :
      Bool
      → TracingType
      → Option (List ℕ)
      → driver.World
      → HResult × Option KernelSession × driver.World
  unfolding nt_succeeded hresult_from_nt
  create_kernel memory tracing_type log_file_path w =
      let (status, w') = driver.attach tracing_type w in
      let session : KernelSession = record {
        reference_count = 1;
        tracing_type = tracing_type;
        trace_active = false;
        log_file_path = log_file_path;
        freed = false;
        world = w';
      } in
      let attached : HResult × Option KernelSession × driver.World =
        if not memory
        then (e_outofmemory, none, w)
        else if nt_succeeded status
        then (s_ok, some session, w')
        else (hresult_from_nt status, none, w') in
      elim tracing_type [
        | tracing_unknown ↦ (e_invalidarg, none, w)
        | tracing_default ↦ elim log_file_path [
          | none ↦ (e_invalidarg, none, w)
          | some path ↦
              if leb max_path (length path) && memory && nt_succeeded status
              then (failure (nt_error strsafe_e_insufficient_buffer), none, w')
              else attached
        ]
        | tracing_wmk ↦ elim log_file_path [ none ↦ attached | some path ↦ (e_invalidarg, none, w) ]
      ]

  -- What this session is to a context.
  unfoldable pub kernel_session : Session
  unfolding start_kernel stop_kernel instrument_kernel check_kernel_session dereference_kernel
  kernel_session = record {
    World = KernelSession;
    start = start_kernel;
    stop = stop_kernel;
    instrument = instrument_kernel;
    check = check_kernel_session;
    dereference = dereference_kernel;
    traced = λ s. driver.traced s.world;
  }

  -- Stopping the session never comes to S_FALSE.
  pub kernel_session-IsDecisive : IsDecisive kernel_session
  unfolding kernel_session stop_kernel
  kernel_session-IsDecisive wait s e =
      let status = (driver.shutdown_tracing s.world).0 in
      elim (Bool-cases (nt_succeeded status)) [
        | inl f ↦ ground (arith, e, f)
        | inr f ↦ hresult_from_nt-ne status (ground (arith, e, f))
      ]

  -- The session instruments all procedures or none, if the driver does.
  pub kernel_session-IsAtomic :
      Atomic nt_succeeded driver.instrument_procedure driver.traced → IsAtomic kernel_session
  unfolding kernel_session instrument_kernel
  kernel_session-IsAtomic a =
      let same : (action : TraceAction) (ps : List ℕ) (s : KernelSession)
          → nt_succeeded (driver.instrument_procedure action ps s.world).0
            ≡ succeeded (instrument_kernel action ps s).0 =
        λ action ps s. hresult_from_nt-succeeded _ in
      record {
        added = λ ps s e. a.added ps s.world (same add_tracepoint ps s ∙ e);
        removed = λ ps s e. a.removed ps s.world (same remove_tracepoint ps s ∙ e);
        present = λ ps s e. a.present ps s.world (same remove_tracepoint ps s ∙ e);
        failed = λ action ps s e. a.failed action ps s.world (same action ps s ∙ e);
      }
