-- ===== src/Tracing/ProcessSession.antt =====
-- Jpfsv/jpfsv/traceprocess.c: the trace session of a process, with the thread that pumps its events.
use ntrace.Base.{
  ℕ, ◌+◌, ◌-◌, ◌*◌, ◌≤◌, ◌≡◌, ◌≢◌, inl, inr, refl, ap, sym, ◌∙◌, Bool, true, false, not, ◌&&◌, ◌||◌,
  Option, none, some, List, [], ◌∷◌, All, ltb, ◌==◌, if◌then◌else◌, length, leb, arith, Bool-cases,
}
use ntrace.Tracing.{
  NtStatus, nt_success, nt_peer_died, nt_patches_active, nt_error, nt_succeeded, HResult, s_ok,
  s_false, e_unexpected, e_invalidarg, e_outofmemory, peer_died, traces_active, failure, succeeded,
  hresult_from_nt, TraceAction, add_tracepoint, remove_tracepoint, Session, Atomic, IsAtomic,
  IsDecisive,
}

-- STATUS_UFBT_PEER_DIED has an HRESULT of its own.
unfoldable pub hresult_of : NtStatus → HResult
unfolding hresult_from_nt
hresult_of nt_peer_died = peer_died
hresult_of status = hresult_from_nt status

hresult_of-succeeded : (status : NtStatus) → nt_succeeded status ≡ succeeded (hresult_of status)
unfolding hresult_of nt_succeeded succeeded
hresult_of-succeeded nt_peer_died = refl
hresult_of-succeeded nt_success = refl
hresult_of-succeeded nt_patches_active = refl
hresult_of-succeeded (nt_error n) = refl

hresult_of-ne : (status : NtStatus) → hresult_of status ≢ s_false
unfolding hresult_of
hresult_of-ne nt_peer_died e = ground (arith, e)
hresult_of-ne nt_success e = ground (arith, e)
hresult_of-ne nt_patches_active e = ground (arith, e)
hresult_of-ne (nt_error n) e = ground (arith, e)

-- What a JpufbtReadTrace of the pump comes to.
pub data ReadTrace : Type 0 where
  read_some read_nothing : ReadTrace
  read_fails : NtStatus → ReadTrace

-- PUMP_MAX_TIMEOUT and PUMP_MIN_TIMEOUT
abbrev pump_max_timeout : ℕ
pump_max_timeout = 80

abbrev pump_min_timeout : ℕ
pump_min_timeout = 5

-- The timeout of the next wait, from the last one.
unfoldable pub next_timeout : Bool → ℕ → ℕ
next_timeout data_read timeout =
    if data_read
    then pump_min_timeout
    else if ltb (timeout * 2) pump_max_timeout
    then timeout * 2
    else pump_max_timeout

-- The loop of JpfsvsPumpEventsThreadProc: for each round, what is read and whether the stop event ends
-- the wait. The exit code of the thread, if it has come to its end, and the timeouts of the waits.
unfoldable pub pump_events : ℕ → List (ReadTrace × Bool) → Option NtStatus × List ℕ
unfolding next_timeout
pump_events timeout [] = (none, [])
pump_events timeout ((read_fails status, stop) ∷ rounds) = (some status, [])
pump_events timeout ((read_some, stop) ∷ rounds) =
    let t = next_timeout true timeout in
    let (code, waits) = pump_events t rounds in
    if stop then (some nt_success, t ∷ []) else (code, t ∷ waits)
pump_events timeout ((read_nothing, stop) ∷ rounds) =
    let t = next_timeout false timeout in
    let (code, waits) = pump_events t rounds in
    if stop then (some nt_success, t ∷ []) else (code, t ∷ waits)

-- A wait of the pump is neither shorter nor longer than the limits.
pub pump_events-within :
    (rounds : List (ReadTrace × Bool)) (timeout : ℕ)
    → pump_min_timeout ≤ timeout
    → All (λ t. (pump_min_timeout ≤ t) × (t ≤ pump_max_timeout)) (pump_events timeout rounds).1
unfolding pump_events next_timeout
pump_events-within [] timeout h = tt
pump_events-within ((read_fails status, stop) ∷ rounds) timeout h = tt
pump_events-within ((read_some, true) ∷ rounds) timeout h = ((omega arith, omega arith), tt)
pump_events-within ((read_some, false) ∷ rounds) timeout h =
    ((omega arith, omega arith), pump_events-within rounds _ (omega arith))
pump_events-within ((read_nothing, true) ∷ rounds) timeout h =
    ((ground (arith, h), ground (arith, h)), tt)
pump_events-within ((read_nothing, false) ∷ rounds) timeout h =
    ((ground (arith, h), ground (arith, h)), pump_events-within rounds _ (ground (arith, h)))

-- The library Jpufbt, with the process behind its handle, and the calls for threads: JpufbtAttachProcess,
-- JpufbtInitializeTracing, JpufbtShutdownTracing, JpufbtInstrumentProcedure and JpufbtDetachProcess;
-- CreateEvent and CreateThread, which may fail; the exit code that the pump ends with; and
-- JpfsvpIsProcedureHotpatchable and JpfsvpGetProcedurePaddingSize, which read the memory of the process.
pub record Peer : Type 1 where
  pub World : Type 0
  pub attach : World → NtStatus × World
  pub initialize_tracing : ℕ → ℕ → World → NtStatus × World
  pub shutdown_tracing : World → NtStatus × World
  pub instrument_procedure : TraceAction → List ℕ → World → NtStatus × Option ℕ × World
  pub is_hotpatchable : ℕ → World → HResult × Bool
  pub padding_size : ℕ → World → HResult × ℕ
  pub detach : World → NtStatus × World
  pub create_event : World → Option ℕ
  pub create_thread : World → Option ℕ
  pub exit_code : World → NtStatus
  pub last_error : World → ℕ
  pub traced : World → ℕ → Bool

module _ (peer : Peer) where
  -- UM_TRACE_SESSION with the system. Its thread and its stop event are handles.
  pub record ProcessSession : Type 0 where
    pub reference_count : ℕ
    pub has_processor : Bool
    pub thread : Option ℕ
    pub stop_event : Option ℕ
    pub freed : Bool
    pub world : peer.World

  unfoldable pub is_idle : Option ℕ → Bool
  is_idle none = true
  is_idle (some h) = false

  -- JpfsvsStartProcessTraceSession, with an event processor.
  unfoldable pub start_process : ℕ → ℕ → ProcessSession → HResult × ProcessSession
  unfolding nt_succeeded hresult_of is_idle
  start_process buffer_count buffer_size s =
      let (status, w) = peer.initialize_tracing buffer_count buffer_size s.world in
      let undone = record s { stop_event = none; world = (peer.shutdown_tracing w).1 } in
      let error = failure (nt_error (peer.last_error w)) in
      if buffer_count == 0 || buffer_size == 0
      then (e_invalidarg, s)
      else if not (is_idle s.thread && is_idle s.stop_event)
      then (e_unexpected, s)
      else if not (nt_succeeded status)
      then (hresult_of status, record s { world = w })
      else elim (peer.create_event w) [
        | none ↦ (error, undone)
        | some event ↦ elim (peer.create_thread w) [
          | none ↦ (error, undone)
          | some thread ↦ (
            s_ok,
            record s {
              has_processor = true;
              thread = some thread;
              stop_event = some event;
              world = w;
            },
          )
        ]
      ]

  -- JpfsvsStopProcessTraceSession. If it need not wait, the pump is taken to end well.
  unfoldable pub stop_process : Bool → ProcessSession → HResult × ProcessSession
  unfolding nt_succeeded hresult_of
  stop_process wait_for_pump s =
      let (status, w) = peer.shutdown_tracing s.world in
      let code : NtStatus = elim s.thread [
        | none ↦ nt_success
        | some h ↦ if wait_for_pump then peer.exit_code s.world else nt_success
      ] in
      let s' : ProcessSession = elim s.thread [
        | none ↦ record s { world = w }
        | some h ↦ record s { thread = none; stop_event = none; world = w }
      ] in
      if nt_succeeded status then (hresult_of code, s') else (hresult_of status, s')

  -- JpfsvsInstrumentProcedureProcessTraceSession
  unfoldable pub instrument_process :
      TraceAction → List ℕ → ProcessSession → HResult × Option ℕ × ProcessSession
  unfolding hresult_of
  instrument_process action procedures s =
      let (status, failed, w) = peer.instrument_procedure action procedures s.world in
      if length procedures == 0
      then (e_invalidarg, none, s)
      else (hresult_of status, failed, record s { world = w })

  -- JpfsvsCheckProcedureInstrumentabilityProcessTraceSession
  unfoldable pub check_process_session : ℕ → ProcessSession → HResult × Bool × ℕ
  unfolding succeeded
  check_process_session procedure s =
      let (status, hotpatchable) = peer.is_hotpatchable procedure s.world in
      let (sized, padding) = peer.padding_size procedure s.world in
      if procedure == 0
      then (e_invalidarg, false, 0)
      else if not (succeeded status)
      then (status, false, 0)
      else if not hotpatchable
      then (s_ok, false, 0)
      else if succeeded sized
      then (sized, leb 5 padding, padding)
      else (sized, false, 0)

  -- JpfsvsDeleteProcessTraceSession
  unfoldable pub delete_process : ProcessSession → HResult × ProcessSession
  delete_process s =
      let (status, w) = peer.detach s.world in
      elim status [
        | nt_patches_active ↦ (traces_active, record s { world = w })
        | _ ↦ (s_ok, record s { freed = true; world = w })
      ]

  -- JpfsvsReferenceProcessTraceSession
  unfoldable pub reference_process : ProcessSession → ProcessSession
  reference_process s = record s { reference_count = s.reference_count + 1 }

  -- JpfsvsDereferenceProcessTraceSession
  unfoldable pub dereference_process : ProcessSession → HResult × ProcessSession
  unfolding delete_process reference_process succeeded
  dereference_process s =
      let s' = record s { reference_count = s.reference_count - 1 } in
      let (status, d) = delete_process s' in
      if not (s.reference_count - 1 == 0)
      then (s_ok, s')
      else if succeeded status
      then (status, d)
      else (status, reference_process d)

  -- JpfsvpCreateProcessTraceSession: the session, and the system. `memory` is what malloc says.
  unfoldable pub create_process : Bool → peer.World → HResult × Option ProcessSession × peer.World
  unfolding nt_succeeded hresult_from_nt
  create_process memory w =
      let (status, w') = peer.attach w in
      let session : ProcessSession = record {
        reference_count = 1;
        has_processor = false;
        thread = none;
        stop_event = none;
        freed = false;
        world = w';
      } in
      if not (nt_succeeded status)
      then (hresult_from_nt status, none, w')
      else if not memory
      then (e_outofmemory, none, w')
      else (s_ok, some session, w')

  -- What this session is to a context.
  unfoldable pub process_session : Session
  unfolding start_process stop_process instrument_process check_process_session dereference_process
  process_session = record {
    World = ProcessSession;
    start = start_process;
    stop = stop_process;
    instrument = instrument_process;
    check = check_process_session;
    dereference = dereference_process;
    traced = λ s. peer.traced s.world;
  }

  -- There is a stop event exactly while there is a thread.
  abbrev pub IsPaired : ProcessSession → Type 0
  IsPaired s = is_idle s.thread ≡ is_idle s.stop_event

  pub start_process-IsPaired :
      (n size : ℕ) (s : ProcessSession) → IsPaired s → IsPaired (start_process n size s).1
  unfolding start_process is_idle
  start_process-IsPaired n size s p = ground (arith, p)

  pub stop_process-IsPaired :
      (wait : Bool) (s : ProcessSession) → IsPaired s → IsPaired (stop_process wait s).1
  unfolding stop_process is_idle
  stop_process-IsPaired wait s p = ground (arith, p)

  -- Stopping the session never comes to S_FALSE.
  pub process_session-IsDecisive : IsDecisive process_session
  unfolding process_session stop_process
  process_session-IsDecisive wait s e =
      let status = (peer.shutdown_tracing s.world).0 in
      let code = peer.exit_code s.world in
      ground (arith, e, hresult_of-ne status, hresult_of-ne code, hresult_of-ne nt_success)

  instrument_process-went :
      (action : TraceAction) (ps : List ℕ) (s : ProcessSession)
      → succeeded (instrument_process action ps s).0 ≡ true
      → let does = peer.instrument_procedure action ps s.world in
        (nt_succeeded does.0 ≡ true) × ((instrument_process action ps s).2.world ≡ does.2)
  unfolding instrument_process succeeded
  instrument_process-went action ps s e =
      let does = peer.instrument_procedure action ps s.world in
      elim (Bool-cases (length ps == 0)) [
        | inl f ↦ absurd (ground (arith, e, f))
        | inr f ↦
            let g : instrument_process action ps s
                ≡ (hresult_of does.0, does.1, record s { world = does.2 }) =
              ground (arith, f) in
            (
              hresult_of-succeeded does.0
                  ∙ sym (ap (λ (r : HResult × Option ℕ × ProcessSession). succeeded r.0) g)
                  ∙ e,
              ap (λ (r : HResult × Option ℕ × ProcessSession). r.2.world) g,
            )
      ]

  instrument_process-failed :
      Atomic nt_succeeded peer.instrument_procedure peer.traced
      → (action : TraceAction) (ps : List ℕ) (s : ProcessSession)
      → succeeded (instrument_process action ps s).0 ≡ false
      → (p : ℕ) → peer.traced (instrument_process action ps s).2.world p ≡ peer.traced s.world p
  unfolding instrument_process succeeded
  instrument_process-failed a action ps s e p =
      let does = peer.instrument_procedure action ps s.world in
      elim (Bool-cases (length ps == 0)) [
        | inl f ↦ ground (arith, f)
        | inr f ↦
            let g : instrument_process action ps s
                ≡ (hresult_of does.0, does.1, record s { world = does.2 }) =
              ground (arith, f) in
            ap (λ (r : HResult × Option ℕ × ProcessSession). peer.traced r.2.world p) g
            ∙ a.failed action ps s.world
                (hresult_of-succeeded does.0
                  ∙ sym (ap (λ (r : HResult × Option ℕ × ProcessSession). succeeded r.0) g)
                  ∙ e)
                p
      ]

  -- The session instruments all procedures or none, if the process does.
  pub process_session-IsAtomic :
      Atomic nt_succeeded peer.instrument_procedure peer.traced → IsAtomic process_session
  unfolding process_session
  process_session-IsAtomic a = record {
    added = λ ps s e p.
        let (f, w) = instrument_process-went add_tracepoint ps s e in
        ap (λ x. peer.traced x p) w ∙ a.added ps s.world f p;
    removed = λ ps s e p.
        let (f, w) = instrument_process-went remove_tracepoint ps s e in
        ap (λ x. peer.traced x p) w ∙ a.removed ps s.world f p;
    present = λ ps s e. a.present ps s.world (instrument_process-went remove_tracepoint ps s e).0;
    failed = instrument_process-failed a;
  }
