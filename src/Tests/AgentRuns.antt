-- ===== src/Tests/AgentRuns.antt =====
-- A device with an event sink, one module that is loaded, and one thread that is slow to leave.
use ntrace.Base.{
  ◌<◌, inl, subst, ℕ, ◌+◌, ◌^◌, ◌≡◌, ◌⊎◌, refl, arith, true, false, none, some, [], ◌∷◌,
  if◌then◌else◌, leb,
}
use ntrace.Agent.{success}
use ntrace.Agent.Lifecycle.{GlobalData}
use ntrace.Agent.Pointers.{Modules, check_procedure_pointers}
use ntrace.Agent.Control.{
  Device, Fbt, InstrumentRequest, offset_of_procedure, instrument_procedure_ioctl,
}
use ntrace.Agent.Shutdown.{InUse, shutdown_tracing, shutdown_tracing_returns}
use ntrace.Agent.Verdict.{Judges, check_procedure_pointers-Judges}
use ntrace.Agent.Guarded.{Refused, Handed, instrument_procedure_ioctl-Guarded}

abbrev modules : Modules
modules = record {
  system_range_start = 2 ^ 31;
  query_size = success;
  has_pool = true;
  query = (
    success,
    record {
      image_base = 2 ^ 31 + 4096;
      image_size = 8192;
      file_name_offset = 3;
      full_path_name = 110 ∷ 116 ∷ [];
    }
        ∷ [],
  );
}

-- One thread is in an instrumented procedure.
abbrev global : GlobalData
global = record {
  patch_count = 0;
  threads = record { frames = 1; current_buffer = some 4 } ∷ [];
  dirty = [];
  free = 7;
  collected = 0;
  preallocated = 512;
  failed_preallocated = 0;
  reentrant = 0;
  events = 12;
  unwindings = 0;
  teardowns = 0;
}

abbrev device : Device
device = record {
  event_sink = some 1;
  statistics = record {
    entry_events_dropped = 0;
    exit_events_dropped = 0;
    unwind_events_dropped = 0;
    image_info_events_dropped = 0;
    failed_chunk_flushes = 0;
  };
  fbt = some global;
  notified = true;
  deleted = [];
}

abbrev fbt : Fbt
fbt = record {
  instrument_procedure = λ action ps g. (success, some 0, g);
  remove_all = λ g. (success, g);
  check_instrumentability = λ p. (success, some true);
}

-- From the delay 3 on no thread is left in an instrumented procedure.
abbrev passes : ℕ → GlobalData → GlobalData
passes n g = record g { threads = if leb 3 n then [] else g.threads }

abbrev procedure : ℕ
procedure = 2 ^ 31 + 5000

abbrev request : InstrumentRequest
request = record { action = 0; procedure_count = 1; procedures = λ i. procedure }

-- The thread is in an instrumented procedure before the delay 3.
passes-InUse : (i : ℕ) (h : GlobalData) → i < 3 → InUse h.threads → InUse (passes i h).threads
passes-InUse i h l used = subst InUse (ground (arith, l)) used

shutdown_tracing_returns_example :
    (shutdown_tracing fbt passes 3 device ≡ none)
    × (shutdown_tracing fbt passes 5 device
        ≡ some (
          success,
          record device { event_sink = none; fbt = none; notified = false; deleted = 1 ∷ [] },
        ))
shutdown_tracing_returns_example =
    shutdown_tracing_returns fbt passes device 5 3 3 3 1 global refl refl refl (λ i h. refl)
      (λ l. inl (λ e. ground (arith, e))) passes-InUse (λ h. tt) (omega arith) (omega arith)

check_procedure_pointers-Judges_example :
    Judges modules (procedure ∷ []) true (check_procedure_pointers modules (procedure ∷ []) true)
check_procedure_pointers-Judges_example =
    check_procedure_pointers-Judges modules (procedure ∷ []) true

instrument_procedure_ioctl-Guarded_example :
    let a = instrument_procedure_ioctl modules fbt (some request) 12 8 device in
    Refused modules fbt device a
    ⊎ ((r : InstrumentRequest) × ((some request ≡ some r) × Handed modules fbt device r 12 a))
instrument_procedure_ioctl-Guarded_example =
    instrument_procedure_ioctl-Guarded modules fbt device (some request) 12 8

-- The request is passed on, and the image of its procedure is reported.
request_succeeds :
    let a = instrument_procedure_ioctl modules fbt (some request) 12 8 device in
    (a.status ≡ success) × (a.images ≡ (2 ^ 31 + 4096, 8192, 110 ∷ 116 ∷ []) ∷ [])
unfolding instrument_procedure_ioctl
request_succeeds = (refl, refl)

-- The offset behind an array of 2 ^ 30 procedures has wrapped around, so it lies in a buffer of 8 bytes.
offset_wraps : offset_of_procedure (2 ^ 30) ≡ 8
unfolding offset_of_procedure
offset_wraps = refl
