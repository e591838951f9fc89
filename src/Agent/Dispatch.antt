-- ===== src/Agent/Dispatch.antt =====
-- Jpkfbt/jpkfag/main.c and the rest of control.c: the entry and the unloading of the driver, the dispatch of
-- requests, and the notification of threads that end.
use ntrace.Base.{ℕ, Bool, false, not, Option, none, some, List, if◌then◌else◌}
use ntrace.Agent.{Status, invalid_device_request, is_success}
use ntrace.Agent.Lifecycle.{GlobalData}
use ntrace.Agent.Pointers.{Modules}
use ntrace.Agent.Control.{
  SinkStatistics, Device, Fbt, Starting, InitializeRequest, InstrumentRequest,
  initialize_tracing_ioctl, instrument_procedure_ioctl, check_instrumentability_ioctl,
  query_statistics_ioctl,
}
use ntrace.Agent.Shutdown.{shutdown_tracing}

-- JpkfagsOnCreateThread, with JpkfagpCleanupThread: `lookup` is PsLookupThreadByThreadId, the thread or
-- nothing, and `teardown` is JpfbtCleanupThread.
unfoldable pub on_create_thread :
    (ℕ → Option ℕ) → (ℕ → Option GlobalData → Option GlobalData) → ℕ → Bool → Device → Device
on_create_thread lookup teardown thread_id create d =
    if create
    then d
    else elim (lookup thread_id) [ none ↦ d | some t ↦ record d { fbt = teardown t d.fbt } ]

-- A request, with the lengths of its buffers.
pub data Request : Type 0 where
  ask_initialize : Option InitializeRequest → ℕ → Request
  end_tracing : Request
  ask_instrument : Option InstrumentRequest → ℕ → ℕ → Request
  ask_instrumentability : Option ℕ → ℕ → ℕ → Request
  ask_statistics : Bool → ℕ → Request
  other_request : Request

-- What requests ask of the surroundings of the driver; `size` is that of the statistics.
pub record Surroundings : Type 0 where
  pub starting : Starting
  pub modules : Modules
  pub fbt : Fbt
  pub passes : ℕ → GlobalData → GlobalData
  pub size : ℕ

-- JpkfagpDispatchDeviceControl: the status, ResultSize if it is set, and the device; none if the fuel is
-- used up.
unfoldable pub dispatch_device_control :
    Surroundings → ℕ → Request → Device → Option (Status × Option ℕ × Device)
unfolding initialize_tracing_ioctl instrument_procedure_ioctl check_instrumentability_ioctl
    query_statistics_ioctl shutdown_tracing
dispatch_device_control s fuel (ask_initialize r n) d =
    some (initialize_tracing_ioctl s.starting r n d)
dispatch_device_control s fuel end_tracing d = elim (shutdown_tracing s.fbt s.passes fuel d) [
  | none ↦ none
  | some (status, d') ↦ some (status, some 0, d')
]
dispatch_device_control s fuel (ask_instrument r n k) d =
    let a = instrument_procedure_ioctl s.modules s.fbt r n k d in
    some (a.status, some a.bytes_written, a.device)
dispatch_device_control s fuel (ask_instrumentability r n k) d =
    let a = check_instrumentability_ioctl s.modules s.fbt r n k in some (a.0, some a.1, d)
dispatch_device_control s fuel (ask_statistics r k) d =
    let a = query_statistics_ioctl s.size r k d in some (a.0, some a.1, d)
dispatch_device_control s fuel other_request d = some (invalid_device_request, some 0, d)

-- The statistics that DriverEntry clears.
abbrev no_statistics : SinkStatistics
no_statistics = record {
  entry_events_dropped = 0;
  exit_events_dropped = 0;
  unwind_events_dropped = 0;
  image_info_events_dropped = 0;
  failed_chunk_flushes = 0;
}

-- DriverEntry, from the statuses of AuxKlibInitialize, IoCreateDevice and IoCreateSymbolicLink: the device,
-- if it is left.
unfoldable pub driver_entry : Status → Status → Status → Status × Option Device
unfolding is_success
driver_entry aux_klib create_device create_link =
    if not (is_success aux_klib)
    then (aux_klib, none)
    else if not (is_success create_device)
    then (create_device, none)
    else if not (is_success create_link)
    then (create_link, none)
    else (
      create_link,
      some (record {
        event_sink = none;
        statistics = no_statistics;
        fbt = none;
        notified = false;
        deleted = List.[];
      }),
    )

-- JpkfagpUnload: what has become of the device when it is deleted; none if the fuel is used up.
unfoldable pub unload : Surroundings → ℕ → Device → Option Device
unfolding shutdown_tracing
unload s fuel d = elim d.event_sink [
  | none ↦ some d
  | some sink ↦ elim (shutdown_tracing s.fbt s.passes fuel d) [
    | none ↦ none
    | some (status, d') ↦ some d'
  ]
]
