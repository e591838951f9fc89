-- ===== src/Agent/Control.antt =====
-- Jpkfbt/jpkfag/control.c: the requests that start tracing, instrument procedures and ask about them. A
-- request is what stands in the buffer of the request; its arrays are functions, since they may be read
-- past the buffer.
use ntrace.Base.{
  ℕ, zero, suc, ◌+◌, ◌-◌, ◌*◌, ◌%◌, ◌^◌, Bool, true, false, not, ◌&&◌, ◌||◌, Option, none, some,
  List, [], ◌∷◌, ltb, ◌==◌, if◌then◌else◌,
}
use ntrace.Format.{segment_size, size_of_transition, offset_of_transitions}
use ntrace.Agent.{
  Status, success, invalid_parameter, instrumentation_failed, type_not_supported, is_success,
}
use ntrace.Agent.Lifecycle.{GlobalData, FbtStatistics, Setup, initialize_ex, query_statistics}
use ntrace.Agent.Pointers.{Modules, check_procedure_pointers}

-- JPKFAGP_STATISTICS
pub record SinkStatistics : Type 0 where
  pub entry_events_dropped : ℕ
  pub exit_events_dropped : ℕ
  pub unwind_events_dropped : ℕ
  pub image_info_events_dropped : ℕ
  pub failed_chunk_flushes : ℕ

-- JPKFAGP_DEVICE_EXTENSION, with the library, whether JpkfagsOnCreateThread is registered, and the event
-- sinks that have been deleted. An event sink is known by a number.
pub record Device : Type 0 where
  pub event_sink : Option ℕ
  pub statistics : SinkStatistics
  pub fbt : Option GlobalData
  pub notified : Bool
  pub deleted : List ℕ

-- The library's JpfbtInstrumentProcedure, with what it writes to FailedProcedure, if it writes it, also
-- if that is a null pointer; JpfbtRemoveInstrumentationAllProcedures; and
-- JpfbtCheckProcedureInstrumentability, with its answer if it writes one.
pub record Fbt : Type 0 where
  pub instrument_procedure : ℕ → List ℕ → Option GlobalData → Status × Option ℕ × Option GlobalData
  pub remove_all : Option GlobalData → Status × Option GlobalData
  pub check_instrumentability : ℕ → Status × Option Bool

-- The first first_entries of an array.
unfoldable pub first_entries {ℓ} : {A : Type ℓ} → ℕ → (ℕ → A) → List A
first_entries zero f = []
first_entries (suc n) f = f 0 ∷ first_entries n (λ i. f (suc i))

-- JPKFAG_IOCTL_INITIALIZE_TRACING_REQUEST
pub record InitializeRequest : Type 0 where
  pub tracing_type : ℕ
  pub buffer_count : ℕ
  pub buffer_size : ℕ
  pub file_path_length : ℕ
  pub file_path : ℕ → ℕ

abbrev pub size_of_initialize_request : ℕ
size_of_initialize_request = 16

-- FIELD_OFFSET of Log.FilePath
abbrev pub offset_of_file_path : ℕ
offset_of_file_path = 14

-- JPKFAGP_MIN_BUFFER_SIZE and JPKFAGP_MAX_BUFFER_SIZE
abbrev min_buffer_size : ℕ
min_buffer_size = 2 * size_of_transition

abbrev max_buffer_size : ℕ
max_buffer_size = segment_size - offset_of_transitions

-- Whether a request for the default type of tracing is refused.
unfoldable pub is_malformed : InitializeRequest → ℕ → Bool
is_malformed r input_length =
    r.buffer_count == 0
    || r.buffer_size == 0
    || ltb max_buffer_size r.buffer_size
    || ltb r.buffer_size min_buffer_size
    || r.file_path_length == 0
    || ltb input_length (offset_of_file_path + (r.file_path_length - 1) * 2)

-- JPKFAGP_THREAD_DATA_PREALLOCATIONS, and the flags JPFBT_FLAG_AUTOCOLLECT,
-- JPFBT_FLAG_DISABLE_LAZY_ALLOCATION and JPFBT_FLAG_DISABLE_EAGER_BUFFER_COLLECTION
abbrev preallocations : ℕ
preallocations = 512

abbrev init_flags : ℕ
init_flags = 7

-- What starting asks of its surroundings: JpkfagpCreateDefaultEventSink, with the sink, and
-- PsSetCreateThreadNotifyRoutine.
pub record Starting : Type 0 where
  pub create_sink : List ℕ → Status × ℕ
  pub setup : Setup
  pub set_notify : Status

-- JpkfagpInitializeTracingIoctl of the retail build: its status, the bytes written if they are set, and
-- the device.
unfoldable pub initialize_tracing_ioctl :
    Starting → Option InitializeRequest → ℕ → Device → Status × Option ℕ × Device
unfolding is_malformed first_entries initialize_ex is_success
initialize_tracing_ioctl starting none input_length d = (invalid_parameter, none, d)
initialize_tracing_ioctl starting (some r) input_length d =
    let (created, sink) = starting.create_sink (first_entries r.file_path_length r.file_path) in
    let (status, fbt) =
      initialize_ex starting.setup r.buffer_count r.buffer_size preallocations init_flags d.fbt in
    if ltb input_length size_of_initialize_request
    then (invalid_parameter, none, d)
    else if not (r.tracing_type == 0)
    then (type_not_supported, some 0, d)
    else if is_malformed r input_length
    then (invalid_parameter, some 0, d)
    else if not (is_success created)
    then (created, some 0, d)
    else if is_success status
    then (
      starting.set_notify,
      some 0,
      record d { event_sink = some sink; fbt = fbt; notified = is_success starting.set_notify },
    )
    else (status, some 0, record d { fbt = fbt; deleted = sink ∷ d.deleted })

-- JPKFAG_IOCTL_INSTRUMENT_PROCEDURE_REQUEST
pub record InstrumentRequest : Type 0 where
  pub action : ℕ
  pub procedure_count : ℕ
  pub procedures : ℕ → ℕ

-- JpfbtAddInstrumentation
abbrev pub add_instrumentation : ℕ
add_instrumentation = 0

-- FIELD_OFFSET of Procedures[ n ], a ULONG
unfoldable pub offset_of_procedure : ℕ → ℕ
offset_of_procedure n = (8 + n * 4) % 2 ^ 32

abbrev pub size_of_instrument_response : ℕ
size_of_instrument_response = 8

-- What comes of a request: the status, the bytes written, the response if one is transferred (its Status
-- and its FailedProcedure), the calls of OnImageInvolved, and the device.
pub record Answer : Type 0 where
  pub status : Status
  pub bytes_written : ℕ
  pub response : Option (Status × ℕ)
  pub images : List (ℕ × ℕ × List ℕ)
  pub device : Device

-- The field FailedProcedure of the response shares its place with ProcedureCount of the request: unless
-- it is set, it is that number.
unfoldable pub failed_procedure : InstrumentRequest → Option ℕ → ℕ
failed_procedure r none = r.procedure_count
failed_procedure r (some p) = p

unfoldable pub has_event_sink : Device → Bool
has_event_sink d = elim d.event_sink [ none ↦ false | some s ↦ true ]

-- The part of JpkfagpInstrumentProcedureIoctl behind the check of the array's bounds.
unfoldable pub instrument_checked : Modules → Fbt → InstrumentRequest → Device → Answer
unfolding check_procedure_pointers first_entries failed_procedure has_event_sink is_success
instrument_checked modules fbt r d =
    let procedures = first_entries r.procedure_count r.procedures in
    let (checked, outside, images) =
      check_procedure_pointers modules procedures
        ((r.action == add_instrumentation) && has_event_sink d) in
    let (status, failed, global) = fbt.instrument_procedure r.action procedures d.fbt in
    let d' = record d { fbt = global } in
    if not (is_success checked)
    then record {
      status = instrumentation_failed;
      bytes_written = size_of_instrument_response;
      response = some (checked, failed_procedure r outside);
      images = images;
      device = d;
    }
    else if is_success status
    then record {
      status = success;
      bytes_written = 0;
      response = none;
      images = images;
      device = d';
    }
    else if failed_procedure r failed == 0
    then record {
      status = status;
      bytes_written = 0;
      response = none;
      images = images;
      device = d';
    }
    else record {
      status = instrumentation_failed;
      bytes_written = size_of_instrument_response;
      response = some (status, failed_procedure r failed);
      images = images;
      device = d';
    }

-- JpkfagpInstrumentProcedureIoctl
unfoldable pub instrument_procedure_ioctl :
    Modules → Fbt → Option InstrumentRequest → ℕ → ℕ → Device → Answer
unfolding offset_of_procedure instrument_checked
instrument_procedure_ioctl modules fbt request input_length output_length d =
    let refused : Answer = record {
      status = invalid_parameter;
      bytes_written = 0;
      response = none;
      images = [];
      device = d;
    } in
    elim request [
      | none ↦ refused
      | some r ↦
          if ltb input_length (offset_of_procedure 0)
            || ltb output_length size_of_instrument_response
            || ltb input_length (offset_of_procedure r.procedure_count)
          then refused
          else instrument_checked modules fbt r d
    ]

-- JpkfagpCheckInstrumentabilityIoctl, for the procedure of its request: the status, the bytes written,
-- and the response: Instrumentable and ProcedurePadding. Instrumentable shares its place with the lowest
-- byte of the procedure.
unfoldable pub check_instrumentability_ioctl :
    Modules → Fbt → Option ℕ → ℕ → ℕ → Status × ℕ × Option (Bool × ℕ)
unfolding check_procedure_pointers is_success
check_instrumentability_ioctl modules fbt none input_length output_length =
    (invalid_parameter, 0, none)
check_instrumentability_ioctl modules fbt (some procedure) input_length output_length =
    let (checked, outside, images) = check_procedure_pointers modules (procedure ∷ []) false in
    let instrumentable : Bool = elim (fbt.check_instrumentability procedure).1 [
      | none ↦ not (procedure % 2 ^ 8 == 0)
      | some b ↦ b
    ] in
    if ltb input_length 4 || ltb output_length 4 || procedure == 0
    then (invalid_parameter, 0, none)
    else if not (is_success checked)
    then (checked, 0, none)
    else (success, 4, some (instrumentable, if instrumentable then 5 else 0))

-- JPKFBT_STATISTICS
pub record KfbtStatistics : Type 0 where
  pub fbt : FbtStatistics
  pub tracing : SinkStatistics

abbrev zero_statistics : KfbtStatistics
zero_statistics = record {
  fbt = record {
    patch_count = 0;
    free = 0;
    dirty = 0;
    collected = 0;
    free_preallocation_pool_size = 0;
    failed_preallocation_pool_allocations = 0;
    reentrant_thunk_executions_detected = 0;
    events_captured = 0;
    exceptions_unwindings = 0;
    thread_teardowns = 0;
  };
  tracing = record {
    entry_events_dropped = 0;
    exit_events_dropped = 0;
    unwind_events_dropped = 0;
    image_info_events_dropped = 0;
    failed_chunk_flushes = 0;
  };
}

-- JpkfagpQueryStatisticsIoctl; `size` is that of the response.
unfoldable pub query_statistics_ioctl : ℕ → Bool → ℕ → Device → Status × ℕ × Option KfbtStatistics
unfolding query_statistics
query_statistics_ioctl size has_buffer output_length d =
    if not has_buffer || ltb output_length size
    then (invalid_parameter, 0, none)
    else elim (query_statistics d.fbt).1 [
      | none ↦ (success, size, some zero_statistics)
      | some s ↦ (success, size, some (record { fbt = s; tracing = d.statistics }))
    ]
