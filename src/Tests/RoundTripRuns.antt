-- ===== src/Tests/RoundTripRuns.antt =====
-- A session with one buffer and one image event.
use ntrace.Base.{
  ℕ, ◌+◌, ◌*◌, ◌≡◌, refl, arith, List, [], ◌∷◌, ◌++◌, none, some, true, All, replicate, inl, inr,
}
use ntrace.Base.Bytes.{u32_bytes, u64_bytes}
use ntrace.Format.{Transition, transition_at}
use ntrace.Reader.{Hr}
use ntrace.Reader.Clients.{equals_client}
use ntrace.Reader.Inventory.{Opening, File, open_file}
use ntrace.Calls.Enum.{enum_calls, symbols_of, read_transitions}
use ntrace.Calls.Forest.{Located, Forest, quiet, call, trace, IsTraced, silent, traced, Lists}
use ntrace.Sink.{Zw, OutChunk, Sink, status_success}
use ntrace.Sink.Flush.{create_default_event_sink}
use ntrace.RoundTrip.{Event, buffer, image, buffers, session}
use ntrace.RoundTrip.Logging.{IsEvent}
use ntrace.RoundTrip.Session.{Opens, ReadsBack, session-ReadsBack}
use ntrace.RoundTrip.Enumerated.{recorded, transitions_in, session-enum_calls}
use ntrace.Tests.Data.{
  os, os-MapsViews, clients, modules, around, around-Succeeds, thread, nothing, two_transitions,
}

abbrev zw : Zw
zw = record { write_file = λ p n. 0; flush_buffers_file = none }

abbrev opening : Opening
opening = record {
  create_file = none;
  on_disk = true;
  get_file_size = none;
  create_file_mapping = none;
  malloc = true;
  modules_table = true;
  clients_table = true;
  sym_initialize = none;
}

opening-Opens : Opens opening
opening-Opens = record {
  create_file = refl;
  on_disk = refl;
  get_file_size = refl;
  create_file_mapping = refl;
  malloc = refl;
  modules_table = refl;
  clients_table = refl;
  sym_initialize = refl;
}

abbrev image_event : OutChunk
image_event = record {
  header = record { type = 1; reserved = 0; size = 32 };
  rest = replicate 24 0;
  body = [];
}

abbrev events : List Event
events = image image_event ∷ buffer thread two_transitions ∷ []

events-IsEvent : All IsEvent events
events-IsEvent = (
  record {
    output = record {
      reserved = refl;
      known = omega arith;
      whole = omega arith;
      small = omega arith;
      aligned = refl;
      counted = refl;
    };
    type = refl;
  },
  (
    record {
      process = omega arith;
      thread = omega arith;
      some_bytes = omega arith;
      whole = refl;
      fits = omega arith;
    },
    tt,
  ),
)

session-ReadsBack_example :
    ReadsBack os clients modules around around-Succeeds os-MapsViews opening opening-Opens zw
      (λ p n. refl)
      nothing
      events
session-ReadsBack_example =
    session-ReadsBack os clients modules around around-Succeeds os-MapsViews opening opening-Opens
      zw (λ p n. refl) nothing events events-IsEvent

abbrev transition_bytes : ℕ → ℕ → ℕ → ℕ → List ℕ
transition_bytes type time procedure info =
    u64_bytes (type + 16 * time) ++ (u32_bytes procedure ++ u32_bytes info)

-- A call that makes another call, in two buffers with a buffer of another thread between them.
abbrev nested_events : List Event
nested_events =
    image image_event
    ∷ buffer thread (transition_bytes 0 5 0x1000 0x2000 ++ transition_bytes 0 6 0x3000 0x1010)
    ∷ buffer (record { process_id = 3; thread_id = 8 }) two_transitions
    ∷ buffer thread (transition_bytes 2 8 0x3000 0xc0000005 ++ transition_bytes 1 9 0x1000 1)
    ∷ []

nested_events-IsEvent : All IsEvent nested_events
nested_events-IsEvent = (
  events-IsEvent.0,
  (
    record {
      process = omega arith;
      thread = omega arith;
      some_bytes = omega arith;
      whole = refl;
      fits = omega arith;
    },
    (
      record {
        process = omega arith;
        thread = omega arith;
        some_bytes = omega arith;
        whole = refl;
        fits = omega arith;
      },
      (
        record {
          process = omega arith;
          thread = omega arith;
          some_bytes = omega arith;
          whole = refl;
          fits = omega arith;
        },
        tt,
      ),
    ),
  ),
)

abbrev at_place : ℕ → ℕ → Transition → Located
at_place position index t = record {
  ref = record { client = thread; position = position };
  index = index;
  transition = t;
}

abbrev outer_entry : Located
outer_entry = at_place 0 0 (record { type = 0; timestamp = 5; procedure = 0x1000; info = 0x2000 })

abbrev inner_entry : Located
inner_entry = at_place 0 1 (record { type = 0; timestamp = 6; procedure = 0x3000; info = 0x1010 })

abbrev inner_exit : Located
inner_exit =
    at_place 1 0 (record { type = 2; timestamp = 8; procedure = 0x3000; info = 0xc0000005 })

abbrev outer_exit : Located
outer_exit = at_place 1 1 (record { type = 1; timestamp = 9; procedure = 0x1000; info = 1 })

abbrev nested_calls : Forest
nested_calls = call outer_entry outer_exit (call inner_entry inner_exit quiet quiet) quiet

nested_calls-IsTraced : IsTraced nested_calls
nested_calls-IsTraced =
    traced refl (inl refl) refl (traced refl (inr refl) refl silent silent) silent

nested_calls-recorded : recorded thread 0 (buffers nested_events) ≡ trace nested_calls []
unfolding recorded buffers trace transitions_in read_transitions transition_at equals_client
nested_calls-recorded = refl

session-enum_calls_example :
    (sink : Sink) × (create_default_event_sink zw status_success true nothing
      ≡ (status_success, some sink))
    × (g : File clients modules) × (open_file os clients modules around opening
          (session zw nested_events sink).content
          (session zw nested_events sink).file_size
        ≡ some (Hr.s_ok, g))
    × ((enum_calls os
          (symbols_of (λ a. none) modules g.modules_table)
          (clients.get g.clients_table)
          thread
          g.view).0
        ≡ Hr.s_ok)
    × Lists
        (enum_calls os
          (symbols_of (λ a. none) modules g.modules_table)
          (clients.get g.clients_table)
          thread
          g.view).2.delivered
        nested_calls
session-enum_calls_example =
    session-enum_calls os clients modules around around-Succeeds os-MapsViews opening opening-Opens
      zw (λ p n. refl) (λ a. none) nothing nested_events thread outer_entry outer_exit
      (call inner_entry inner_exit quiet quiet) quiet nested_events-IsEvent nested_calls-IsTraced
      nested_calls-recorded
