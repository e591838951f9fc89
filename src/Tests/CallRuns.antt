-- ===== src/Tests/CallRuns.antt =====
-- The enumeration of the calls of the small file.
use ntrace.Base.{ℕ, ◌+◌, ◌*◌, List, [], ◌∷◌, ◌++◌, Option, some, false}
use ntrace.Base.Bytes.{Memory, store, u32_bytes, u64_bytes}
use ntrace.Format.{ClientId, Transition, chunk_header_bytes}
use ntrace.Reader.{View}
use ntrace.Calls.{ChunkRef}
use ntrace.Calls.Forest.{Located, Forest, quiet, call}
use ntrace.Tests.Data.{thread, nothing}

abbrev known : ClientId → Option (List ℕ)
known c = some (24 ∷ [])

abbrev first_chunk : ChunkRef
first_chunk = record { client = thread; position = 0 }

abbrev enter : Located
enter = record {
  ref = first_chunk;
  index = 0;
  transition = record { type = 0; timestamp = 5; procedure = 0x1000; info = 0x2000 };
}

abbrev leave : Located
leave = record {
  ref = first_chunk;
  index = 1;
  transition = record { type = 1; timestamp = 9; procedure = 0x1000; info = 1 };
}

abbrev one_call : Forest
one_call = call enter leave quiet quiet

abbrev transition_bytes : ℕ → ℕ → ℕ → ℕ → List ℕ
transition_bytes type time procedure info =
    u64_bytes (type + 16 * time) ++ (u32_bytes procedure ++ u32_bytes info)

-- A file with a call that makes another call, which ends with an exception.
abbrev nested_file : Memory
nested_file = store nothing 16 (
    chunk_header_bytes (record { type = 2; reserved = 0; size = 80 })
    ++ (u32_bytes 3
        ++ (u32_bytes 7
            ++ (transition_bytes 0 5 0x1000 0x2000
                ++ (transition_bytes 0 6 0x3000 0x1010
                    ++ (transition_bytes 2 8 0x3000 0xc0000005
                        ++ transition_bytes 1 9 0x1000 1))))))

abbrev nested_view : View
nested_view = record {
  content = nested_file;
  file_size = 96;
  mapped = false;
  offset = 0;
  map_index = 0;
}

abbrev at_index : ℕ → Transition → Located
at_index index t = record { ref = first_chunk; index = index; transition = t }

abbrev outer_entry : Located
outer_entry = at_index 0 (record { type = 0; timestamp = 5; procedure = 0x1000; info = 0x2000 })

abbrev inner_entry : Located
inner_entry = at_index 1 (record { type = 0; timestamp = 6; procedure = 0x3000; info = 0x1010 })

abbrev inner_exit : Located
inner_exit = at_index 2 (record { type = 2; timestamp = 8; procedure = 0x3000; info = 0xc0000005 })

abbrev outer_exit : Located
outer_exit = at_index 3 (record { type = 1; timestamp = 9; procedure = 0x1000; info = 1 })

abbrev inner_call : Forest
inner_call = call inner_entry inner_exit quiet quiet

abbrev known_nested : ClientId → Option (List ℕ)
known_nested c = some (16 ∷ [])
