-- ===== src/Tests/Data.antt =====
-- The data of the runs: a system whose calls succeed, tables that are association lists, and a
-- small trace file with a pad chunk and a trace chunk of two transitions.
use ntrace.Base.{ℕ, refl, arith, List, [], ◌∷◌, ◌++◌, none, ◌==◌, ==_iff, true, false}
use ntrace.Base.Bytes.{Memory, store, u32_bytes}
use ntrace.Base.Table.{Hashtable, assoc_table}
use ntrace.Format.{ClientId, ChunkHeader, file_header_bytes, chunk_header_bytes}
use ntrace.Reader.{Hr, Os, View}
use ntrace.Reader.Map.Window.{IsOn, MapsViews}
use ntrace.Reader.Clients.{equals_client}
use ntrace.Reader.Modules.{LoadedModule}
use ntrace.Reader.Inventory.{File, Surroundings}
use ntrace.Reader.Inventory.Registered.{equals_client_iff, Succeeds}
use ntrace.Calls.{Symbols}

abbrev pub os : Os
os = record { map_view = λ a n. none; unmap_view = λ a. none }

abbrev pub os-MapsViews : MapsViews os
os-MapsViews = (λ a n. refl, λ a. refl)

abbrev pub clients : Hashtable ClientId (List ℕ)
clients = assoc_table equals_client equals_client_iff

abbrev pub modules : Hashtable ℕ LoadedModule
modules = assoc_table ◌==◌ ==_iff

abbrev pub around : Surroundings
around = record {
  mallocs = λ o. record { client = true; chunk_ref = true };
  loads = λ o. record { malloc = true; to_wide = (Hr.s_ok, 97 ∷ []); symbols = true };
}

abbrev pub around-Succeeds : Succeeds around
around-Succeeds = λ o. (refl, refl, refl, refl)

abbrev pub symbols : Symbols
symbols = record { sym_from_addr = λ a. none; get_module = λ a old. none }

abbrev pub thread : ClientId
thread = record { process_id = 3; thread_id = 7 }

abbrev pub nothing : Memory
nothing i = 0

-- An entry to the procedure at 0x1000 at time 5, called from 0x2000, and an exit at 9 with 1.
abbrev pub two_transitions : List ℕ
two_transitions =
    (80 ∷ 0 ∷ 0 ∷ 0 ∷ 0 ∷ 0 ∷ 0 ∷ 0 ∷ [])
    ++ (u32_bytes 0x1000
        ++ (u32_bytes 0x2000
            ++ ((145 ∷ 0 ∷ 0 ∷ 0 ∷ 0 ∷ 0 ∷ 0 ∷ 0 ∷ []) ++ (u32_bytes 0x1000 ++ u32_bytes 1))))

abbrev pub pad_of_8 : ChunkHeader
pad_of_8 = record { type = 0; reserved = 0; size = 8 }

abbrev pub trace_of_48 : ChunkHeader
trace_of_48 = record { type = 2; reserved = 0; size = 48 }

abbrev pub small_file : Memory
small_file = store nothing 0 (
    file_header_bytes (record { signature = 0x4352544a; version = 0x1000; characteristics = 5 })
    ++ (chunk_header_bytes pad_of_8
        ++ (chunk_header_bytes trace_of_48 ++ (u32_bytes 3 ++ (u32_bytes 7 ++ two_transitions)))))

abbrev pub small_view : View
small_view = record {
  content = small_file;
  file_size = 72;
  mapped = false;
  offset = 0;
  map_index = 0;
}

pub small_view-IsOn : IsOn small_file 72 small_view
small_view-IsOn = record {
  content = refl;
  file_size = refl;
  consistent = record { window = λ q. absurd (ground arith) };
}

abbrev pub small : File clients modules
small = record { view = small_view; clients_table = clients.empty; modules_table = modules.empty }
