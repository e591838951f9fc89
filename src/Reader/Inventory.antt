-- ===== src/Reader/Inventory.antt =====
-- JptrcrsPerformFileInventory of Jptrcr/jptrcr/open.c: the walk over the chunks of the file that
-- registers its modules and its trace chunks, and JptrcrOpenFile around it. The loop takes fuel.
pub mod Chunks
pub mod Registered
use ntrace.Base.{
  ℕ, zero, suc, ◌+◌, Bool, true, false, not, Option, some, none, List, [], ◌∷◌, ◌==◌, ltb,
  if◌then◌else◌,
}
use ntrace.Base.Bytes.{Memory}
use ntrace.Base.Table.{Hashtable}
use ntrace.Format.{
  ClientId, ChunkHeader, chunk_header_at, client_at, image_info_at, size_of_chunk_header,
  size_of_file_header, segment_size, chunk_type_pad, chunk_type_image_info, chunk_type_trace_buffer,
}
use ntrace.Reader.{Hr, Result, ok, err, Os, View, Pointer, target}
use ntrace.Reader.Map.{map_at}
use ntrace.Reader.Header.{read_file_header}
use ntrace.Reader.Clients.{Mallocs, register_trace_buffer_client}
use ntrace.Reader.Modules.{LoadedModule, Loads, load_module}

-- The checks of a chunk's header, whatever its type.
unfoldable pub check_chunk : ChunkHeader → Hr
check_chunk h =
    if not (h.reserved == 0)
    then Hr.e_reserved_fields_used
    else if ltb h.size size_of_chunk_header
    then Hr.e_truncated_chunk
    else if ltb segment_size h.size
    then Hr.e_chunk_straddles_segment
    else Hr.s_ok

-- What the memory and the symbol engine do for the chunk at an offset.
pub record Surroundings : Type 0 where
  pub mallocs : ℕ → Mallocs
  pub loads : ℕ → Loads

-- What the steps of JptrcrOpenFile before the first mapping come to: the error of a call of the
-- system, if it fails, whether the file is on a disk, and whether memory is given.
pub record Opening : Type 0 where
  pub create_file : Option ℕ
  pub on_disk : Bool
  pub get_file_size : Option ℕ
  pub create_file_mapping : Option ℕ
  pub malloc : Bool
  pub modules_table : Bool
  pub clients_table : Bool
  pub sym_initialize : Option ℕ

-- The first failure, in the order of the code.
unfoldable pub prepare : Opening → ℕ → Hr
prepare o size = elim o.create_file [
  | some error ↦ Hr.win32 error
  | none ↦ if not o.on_disk then Hr.e_invalidarg else elim o.get_file_size [
    | some error ↦ Hr.win32 error
    | none ↦ if size == 0 then Hr.e_file_empty else elim o.create_file_mapping [
      | some error ↦ Hr.win32 error
      | none ↦
          if not o.malloc
          then Hr.e_outofmemory
          else if not o.modules_table
          then Hr.e_outofmemory
          else if not o.clients_table
          then Hr.e_outofmemory
          else elim o.sym_initialize [ some error ↦ Hr.win32 error | none ↦ Hr.s_ok ]
    ]
  ]
]

module _ (clients : Hashtable ClientId (List ℕ)) (modules : Hashtable ℕ LoadedModule) where
  -- JPTRCRP_FILE
  pub record File : Type 0 where
    pub view : View
    pub clients_table : clients.Table
    pub modules_table : modules.Table

module _ (os : Os) (clients : Hashtable ClientId (List ℕ)) (modules : Hashtable ℕ LoadedModule)
    (around : Surroundings) where
  -- The switch over the type of the chunk, which is mapped at `a` and stands at `offset`.
  unfoldable pub take_chunk : ℕ → ℕ → File clients modules → Hr × File clients modules
  take_chunk a offset f =
      let m = f.view.content in
      let type = (chunk_header_at m a).type in
      if type == chunk_type_pad
      then (Hr.s_ok, f)
      else if type == chunk_type_image_info
      then (let (e, t) =
            load_module modules (around.loads offset) f.modules_table
              (image_info_at m a).load_address (image_info_at m a).size in
          (e, record f { modules_table = t }))
      else if type == chunk_type_trace_buffer
      then (let (e, t) =
            register_trace_buffer_client clients (around.mallocs offset) f.clients_table
              (client_at m a) offset in
          (e, record f { clients_table = t }))
      else (Hr.e_unrecognized_chunk_type, f)

  -- One round of the loop on a chunk that is mapped.
  unfoldable pub visit : ℕ → ℕ → File clients modules → Hr × File clients modules
  visit a offset f = elim (check_chunk (chunk_header_at f.view.content a)) [
    | Hr.s_ok ↦ take_chunk a offset f
    | e ↦ (e, f)
  ]

  -- `none` if the fuel runs out.
  unfoldable pub walk : ℕ → ℕ → File clients modules → Option (Hr × File clients modules)
  walk zero offset f = none
  walk (suc fuel) offset f =
      let (mapping, w) = map_at os f.view offset in
      elim mapping [
        | err e ↦ elim e [
          | Hr.e_eof ↦ some (Hr.s_ok, record f { view = w })
          | other ↦ some (other, record f { view = w })
        ]
        | ok p ↦
            let (status, g) = visit (target p) offset (record f { view = w }) in
            elim status [
              | Hr.s_ok ↦ walk fuel (offset + (chunk_header_at w.content (target p)).size) g
              | e ↦ some (e, g)
            ]
      ]

  unfoldable pub perform_file_inventory : File clients modules → Option (Hr × File clients modules)
  perform_file_inventory f = walk (f.view.file_size + 1) size_of_file_header f

  -- JptrcrOpenFile on a file with these bytes: the tables are empty and nothing is mapped.
  unfoldable pub open_file : Opening → Memory → ℕ → Option (Hr × File clients modules)
  open_file opening content size =
      let f : File clients modules = record {
        view = record {
          content = content;
          file_size = size;
          mapped = false;
          offset = 0;
          map_index = 0;
        };
        clients_table = clients.empty;
        modules_table = modules.empty;
      } in
      elim (prepare opening size) [
        | Hr.s_ok ↦
            let (status, w) = read_file_header os f.view in
            elim status [
              | Hr.s_ok ↦ perform_file_inventory (record f { view = w })
              | e ↦ some (e, record f { view = w })
            ]
        | e ↦ some (e, f)
      ]
