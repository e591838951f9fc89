-- ===== src/Format.antt =====
-- include/jptrcfmt.h: the constants and structures of a trace file, and how the code finds their
-- fields in memory. The structures are packed to 4 bytes, so a field stands at the sum of the
-- sizes before it.
pub mod Layout
use ntrace.Base.{ℕ, ◌+◌, ◌*◌, ◌/◌, ◌%◌, ◌++◌, List, [], ◌∷◌}
use ntrace.Base.Bytes.{Memory, read_u16, read_u32, read_u64, u16_bytes, u32_bytes, u64_bytes}

abbrev pub segment_size : ℕ
segment_size = 262144

abbrev pub chunk_alignment : ℕ
chunk_alignment = 8

-- 'CRTJ', a multi-character constant: the first character is the most significant byte.
abbrev pub header_signature : ℕ
header_signature = 0x4352544a

abbrev pub header_version : ℕ
header_version = 0x1000

abbrev pub characteristic_timestamp_tsc : ℕ
characteristic_timestamp_tsc = 1

abbrev pub characteristic_32bit : ℕ
characteristic_32bit = 4

abbrev pub chunk_type_pad : ℕ
chunk_type_pad = 0

abbrev pub chunk_type_image_info : ℕ
chunk_type_image_info = 1

abbrev pub chunk_type_trace_buffer : ℕ
chunk_type_trace_buffer = 2

abbrev pub transition_entry : ℕ
transition_entry = 0

abbrev pub transition_exit : ℕ
transition_exit = 1

abbrev pub transition_unwind : ℕ
transition_unwind = 2

-- JPTRC_FILE_HEADER. The two reserved ULONGs are written as zero and never read.
pub record FileHeader : Type 0 where
  pub signature : ℕ
  pub version : ℕ
  pub characteristics : ℕ

abbrev pub size_of_file_header : ℕ
size_of_file_header = 16

unfoldable pub file_header_at : Memory → ℕ → FileHeader
file_header_at m a = record {
  signature = read_u32 m a;
  version = read_u16 m (a + 4);
  characteristics = read_u16 m (a + 6);
}

unfoldable pub file_header_bytes : FileHeader → List ℕ
file_header_bytes h =
    u32_bytes h.signature
    ++ (u16_bytes h.version ++ (u16_bytes h.characteristics ++ (u32_bytes 0 ++ u32_bytes 0)))

-- JPTRC_CHUNK_HEADER
pub record ChunkHeader : Type 0 where
  pub type : ℕ
  pub reserved : ℕ
  pub size : ℕ

abbrev pub size_of_chunk_header : ℕ
size_of_chunk_header = 8

unfoldable pub chunk_header_at : Memory → ℕ → ChunkHeader
chunk_header_at m a = record {
  type = read_u16 m a;
  reserved = read_u16 m (a + 2);
  size = read_u32 m (a + 4);
}

unfoldable pub chunk_header_bytes : ChunkHeader → List ℕ
chunk_header_bytes h = u16_bytes h.type ++ (u16_bytes h.reserved ++ u32_bytes h.size)

-- JPTRC_PROCEDURE_TRANSITION32. The first ULONGLONG holds `type` in its low 2 bits, 2 unused bits,
-- and the timestamp in the upper 60. `info` is the union of CallerIp, ReturnValue and
-- Exception.Code.
pub record Transition : Type 0 where
  pub type : ℕ
  pub timestamp : ℕ
  pub procedure : ℕ
  pub info : ℕ

abbrev pub size_of_transition : ℕ
size_of_transition = 16

unfoldable pub transition_at : Memory → ℕ → Transition
transition_at m a = record {
  type = read_u64 m a % 4;
  timestamp = read_u64 m a / 16;
  procedure = read_u32 m (a + 8);
  info = read_u32 m (a + 12);
}

-- JPTRC_TRACE_BUFFER_CHUNK32: the header, the client, then the transitions.
pub record ClientId : Type 0 where
  pub process_id : ℕ
  pub thread_id : ℕ

abbrev pub offset_of_transitions : ℕ
offset_of_transitions = 16

unfoldable pub client_at : Memory → ℕ → ClientId
client_at m a = record { process_id = read_u32 m (a + 8); thread_id = read_u32 m (a + 12) }

-- JPTRC_IMAGE_INFO_CHUNK; `path` is the offset of the Path array in the chunk.
pub record ImageInfo : Type 0 where
  pub load_address : ℕ
  pub size : ℕ
  pub debug_directory_offset : ℕ
  pub debug_directory_size : ℕ
  pub debug_size : ℕ
  pub path_size : ℕ

abbrev pub offset_of_path : ℕ
offset_of_path = 28

unfoldable pub image_info_at : Memory → ℕ → ImageInfo
image_info_at m a = record {
  load_address = read_u64 m (a + 8);
  size = read_u32 m (a + 16);
  debug_directory_offset = read_u16 m (a + 20);
  debug_directory_size = read_u16 m (a + 22);
  debug_size = read_u16 m (a + 24);
  path_size = read_u16 m (a + 26);
}
