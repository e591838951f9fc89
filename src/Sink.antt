-- ===== src/Sink.antt =====
-- Jpkfbt/jpkfag/defevntsink.c: the event sink of the kernel agent, which writes the trace file.
-- The file is given by its bytes and its size; the system's part is a parameter.
pub mod Flush
pub mod Agree
pub mod Laid
pub mod Writes
pub mod Chunks
pub mod Events
use ntrace.Base.{
  ℕ, ◌+◌, ◌-◌, ◌%◌, ◌^◌, ◌<◌, Bool, Option, some, none, List, [], ◌∷◌, ◌++◌, length, ltb,
  if◌then◌else◌,
}
use ntrace.Base.Bytes.{Memory, store}
use ntrace.Format.{ChunkHeader}
use Prim.Native.Nat.{max}

-- NT_SUCCESS of an NTSTATUS.
abbrev pub nt_success : ℕ → Bool
nt_success status = ltb status (2 ^ 31)

abbrev pub status_success : ℕ
status_success = 0

-- The status with which ZwWriteFile writes a number of bytes at a position, and that of
-- ZwFlushBuffersFile, if the system has it. A write that fails writes nothing.
pub record Zw : Type 0 where
  pub write_file : ℕ → ℕ → ℕ
  pub flush_buffers_file : Option ℕ

-- A chunk to be written: its header, what follows the header in the same structure, and the body,
-- which is empty where the code passes NULL.
pub record OutChunk : Type 0 where
  pub header : ChunkHeader
  pub rest : List ℕ
  pub body : List ℕ

-- JPKFAGP_DEF_EVENT_SINK, with the file behind its handle, and the statistics that it counts. The
-- head of `image_info_queue` is the entry that was pushed last.
pub record Sink : Type 0 where
  pub content : Memory
  pub file_size : ℕ
  pub file_position : ℕ
  pub image_info_queue : List OutChunk
  pub failed_chunk_flushes : ℕ
