-- ===== src/Reader.antt =====
-- Jptrcr/jptrcr: the library that reads a trace file. This file has what its parts share: the
-- result codes, the mapped file of jptrcrp.h, and the calls of the operating system that the
-- mapping makes, which are parameters.
pub mod Map
pub mod Header
pub mod Clients
pub mod Modules
pub mod Inventory
pub mod Tables
use ntrace.Base.{ℕ, ◌+◌, Bool, true, false, Option}
use ntrace.Base.Bytes.{Memory}

-- An HRESULT: the successes, the failures that the code names, and those of the system.
pub data Hr : Type 0 where
  s_ok s_false : Hr
  e_invalidarg e_outofmemory : Hr
  e_eof e_file_empty e_invalid_signature e_invalid_version e_invalid_characteristics e_bitness : Hr
  e_reserved_fields_used e_truncated_chunk e_chunk_straddles_segment : Hr
  e_unrecognized_chunk_type e_invalid_call_handle e_invalid_transition e_module_unknown : Hr
  win32 : ℕ → Hr

pub data Result {ℓ} (A : Type ℓ) : Type ℓ where
  ok : A → Result A
  err : Hr → Result A

abbrev pub is_ok {ℓ} : {A : Type ℓ} → Result A → Bool
is_ok (ok a) = true
is_ok (err e) = false

-- MapViewOfFile (offset and size) and UnmapViewOfFile (the offset of the view): `none` if the call
-- succeeds, else what GetLastError tells.
pub record Os : Type 0 where
  pub map_view : ℕ → ℕ → Option ℕ
  pub unmap_view : ℕ → Option ℕ

-- The File and CurrentMapping structures of JPTRCRP_FILE. `content` is the file, by offset;
-- `mapped` tells that MappedAddress is not NULL.
pub record View : Type 0 where
  pub content : Memory
  pub file_size : ℕ
  pub mapped : Bool
  pub offset : ℕ
  pub map_index : ℕ

-- An address in a view: the offset in the file at which the view begins, and how far into it.
pub record Pointer : Type 0 where
  pub view : ℕ
  pub displacement : ℕ

-- The offset in the file of the byte that a pointer refers to.
abbrev pub target : Pointer → ℕ
target p = p.view + p.displacement
