-- ===== src/Calls.antt =====
-- Jptrcr/jptrcr/client.c, the enumeration of calls: the structures of include/jptrcr.h that it
-- fills. The chunks of one client stand in a list; a JPTRCRP_CHUNK_REF pointer is the client and
-- the place in that list.
pub mod Scan
pub mod Enum
pub mod Forest
use ntrace.Base.{ℕ, Option, some, none}
use ntrace.Format.{ClientId, Transition}

pub data EntryType : Type 0 where
  normal_entry synthetic_entry : EntryType

pub data ExitType : Type 0 where
  normal_exit synthetic_exit exception : ExitType

pub record ChunkRef : Type 0 where
  pub client : ClientId
  pub position : ℕ

-- JPTRCR_CALL_HANDLE; `none` is the NULL chunk.
pub record CallHandle : Type 0 where
  pub chunk : Option ChunkRef
  pub index : ℕ

-- JPTRCR_MODULE, without the two pointers into its path buffer.
pub record Module : Type 0 where
  pub load_address : ℕ
  pub size : ℕ

-- What the code reads of a SYMBOL_INFO.
pub record Symbol : Type 0 where
  pub address : ℕ
  pub mod_base : ℕ

-- JPTRCR_CALL; `result` is the union of ReturnValue and ExceptionCode.
pub record Call : Type 0 where
  pub entry_type : EntryType
  pub exit_type : ExitType
  pub handle : CallHandle
  pub procedure : ℕ
  pub symbol : Option Symbol
  pub module_info : Option Module
  pub entry_timestamp : ℕ
  pub exit_timestamp : ℕ
  pub caller_ip : ℕ
  pub child_calls : ℕ
  pub result : ℕ

-- What the enumeration asks of the symbol engine (SymFromAddr) and of the module table:
-- JptrcrGetModule, with what its out parameter held before.
pub record Symbols : Type 0 where
  pub sym_from_addr : ℕ → Option Symbol
  pub get_module : ℕ → Option Module → Option Module
