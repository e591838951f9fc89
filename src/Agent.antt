-- ===== src/Agent.antt =====
-- Jpkfbt/jpkfag, the kernel agent: its device takes requests of a client, which start and end tracing and
-- instrument procedures. The NTSTATUS values are those of the agent and of the library Jpfbt that it
-- calls; `error` is any other one of a failed call.
pub mod Lifecycle
pub mod Pointers
pub mod Control
pub mod Shutdown
pub mod Dispatch
pub mod Checked
pub mod Verdict
pub mod Guarded
use ntrace.Base.{ℕ, Bool, true, false}

pub data Status : Type 0 where
  success invalid_parameter no_memory invalid_device_request : Status
  not_initialized already_initialized init_failure invalid_buffer_size : Status
  still_patched patches_active : Status
  outside_system_range outside_module instrumentation_failed type_not_supported : Status
  error : ℕ → Status

-- NT_SUCCESS
unfoldable pub is_success : Status → Bool
is_success success = true
is_success _ = false

-- Status == STATUS_FBT_PATCHES_ACTIVE
unfoldable pub is_patches_active : Status → Bool
is_patches_active patches_active = true
is_patches_active _ = false
