-- ===== src/Tracing.antt =====
-- Jpfsv/jpfsv, the part of the debugger that traces: the tracepoints and the trace session of a process
-- or of the kernel. The interface of a trace session is JPFSV_TRACE_SESSION of internal.h.
pub mod Points
pub mod Context
pub mod Loaded
pub mod Created
pub mod Cleaned
pub mod Synced
pub mod Traced
pub mod Settled
pub mod KernelSession
pub mod ProcessSession
use ntrace.Base.{
  ℕ, refl, arith, ◌≡◌, ◌≢◌, Bool, true, false, not, ◌&&◌, ◌||◌, Option, List, [], ◌∷◌, ◌==◌,
}

-- The NTSTATUS of a call; `nt_error` is any other one of a failed call.
pub data NtStatus : Type 0 where
  nt_success nt_peer_died nt_patches_active : NtStatus
  nt_error : ℕ → NtStatus

-- The HRESULTs; `failure` is HRESULT_FROM_NT of a status that is no success, or HRESULT_FROM_WIN32 of an
-- error.
pub data HResult : Type 0 where
  s_ok : HResult
  s_false : HResult
  e_unexpected : HResult
  e_invalidarg : HResult
  e_outofmemory : HResult
  peer_died : HResult
  traces_active : HResult
  no_tracesession : HResult
  tracepoint_exists : HResult
  tracepoint_not_found : HResult
  unsupported_tracing_type : HResult
  failure : NtStatus → HResult

-- SUCCEEDED
unfoldable pub succeeded : HResult → Bool
succeeded s_ok = true
succeeded s_false = true
succeeded _ = false

-- Hr == S_OK, and S_OK == Hr || JPFSV_E_PEER_DIED == Hr
unfoldable pub is_ok_or_died : HResult → Bool
is_ok_or_died s_ok = true
is_ok_or_died peer_died = true
is_ok_or_died _ = false

-- NT_SUCCESS
unfoldable pub nt_succeeded : NtStatus → Bool
nt_succeeded nt_success = true
nt_succeeded _ = false

-- S_OK, or HRESULT_FROM_NT of a failure, which keeps the bit that marks a failure.
unfoldable pub hresult_from_nt : NtStatus → HResult
hresult_from_nt nt_success = s_ok
hresult_from_nt status = failure status

-- JPFSV_TRACE_ACTION
pub data TraceAction : Type 0 where
  add_tracepoint : TraceAction
  remove_tracepoint : TraceAction

abbrev pub member : ℕ → List ℕ → Bool
member p [] = false
member p (q ∷ qs) = (q == p) || member p qs

-- The methods of a trace session. `instrument` also tells the procedure that it failed for; `check`
-- whether a procedure is instrumentable, and its padding. `traced` tells which procedures are instrumented.
pub record Session : Type 1 where
  pub World : Type 0
  pub start : ℕ → ℕ → World → HResult × World
  pub stop : Bool → World → HResult × World
  pub instrument : TraceAction → List ℕ → World → HResult × Option ℕ × World
  pub check : ℕ → World → HResult × Bool × ℕ
  pub dereference : World → HResult × World
  pub traced : World → ℕ → Bool

-- What a client relies on: a call that instruments does so for all procedures or for none, and
-- removes the instrumentation only of procedures that are instrumented. `ok` tells a success.
pub record Atomic {S W : Type 0} (ok : S → Bool)
    (instrument : TraceAction → List ℕ → W → S × Option ℕ × W) (traced : W → ℕ → Bool)
    : Type 0 where
  pub added :
      (ps : List ℕ) (w : W)
      → ok (instrument add_tracepoint ps w).0 ≡ true
      → (p : ℕ) → traced (instrument add_tracepoint ps w).2 p ≡ (member p ps || traced w p)
  pub removed :
      (ps : List ℕ) (w : W)
      → ok (instrument remove_tracepoint ps w).0 ≡ true
      → (p : ℕ) → traced (instrument remove_tracepoint ps w).2 p ≡ (not (member p ps) && traced w p)
  pub present :
      (ps : List ℕ) (w : W)
      → ok (instrument remove_tracepoint ps w).0 ≡ true
      → (p : ℕ) → member p ps ≡ true
      → traced w p ≡ true
  pub failed :
      (action : TraceAction) (ps : List ℕ) (w : W)
      → ok (instrument action ps w).0 ≡ false
      → (p : ℕ) → traced (instrument action ps w).2 p ≡ traced w p

abbrev pub IsAtomic : Session → Type 0
IsAtomic session = Atomic succeeded session.instrument session.traced

-- Stopping never comes to S_FALSE, which would be a success that is not S_OK.
abbrev pub IsDecisive : Session → Type 0
IsDecisive session = (wait : Bool) (w : session.World) → (session.stop wait w).0 ≢ s_false

pub hresult_from_nt-succeeded :
    (status : NtStatus) → nt_succeeded status ≡ succeeded (hresult_from_nt status)
unfolding nt_succeeded succeeded hresult_from_nt
hresult_from_nt-succeeded nt_success = refl
hresult_from_nt-succeeded nt_peer_died = refl
hresult_from_nt-succeeded nt_patches_active = refl
hresult_from_nt-succeeded (nt_error n) = refl

pub hresult_from_nt-ne : (status : NtStatus) → hresult_from_nt status ≢ s_false
unfolding hresult_from_nt
hresult_from_nt-ne nt_success e = ground (arith, e)
hresult_from_nt-ne status e = ground (arith, e)
