-- ===== src/Calls/Forest.antt =====
-- What a thread did, as a forest of calls, and the transitions that it leaves in the trace: the
-- specification of the enumeration.
pub mod Below
pub mod Top
pub mod Chunks
pub mod Handles
pub mod Exports
use ntrace.Base.{ℕ, suc, ◌+◌, ◌%◌, ◌^◌, List, [], ◌∷◌, ◌≡◌, ◌⊎◌, ◌++◌, some, if◌then◌else◌, ◌==◌}
use ntrace.Format.{Transition, transition_entry, transition_exit, transition_unwind}
use ntrace.Calls.{ChunkRef, CallHandle, Call, normal_entry, normal_exit, exception}

-- A transition with the chunk and the index at which it stands.
pub record Located : Type 0 where
  pub ref : ChunkRef
  pub index : ℕ
  pub transition : Transition

-- `call enter leave children later`: a call with the calls made during it, and the calls after it.
pub data Forest : Type 0 where
  quiet : Forest
  call : Located → Located → Forest → Forest → Forest

-- The transitions of a forest, before `rest`.
unfoldable pub trace : Forest → List Located → List Located
trace quiet rest = rest
trace (call enter leave children later) rest = enter ∷ trace children (leave ∷ trace later rest)

-- How many calls there are, direct and indirect.
unfoldable pub calls_in : Forest → ℕ
calls_in quiet = 0
calls_in (call enter leave children later) = suc (calls_in children + calls_in later)

-- Each call is entered by an ENTRY and left by an EXIT or UNWIND of the same procedure.
pub data IsTraced : Forest → Type 0 where
  silent : IsTraced quiet
  traced :
      {enter leave : Located} {children later : Forest}
      → enter.transition.type ≡ transition_entry
      → (leave.transition.type ≡ transition_exit) ⊎ (leave.transition.type ≡ transition_unwind)
      → enter.transition.procedure ≡ leave.transition.procedure
      → IsTraced children
      → IsTraced later
      → IsTraced (call enter leave children later)

-- What the enumeration is to report of a delivered call.
pub record Reports (c : Call) (enter leave : Located) (children : Forest) : Type 0 where
  pub entry : c.entry_type ≡ normal_entry
  pub exit :
      c.exit_type ≡ (if leave.transition.type == transition_exit then normal_exit else exception)
  pub handle : c.handle ≡ record { chunk = some enter.ref; index = enter.index }
  pub procedure : c.procedure ≡ enter.transition.procedure
  pub entered : c.entry_timestamp ≡ enter.transition.timestamp
  pub left : c.exit_timestamp ≡ leave.transition.timestamp
  pub caller : c.caller_ip ≡ enter.transition.info
  pub result : c.result ≡ leave.transition.info
  pub child_calls : c.child_calls ≡ calls_in children % 2 ^ 32

-- The list reports the calls of the forest that no other of its calls contains, in order.
pub data Lists : List Call → Forest → Type 0 where
  none : Lists [] quiet
  more :
      {c : Call} {cs : List Call} {enter leave : Located} {children later : Forest}
      → Reports c enter leave children
      → Lists cs later
      → Lists (c ∷ cs) (call enter leave children later)
