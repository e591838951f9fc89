-- ===== src/Calls/Scan.antt =====
-- JptrcrsEnumCalls, its loop over the transitions of one chunk: the depth, the call that is being
-- put together, and the calls delivered to the callback so far, in order. `depth` is never negative
-- between two transitions; where the code lets it fall below 0 it returns or sets it back to 0.
use ntrace.Base.{ℕ, ◌+◌, ◌-◌, ◌%◌, ◌^◌, Bool, List, [], ◌∷◌, ◌++◌, some, none, ◌==◌, if◌then◌else◌}
use ntrace.Format.{Transition, transition_entry, transition_exit, transition_unwind}
use ntrace.Reader.{Hr}
use ntrace.Calls.{
  normal_entry, synthetic_entry, normal_exit, synthetic_exit, exception, ChunkRef, CallHandle, Call,
  Symbols,
}

pub record State : Type 0 where
  pub depth : ℕ
  pub call : Call
  pub delivered : List Call

-- A transition sends the loop on, ends the enumeration (`return S_OK`), or fails it.
pub data Outcome : Type 0 where
  go stop : State → Outcome
  fail : Hr → State → Outcome

infixl 5 ◌>>=◌
abbrev pub ◌>>=◌ : Outcome → (State → Outcome) → Outcome
go s >>= f = f s
stop s >>= f = stop s
fail e s >>= f = fail e s

abbrev null_handle : CallHandle
null_handle = record { chunk = none; index = 0 }

-- ZeroMemory of a JPTRCR_CALL.
abbrev pub zero_call : Call
zero_call = record {
  entry_type = normal_entry;
  exit_type = normal_exit;
  handle = null_handle;
  procedure = 0;
  symbol = none;
  module_info = none;
  entry_timestamp = 0;
  exit_timestamp = 0;
  caller_ip = 0;
  child_calls = 0;
  result = 0;
}

abbrev pub start : State
start = record { depth = 0; call = zero_call; delivered = [] }

-- An entry at depth 0 begins a call.
abbrev pub begin_call : ChunkRef → ℕ → Transition → Call → Call
begin_call ref index t c = record c {
  entry_type = normal_entry;
  handle = record { chunk = some ref; index = index };
  procedure = t.procedure;
  entry_timestamp = t.timestamp;
  caller_ip = t.info;
  child_calls = 0;
}

-- An entry further down is an indirect or direct child (a ULONG counter).
abbrev pub count_child : Call → Call
count_child c = record c { child_calls = (c.child_calls + 1) % 2 ^ 32 }

unfoldable pub on_entry : ChunkRef → ℕ → Transition → State → State
on_entry ref index t s =
    if s.depth == 0
    then record s { depth = s.depth + 1; call = begin_call ref index t s.call }
    else record s { depth = s.depth + 1; call = count_child s.call }

-- The entry made up for an exit whose own entry is missing.
abbrev pub synthesize_entry : Transition → Call → Call
synthesize_entry t c = record c {
  entry_type = synthetic_entry;
  handle = null_handle;
  procedure = t.procedure;
  entry_timestamp = t.timestamp;
  caller_ip = 0;
  child_calls = 0;
}

-- The exit made up for a call whose own exit is missing.
abbrev pub synthesize_exit : Call → Call
synthesize_exit c = record c { result = 0; exit_type = synthetic_exit }

abbrev pub end_call : Transition → Call → Call
end_call t c = record c {
  exit_type = if t.type == transition_exit then normal_exit else exception;
  result = t.info;
}

-- What is left of the call after its delivery.
abbrev pub clear_call : Call → Call
clear_call c = record c { procedure = 0; handle = record { chunk = none; index = c.handle.index } }

module _ (symbols : Symbols) where
  -- JptrcrsResolveSymbolAndDeliverCallback, its resolution.
  unfoldable pub resolve_symbol : Call → Call
  resolve_symbol c = elim (symbols.sym_from_addr c.procedure) [
    | some symbol ↦ record c {
      symbol = some symbol;
      module_info = symbols.get_module symbol.mod_base c.module_info;
    }
    | none ↦ record c { symbol = none; module_info = none }
  ]

  unfoldable pub deliver : State → State
  deliver s =
      let c = resolve_symbol s.call in record s { call = c; delivered = s.delivered ++ (c ∷ []) }

  -- The procedures differ: an entry or an exit was lost.
  unfoldable pub mend : Transition → State → State
  mend t s =
      if s.call.procedure == t.procedure
      then s
      else let d = deliver (record s { call = synthesize_exit s.call }) in
        record d { call = synthesize_entry t d.call }

  -- The exit of a call at depth 0.
  unfoldable pub finish : Transition → State → State
  finish t s =
      let m =
        mend t (record s { depth = 0; call = record (s.call) { exit_timestamp = t.timestamp } }) in
      let d = deliver (record m { call = end_call t m.call }) in
      record d { call = clear_call d.call }

  unfoldable pub on_exit : Bool → Transition → State → Outcome
  on_exit include_all t s =
      if s.depth == 0
      then (if include_all then go s else stop s)
      else if s.depth == 1
      then go (finish t s)
      else go (record s { depth = s.depth - 1 })

  unfoldable pub step : Bool → ChunkRef → ℕ → Transition → State → Outcome
  step include_all ref index t s =
      if t.type == transition_entry
      then go (on_entry ref index t s)
      else if t.type == transition_exit
      then on_exit include_all t s
      else if t.type == transition_unwind
      then on_exit include_all t s
      else fail Hr.e_invalid_transition s

  -- The loop over the transitions from `index` on.
  unfoldable pub scan_chunk : Bool → ChunkRef → ℕ → List Transition → State → Outcome
  scan_chunk include_all ref index [] s = go s
  scan_chunk include_all ref index (t ∷ ts) s =
      step include_all ref index t s >>= scan_chunk include_all ref (index + 1) ts
