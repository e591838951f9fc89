-- ===== src/Tests/TracingRuns.antt =====
-- A trace session of the kernel, and a driver that keeps the set of the instrumented procedures.
use ntrace.Base.{
  ℕ, ◌≡◌, inl, inr, refl, arith, ap, Bool, true, false, not, ◌&&◌, ◌||◌, Option, none, some, List,
  [], ◌∷◌, ◌==◌, ==_iff, if◌then◌else◌, Bool-cases,
}
use ntrace.Base.Table.{Hashtable, assoc_table, assoc_get}
use ntrace.Tracing.{
  NtStatus, nt_success, nt_error, nt_succeeded, TraceAction, add_tracepoint, remove_tracepoint,
  member, Session, Atomic,
}
use ntrace.Tracing.Points.{Tracepoint, Symbols, exists_entry}
use ntrace.Tracing.Context.{Context, set_tracepoints, detach_context}
use ntrace.Tracing.KernelSession.{
  tracing_default, Driver, kernel_session, kernel_session-IsAtomic, kernel_session-IsDecisive,
}
use ntrace.Tracing.Traced.{Sets, set_tracepoints-Sets}
use ntrace.Tracing.Settled.{begins, sets, detaches, Settled, Reach-Settled}

abbrev all_in : (ℕ → Bool) → List ℕ → Bool
all_in w [] = true
all_in w (p ∷ ps) = w p && all_in w ps

abbrev change : TraceAction → List ℕ → (ℕ → Bool) → NtStatus × Option ℕ × (ℕ → Bool)
change add_tracepoint ps w = (nt_success, none, λ p. member p ps || w p)
change remove_tracepoint ps w =
    if all_in w ps
    then (nt_success, none, λ p. not (member p ps) && w p)
    else (nt_error 1, some 0, w)

abbrev driver : Driver
driver = record {
  World = ℕ → Bool;
  attach = λ tracing_type w. (nt_success, w);
  initialize_tracing = λ tracing_type path n size w. (nt_success, w);
  shutdown_tracing = λ w. (nt_success, w);
  instrument_procedure = change;
  check_instrumentability = λ p w. (nt_success, true, 5);
  detach = λ w. (nt_success, w);
  traced = λ w. w;
}

all_in-member :
    (w : ℕ → Bool) (ps : List ℕ) (p : ℕ) → all_in w ps ≡ true → member p ps ≡ true → w p ≡ true
all_in-member w [] p a m = absurd (ground (arith, m))
all_in-member w (q ∷ ps) p a m = elim (Bool-cases (q == p)) [
  | inl e ↦ ground (arith, a, ap w ((==_iff q p).0 e))
  | inr e ↦ all_in-member w ps p (ground (arith, a)) (ground (arith, m, e))
]

removes :
    (ps : List ℕ) (w : ℕ → Bool)
    → nt_succeeded (change remove_tracepoint ps w).0 ≡ true
    → all_in w ps ≡ true
unfolding nt_succeeded
removes ps w e = ground (arith, e)

atomic : Atomic nt_succeeded change (λ (w : ℕ → Bool). w)
unfolding nt_succeeded
atomic = record {
  added = λ ps w e p. refl;
  removed = λ ps w e p. ground (arith, removes ps w e);
  present = λ ps w e p. all_in-member w ps p (removes ps w e);
  failed = λ action ps w e p. unchanged action ps w e p;
}
  where
    unchanged :
        (action : TraceAction) (ps : List ℕ) (w : ℕ → Bool)
        → nt_succeeded (change action ps w).0 ≡ false
        → (p : ℕ) → (change action ps w).2 p ≡ w p
    unchanged add_tracepoint ps w e p = absurd (ground (arith, e))
    unchanged remove_tracepoint ps w e p = ground (arith, e)

abbrev table : Hashtable ℕ Tracepoint
table = assoc_table ◌==◌ ==_iff

abbrev symbols : Symbols
symbols = record {
  symbol_at = λ p. some (p, 102 ∷ []);
  module_at = λ p. none;
  has_entry = λ p. true;
  has_array = true;
}

abbrev session : Session
session = kernel_session driver

abbrev context : Context table session
unfolding kernel_session
context = record {
  signed = true;
  held = 0;
  attached = true;
  started = true;
  processor = true;
  points = table.empty;
  world = record {
    reference_count = 1;
    tracing_type = tracing_default;
    trace_active = true;
    log_file_path = some (65 ∷ []);
    freed = false;
    world = λ p. false;
  };
}

set_tracepoints-Sets_example :
    Sets table session add_tracepoint
      (7 ∷ 8 ∷ 7 ∷ [])
      context
      (set_tracepoints table session symbols add_tracepoint (7 ∷ 8 ∷ 7 ∷ []) context)
unfolding exists_entry kernel_session assoc_table assoc_get
set_tracepoints-Sets_example =
    set_tracepoints-Sets table session symbols add_tracepoint (7 ∷ 8 ∷ 7 ∷ []) context
      (kernel_session-IsAtomic driver atomic) (λ p. refl) (λ p. refl)

Reach-Settled_example :
    Settled table session
      (detach_context table session symbols true
        (set_tracepoints table session symbols add_tracepoint (7 ∷ []) context).2).1
unfolding kernel_session
Reach-Settled_example =
    Reach-Settled table session (kernel_session-IsDecisive driver) context _
      (record { agrees = record { processor = refl; attached = λ e. refl }; free = refl })
      (detaches symbols true _ (sets symbols add_tracepoint (7 ∷ []) _ begins))

-- Adding two procedures, one of them twice, gives two tracepoints.
set_twice :
    let c = (set_tracepoints table session symbols add_tracepoint (7 ∷ 8 ∷ 7 ∷ []) context).2 in
    (table.count c.points ≡ 2) × (c.held ≡ 0)
unfolding set_tracepoints kernel_session assoc_table
set_twice = (refl, refl)
