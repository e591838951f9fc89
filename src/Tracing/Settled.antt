-- ===== src/Tracing/Settled.antt =====
-- The lock, the event processor and the flags of a context, over any sequence of calls.
use ntrace.Base.{
  ℕ, ◌≡◌, inl, inr, refl, Bool, true, false, List, sym, ap, ◌∙◌, subst, arith, Bool-cases,
}
use ntrace.Base.Table.{Hashtable}
use ntrace.Tracing.{HResult, s_false, succeeded, is_ok_or_died, TraceAction, Session, IsDecisive}
use ntrace.Tracing.Points.{Tracepoint, Symbols, remove_all}
use ntrace.Tracing.Context.{
  Context, enter_lock, leave_lock, attach_context, start_trace, stop_trace, tolerate, let_go,
  detach_context, set_tracepoints,
}

-- The contexts that the calls of a client lead to.
pub data Reach (table : Hashtable ℕ Tracepoint) (session : Session) (c : Context table session)
    : Context table session → Type 0 where
  begins : Reach table session c c
  attaches :
      (create : session.World → HResult × session.World) (d : Context table session)
      → Reach table session c d
      → Reach table session c (attach_context table session create d).1
  starts :
      (create : HResult) (buffer_count buffer_size : ℕ) (d : Context table session)
      → Reach table session c d
      → Reach table session c (start_trace table session create buffer_count buffer_size d).1
  stops :
      (symbols : Symbols) (wait : Bool) (d : Context table session)
      → Reach table session c d
      → Reach table session c (stop_trace table session symbols wait d).1
  detaches :
      (symbols : Symbols) (wait : Bool) (d : Context table session)
      → Reach table session c d
      → Reach table session c (detach_context table session symbols wait d).1
  sets :
      (symbols : Symbols) (action : TraceAction) (raw : List ℕ) (d : Context table session)
      → Reach table session c d
      → Reach table session c (set_tracepoints table session symbols action raw d).2

only_false :
    (hr : HResult) → is_ok_or_died hr ≡ false → succeeded (tolerate hr) ≡ true → hr ≡ s_false
unfolding is_ok_or_died succeeded tolerate
only_false s_false a b = refl
only_false hr a b = ground (arith, a, b)

module _ (table : Hashtable ℕ Tracepoint) (session : Session) where
  -- There is an event processor exactly while tracing is started, and then there is a session.
  pub record Agrees (c : Context table session) : Type 0 where
    pub processor : c.processor ≡ c.started
    pub attached : c.started ≡ true → c.attached ≡ true

  -- Besides, nobody holds the lock.
  pub record Settled (c : Context table session) : Type 0 where
    pub agrees : Agrees c
    pub free : c.held ≡ 0

  attach_context-Settled :
      (create : session.World → HResult × session.World) (c : Context table session)
      → Settled c
      → Settled (attach_context table session create c).1
  unfolding attach_context enter_lock leave_lock succeeded
  attach_context-Settled create c s = record {
    agrees = record {
      processor = ground (arith, s.agrees.processor);
      attached = ground (arith, s.agrees.attached);
    };
    free = ground (arith, s.free);
  }

  start_trace-Settled :
      (create : HResult) (n size : ℕ) (c : Context table session)
      → Settled c
      → Settled (start_trace table session create n size c).1
  unfolding start_trace enter_lock leave_lock succeeded
  start_trace-Settled create n size c s = record {
    agrees = record {
      processor = ground (arith, s.agrees.processor);
      attached = ground (arith, s.agrees.attached);
    };
    free = ground (arith, s.free);
  }

  -- Stopping leaves the lock as often held as it was.
  stop_trace-Agrees :
      (symbols : Symbols) (wait : Bool) (c : Context table session)
      → Agrees c
      → let d = (stop_trace table session symbols wait c).1 in Agrees d × (d.held ≡ c.held)
  unfolding stop_trace enter_lock leave_lock
  stop_trace-Agrees symbols wait c a = (
    record { processor = ground (arith, a.processor); attached = ground (arith, a.attached) },
    ground (arith, a.attached),
  )

  remove_all_lives :
      (symbols : Symbols) (t : table.Table) (w : session.World)
      → succeeded (remove_all table session symbols t w).0 ≡ false
      → succeeded (tolerate (remove_all table session symbols t w).0) ≡ false
  unfolding remove_all tolerate succeeded
  remove_all_lives symbols t w f = ground (arith, f)

  -- If stopping ends in S_OK or as the peer has died, tracing is no longer started.
  stop_trace_ends :
      (symbols : Symbols) (wait : Bool) (c : Context table session)
      → IsDecisive session
      → c.signed ≡ true
      → c.started ≡ true
      → c.attached ≡ true
      → succeeded (tolerate (stop_trace table session symbols wait c).0) ≡ true
      → (stop_trace table session symbols wait c).1.started ≡ false
  unfolding stop_trace
  stop_trace_ends symbols wait c d a b e f =
      let removed = (remove_all table session symbols c.points c.world).0 in
      let stopped = (session.stop wait (remove_all table session symbols c.points c.world).1).0 in
      elim (Bool-cases (succeeded removed)) [
        | inr g ↦
            let out : (stop_trace table session symbols wait c).0 ≡ removed =
              ground (arith, a, b, e, g) in
            absurd (
              ground (
                arith,
                f,
                ap (λ hr. succeeded (tolerate hr)) out,
                remove_all_lives symbols c.points c.world g,
              ))
        | inl g ↦ elim (Bool-cases (is_ok_or_died stopped)) [
          | inl h ↦ ground (arith, a, b, e, g, h)
          | inr h ↦
              let out : (stop_trace table session symbols wait c).0 ≡ stopped =
                ground (arith, a, b, e, g, h) in
              absurd
                (d wait _ (only_false stopped h (ap (λ hr. succeeded (tolerate hr)) (sym out) ∙ f)))
        ]
      ]

  let_go-Settled :
      (c : Context table session)
      → Agrees c
      → c.started ≡ false
      → c.held ≡ 1
      → Settled (let_go table session c).1
  unfolding let_go leave_lock
  let_go-Settled c a b h = record {
    agrees = record { processor = ground (arith, a.processor); attached = ground (arith, b) };
    free = ground (arith, h);
  }

  leave_lock-Settled :
      (c : Context table session) → Agrees c → c.held ≡ 1 → Settled (leave_lock table session c)
  unfolding leave_lock
  leave_lock-Settled c a h = record {
    agrees = record { processor = a.processor; attached = a.attached };
    free = ground (arith, h);
  }

  detach_context-Settled :
      (symbols : Symbols) (wait : Bool) (c : Context table session)
      → IsDecisive session
      → Settled c
      → Settled (detach_context table session symbols wait c).1
  unfolding detach_context enter_lock
  detach_context-Settled symbols wait c d s =
      let e = enter_lock table session c in
      let entered : Agrees e = record {
        processor = s.agrees.processor;
        attached = s.agrees.attached;
      } in
      let (a, h) = stop_trace-Agrees symbols wait e entered in
      let once : e.held ≡ 1 = ground (arith, s.free) in
      elim (Bool-cases c.signed) [
        | inr f ↦ subst Settled (ground (arith, f)) s
        | inl f ↦ elim (Bool-cases c.attached) [
          | inr g ↦ subst Settled (ground (arith, f, g)) (leave_lock-Settled e entered once)
          | inl g ↦ elim (Bool-cases c.started) [
            | inr i ↦ subst Settled (ground (arith, f, g, i)) (let_go-Settled e entered i once)
            | inl i ↦
                let stopped = stop_trace table session symbols wait e in
                elim (Bool-cases (succeeded (tolerate stopped.0))) [
                  | inl j ↦ subst Settled (ground (arith, f, g, i, j)) (
                      let_go-Settled stopped.1 a (stop_trace_ends symbols wait e d f i g j)
                        (h ∙ once))
                  | inr j ↦
                      subst Settled (ground (arith, f, g, i, j))
                        (leave_lock-Settled stopped.1 a (h ∙ once))
                ]
          ]
        ]
      ]

  set_tracepoints-Settled :
      (symbols : Symbols) (action : TraceAction) (raw : List ℕ) (c : Context table session)
      → Settled c
      → Settled (set_tracepoints table session symbols action raw c).2
  unfolding set_tracepoints enter_lock leave_lock
  set_tracepoints-Settled symbols action raw c s = record {
    agrees = record {
      processor = ground (arith, s.agrees.processor);
      attached = ground (arith, s.agrees.attached);
    };
    free = ground (arith, s.free);
  }

  -- In whatever order a client calls JpfsvAttachContext, JpfsvStartTraceContext, JpfsvStopTraceContext,
  -- JpfsvDetachContext and JpfsvSetTracePointsContext: after each call the lock is free, the context has
  -- an event processor exactly if tracing is started, and a session if it is, given that this held at
  -- first and that stopping a session never comes to S_FALSE.
  pub Reach-Settled :
      IsDecisive session
      → (c d : Context table session) → Settled c
      → Reach table session c d
      → Settled d
  Reach-Settled h c _ s begins = s
  Reach-Settled h c _ s (attaches create d r) =
      attach_context-Settled create d (Reach-Settled h c d s r)
  Reach-Settled h c _ s (starts create n size d r) =
      start_trace-Settled create n size d (Reach-Settled h c d s r)
  Reach-Settled h c _ s (stops symbols wait d r) =
      let before = Reach-Settled h c d s r in
      let (a, e) = stop_trace-Agrees symbols wait d before.agrees in
      record { agrees = a; free = e ∙ before.free }
  Reach-Settled h c _ s (detaches symbols wait d r) =
      detach_context-Settled symbols wait d h (Reach-Settled h c d s r)
  Reach-Settled h c _ s (sets symbols action raw d r) =
      set_tracepoints-Settled symbols action raw d (Reach-Settled h c d s r)
