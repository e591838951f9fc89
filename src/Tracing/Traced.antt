-- ===== src/Tracing/Traced.antt =====
-- JpfsvSetTracePointsContext against the set of the procedures that are traced.
use ntrace.Base.{
  ℕ, ◌≡◌, inl, inr, refl, Bool, true, false, not, ◌||◌, Option, none, some, List, [], ◌∷◌, ◌==◌,
  length, ltb, sym, ap, ◌∙◌, subst, arith, Bool-cases, Option-cases,
}
use ntrace.Base.Table.{Hashtable}
use ntrace.Tracing.{
  HResult, s_ok, e_invalidarg, e_outofmemory, no_tracesession, succeeded, TraceAction,
  add_tracepoint, remove_tracepoint, member, Session, IsAtomic,
}
use ntrace.Tracing.Points.{Tracepoint, Symbols, exists_entry}
use ntrace.Tracing.Context.{clean, Context, enter_lock, leave_lock, update_entries, set_tracepoints}
use ntrace.Tracing.Cleaned.{clean-member, clean-Distinct}
use ntrace.Tracing.Synced.{before, after, after-none, update_entries-exists}

cleaned-after :
    (action : TraceAction) (listed : ℕ → Bool) (raw ps : List ℕ) (p : ℕ)
    → clean action listed [] raw ≡ some ps
    → after action (member p ps) (listed p) ≡ after action (member p raw) (listed p)
cleaned-after add_tracepoint listed raw ps p e =
    ground (arith, clean-member add_tracepoint listed [] raw ps e p)
cleaned-after remove_tracepoint listed raw ps p e =
    ground (arith, clean-member remove_tracepoint listed [] raw ps e p)

instrument-after :
    (session : Session)
    → IsAtomic session
    → (action : TraceAction) (ps : List ℕ) (w : session.World)
    → succeeded (session.instrument action ps w).0 ≡ true
    → (p : ℕ)
    → session.traced (session.instrument action ps w).2 p
      ≡ after action (member p ps) (session.traced w p)
instrument-after session atomic add_tracepoint ps w e p = atomic.added ps w e p
instrument-after session atomic remove_tracepoint ps w e p = atomic.removed ps w e p

cleaned-before :
    (session : Session)
    → IsAtomic session
    → (action : TraceAction) (listed : ℕ → Bool) (raw ps : List ℕ) (w : session.World)
    → clean action listed [] raw ≡ some ps
    → succeeded (session.instrument action ps w).0 ≡ true
    → (p : ℕ) → listed p ≡ session.traced w p
    → member p ps ≡ true
    → listed p ≡ before action
cleaned-before session atomic add_tracepoint listed raw ps w e f p g m =
    ground (arith, clean-member add_tracepoint listed [] raw ps e p, m)
cleaned-before session atomic remove_tracepoint listed raw ps w e f p g m =
    g ∙ atomic.present ps w f p m

module _ (table : Hashtable ℕ Tracepoint) (session : Session) where
  -- The table has an entry for exactly the procedures that are instrumented.
  abbrev pub Synced : Context table session → Type 0
  Synced c = (p : ℕ) → exists_entry table p c.points ≡ session.traced c.world p

  abbrev Response : Type 0
  Response = HResult × Option ℕ × Context table session

  -- The call has set the tracepoints of all procedures of the array, or failed and set none.
  pub record Sets (action : TraceAction) (raw : List ℕ) (c : Context table session) (r : Response)
      : Type 0 where
    pub synced : Synced r.2
    pub set :
        succeeded r.0 ≡ true
        → (p : ℕ)
        → exists_entry table p r.2.points
          ≡ after action (member p raw) (exists_entry table p c.points)
    pub unset :
        succeeded r.0 ≡ false
        → (p : ℕ) → exists_entry table p r.2.points ≡ exists_entry table p c.points

  module _ (symbols : Symbols) (action : TraceAction) (raw : List ℕ)
      (c : Context table session) where
    abbrev call : Response
    call = set_tracepoints table session symbols action raw c

    abbrev cleaned : Option (List ℕ)
    cleaned = clean action (λ p. exists_entry table p c.points) [] raw

    refused : Bool
    refused = not c.signed || length raw == 0 || ltb 0xFFFF (length raw)

    set_bad : refused ≡ true → call ≡ (e_invalidarg, none, c)
    unfolding set_tracepoints refused
    set_bad a = ground (arith, a)

    set_poor : refused ≡ false → symbols.has_array ≡ false → call ≡ (e_outofmemory, none, c)
    unfolding set_tracepoints refused
    set_poor a b = ground (arith, a, b)

    left : Context table session
    unfolding enter_lock leave_lock
    left = leave_lock table session (enter_lock table session c)

    set_detached :
        refused ≡ false
        → symbols.has_array ≡ true
        → c.attached ≡ false
        → call ≡ (no_tracesession, none, left)
    unfolding set_tracepoints refused left
    set_detached a b d = ground (arith, a, b, d)

    set_null :
        refused ≡ false
        → symbols.has_array ≡ true
        → c.attached ≡ true
        → cleaned ≡ none
        → call ≡ (e_invalidarg, none, left)
    unfolding set_tracepoints refused left
    set_null a b d e = ground (arith, a, b, d, e)

    module _ (ps : List ℕ) where
      set_none :
          refused ≡ false
          → symbols.has_array ≡ true
          → c.attached ≡ true
          → cleaned ≡ some ps
          → (length ps == 0) ≡ true
          → call ≡ (s_ok, none, left)
      unfolding set_tracepoints refused left
      set_none a b d e f = ground (arith, a, b, d, e, f)

      set_fails :
          refused ≡ false
          → symbols.has_array ≡ true
          → c.attached ≡ true
          → cleaned ≡ some ps
          → (length ps == 0) ≡ false
          → succeeded (session.instrument action ps c.world).0 ≡ false
          → call ≡ (
            (session.instrument action ps c.world).0,
            (session.instrument action ps c.world).1,
            record left { world = (session.instrument action ps c.world).2 },
          )
      unfolding set_tracepoints refused left enter_lock leave_lock
      set_fails a b d e f g = ground (arith, a, b, d, e, f, g)

      set_done :
          refused ≡ false
          → symbols.has_array ≡ true
          → c.attached ≡ true
          → cleaned ≡ some ps
          → (length ps == 0) ≡ false
          → succeeded (session.instrument action ps c.world).0 ≡ true
          → let u =
              update_entries table symbols action
                (session.instrument action ps c.world).0
                ps
                c.points in
            call ≡ (
              u.0,
              (session.instrument action ps c.world).1,
              record left { points = u.1; world = (session.instrument action ps c.world).2 },
            )
      unfolding set_tracepoints refused left enter_lock leave_lock
      set_done a b d e f g = ground (arith, a, b, d, e, f, g)

  -- A call that fails and changes neither the table nor what is traced.
  unset :
      (action : TraceAction) (raw : List ℕ) (c : Context table session) (r : Response)
      → succeeded r.0 ≡ false
      → r.2.points ≡ c.points
      → ((p : ℕ) → session.traced r.2.world p ≡ session.traced c.world p)
      → Synced c
      → Sets action raw c r
  unset action raw c r f e h s =
      let same : (p : ℕ) → exists_entry table p r.2.points ≡ exists_entry table p c.points =
        λ p. ap (exists_entry table p) e in
      record {
        synced = λ p. same p ∙ s p ∙ sym (h p);
        set = λ g. absurd (ground (arith, f, g));
        unset = λ g p. same p;
      }

  set_cleaned :
      (symbols : Symbols) (action : TraceAction) (raw : List ℕ) (c : Context table session)
      → IsAtomic session
      → ((p : ℕ) → symbols.has_entry p ≡ true)
      → Synced c
      → (ps : List ℕ) → refused symbols action raw c ≡ false
      → symbols.has_array ≡ true
      → c.attached ≡ true
      → cleaned symbols action raw c ≡ some ps
      → Sets action raw c (set_tracepoints table session symbols action raw c)
  unfolding succeeded left enter_lock leave_lock
  set_cleaned symbols action raw c atomic memory s ps a b d e =
      let P = Sets action raw c in
      let listed : ℕ → Bool = λ p. exists_entry table p c.points in
      let named : (p : ℕ)
          → after action (member p ps) (listed p) ≡ after action (member p raw) (listed p) =
        λ p. cleaned-after action listed raw ps p e in
      let does = session.instrument action ps c.world in
      elim (Bool-cases (length ps == 0)) [
        | inl f ↦ subst P (sym (set_none symbols action raw c ps a b d e f)) record {
          synced = s;
          set = λ g p.
              let n : member p ps ≡ false = ap (member p) (no_length ps f) in
              sym (after-none action (listed p))
              ∙ ap (λ x. after action x (listed p)) (sym n)
              ∙ named p;
          unset = λ g p. refl;
        }
        | inr f ↦ elim (Bool-cases (succeeded does.0)) [
          | inr g ↦
              subst P (sym (set_fails symbols action raw c ps a b d e f g))
                (unset action raw c _ g refl (atomic.failed action ps c.world g) s)
          | inl g ↦
              let (ok, exists) =
                update_entries-exists table symbols memory action does.0 ps c.points g
                  (clean-Distinct action listed [] raw ps e)
                  (λ p m.
                    cleaned-before session atomic action listed raw ps c.world e g p (s p) m) in
              subst P (sym (set_done symbols action raw c ps a b d e f g)) record {
                synced = λ p.
                    exists p
                    ∙ ap (after action (member p ps)) (s p)
                    ∙ sym (instrument-after session atomic action ps c.world g p);
                set = λ h p. exists p ∙ named p;
                unset = λ h. absurd (ground (arith, h, ok));
              }
        ]
      ]
    where
      no_length : (ps : List ℕ) → (length ps == 0) ≡ true → ps ≡ []
      no_length [] f = refl
      no_length (p ∷ ps) f = absurd (ground (arith, f))

  -- If a session instruments all procedures of a call or none, and there is memory for the entries, then
  -- JpfsvSetTracePointsContext keeps the table equal to what is instrumented: it succeeds and has set or
  -- removed the tracepoints of exactly the procedures of the array, or it fails and changes none.
  pub set_tracepoints-Sets :
      (symbols : Symbols) (action : TraceAction) (raw : List ℕ) (c : Context table session)
      → IsAtomic session
      → ((p : ℕ) → symbols.has_entry p ≡ true)
      → Synced c
      → Sets action raw c (set_tracepoints table session symbols action raw c)
  unfolding succeeded left enter_lock leave_lock
  set_tracepoints-Sets symbols action raw c atomic memory s =
      let P = Sets action raw c in
      let listed : ℕ → Bool = λ p. exists_entry table p c.points in
      elim (Bool-cases (refused symbols action raw c)) [
        | inl a ↦
            subst P (sym (set_bad symbols action raw c a))
              (unset action raw c _ refl refl (λ p. refl) s)
        | inr a ↦ elim (Bool-cases symbols.has_array) [
          | inr b ↦
              subst P (sym (set_poor symbols action raw c a b))
                (unset action raw c _ refl refl (λ p. refl) s)
          | inl b ↦ elim (Bool-cases c.attached) [
            | inr d ↦
                subst P (sym (set_detached symbols action raw c a b d))
                  (unset action raw c _ refl refl (λ p. refl) s)
            | inl d ↦ elim (Option-cases (cleaned symbols action raw c)) [
              | inl e ↦
                  subst P (sym (set_null symbols action raw c a b d e))
                    (unset action raw c _ refl refl (λ p. refl) s)
              | inr (ps, e) ↦ set_cleaned symbols action raw c atomic memory s ps a b d e
            ]
          ]
        ]
      ]
