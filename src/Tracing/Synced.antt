-- ===== src/Tracing/Synced.antt =====
-- The table of tracepoints tells which procedures are instrumented.
use ntrace.Base.{
  ℕ, ◌≡◌, inl, inr, refl, Bool, true, false, not, ◌&&◌, ◌||◌, none, some, List, [], ◌∷◌, ◌==◌,
  ==_iff, sym, ap, ◌∙◌, subst, arith, Bool-cases, Option-cases,
}
use ntrace.Base.Table.{Hashtable}
use ntrace.Tracing.{
  HResult, s_ok, succeeded, TraceAction, add_tracepoint, remove_tracepoint, member,
}
use ntrace.Tracing.Points.{Tracepoint, Symbols, make_entry, add_entry, remove_entry, exists_entry}
use ntrace.Tracing.Context.{update_entries}
use ntrace.Tracing.Cleaned.{Distinct}

-- Whether a procedure is traced after a call, from whether the call names it and whether it was.
abbrev pub after : TraceAction → Bool → Bool → Bool
after add_tracepoint named was = named || was
after remove_tracepoint named was = not named && was

-- Whether a procedure that is named has an entry beforehand.
abbrev pub before : TraceAction → Bool
before add_tracepoint = false
before remove_tracepoint = true

pub after-none : (action : TraceAction) (was : Bool) → after action false was ≡ was
after-none add_tracepoint was = refl
after-none remove_tracepoint was = refl

after-later :
    (action : TraceAction) (p q : ℕ) (was : Bool)
    → (p == q) ≡ false
    → was ≡ before action
    → after action (p == q) was ≡ before action
after-later add_tracepoint p q was e f = ground (arith, e, f)
after-later remove_tracepoint p q was e f = ground (arith, e, f)

after-twice :
    (action : TraceAction) (a b was : Bool)
    → after action b (after action a was) ≡ after action (a || b) was
after-twice add_tracepoint a b was = ground arith
after-twice remove_tracepoint a b was = ground arith

module _ (table : Hashtable ℕ Tracepoint) (symbols : Symbols)
    (memory : (p : ℕ) → symbols.has_entry p ≡ true) where
  exists_entry-none :
      (p : ℕ) (t : table.Table) → exists_entry table p t ≡ false → table.get t p ≡ none
  unfolding exists_entry
  exists_entry-none p t e = elim (Option-cases (table.get t p)) [
    | inl f ↦ f
    | inr (a, f) ↦ absurd (ground (arith, e, f))
  ]

  exists_entry-some :
      (p : ℕ) (t : table.Table)
      → exists_entry table p t ≡ true
      → (a : Tracepoint) × (table.get t p ≡ some a)
  unfolding exists_entry
  exists_entry-some p t e = elim (Option-cases (table.get t p)) [
    | inl f ↦ absurd (ground (arith, e, f))
    | inr r ↦ r
  ]

  add_entry-exists :
      (p : ℕ) (t : table.Table)
      → exists_entry table p t ≡ false
      → ((add_entry table symbols p t).0 ≡ s_ok)
        × ((q : ℕ)
            → exists_entry table q (add_entry table symbols p t).1
              ≡ ((p == q) || exists_entry table q t))
  unfolding add_entry exists_entry
  add_entry-exists p t e =
      let entry = make_entry symbols p in
      let old : (table.put t p entry).1 ≡ none =
        table.put-old t p entry ∙ exists_entry-none p t e in
      let out : add_entry table symbols p t ≡ (s_ok, (table.put t p entry).0) =
        ground (arith, memory p, old) in
      (
        ap (λ (r : HResult × table.Table). r.0) out,
        λ q.
            ap (λ (r : HResult × table.Table). exists_entry table q r.1) out
            ∙ elim (Bool-cases (p == q)) [
              | inl f ↦ ground (
                arith,
                ap (table.get (table.put t p entry).0) ((==_iff p q).0 f),
                table.get-put_self t p entry,
                f,
              )
              | inr f ↦
                  ground
                    (arith, table.get-put_ne t p q entry (λ g. ground (arith, ==_iff p q, f, g)), f)
            ],
      )

  remove_entry-exists :
      (p : ℕ) (t : table.Table)
      → exists_entry table p t ≡ true
      → ((remove_entry table p t).0 ≡ s_ok)
        × ((q : ℕ)
            → exists_entry table q (remove_entry table p t).1
              ≡ (not (p == q) && exists_entry table q t))
  unfolding remove_entry exists_entry
  remove_entry-exists p t e =
      let (old, g) = exists_entry-some p t e in
      let out : remove_entry table p t ≡ (s_ok, (table.remove t p).0) =
        ground (arith, table.remove-old t p ∙ g) in
      (
        ap (λ (r : HResult × table.Table). r.0) out,
        λ q.
            ap (λ (r : HResult × table.Table). exists_entry table q r.1) out
            ∙ elim (Bool-cases (p == q)) [
              | inl f ↦ ground (
                arith,
                ap (table.get (table.remove t p).0) ((==_iff p q).0 f),
                table.get-remove_self t p,
                f,
              )
              | inr f ↦
                  ground
                    (arith, table.get-remove_ne t p q (λ g. ground (arith, ==_iff p q, f, g)), f)
            ],
      )

  one : TraceAction → ℕ → table.Table → HResult × table.Table
  one add_tracepoint p t = add_entry table symbols p t
  one remove_tracepoint p t = remove_entry table p t

  one-exists :
      (action : TraceAction) (p : ℕ) (t : table.Table)
      → exists_entry table p t ≡ before action
      → ((one action p t).0 ≡ s_ok)
        × ((q : ℕ)
            → exists_entry table q (one action p t).1
              ≡ after action (p == q) (exists_entry table q t))
  unfolding one
  one-exists add_tracepoint p t e = add_entry-exists p t e
  one-exists remove_tracepoint p t e = remove_entry-exists p t e

  update_entries-on :
      (action : TraceAction) (status : HResult) (p : ℕ) (ps : List ℕ) (t : table.Table)
      → (one action p t).0 ≡ s_ok
      → update_entries table symbols action status (p ∷ ps) t
        ≡ update_entries table symbols action s_ok ps (one action p t).1
  unfolding update_entries one succeeded
  update_entries-on add_tracepoint status p ps t e = ground (arith, e)
  update_entries-on remove_tracepoint status p ps t e = ground (arith, e)

  -- The loop succeeds, if each procedure has an entry exactly when it should.
  pub update_entries-exists :
      (action : TraceAction) (status : HResult) (ps : List ℕ) (t : table.Table)
      → succeeded status ≡ true
      → Distinct ps
      → ((p : ℕ) → member p ps ≡ true → exists_entry table p t ≡ before action)
      → let r = update_entries table symbols action status ps t in
        (succeeded r.0 ≡ true)
        × ((q : ℕ) → exists_entry table q r.1 ≡ after action (member q ps) (exists_entry table q t))
  unfolding update_entries succeeded
  update_entries-exists action status [] t s d h = (s, λ q. sym (after-none action _))
  update_entries-exists action status (p ∷ ps) t s d h =
      let (ok, now) = one-exists action p t (h p (ground (arith, ==_iff p p))) in
      let (ends, then_) = update_entries-exists action s_ok ps (one action p t).1 refl d.1 (λ q m.
        now q
        ∙ after-later action p q (exists_entry table q t)
            (elim (Bool-cases (p == q)) [
              | inl f ↦ absurd (ground (arith, d.0, m, ap (λ x. member x ps) ((==_iff p q).0 f)))
              | inr f ↦ f
            ])
            (h q (ground (arith, m)))) in
      let P : HResult × table.Table → Type 0 = λ r.
        (succeeded r.0 ≡ true)
        × ((q : ℕ)
            → exists_entry table q r.1
              ≡ after action (member q (p ∷ ps)) (exists_entry table q t)) in
      subst P (sym (update_entries-on action status p ps t ok)) (
        ends,
        λ q.
            then_ q
            ∙ ap (after action (member q ps)) (now q)
            ∙ after-twice action (p == q) (member q ps) (exists_entry table q t),
      )
