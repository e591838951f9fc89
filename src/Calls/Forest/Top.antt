-- ===== src/Calls/Forest/Top.antt =====
-- How the loop reports the calls at depth 0.
use ntrace.Base.{
  ◌≡◌, refl, sym, ap, ◌∙◌, Bool, List, [], ◌∷◌, ◌++◌, arith, append_assoc, append-nil, ==_refl,
}
use ntrace.Format.{Transition}
use ntrace.Calls.{Call, Symbols}
use ntrace.Calls.Scan.{
  State, go, on_entry, on_exit, finish, mend, deliver, end_call, resolve_symbol, clear_call,
}
use ntrace.Calls.Forest.{
  Located, Forest, quiet, call, trace, calls_in, IsTraced, traced, Reports, Lists,
}
use ntrace.Calls.Forest.Below.{
  count_children, depth-count_children, delivered-count_children, call-count_children, scan,
  step-entry, step-leave, scan_below,
}

-- The call as it is delivered, where its exit matches.
abbrev pub complete : Symbols → Located → Located → Forest → State → Call
complete symbols enter leave children s =
    let c =
      (count_children (calls_in children)
        (on_entry enter.ref enter.index enter.transition s)).call in
    resolve_symbol symbols
      (end_call leave.transition (record c { exit_timestamp = leave.transition.timestamp }))

module _ (symbols : Symbols) where
  finish-match :
      (t : Transition) (s : State)
      → s.call.procedure ≡ t.procedure
      → let c =
          resolve_symbol symbols (end_call t (record (s.call) { exit_timestamp = t.timestamp })) in
        finish symbols t s
        ≡ record { depth = 0; call = clear_call c; delivered = s.delivered ++ (c ∷ []) }
  unfolding finish mend deliver
  finish-match t s e = ground (arith, ==_refl t.procedure)

  complete-Reports :
      (enter leave : Located) (children : Forest) (s : State)
      → s.depth ≡ 0
      → enter.transition.procedure ≡ leave.transition.procedure
      → Reports (complete symbols enter leave children s) enter leave children
  unfolding resolve_symbol on_entry
  complete-Reports enter leave children s h p = ground (
    arith,
    call-count_children (calls_in children) (on_entry enter.ref enter.index enter.transition s),
  )

  finish-complete :
      (enter leave : Located) (children : Forest) (s : State)
      → s.depth ≡ 0
      → enter.transition.procedure ≡ leave.transition.procedure
      → let c = complete symbols enter leave children s in
        finish symbols leave.transition
          (count_children (calls_in children) (on_entry enter.ref enter.index enter.transition s))
        ≡ record { depth = 0; call = clear_call c; delivered = s.delivered ++ (c ∷ []) }
  unfolding on_entry
  finish-complete enter leave children s h p = ground (
    arith,
    finish-match leave.transition
        (count_children (calls_in children) (on_entry enter.ref enter.index enter.transition s)),
    call-count_children (calls_in children) (on_entry enter.ref enter.index enter.transition s),
    delivered-count_children (calls_in children)
        (on_entry enter.ref enter.index enter.transition s),
  )

  -- The state after a forest at depth 0.
  unfoldable pub after : Forest → State → State
  after quiet s = s
  after (call enter leave children later) s = after later (
      finish symbols leave.transition
        (count_children (calls_in children) (on_entry enter.ref enter.index enter.transition s)))

  pub after-Lists :
      (f : Forest) (s : State)
      → IsTraced f
      → s.depth ≡ 0
      → (cs : List Call) × ((after f s).delivered ≡ s.delivered ++ cs)
        × Lists cs f
        × ((after f s).depth ≡ 0)
  unfolding after
  after-Lists quiet s t h = ([], sym (append-nil s.delivered), Lists.none, h)
  after-Lists (call enter leave children later) s (traced e x p t u) h =
      rw (finish-complete enter leave children s h p, after)
        (let (cs, d, l, z) =
            after-Lists later
              (record { depth = 0; call = clear_call c; delivered = s.delivered ++ (c ∷ []) }) u
              refl in
          (
            c ∷ cs,
            d ∙ append_assoc s.delivered (c ∷ []) cs,
            Lists.more (complete-Reports enter leave children s h p) l,
            z,
          ))
    where
      c : Call
      c = complete symbols enter leave children s

  module _ (include_all : Bool) where
    on_exit-finish :
        (t : Transition) (s : State)
        → s.depth ≡ 1
        → on_exit symbols include_all t s ≡ go (finish symbols t s)
    unfolding on_exit
    on_exit-finish t s h = ground arith

    depth-on_entry :
        (l : Located) (s : State) → s.depth ≡ 0 → (on_entry l.ref l.index l.transition s).depth ≡ 1
    unfolding on_entry
    depth-on_entry l s h = ground arith

    pub scan_top :
        (f : Forest) (rest : List Located) (s : State)
        → IsTraced f
        → s.depth ≡ 0
        → scan symbols include_all (trace f rest) s ≡ scan symbols include_all rest (after f s)
    unfolding scan trace calls_in after
    scan_top quiet rest s t h = refl
    scan_top (call enter leave children later) rest s (traced e x p t u) h =
        rw (step-entry symbols include_all enter s e) (
          rw
            (scan_below symbols include_all children (leave ∷ trace later rest) inner 0 t
              (depth-on_entry enter s h))
            (rw
              (
                step-leave symbols include_all leave inside x,
                on_exit-finish leave.transition inside
                    (depth-count_children (calls_in children) inner ∙ depth-on_entry enter s h),
              )
              (scan_top later rest (finish symbols leave.transition inside) u
                (ap (λ (q : State). q.depth) (finish-complete enter leave children s h p)))))
      where
        inner : State
        inner = on_entry enter.ref enter.index enter.transition s

        inside : State
        inside = count_children (calls_in children) inner
