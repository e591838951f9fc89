-- ===== src/Calls/Forest/Exports.antt =====
-- JptrcrEnumCalls and JptrcrEnumChildCalls on a file that holds the trace of a forest.
use ntrace.Base.{
  ℕ, ◌≡◌, refl, ap, ◌∙◌, ◌⊎◌, Bool, true, false, List, [], ◌∷◌, ◌++◌, All, Option, some,
}
use ntrace.Base.Bytes.{Memory}
use ntrace.Format.{ClientId, transition_exit, transition_unwind}
use ntrace.Reader.{Hr, Os, View}
use ntrace.Reader.Map.Window.{IsOn, MapsViews}
use ntrace.Calls.{Symbols}
use ntrace.Calls.Scan.{State, go, start}
use ntrace.Calls.Enum.{enum_calls}
use ntrace.Calls.Forest.{Located, Forest, call, trace, IsTraced, Lists}
use ntrace.Calls.Forest.Below.{scan}
use ntrace.Calls.Forest.Top.{after, after-Lists, scan_top}
use ntrace.Calls.Forest.Chunks.{located_from, IsReadable, enum_chunks-scan, starts_at_zero, answer}

-- The call stands in the forest, on its top level or below.
pub data Within (enter leave : Located) (children : Forest) : Forest → Type 0 where
  here : {later : Forest} → Within enter leave children (call enter leave children later)
  below :
      {e l : Located} {f later : Forest}
      → Within enter leave children f
      → Within enter leave children (call e l f later)
  beside :
      {e l : Located} {f g : Forest}
      → Within enter leave children g
      → Within enter leave children (call e l f g)

record Split (enter leave : Located) (children f : Forest) (rest : List Located) : Type 0 where
  before : List Located
  behind : List Located
  splits : trace f rest ≡ before ++ (enter ∷ trace children (leave ∷ behind))
  inner : IsTraced children
  left : (leave.transition.type ≡ transition_exit) ⊎ (leave.transition.type ≡ transition_unwind)

-- The chunks of the client hold the trace of the forest.
pub record Holds (m : Memory) (size : ℕ) (client : ClientId) (offsets : List ℕ) (f : Forest)
    : Type 0 where
  pub readable : All (IsReadable m size) offsets
  pub contents : located_from m client 0 0 offsets ≡ trace f []
  pub well_formed : IsTraced f

module _ (os : Os) (symbols : Symbols) (clients : ClientId → Option (List ℕ))
    (system : MapsViews os) (m : Memory) (size : ℕ) where
  scan_forest :
      (include_all : Bool) (f : Forest) (rest : List Located)
      → IsTraced f
      → scan symbols include_all (trace f rest) start
        ≡ scan symbols include_all rest (after symbols f start)
  scan_forest include_all f rest t = scan_top symbols include_all f rest start t refl

  start-Lists :
      (f : Forest)
      → IsTraced f
      → Lists (after symbols f start).delivered f × ((after symbols f start).depth ≡ 0)
  start-Lists f t = let (cs, d, l, z) = after-Lists symbols f start t refl in (rw d l, z)

  pub enum_calls-Lists :
      (client : ClientId) (offsets : List ℕ) (f : Forest) (v : View)
      → clients client ≡ some offsets
      → IsOn m size v
      → Holds m size client offsets f
      → ((enum_calls os symbols clients client v).0 ≡ Hr.s_ok)
        × Lists (enum_calls os symbols clients client v).2.delivered f
  unfolding enum_calls scan
  enum_calls-Lists client offsets f v e i h =
      let r =
        enum_chunks-scan os symbols true system m size client 0 offsets 0 false v start i h.readable
          (starts_at_zero os symbols true system m size client offsets) in
      let run : scan symbols true (located_from m client 0 0 offsets) start
          ≡ go (after symbols f start) =
        rw h.contents (scan_forest true f [] h.well_formed) in
      let a = r.answered ∙ ap answer run in
      rw (e, enum_calls)
        (
          ap (λ (x : Hr × State). x.0) a,
          rw (ap (λ (x : Hr × State). x.1.delivered) a) (start-Lists f h.well_formed).0,
        )
