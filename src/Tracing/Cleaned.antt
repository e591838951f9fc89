-- ===== src/Tracing/Cleaned.antt =====
-- What is left of an array of procedures that JpfsvSetTracePointsContext has cleaned.
use ntrace.Base.{
  ℕ, ◌≡◌, inl, inr, Bool, true, false, not, ◌&&◌, ◌||◌, some, List, [], ◌∷◌, ◌==◌, ==_iff, sym, ap,
  ◌∙◌, subst, arith, Bool-cases, Option-cases,
}
use ntrace.Tracing.{TraceAction, member}
use ntrace.Tracing.Context.{barred, clean}

-- No element occurs twice.
abbrev pub Distinct : List ℕ → Type 0
Distinct [] = Unit
Distinct (p ∷ ps) = (member p ps ≡ false) × Distinct ps

module _ (action : TraceAction) (listed : ℕ → Bool) where
  -- What a procedure is to the loop.
  data Cleans (seen : List ℕ) (p : ℕ) (ps qs : List ℕ) : Type 0 where
    dropped :
        (member p seen || barred action listed p) ≡ true
        → clean action listed (p ∷ seen) ps ≡ some qs
        → Cleans seen p ps qs
    kept :
        (rs : List ℕ)
        → (member p seen || barred action listed p) ≡ false
        → clean action listed (p ∷ seen) ps ≡ some rs
        → qs ≡ p ∷ rs
        → Cleans seen p ps qs

  clean-Cleans :
      (seen : List ℕ) (p : ℕ) (ps qs : List ℕ)
      → clean action listed seen (p ∷ ps) ≡ some qs
      → Cleans seen p ps qs
  unfolding clean
  clean-Cleans seen p ps qs e = elim (Bool-cases (p == 0)) [
    | inl z ↦ absurd (ground (arith, e, z))
    | inr z ↦ elim (Bool-cases (member p seen || barred action listed p)) [
      | inl d ↦ dropped d (ground (arith, e, z, d))
      | inr d ↦ elim (Option-cases (clean action listed (p ∷ seen) ps)) [
        | inl f ↦ absurd (ground (arith, e, z, d, f))
        | inr (rs, f) ↦ kept rs d f (ground (arith, e, z, d, f))
      ]
    ]
  ]

  same_bar : (p q : ℕ) → (p == q) ≡ true → barred action listed p ≡ barred action listed q
  same_bar p q e = ap (barred action listed) ((==_iff p q).0 e)

  same_member : (p q : ℕ) (ps : List ℕ) → (p == q) ≡ true → member p ps ≡ member q ps
  same_member p q ps e = ap (λ x. member x ps) ((==_iff p q).0 e)

  pub clean-member :
      (seen ps qs : List ℕ)
      → clean action listed seen ps ≡ some qs
      → (p : ℕ) → member p qs ≡ (member p ps && not (member p seen || barred action listed p))
  unfolding clean
  clean-member seen [] qs e p = ground (arith, e)
  clean-member seen (q ∷ ps) qs e p = elim (clean-Cleans seen q ps qs e) [
    | dropped d f ↦
        ground (arith, clean-member (q ∷ seen) ps qs f p, d, same_bar q p, same_member q p seen)
    | kept rs d f g ↦
        ap (member p) g
        ∙ ground (arith, clean-member (q ∷ seen) ps rs f p, d, same_bar q p, same_member q p seen)
  ]

  pub clean-Distinct : (seen ps qs : List ℕ) → clean action listed seen ps ≡ some qs → Distinct qs
  unfolding clean
  clean-Distinct seen [] qs e = let f : [] ≡ qs = ground (arith, e) in subst Distinct f tt
  clean-Distinct seen (p ∷ ps) qs e = elim (clean-Cleans seen p ps qs e) [
    | dropped d f ↦ clean-Distinct (p ∷ seen) ps qs f
    | kept rs d f g ↦ subst Distinct (sym g) (
      ground (arith, clean-member (p ∷ seen) ps rs f p, ==_iff p p),
      clean-Distinct (p ∷ seen) ps rs f,
    )
  ]
