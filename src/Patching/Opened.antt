-- ===== src/Patching/Opened.antt =====
-- The handles that Jpfbt/jpfbt/um_threadenum.c collects before it calls a routine for each thread.
use ntrace.Base.{
  ℕ, ◌+◌, ◌*◌, ◌≡◌, ◌≢◌, ◌⊎◌, inl, inr, refl, sym, subst, Bool, true, false, not, ◌&&◌, some, none,
  List, [], ◌∷◌, ltb, ◌==◌, if◌then◌else◌, arith, Bool-cases, Option-cases,
}
use ntrace.Patching.{Status, success, no_memory, invalid_handle}
use ntrace.Patching.Threads.{Os, ThreadEntry, collect}

module _ (os : Os) (w : os.World) where
  -- These are the handles of the threads of a snapshot that are of the process, but not its own thread, in
  -- their order.
  pub data Opened : List ThreadEntry → List ℕ → Type 0 where
    done : Opened [] []
    opened :
        (e : ThreadEntry) (h : ℕ) (es : List ThreadEntry) (hs : List ℕ)
        → e.owner_process_id ≡ os.process_id
        → e.thread_id ≢ os.thread_id
        → os.open_thread w e.thread_id ≡ some h
        → Opened es hs
        → Opened (e ∷ es) (h ∷ hs)
    passed :
        (e : ThreadEntry) (es : List ThreadEntry) (hs : List ℕ)
        → (e.owner_process_id ≢ os.process_id) ⊎ (e.thread_id ≡ os.thread_id)
        → Opened es hs
        → Opened (e ∷ es) hs

  is_other : ThreadEntry → Bool
  is_other e = (e.owner_process_id == os.process_id) && not (e.thread_id == os.thread_id)

  module _ (e : ThreadEntry) (es : List ThreadEntry) (size count : ℕ) where
    abbrev is_full : Bool
    is_full = ltb size ((count + 1) * 4)

    abbrev others : Status × List ℕ
    others = collect os w es (if is_full then size * 2 else size) (count + 1)

    collect-passed :
        is_other e ≡ false → collect os w (e ∷ es) size count ≡ collect os w es size count
    unfolding collect is_other
    collect-passed a = ground (arith, a)

    collect-unopened :
        is_other e ≡ true
        → os.open_thread w e.thread_id ≡ none
        → collect os w (e ∷ es) size count ≡ (invalid_handle, [])
    unfolding collect is_other
    collect-unopened a b = ground (arith, a, b)

    collect-unstored :
        (h : ℕ)
        → is_other e ≡ true
        → os.open_thread w e.thread_id ≡ some h
        → (is_full && not (os.heap w (size * 2))) ≡ true
        → collect os w (e ∷ es) size count ≡ (no_memory, [])
    unfolding collect is_other
    collect-unstored h a b c = ground (arith, a, b, c)

    collect-opened :
        (h : ℕ)
        → is_other e ≡ true
        → os.open_thread w e.thread_id ≡ some h
        → (is_full && not (os.heap w (size * 2))) ≡ false
        → collect os w (e ∷ es) size count ≡ (others.0, h ∷ others.1)
    unfolding collect is_other
    collect-opened h a b c = ground (arith, a, b, c)

  is_other_iff :
      (e : ThreadEntry)
      → is_other e ≡ true
      → (e.owner_process_id ≡ os.process_id) × (e.thread_id ≢ os.thread_id)
  unfolding is_other
  is_other_iff e a = (ground (arith, a), λ f. ground (arith, a, f))

  is_other_not :
      (e : ThreadEntry)
      → is_other e ≡ false
      → (e.owner_process_id ≢ os.process_id) ⊎ (e.thread_id ≡ os.thread_id)
  unfolding is_other
  is_other_not e a = ground (arith, a)

  abbrev Sound : List ThreadEntry → Status × List ℕ → Type 0
  Sound es r = r.0 ≡ success → Opened es r.1

  collect-Sound : (es : List ThreadEntry) (size count : ℕ) → Sound es (collect os w es size count)
  unfolding collect
  collect-Sound [] size count = λ s. done
  collect-Sound (e ∷ es) size count = elim (Bool-cases (is_other e)) [
    | inr a ↦
        subst (Sound (e ∷ es)) (sym (collect-passed e es size count a))
          (λ s. passed e es _ (is_other_not e a) (collect-Sound es size count s))
    | inl a ↦ elim (Option-cases (os.open_thread w e.thread_id)) [
      | inl b ↦
          subst (Sound (e ∷ es)) (sym (collect-unopened e es size count a b))
            (λ s. absurd (ground (arith, s)))
      | inr (h, b) ↦ elim (Bool-cases (is_full e es size count && not (os.heap w (size * 2)))) [
        | inl c ↦
            subst (Sound (e ∷ es)) (sym (collect-unstored e es size count h a b c))
              (λ s. absurd (ground (arith, s)))
        | inr c ↦ subst (Sound (e ∷ es)) (sym (collect-opened e es size count h a b c)) (λ s.
            let (own, other) = is_other_iff e a in
            opened e h es _ own other b (collect-Sound es _ (count + 1) s))
      ]
    ]
  ]

  -- If the threads are collected with success, the handles are those of all other threads of the process.
  pub collected-Opened :
      (es : List ThreadEntry) (size count : ℕ) (hs : List ℕ)
      → collect os w es size count ≡ (success, hs)
      → Opened es hs
  collected-Opened es size count hs e = subst (Sound es) e (collect-Sound es size count) refl
