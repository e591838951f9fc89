-- ===== src/Patching/Suspended.antt =====
-- The other threads are all suspended or none is.
use ntrace.Base.{
  ℕ, ◌+◌, ◌<◌, ◌≡◌, ◌≢◌, ◌⊎◌, inl, inr, refl, sym, subst, true, false, some, none, List, [], ◌∷◌,
  if◌then◌else◌, tally, arith, Bool-cases, Option-cases,
}
use ntrace.Patching.{Status, success, no_memory, suspend_failure, is_success}
use ntrace.Patching.Opened.{Opened, collected-Opened}
use ntrace.Patching.Threads.{
  Os, ThreadEntry, counted, suspend, resume, collect, undo_all, perform, for_each_thread,
}

module _ (os : Os) (alive : (w : os.World) (h : ℕ) → os.still_active w h ≡ true)
    (resumes : (w : os.World) (h : ℕ)
      → 0 < os.count w h
      → (n : ℕ) × ((os.resume_thread w h).0 ≡ some n)) where
  undo_all-count :
      (hs : List ℕ) (c : ℕ → ℕ) (w : os.World)
      → ((i : ℕ) → os.count w i ≡ c i + tally i hs)
      → (i : ℕ) → os.count (undo_all os (resume os) hs w) i ≡ c i
  unfolding undo_all resume
  undo_all-count [] c w e i = omega (arith, e i)
  undo_all-count (h ∷ hs) c w e i =
      let (n, q) = resumes w h (ground (arith, e h)) in
      undo_all-count hs c (os.resume_thread w h).1
        (λ j. ground (arith, os.resume_some w h n q j, e j)) i

  -- One thread is suspended or fails.
  perform-next :
      (done : List ℕ) (h n : ℕ) (hs : List ℕ) (w : os.World)
      → (os.suspend_thread w h).0 ≡ some n
      → perform os (suspend os) (some (resume os)) done (h ∷ hs) success w
        ≡ perform os (suspend os) (some (resume os)) (h ∷ done) hs success (os.suspend_thread w h).1
  unfolding perform suspend counted is_success
  perform-next done h n hs w e = ground (arith, e)

  perform-undo :
      (d h : ℕ) (done hs : List ℕ) (w : os.World)
      → (os.suspend_thread w h).0 ≡ none
      → perform os (suspend os) (some (resume os)) (d ∷ done) (h ∷ hs) success w
        ≡ (suspend_failure, undo_all os (resume os) (d ∷ done) (os.suspend_thread w h).1)
  unfolding perform suspend counted is_success
  perform-undo d h done hs w e = ground (arith, e, alive (os.suspend_thread w h).1 h)

  -- All threads of a list are suspended, and those dealt with before, or the call fails and none is.
  abbrev pub AllOrNone : (ℕ → ℕ) → List ℕ → Status × os.World → Type 0
  AllOrNone c hs (status, w) =
      ((status ≡ success) × ((i : ℕ) → os.count w i ≡ c i + tally i hs))
      ⊎ ((status ≢ success) × ((i : ℕ) → os.count w i ≡ c i))

  perform-AllOrNone :
      (hs done : List ℕ) (d : ℕ) (c : ℕ → ℕ) (all : List ℕ) (w : os.World)
      → ((i : ℕ) → os.count w i ≡ c i + tally i (d ∷ done))
      → ((i : ℕ) → tally i all ≡ tally i (d ∷ done) + tally i hs)
      → AllOrNone c all (perform os (suspend os) (some (resume os)) (d ∷ done) hs success w)
  unfolding perform
  perform-AllOrNone [] done d c all w e a = inl (refl, λ i. omega (arith, e i, a i))
  perform-AllOrNone (h ∷ hs) done d c all w e a = elim (Option-cases (os.suspend_thread w h).0) [
    | inl q ↦ subst (AllOrNone c all) (sym (perform-undo d h done hs w q)) (
        inr (
          (λ f. ground (arith, f)),
          undo_all-count (d ∷ done) c (os.suspend_thread w h).1
              (λ i. ground (arith, os.suspend_none w h q i, e i)),
        ))
    | inr (n, q) ↦ subst (AllOrNone c all) (sym (perform-next (d ∷ done) h n hs w q)) (
        perform-AllOrNone hs (d ∷ done) h c all (os.suspend_thread w h).1
          (λ i. ground (arith, os.suspend_some w h n q i, e i)) (λ i. omega (arith, a i)))
  ]

  -- A run in which the first thread is suspended.
  perform-first :
      (h n : ℕ) (hs : List ℕ) (w : os.World)
      → (os.suspend_thread w h).0 ≡ some n
      → AllOrNone
          (os.count w)
          (h ∷ hs)
          (perform os (suspend os) (some (resume os)) [] (h ∷ hs) success w)
  perform-first h n hs w q =
      subst (AllOrNone (os.count w) (h ∷ hs)) (sym (perform-next [] h n hs w q)) (
        perform-AllOrNone hs [] h (os.count w) (h ∷ hs) (os.suspend_thread w h).1
          (λ i. ground (arith, os.suspend_some w h n q i)) (λ i. omega arith))

  -- The call succeeds, and each of the other threads that the snapshot shows of the process is suspended
  -- once more; or it fails, and all suspend counts are as before.
  abbrev pub Suspends : (w : os.World) → Status × os.World → Type 0
  Suspends w r =
      ((r.0 ≡ success)
        × ((es : List ThreadEntry) × ((hs : List ℕ) × ((os.snapshot w ≡ some es)
                × Opened os w es hs
                × ((i : ℕ) → os.count r.1 i ≡ os.count w i + tally i hs)))))
      ⊎ ((r.0 ≢ success) × ((i : ℕ) → os.count r.1 i ≡ os.count w i))

  AllOrNone-Suspends :
      (w : os.World) (es : List ThreadEntry) (hs : List ℕ) (r : Status × os.World)
      → os.snapshot w ≡ some es
      → Opened os w es hs
      → AllOrNone (os.count w) hs r
      → Suspends w r
  AllOrNone-Suspends w es hs r b o (inl (e, c)) = inl (e, (es, (hs, (b, o, c))))
  AllOrNone-Suspends w es hs r b o (inr h) = inr h

  -- A call that gets no further than the list of threads.
  for_each_thread-fails :
      (w : os.World) (status : Status)
      → status ≢ success
      → for_each_thread os (suspend os) (some (resume os)) w ≡ (status, w)
      → Suspends w (for_each_thread os (suspend os) (some (resume os)) w)
  for_each_thread-fails w status n e = subst (Suspends w) (sym e) (inr (n, λ i. refl))

  for_each_thread-collected :
      (w : os.World) (es : List ThreadEntry) (r : Status × List ℕ)
      → os.heap w 256 ≡ true
      → os.snapshot w ≡ some es
      → collect os w es 256 0 ≡ r
      → for_each_thread os (suspend os) (some (resume os)) w ≡ (
          if is_success r.0
          then perform os (suspend os) (some (resume os)) [] r.1 success w
          else (r.0, w))
  unfolding for_each_thread
  for_each_thread-collected w es r a b e = ground (arith, a, b, e)

  for_each_thread-none :
      (w : os.World)
      → os.heap w 256 ≡ false
      → (for_each_thread os (suspend os) (some (resume os)) w) ≡ (no_memory, w)
  unfolding for_each_thread
  for_each_thread-none w a = ground (arith, a)

  for_each_thread-blind :
      (w : os.World)
      → os.heap w 256 ≡ true
      → os.snapshot w ≡ none
      → (for_each_thread os (suspend os) (some (resume os)) w) ≡ (suspend_failure, w)
  unfolding for_each_thread
  for_each_thread-blind w a b = ground (arith, a, b)

  -- Suppose that no thread exits meanwhile, that suspended threads can be resumed, and that the first
  -- thread whose handle is collected can be suspended. JpfbtpForEachThread, with suspension as its
  -- action and resumption to undo it, succeeds and has opened and suspended, once each, all threads
  -- that the snapshot shows of the process, other than its own, and no others; or it fails and all
  -- suspend counts are as before.
  pub for_each_thread-Suspends :
      (w : os.World)
      → ((es : List ThreadEntry) (h : ℕ) (hs : List ℕ)
          → os.snapshot w ≡ some es
          → collect os w es 256 0 ≡ (success, h ∷ hs)
          → (n : ℕ) × ((os.suspend_thread w h).0 ≡ some n))
      → Suspends w (for_each_thread os (suspend os) (some (resume os)) w)
  unfolding is_success perform
  for_each_thread-Suspends w first = elim (Bool-cases (os.heap w 256)) [
    | inr a ↦ for_each_thread-fails w no_memory (λ f. ground (arith, f)) (for_each_thread-none w a)
    | inl a ↦ elim (Option-cases (os.snapshot w)) [
      | inl b ↦
          for_each_thread-fails w suspend_failure (λ f. ground (arith, f))
            (for_each_thread-blind w a b)
      | inr (es, b) ↦ go a es b (collect os w es 256 0) refl
    ]
  ]
    where
      go :
          os.heap w 256 ≡ true
          → (es : List ThreadEntry) → os.snapshot w ≡ some es
          → (r : Status × List ℕ) → collect os w es 256 0 ≡ r
          → Suspends w (for_each_thread os (suspend os) (some (resume os)) w)
      go a es b (success, h ∷ hs) e =
          let (n, q) = first es h hs b e in
          subst (Suspends w) (sym (for_each_thread-collected w es _ a b e)) (
            AllOrNone-Suspends w es (h ∷ hs) _ b (collected-Opened os w es 256 0 (h ∷ hs) e)
              (perform-first h n hs w q))
      go a es b (success, []) e =
          subst (Suspends w) (sym (for_each_thread-collected w es _ a b e)) (
            AllOrNone-Suspends w es [] _ b (collected-Opened os w es 256 0 [] e)
              (inl (refl, λ i. omega arith)))
      go a es b (status, hs) e =
          for_each_thread-fails w status (λ f. ground (arith, f))
            (for_each_thread-collected w es _ a b e)
