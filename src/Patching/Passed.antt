-- ===== src/Patching/Passed.antt =====
-- The first thread that JpfbtpForEachThread of Jpfbt/jpfbt/um_threadenum.c cannot suspend.
use ntrace.Base.{ℕ, ◌+◌, ◌<◌, ◌≡◌, refl, sym, subst, true, some, none, List, [], ◌∷◌, tally, arith}
use ntrace.Patching.{Status, success, suspend_failure, is_success}
use ntrace.Patching.Threads.{
  Os, ThreadEntry, counted, suspend, resume, collect, perform, for_each_thread,
}

module _ (os : Os) (alive : (w : os.World) (h : ℕ) → os.still_active w h ≡ true) where
  -- These threads can be suspended, whatever happens.
  abbrev pub Suspendable : List ℕ → Type 0
  Suspendable hs =
      (w : os.World) (i : ℕ) → 0 < tally i hs → (n : ℕ) × ((os.suspend_thread w i).0 ≡ some n)

  abbrev loop : List ℕ → List ℕ → Status → os.World → Status × os.World
  loop = perform os (suspend os) (some (resume os))

  perform-suspended :
      (done : List ℕ) (h n : ℕ) (hs : List ℕ) (status : Status) (w : os.World)
      → (os.suspend_thread w h).0 ≡ some n
      → loop done (h ∷ hs) status w ≡ loop (h ∷ done) hs success (os.suspend_thread w h).1
  unfolding perform suspend counted is_success
  perform-suspended done h n hs status w e = ground (arith, e)

  perform-passes :
      (h : ℕ) (hs : List ℕ) (w : os.World)
      → (os.suspend_thread w h).0 ≡ none
      → loop [] (h ∷ hs) success w ≡ loop (h ∷ []) hs suspend_failure (os.suspend_thread w h).1
  unfolding perform suspend counted is_success
  perform-passes h hs w e = ground (arith, e, alive (os.suspend_thread w h).1 h)

  -- The call succeeds, and these threads are suspended once more.
  abbrev pub AllOf : (ℕ → ℕ) → List ℕ → Status × os.World → Type 0
  AllOf c hs r = (r.0 ≡ success) × ((i : ℕ) → os.count r.1 i ≡ c i + tally i hs)

  perform-AllOf :
      (hs done : List ℕ) (h : ℕ) (status : Status) (c : ℕ → ℕ) (w : os.World)
      → Suspendable (h ∷ hs)
      → ((i : ℕ) → os.count w i ≡ c i)
      → AllOf c (h ∷ hs) (loop done (h ∷ hs) status w)
  unfolding perform
  perform-AllOf [] done h status c w able e =
      let (n, q) = able w h (ground arith) in
      subst (AllOf c (h ∷ [])) (sym (perform-suspended done h n [] status w q))
        (refl, λ i. ground (arith, os.suspend_some w h n q i, e i))
  perform-AllOf (g ∷ hs) done h status c w able e =
      let (n, q) = able w h (ground arith) in
      let w' = (os.suspend_thread w h).1 in
      let (s, counts) =
        perform-AllOf hs (h ∷ done) g success (os.count w') w'
          (λ v i l. able v i (ground (arith, l))) (λ i. refl) in
      subst (AllOf c (h ∷ g ∷ hs)) (sym (perform-suspended done h n (g ∷ hs) status w q))
        (s, λ i. ground (arith, counts i, os.suspend_some w h n q i, e i))

  for_each_thread-performs :
      (w : os.World) (es : List ThreadEntry) (hs : List ℕ)
      → os.heap w 256 ≡ true
      → os.snapshot w ≡ some es
      → collect os w es 256 0 ≡ (success, hs)
      → for_each_thread os (suspend os) (some (resume os)) w ≡ loop [] hs success w
  unfolding for_each_thread is_success
  for_each_thread-performs w es hs a b e = ground (arith, a, b, e)

  -- Suppose that no thread exits meanwhile, and that of the threads whose handles JpfbtpForEachThread
  -- has collected the first cannot be suspended, and the others, at least one, can. The call, with
  -- suspension as its action and resumption to undo it, succeeds, and just the others are suspended
  -- once more.
  pub for_each_thread-AllOf :
      (w : os.World) (es : List ThreadEntry) (h g : ℕ) (hs : List ℕ)
      → os.heap w 256 ≡ true
      → os.snapshot w ≡ some es
      → collect os w es 256 0 ≡ (success, h ∷ g ∷ hs)
      → (os.suspend_thread w h).0 ≡ none
      → Suspendable (g ∷ hs)
      → AllOf (os.count w) (g ∷ hs) (for_each_thread os (suspend os) (some (resume os)) w)
  for_each_thread-AllOf w es h g hs a b e q able =
      subst (AllOf (os.count w) (g ∷ hs)) (sym (for_each_thread-performs w es _ a b e)) (
        subst (AllOf (os.count w) (g ∷ hs)) (sym (perform-passes h (g ∷ hs) w q)) (
          perform-AllOf hs (h ∷ []) g suspend_failure (os.count w) (os.suspend_thread w h).1 able
            (os.suspend_none w h q)))
