-- ===== src/Agent/Shutdown.antt =====
-- Jpkfbt/jpkfag/control.c and main.c: the end of tracing, and the dispatch of requests.
use ntrace.Base.{
  ◌≢◌, ◌⊎◌, ℕ, zero, suc, ◌+◌, ◌≤◌, ◌<◌, ◌≡◌, inl, inr, refl, sym, ◌∙◌, subst, Bool, true, false,
  not, Option, none, some, List, [], ◌∷◌, All, ◌==◌, ==_iff, if◌then◌else◌, arith, Bool-cases,
  Option-cases,
}
use ntrace.Agent.{Status, success, not_initialized, is_success, is_patches_active}
use ntrace.Agent.Lifecycle.{StackedThread, GlobalData, free_threads, uninitialize}
use ntrace.Agent.Control.{Device, Fbt}

-- The loop that uninitializes the library after each delay of a second, until no thread is left in an
-- instrumented procedure. `passes n` is what the threads do during the delay n.
unfoldable pub attempts :
    (ℕ → GlobalData → GlobalData)
    → ℕ
    → ℕ
    → Option GlobalData
    → Option (Status × Option GlobalData × List ℕ)
unfolding uninitialize is_patches_active
attempts passes zero n global = none
attempts passes (suc fuel) n global =
    let delayed : Option GlobalData = elim global [ none ↦ none | some g ↦ some (passes n g) ] in
    let r = uninitialize delayed in
    let rest = attempts passes fuel (suc n) r.1 in if is_patches_active r.0 then rest else some r

-- JpkfagpShutdownTracing; none if the fuel is used up.
unfoldable pub shutdown_tracing :
    Fbt → (ℕ → GlobalData → GlobalData) → ℕ → Device → Option (Status × Device)
unfolding attempts is_success
shutdown_tracing fbt passes fuel d = elim d.event_sink [
  | none ↦ some (not_initialized, d)
  | some sink ↦
      let (removed, global) = fbt.remove_all d.fbt in
      if not (is_success removed)
      then some (removed, record d { fbt = global })
      else elim (attempts passes fuel 0 global) [
        | none ↦ none
        | some r ↦
            if is_success r.0
            then some (
              r.0,
              record d {
                event_sink = none;
                fbt = r.1;
                notified = false;
                deleted = sink ∷ d.deleted;
              },
            )
            else some (r.0, record d { fbt = r.1; notified = false })
      ]
]

free_threads-idle :
    (ts : List StackedThread) (dirty : List ℕ)
    → All (λ (t : StackedThread). t.frames ≡ 0) ts
    → (free_threads ts dirty).0 ≡ false
unfolding free_threads
free_threads-idle [] dirty h = refl
free_threads-idle (t ∷ ts) dirty h = elim (Option-cases t.current_buffer) [
  | inl e ↦ ground (arith, h.0, free_threads-idle ts dirty h.1, e)
  | inr (b, e) ↦ ground (arith, h.0, free_threads-idle ts (b ∷ dirty) h.1, e)
]

module _ (passes : ℕ → GlobalData → GlobalData) (fuel n : ℕ) (g : GlobalData) where
  abbrev freed : Bool × List StackedThread × List ℕ
  freed = free_threads (passes n g).threads (passes n g).dirty

  attempts-idle :
      (passes n g).patch_count ≡ 0
      → freed.0 ≡ false
      → attempts passes (suc fuel) n (some g) ≡ some (success, none, freed.2)
  unfolding attempts uninitialize is_patches_active
  attempts-idle h e = ground (arith, h, e)

  attempts-active :
      (passes n g).patch_count ≡ 0
      → freed.0 ≡ true
      → attempts passes (suc fuel) n (some g)
        ≡ attempts passes fuel
            (suc n)
            (some (record (passes n g) { threads = freed.1; dirty = freed.2 }))
  unfolding attempts uninitialize is_patches_active
  attempts-active h e = ground (arith, h, e)

-- A thread has frames of instrumented procedures.
abbrev pub InUse : List StackedThread → Type 0
InUse [] = ⊥
InUse (t ∷ ts) = (t.frames ≢ 0) ⊎ InUse ts

module _ (t : StackedThread) (ts : List StackedThread) (dirty : List ℕ) where
  free_threads-stops : t.frames ≢ 0 → free_threads (t ∷ ts) dirty ≡ (true, t ∷ ts, dirty)
  unfolding free_threads
  free_threads-stops h = ground (arith, h)

  free_threads-frees :
      t.frames ≡ 0 → t.current_buffer ≡ none → free_threads (t ∷ ts) dirty ≡ free_threads ts dirty
  unfolding free_threads
  free_threads-frees h e = ground (arith, h, e)

  free_threads-dirties :
      (b : ℕ)
      → t.frames ≡ 0
      → t.current_buffer ≡ some b
      → free_threads (t ∷ ts) dirty ≡ free_threads ts (b ∷ dirty)
  unfolding free_threads
  free_threads-dirties b h e = ground (arith, h, e)

-- A thread in use is found, and stays on the list.
free_threads-InUse :
    (ts : List StackedThread) (dirty : List ℕ)
    → InUse ts
    → ((free_threads ts dirty).0 ≡ true) × InUse (free_threads ts dirty).1
free_threads-InUse [] dirty h = elim h [ ]
free_threads-InUse (t ∷ ts) dirty h = elim (Bool-cases (t.frames == 0)) [
  | inr e ↦
      let used : t.frames ≢ 0 = (λ f. ground (arith, e, f)) in
      subst (λ r. (r.0 ≡ true) × InUse r.1) (sym (free_threads-stops t ts dirty used))
        (refl, inl used)
  | inl e ↦
      let idle : t.frames ≡ 0 = (==_iff t.frames 0).0 e in
      let later : InUse ts = elim h [ inl used ↦ absurd (used idle) | inr l ↦ l ] in
      elim (Option-cases t.current_buffer) [
        | inl f ↦
            subst (λ r. (r.0 ≡ true) × InUse r.1) (sym (free_threads-frees t ts dirty idle f))
              (free_threads-InUse ts dirty later)
        | inr (b, f) ↦
            subst (λ r. (r.0 ≡ true) × InUse r.1) (sym (free_threads-dirties t ts dirty b idle f))
              (free_threads-InUse ts (b ∷ dirty) later)
      ]
]

-- While nothing is patched any more, the loop ends after the delay in which the last thread leaves.
attempts_end :
    (passes : ℕ → GlobalData → GlobalData) (fuel n k : ℕ) (g : GlobalData)
    → ((i : ℕ) (h : GlobalData) → (passes i h).patch_count ≡ h.patch_count)
    → ((h : GlobalData) → All (λ (t : StackedThread). t.frames ≡ 0) (passes k h).threads)
    → n ≤ k
    → k < n + fuel
    → g.patch_count ≡ 0
    → (dirty : List ℕ) × (attempts passes fuel n (some g) ≡ some (success, none, dirty))
attempts_end passes zero n k g same gone a b h = absurd (omega (arith, a, b))
attempts_end passes (suc fuel) n k g same gone a b h =
    let unpatched : (passes n g).patch_count ≡ 0 = same n g ∙ h in
    elim (Bool-cases (freed passes fuel n g).0) [
      | inr e ↦ ((freed passes fuel n g).2, attempts-idle passes fuel n g unpatched e)
      | inl e ↦
          let later : suc n ≤ k = elim (Bool-cases (n == k)) [
            | inl f ↦ absurd (ground (arith, e, idle f))
            | inr f ↦ ground (arith, a, f)
          ] in
          let (dirty, ends) =
            attempts_end passes fuel (suc n) k
              (record (passes n g) {
                threads = (freed passes fuel n g).1;
                dirty = (freed passes fuel n g).2;
              })
              same gone later (omega (arith, b)) unpatched in
          (dirty, attempts-active passes fuel n g unpatched e ∙ ends)
    ]
  where
    idle : (n == k) ≡ true → (freed passes fuel n g).0 ≡ false
    idle f =
        subst (λ i. (free_threads (passes i g).threads (passes i g).dirty).0 ≡ false)
          (sym ((==_iff n k).0 f)) (free_threads-idle _ _ (gone g))

-- While nothing is patched any more, and some thread stays in use over the delays before `j`, the loop goes
-- on.
attempts_wait :
    (passes : ℕ → GlobalData → GlobalData) (fuel n j : ℕ) (g : GlobalData)
    → ((i : ℕ) (h : GlobalData) → (passes i h).patch_count ≡ h.patch_count)
    → ((i : ℕ) (h : GlobalData) → i < j → InUse h.threads → InUse (passes i h).threads)
    → n + fuel ≤ j
    → g.patch_count ≡ 0
    → InUse g.threads
    → attempts passes fuel n (some g) ≡ none
unfolding attempts
attempts_wait passes zero n j g same stays b h used = refl
attempts_wait passes (suc fuel) n j g same stays b h used =
    let unpatched : (passes n g).patch_count ≡ 0 = same n g ∙ h in
    let (found, left) =
      free_threads-InUse (passes n g).threads (passes n g).dirty
        (stays n g (omega (arith, b)) used) in
    attempts-active passes fuel n g unpatched found
    ∙ attempts_wait passes fuel (suc n) j
        (record (passes n g) {
          threads = (freed passes fuel n g).1;
          dirty = (freed passes fuel n g).2;
        })
        same stays (omega (arith, b)) unpatched left

attempts_still :
    (passes : ℕ → GlobalData → GlobalData) (waited j : ℕ) (g : GlobalData)
    → ((i : ℕ) (h : GlobalData) → (passes i h).patch_count ≡ h.patch_count)
    → ((i : ℕ) (h : GlobalData) → i < j → InUse h.threads → InUse (passes i h).threads)
    → waited ≤ j
    → g.patch_count ≡ 0
    → (0 < j → InUse g.threads)
    → attempts passes waited 0 (some g) ≡ none
unfolding attempts
attempts_still passes zero j g same stays w u used = refl
attempts_still passes (suc n) j g same stays w u used =
    attempts_wait passes (suc n) 0 j g same stays (omega (arith, w)) u (used (omega (arith, w)))

module _ (fbt : Fbt) (passes : ℕ → GlobalData → GlobalData) (d : Device) where
  shutdown_tracing-waits :
      (fuel sink : ℕ) (g : GlobalData)
      → d.event_sink ≡ some sink
      → fbt.remove_all d.fbt ≡ (success, some g)
      → attempts passes fuel 0 (some g) ≡ none
      → shutdown_tracing fbt passes fuel d ≡ none
  unfolding shutdown_tracing is_success
  shutdown_tracing-waits fuel sink g s r e = ground (arith, s, r, e)

  shutdown_tracing-ends :
      (fuel sink : ℕ) (g : GlobalData) (dirty : List ℕ)
      → d.event_sink ≡ some sink
      → fbt.remove_all d.fbt ≡ (success, some g)
      → attempts passes fuel 0 (some g) ≡ some (success, none, dirty)
      → shutdown_tracing fbt passes fuel d
        ≡ some (
          success,
          record d { event_sink = none; fbt = none; notified = false; deleted = sink ∷ d.deleted },
        )
  unfolding shutdown_tracing is_success
  shutdown_tracing-ends fuel sink g dirty s r e = ground (arith, s, r, e)

  -- Suppose that removing all instrumentation succeeds and leaves no patch, and that nothing is patched
  -- during the delays, although no lock of the driver keeps other requests from it. If a thread is in
  -- an instrumented procedure at first, and over each of the delays before `j` some thread stays in
  -- one, JpkfagpShutdownTracing has not returned after `waited` delays, for any `waited` up to `j`. If
  -- after the delay `k` no thread is in an instrumented procedure, it has returned by then, with
  -- success, without an event sink and with the library taken down.
  pub shutdown_tracing_returns :
      (fuel j k waited sink : ℕ) (g : GlobalData)
      → d.event_sink ≡ some sink
      → fbt.remove_all d.fbt ≡ (success, some g)
      → g.patch_count ≡ 0
      → ((i : ℕ) (h : GlobalData) → (passes i h).patch_count ≡ h.patch_count)
      → (0 < j → InUse g.threads)
      → ((i : ℕ) (h : GlobalData) → i < j → InUse h.threads → InUse (passes i h).threads)
      → ((h : GlobalData) → All (λ (t : StackedThread). t.frames ≡ 0) (passes k h).threads)
      → waited ≤ j
      → k < fuel
      → (shutdown_tracing fbt passes waited d ≡ none)
        × (shutdown_tracing fbt passes fuel d
            ≡ some (
              success,
              record d {
                event_sink = none;
                fbt = none;
                notified = false;
                deleted = sink ∷ d.deleted;
              },
            ))
  shutdown_tracing_returns fuel j k waited sink g s r u same used stays gone w f =
      let (dirty, ends) =
        attempts_end passes fuel 0 k g same gone (omega arith) (omega (arith, f)) u in
      (
        shutdown_tracing-waits waited sink g s r
            (attempts_still passes waited j g same stays w u used),
        shutdown_tracing-ends fuel sink g dirty s r ends,
      )
