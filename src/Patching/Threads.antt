-- ===== src/Patching/Threads.antt =====
-- Jpfbt/jpfbt/um_threadenum.c and the two actions of um_patch.c: the other threads of the process are
-- suspended and resumed. The calls of Windows are the fields of Os.
use ntrace.Base.{
  ℕ, suc, ◌+◌, ◌-◌, ◌*◌, ◌≡◌, Bool, not, ◌&&◌, ◌||◌, Option, some, none, List, [], ◌∷◌, ltb, ◌==◌,
  if◌then◌else◌,
}
use ntrace.Patching.{Status, success, no_memory, invalid_handle, suspend_failure, is_success}

-- THREADENTRY32
pub record ThreadEntry : Type 0 where
  pub owner_process_id : ℕ
  pub thread_id : ℕ

-- What the code calls: whether a block can be had, or enlarged, of the heap; the snapshot of all
-- threads; OpenThread; SuspendThread and ResumeThread, with the previous suspend count; whether the
-- exit code of a thread is STILL_ACTIVE; VirtualProtect, with the previous protection. `count` is the
-- suspend count of the thread of a handle; resuming a thread of count 0 leaves it at 0.
pub record Os : Type 1 where
  pub World : Type 0
  pub heap : World → ℕ → Bool
  pub snapshot : World → Option (List ThreadEntry)
  pub process_id : ℕ
  pub thread_id : ℕ
  pub open_thread : World → ℕ → Option ℕ
  pub suspend_thread : World → ℕ → Option ℕ × World
  pub resume_thread : World → ℕ → Option ℕ × World
  pub still_active : World → ℕ → Bool
  pub virtual_protect : World → ℕ → ℕ → ℕ → Option ℕ × World
  pub count : World → ℕ → ℕ
  pub suspend_some :
      (w : World) (h n : ℕ)
      → (suspend_thread w h).0 ≡ some n
      → (i : ℕ) → count (suspend_thread w h).1 i ≡ (if h == i then suc (count w i) else count w i)
  pub suspend_none :
      (w : World) (h : ℕ)
      → (suspend_thread w h).0 ≡ none
      → (i : ℕ) → count (suspend_thread w h).1 i ≡ count w i
  pub resume_some :
      (w : World) (h n : ℕ)
      → (resume_thread w h).0 ≡ some n
      → (i : ℕ) → count (resume_thread w h).1 i ≡ (if h == i then count w i - 1 else count w i)
  pub resume_none :
      (w : World) (h : ℕ)
      → (resume_thread w h).0 ≡ none
      → (i : ℕ) → count (resume_thread w h).1 i ≡ count w i

module _ (os : Os) where
  -- A routine that is called for a thread.
  abbrev pub Routine : Type 0
  Routine = os.World → ℕ → Status × os.World

  -- The outcome of a call that gives a suspend count.
  unfoldable pub counted : Option ℕ → Status
  counted none = suspend_failure
  counted (some n) = success

  -- JpfbtsSuspendThread, less its checksum of the debug build
  unfoldable pub suspend : Routine
  unfolding counted
  suspend w h = let (n, w') = os.suspend_thread w h in (counted n, w')

  -- JpfbtsResumeThread
  unfoldable pub resume : Routine
  unfolding counted
  resume w h = let (n, w') = os.resume_thread w h in (counted n, w')

  -- The handles of the other threads of the process, in an array of `size` bytes that is doubled when
  -- it is full; a handle has 4 bytes. `count` handles are in it.
  unfoldable pub collect : os.World → List ThreadEntry → ℕ → ℕ → Status × List ℕ
  collect w [] size count = (success, [])
  collect w (e ∷ es) size count =
      let full = ltb size ((count + 1) * 4) in
      let (s, hs) = collect w es (if full then size * 2 else size) (count + 1) in
      let skipped = collect w es size count in
      if (e.owner_process_id == os.process_id) && not (e.thread_id == os.thread_id)
      then (elim (os.open_thread w e.thread_id) [
        | none ↦ (invalid_handle, [])
        | some h ↦ if full && not (os.heap w (size * 2)) then (no_memory, []) else (s, h ∷ hs)
      ])
      else skipped

  -- The undo phase.
  unfoldable pub undo_all : Routine → List ℕ → os.World → os.World
  undo_all undo [] w = w
  undo_all undo (h ∷ hs) w = undo_all undo hs (undo w h).1

  -- The loop over the handles: those dealt with, the last one first, and those to come.
  unfoldable pub perform :
      Routine → Option Routine → List ℕ → List ℕ → Status → os.World → Status × os.World
  unfolding is_success undo_all
  perform action undo done [] status w = (status, w)
  perform action undo done (h ∷ hs) status w =
      let (result, w') = action w h in
      let exited = not (is_success result) && not (os.still_active w' h) in
      let on = perform action undo (h ∷ done) hs (if exited then success else result) w' in
      if is_success result || exited then on else elim done [
        | [] ↦ on
        | d ∷ ds ↦ elim undo [ none ↦ on | some routine ↦ (result, undo_all routine (d ∷ ds) w') ]
      ]

  -- JpfbtpForEachThread of the release build, whose array has 64 handles at first.
  unfoldable pub for_each_thread : Routine → Option Routine → os.World → Status × os.World
  unfolding collect is_success perform
  for_each_thread action undo w =
      if not (os.heap w 256) then (no_memory, w) else elim (os.snapshot w) [
        | none ↦ (suspend_failure, w)
        | some entries ↦
            (let (status, handles) = collect w entries 256 0 in
              if is_success status then perform action undo [] handles success w else (status, w))
      ]
