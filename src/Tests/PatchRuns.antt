-- ===== src/Tests/PatchRuns.antt =====
-- One procedure at 100 with five bytes of padding before it, in a process of two threads.
use ntrace.Base.{
  ℕ, suc, ◌+◌, ◌-◌, ◌^◌, ◌<◌, ◌≡◌, ◌≢◌, ◌⊎◌, refl, arith, Bool, true, false, Option, some, none,
  List, [], ◌∷◌, update, tally, length, ◌==◌, ==_iff, if◌then◌else◌,
}
use ntrace.Base.Bytes.{store}
use ntrace.Base.Table.{Hashtable, assoc_table}
use ntrace.Patching.{
  success, patch, unpatch, CodePatch, Machine, Check, check_user, check_kernel, is_success,
  copy_all, trampoline_and_prolog, max_long, distance,
}
use ntrace.Patching.Jumps.{Diverted, trampoline_and_prolog-Diverted}
use ntrace.Patching.Checks.{Patchable, check_kernel-Patchable}
use ntrace.Patching.Threads.{Os, ThreadEntry, collect, suspend, resume, for_each_thread}
use ntrace.Patching.Passed.{Suspendable, AllOf, for_each_thread-AllOf}
use ntrace.Patching.Suspended.{Suspends, for_each_thread-Suspends}
use ntrace.Patching.Apply.{patch_code}
use ntrace.Patching.Kernel
use ntrace.Patching.Kernel.{Kernel}
use ntrace.Patching.Locked.{patch_code-unchanged}
use ntrace.Patching.Pages.{patch_code-unlocked, patch_code-locked}
use ntrace.Patching.Restore.{Ready, copy_all-unpatch}
use ntrace.Patching.Reverted.{Done, patch_code-Done}
use ntrace.Patching.Instrument.{Allocator, Library, instrument, uninstrument}
use ntrace.Patching.Instrument.Session.{Honest}
use ntrace.Patching.Instrument.Made.{Spaced}
use ntrace.Patching.Instrument.Outcomes.{Failed, instrument-Failed}
use ntrace.Patching.Instrument.Undone.{Undone, instrument-Diverted, uninstrument-Undone}

suspends : (w : ℕ → ℕ) (h i : ℕ) → update w h (suc (w h)) i ≡ (if h == i then suc (w i) else w i)
suspends w h i = ground arith

resumes : (w : ℕ → ℕ) (h i : ℕ) → update w h (w h - 1) i ≡ (if h == i then w i - 1 else w i)
resumes w h i = ground arith

never : (w : ℕ → ℕ) (h : ℕ) → some (w h) ≢ none
never w h e = ground (arith, e)

-- All calls succeed. The handle of a thread is its id.
abbrev os : Os
os = record {
  World = ℕ → ℕ;
  heap = λ w n. true;
  snapshot = λ w. some (
      record { owner_process_id = 4; thread_id = 8 }
      ∷ record { owner_process_id = 4; thread_id = 12 }
      ∷ record { owner_process_id = 0; thread_id = 16 }
      ∷ []);
  process_id = 4;
  thread_id = 8;
  open_thread = λ w t. some t;
  suspend_thread = λ w h. (some (w h), update w h (suc (w h)));
  resume_thread = λ w h. (some (w h), update w h (w h - 1));
  still_active = λ w h. true;
  virtual_protect = λ w a n p. (some 0x20, w);
  count = λ w h. w h;
  suspend_some = λ w h n e i. suspends w h i;
  suspend_none = λ w h e i. absurd (never w h e);
  resume_some = λ w h n e i. resumes w h i;
  resume_none = λ w h e i. absurd (never w h e);
}

abbrev world : ℕ → ℕ
world t = 0

abbrev code : ℕ → ℕ
code = store (λ a. 0) 95 (0x90 ∷ 0x90 ∷ 0x90 ∷ 0x90 ∷ 0x90 ∷ 0x8B ∷ 0xFF ∷ 0x55 ∷ [])

abbrev zeroed : CodePatch
zeroed = record {
  procedure = 0;
  target = 0;
  code_size = 0;
  new_code = [];
  old_code = [];
  doomed = false;
  protection = 0;
  mapped = false;
}

abbrev table : Hashtable ℕ ℕ
table = assoc_table ◌==◌ ==_iff

abbrev start : Library table
start = record {
  machine = record { code = code; patches = λ k. zeroed };
  database = table.empty;
  live = λ k. false;
}

abbrev memory : Allocator
memory = record { array = true; block = λ i. some (i + 7) }

honest : Honest memory start.live
honest = record { free = λ j k e. refl; single = λ i j k e f. ground (arith, e, f) }

spaced : Spaced (100 ∷ [])
spaced = record {
  different = λ p. ground arith;
  room = λ p h. ground (arith, h);
  bounded = λ p h. ground (arith, h);
  away = λ p q h i n. absurd (n (ground (arith, h, i)));
}

abbrev check : Check
check = check_user (λ p. false)

abbrev valid : ℕ → Bool
valid a = true

instrumented : (instrument table os check valid 5000 memory (100 ∷ []) start world).0 ≡ success
unfolding instrument check_user store
instrumented = refl

abbrev after : Library table
after = (instrument table os check valid 5000 memory (100 ∷ []) start world).2

instrument-Failed_example :
    ((instrument table os check valid 5000 memory (100 ∷ []) start world).0 ≡ success)
    ⊎ Failed table os check valid 5000 start
        (instrument table os check valid 5000 memory (100 ∷ []) start world)
instrument-Failed_example =
    instrument-Failed table os check valid 5000 memory (100 ∷ []) start world honest

small : 5000 < 2 ^ 32
small = omega arith

one : 0 < tally 100 (100 ∷ [])
one = omega arith

instrument-Diverted_example : Diverted after.machine.code 100 5000
instrument-Diverted_example =
    instrument-Diverted table os check valid 5000 memory (100 ∷ []) start world small honest spaced
      instrumented 100 one

uninstrumented : (uninstrument table os check valid 5000 memory (100 ∷ []) after world).0 ≡ success
unfolding instrument uninstrument check_user store assoc_table
uninstrumented = refl

uninstrument-Undone_example :
    Undone table os check valid 5000 memory
      (100 ∷ [])
      start
      world
      small
      honest
      spaced
      instrumented
      (uninstrument table os check valid 5000 memory (100 ∷ []) after world).2
uninstrument-Undone_example =
    uninstrument-Undone table os check valid 5000 memory (100 ∷ []) start world small honest spaced
      instrumented memory world (λ p h. refl) uninstrumented

trampoline_and_prolog-Diverted_example :
    ((max_long < distance 5000 100) × (trampoline_and_prolog 5000 100 ≡ none))
    ⊎ ((payload : List ℕ) × (trampoline_and_prolog 5000 100 ≡ some payload)
        × (length payload ≡ 7)
        × Diverted (store code (100 - 5) payload) 100 5000)
trampoline_and_prolog-Diverted_example =
    trampoline_and_prolog-Diverted code 5000 100 (omega arith) (omega arith) small

checked : check_kernel valid code 100 ≡ (success, true)
unfolding check_kernel store
checked = refl

check_kernel-Patchable_example : Patchable valid code 100
check_kernel-Patchable_example = check_kernel-Patchable valid (λ a b e. refl) code 100 checked

resumable : (w : ℕ → ℕ) (h : ℕ) → 0 < w h → (n : ℕ) × ((os.resume_thread w h).0 ≡ some n)
resumable w h l = (w h, refl)

for_each_thread-Suspends_example :
    Suspends os
      (λ w h. refl)
      resumable
      world
      (for_each_thread os (suspend os) (some (resume os)) world)
for_each_thread-Suspends_example =
    for_each_thread-Suspends os (λ w h. refl) resumable world (λ es h hs e f. (0, refl))

patch_code-Done_example :
    Done os check valid patch
      (3 ∷ [])
      start.machine
      (patch_code os check valid patch (3 ∷ []) start.machine world).0
      (patch_code os check valid patch (3 ∷ []) start.machine world).2
patch_code-Done_example = patch_code-Done os check valid patch (3 ∷ []) start.machine world

-- A system in which the thread 12 cannot be suspended.
abbrev reluctant : (ℕ → ℕ) → ℕ → Option ℕ × (ℕ → ℕ)
reluctant w h = if h == 12 then (none, w) else (some (w h), update w h (suc (w h)))

guarded_some :
    (w : ℕ → ℕ) (h n i : ℕ)
    → (reluctant w h).0 ≡ some n
    → (reluctant w h).1 i ≡ (if h == i then suc (w i) else w i)
guarded_some w h n i e = ground (arith, e)

guarded_none : (w : ℕ → ℕ) (h i : ℕ) → (reluctant w h).0 ≡ none → (reluctant w h).1 i ≡ w i
guarded_none w h i e = ground (arith, e)

abbrev guarded : Os
guarded = record os {
  suspend_thread = reluctant;
  suspend_some = λ w h n e i. guarded_some w h n i e;
  suspend_none = λ w h e i. guarded_none w h i e;
}

abbrev entries : List ThreadEntry
entries =
    record { owner_process_id = 4; thread_id = 12 }
    ∷ record { owner_process_id = 4; thread_id = 20 }
    ∷ []

abbrev crowded : Os
crowded = record guarded { snapshot = λ w. some entries }

crowded-Suspendable : Suspendable crowded (λ w h. refl) (20 ∷ [])
crowded-Suspendable w i l = (w i, ground (arith, l))

collects : collect crowded world entries 256 0 ≡ (success, 12 ∷ 20 ∷ [])
unfolding collect
collects = refl

for_each_thread-AllOf_example :
    AllOf crowded
      (λ w h. refl)
      (λ i. 0)
      (20 ∷ [])
      (for_each_thread crowded (suspend crowded) (some (resume crowded)) world)
for_each_thread-AllOf_example =
    for_each_thread-AllOf crowded (λ w h. refl) world entries 12 20 [] refl refl collects refl
      crowded-Suspendable

-- Two patches for the kernel, the first one for a procedure that is gone.
abbrev kernel : Kernel
kernel = record { mdl = λ a n. true; lockable = λ a n. true; valid_then = λ a. a == 100 }

abbrev coded : List ℕ
coded = 0xE8 ∷ 1 ∷ 2 ∷ 3 ∷ 4 ∷ 0xEB ∷ 0xF9 ∷ []

abbrev patches : Machine
patches = record {
  code = store (λ a. 0) 95 (0xE8 ∷ 0 ∷ 0 ∷ 0 ∷ 0 ∷ 0xEB ∷ 0xF9 ∷ []);
  patches =
      update
        (update (λ k. zeroed) 1
          (record zeroed { procedure = 200; target = 195; code_size = 7; new_code = coded }))
        2 (record zeroed { procedure = 100; target = 95; code_size = 7; new_code = coded });
}

jumps : patches.code 100 ≡ 0xEB
unfolding store
jumps = refl

patch_code-locked_example :
    let r = Kernel.patch_code check (λ a. a == 100) kernel unpatch (1 ∷ 2 ∷ []) patches in
    (r.0 ≡ success) × ((r.2.patches 2).mapped ≡ true)
patch_code-locked_example =
    patch_code-locked check (λ a. a == 100) kernel 1 2 patches (λ e. ground (arith, e)) refl refl
      refl refl jumps refl refl

patch_code-unlocked_example :
    ((Kernel.patch_code check (λ a. a == 100) kernel patch (1 ∷ 2 ∷ []) patches).2.patches 2).mapped
    ≡ false
patch_code-unlocked_example =
    patch_code-unlocked check (λ a. a == 100) kernel (1 ∷ 2 ∷ []) patches (λ k m. ground arith)
      (λ k. ground arith) 2 (omega arith)

refused :
    is_success (Kernel.patch_code check (λ a. a == 100) kernel patch (1 ∷ 2 ∷ []) patches).0 ≡ false
unfolding Kernel.patch_code store check_user is_success
refused = refl

patch_code-unchanged_example :
    (Kernel.patch_code check (λ a. a == 100) kernel patch (1 ∷ 2 ∷ []) patches).2.code
    ≡ patches.code
patch_code-unchanged_example =
    patch_code-unchanged check (λ a. a == 100) kernel patch (1 ∷ 2 ∷ []) patches refused

ready : Ready patches (1 ∷ 2 ∷ [])
ready = record {
  laid = record { once = λ k. ground arith; apart = λ j k a m n d h. ground (arith, m, n, d, h) };
  sound = λ k m. ground (arith, m);
  sized = λ k m. ground (arith, m);
}

copy_all-unpatch_example :
    (copy_all unpatch (1 ∷ 2 ∷ []) (copy_all patch (1 ∷ 2 ∷ []) patches)).code ≡ patches.code
copy_all-unpatch_example = copy_all-unpatch (1 ∷ 2 ∷ []) patches ready
