-- ===== src/Thunks.antt =====
-- Jpfbt/jpfbt/thunksup.c: the thunk stack of a thread, and the exception handlers that are replaced so
-- that it is unwound. Frames are known by their index in the stack, which grows downwards, and
-- registration records by their address.
pub mod Nested
pub mod Unwinding
use ntrace.Base.{
  ℕ, zero, suc, ◌+◌, ◌-◌, ◌%◌, ◌^◌, Bool, true, false, not, Option, some, none, ◌==◌, if◌then◌else◌,
  update,
}

-- JPFBT_THUNK_STACK_LOCATIONS - 1, the index of the frame at the bottom, which is never used.
abbrev pub bottom : ℕ
bottom = 255

-- The field Seh of a frame: no handler; a frame below has installed it (RegisteringFrame); or this frame
-- has, with the registration record, its OriginalHandler and the FrameCount.
pub data Seh : Type 0 where
  nothing : Seh
  refers : ℕ → Seh
  registered : ℕ → ℕ → ℕ → Seh

-- JPFBT_THUNK_STACK with the Seh of its frames, and the Handler of each registration record.
pub record Stack : Type 0 where
  pub stack_pointer : ℕ
  pub seh : ℕ → Seh
  pub handlers : ℕ → ℕ

-- Seh.RegistrationRecord, if it is not NULL
unfoldable pub registration : Seh → Option ℕ
registration (registered r o c) = some r
registration _ = none

-- The loop of JpfbtsLookupFrameForRegistrationRecord over `n` frames.
unfoldable pub lookup_from : (ℕ → Seh) → ℕ → ℕ → ℕ → Option ℕ
unfolding registration
lookup_from seh r frame zero = none
lookup_from seh r frame (suc n) =
    let rest = lookup_from seh r (frame + 1) n in
    elim (registration (seh frame)) [ none ↦ rest | some q ↦ if q == r then some frame else rest ]

-- JpfbtsLookupFrameForRegistrationRecord
unfoldable pub lookup : Stack → ℕ → Option ℕ
unfolding lookup_from
lookup s r = lookup_from s.seh r s.stack_pointer (bottom - s.stack_pointer)

-- FrameCount++ and FrameCount--
unfoldable pub add_frame : Seh → Seh
add_frame (registered r o c) = registered r o ((c + 1) % 2 ^ 32)
add_frame h = h

unfoldable pub take_frame : Seh → Seh
take_frame (registered r o c) = registered r o ((c + 2 ^ 32 - 1) % 2 ^ 32)
take_frame h = h

module _ (valid : ℕ → Bool) (thunk_handler : ℕ) where
  -- JpfbtpInstallExceptionHandler of the kernel mode build: whether it was installed. `valid` is
  -- MmIsAddressValid, `thunk_handler` the address of JpfbtpThunkExceptionHandlerThunk. `none` if the
  -- lookup finds no frame, in which case the code goes on with a pointer that has not been set.
  unfoldable pub install : ℕ → ℕ → Stack → Option (Bool × Stack)
  unfolding lookup add_frame
  install top frame s =
      if top == 0xffffffff
      then some (true, record s { seh = update s.seh frame nothing })
      else if not (valid top)
      then some (false, s)
      else if s.handlers top == thunk_handler
      then elim (lookup s top) [
        | none ↦ none
        | some h ↦ some (
          true,
          record s { seh = update (update s.seh h (add_frame (s.seh h))) frame (refers h) },
        )
      ]
      else some (
        true,
        record s {
          seh = update s.seh frame (registered top (s.handlers top) 1);
          handlers = update s.handlers top thunk_handler;
        },
      )

-- JpfbtpUninstallExceptionHandler of the release build
unfoldable pub uninstall : ℕ → Stack → Stack
unfolding take_frame
uninstall frame s = elim (s.seh frame) [
  | nothing ↦ s
  | refers h ↦ record s { seh = update s.seh h (take_frame (s.seh h)) }
  | registered r o c ↦ record s { handlers = update s.handlers r o }
]

-- The loop of JpfbtpUnwindThunkstack that pops frames, over `n` frames: the stack pointer after the
-- frame with an own registration.
unfoldable pub pop_from : (ℕ → Seh) → ℕ → ℕ → Option ℕ
unfolding registration
pop_from seh frame zero = none
pop_from seh frame (suc n) =
    let rest = pop_from seh (frame + 1) n in
    elim (registration (seh frame)) [ none ↦ rest | some r ↦ some (frame + 1) ]

-- JpfbtpUnwindThunkstack, as far as the stack goes; `none` if the loop runs over the bottom.
unfoldable pub unwind_thunkstack : Stack → Option Stack
unfolding pop_from
unwind_thunkstack s = elim (pop_from s.seh s.stack_pointer (bottom - s.stack_pointer)) [
  | none ↦ none
  | some sp ↦ some (record s { stack_pointer = sp })
]
