-- ===== src/Tests/ThunkRuns.antt =====
-- Two nested calls under one registration record at 1000, whose handler is 77.
use ntrace.Base.{ℕ, ◌≡◌, refl, arith, Bool, true, some, update}
use ntrace.Thunks.{
  nothing, refers, registered, Stack, install, lookup, registration, add_frame, uninstall,
  unwind_thunkstack,
}
use ntrace.Thunks.Nested.{Counted, Restored, Run, quiet, call, Run-Restored}
use ntrace.Thunks.Unwinding.{Popped, unwind_thunkstack-Popped}

abbrev valid : ℕ → Bool
valid a = true

abbrev handlers : ℕ → ℕ
handlers r = 77

abbrev empty_stack : Stack
empty_stack = record { stack_pointer = 255; seh = λ i. nothing; handlers = handlers }

abbrev first : Stack
first = record {
  stack_pointer = 254;
  seh = update (λ i. nothing) 254 (registered 1000 77 1);
  handlers = update handlers 1000 5;
}

abbrev second : Stack
second = record {
  stack_pointer = 253;
  seh = update (update first.seh 254 (registered 1000 77 2)) 253 (refers 254);
  handlers = update handlers 1000 5;
}

first-install :
    install valid 5 1000 254 empty_stack ≡ some (true, record first { stack_pointer = 255 })
unfolding install
first-install = refl

second-install : install valid 5 1000 253 first ≡ some (true, record second { stack_pointer = 254 })
unfolding install lookup add_frame
second-install = refl

counts : Counted empty_stack
counts i r o c e = absurd (ground (arith, e))

abbrev between : Stack
between = record (uninstall 253 second) { stack_pointer = 254 }

abbrev last : Stack
last = record (uninstall 254 between) { stack_pointer = 255 }

nested : Run valid 5 empty_stack last
nested =
    call 1000 254 (record first { stack_pointer = 255 }) refl first-install
      (call 1000 253 (record second { stack_pointer = 254 }) refl second-install quiet quiet) quiet

Run-Restored_example : Restored valid 5 empty_stack last × Counted last
Run-Restored_example = Run-Restored valid 5 counts nested

own : registration (second.seh 254) ≡ some 1000
unfolding registration
own = refl

unwind_thunkstack-Popped_example :
    (sp : ℕ) × (unwind_thunkstack second ≡ some (record second { stack_pointer = sp }))
    × Popped second.seh 253 sp
unwind_thunkstack-Popped_example =
    unwind_thunkstack-Popped second 254 1000 (omega arith) (omega arith) own
