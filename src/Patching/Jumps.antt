-- ===== src/Patching/Jumps.antt =====
-- What the processor does with the code that is written over a procedure.
use ntrace.Base.{
  ℕ, ◌+◌, ◌-◌, ◌*◌, ◌/◌, ◌%◌, ◌^◌, ◌≤◌, ◌<◌, ◌≡◌, ◌⊎◌, inl, inr, refl, ap, ◌∙◌, some, none, List,
  [], ◌∷◌, ◌++◌, ltb, if◌then◌else◌, length, get_or, arith, Bool-cases, ltb→lt,
}
use ntrace.Base.Bytes.{Memory, read_u32, u32_bytes, store, store_inside}
use ntrace.Patching.{distance, max_long, assemble_near_call, trampoline_and_prolog}

-- Where a near call (E8) leads: behind it, and on by the displacement.
unfoldable pub call_target : Memory → ℕ → ℕ
call_target m va = (va + 5 + read_u32 m (va + 1)) % 2 ^ 32

-- Where a short jump (EB) leads; its displacement is a signed byte.
unfoldable pub short_jump_target : Memory → ℕ → ℕ
short_jump_target m va =
    (va + 2 + (if ltb (m (va + 1)) 128 then m (va + 1) else m (va + 1) + 2 ^ 32 - 256)) % 2 ^ 32

-- The procedure jumps to the space before it, and the code there calls the thunk.
pub record Diverted (m : Memory) (procedure thunk : ℕ) : Type 0 where
  pub jumps : m procedure ≡ 0xEB
  pub backwards : short_jump_target m procedure ≡ procedure - 5
  pub calls : m (procedure - 5) ≡ 0xE8
  pub thunk_called : call_target m (procedure - 5) ≡ thunk

u32_bytes-value :
    (x : ℕ)
    → x < 2 ^ 32
    → x % 256 + 256 * (x / 256 % 256) + 65536 * (x / 65536 % 256) + 16777216 * (x / 16777216 % 256)
      ≡ x
u32_bytes-value x h = omega arith

-- A call is assembled unless its target is too far away.
assemble_near_call_near :
    (a t : ℕ)
    → distance t ((a + 5) % 2 ^ 32) ≤ max_long
    → assemble_near_call a t ≡ some (0xE8 ∷ u32_bytes ((t + 2 ^ 32 - (a + 5) % 2 ^ 32) % 2 ^ 32))
unfolding assemble_near_call
assemble_near_call_near a t h = ground arith

assemble_near_call_far :
    (a t : ℕ) → max_long < distance t ((a + 5) % 2 ^ 32) → assemble_near_call a t ≡ none
unfolding assemble_near_call
assemble_near_call_far a t h = ground arith

-- What `trampoline_and_prolog` comes to for a procedure with room before it.
trampoline_near :
    (thunk procedure : ℕ)
    → 5 ≤ procedure
    → procedure < 2 ^ 32
    → distance thunk procedure ≤ max_long
    → trampoline_and_prolog thunk procedure
      ≡ some ((0xE8 ∷ u32_bytes ((thunk + 2 ^ 32 - procedure) % 2 ^ 32)) ++ (0xEB ∷ 0xF9 ∷ []))
unfolding trampoline_and_prolog
trampoline_near thunk procedure h l d =
    let e : ((procedure + 2 ^ 32 - 5) % 2 ^ 32 + 5) % 2 ^ 32 ≡ procedure = omega arith in
    let q : assemble_near_call ((procedure + 2 ^ 32 - 5) % 2 ^ 32) thunk
        ≡ some (0xE8 ∷ u32_bytes ((thunk + 2 ^ 32 - procedure) % 2 ^ 32)) =
      assemble_near_call_near ((procedure + 2 ^ 32 - 5) % 2 ^ 32) thunk (rw e d)
      ∙ ap (λ b. some (0xE8 ∷ u32_bytes ((thunk + 2 ^ 32 - b) % 2 ^ 32))) e in
    rw (q, trampoline_and_prolog) refl

trampoline_far :
    (thunk procedure : ℕ)
    → 5 ≤ procedure
    → procedure < 2 ^ 32
    → max_long < distance thunk procedure
    → trampoline_and_prolog thunk procedure ≡ none
unfolding trampoline_and_prolog
trampoline_far thunk procedure h l d =
    let e : ((procedure + 2 ^ 32 - 5) % 2 ^ 32 + 5) % 2 ^ 32 ≡ procedure = omega arith in
    rw
      (
        assemble_near_call_far ((procedure + 2 ^ 32 - 5) % 2 ^ 32) thunk (rw e d),
        trampoline_and_prolog,
      )
      refl

-- The bytes that divert a procedure.
payload-Diverted :
    (m : Memory) (thunk procedure : ℕ)
    → 5 ≤ procedure
    → procedure < 2 ^ 32
    → thunk < 2 ^ 32
    → Diverted
        (store m
          (procedure - 5)
          ((0xE8 ∷ u32_bytes ((thunk + 2 ^ 32 - procedure) % 2 ^ 32)) ++ (0xEB ∷ 0xF9 ∷ [])))
        procedure
        thunk
unfolding short_jump_target call_target
payload-Diverted m thunk procedure h l k =
    let x : ℕ = (thunk + 2 ^ 32 - procedure) % 2 ^ 32 in
    let bytes : List ℕ = (0xE8 ∷ u32_bytes x) ++ (0xEB ∷ 0xF9 ∷ []) in
    let at : (i j : ℕ)
        → i ≡ procedure - 5 + j
        → j < 7
        → store m (procedure - 5) bytes i ≡ get_or bytes j 0 =
      λ i j e u. store_inside m (procedure - 5) bytes i j e u in
    record {
      jumps = at procedure 5 (omega arith) (omega arith);
      backwards = rw (at (procedure + 1) 6 (omega arith) (omega arith)) (omega arith);
      calls = at (procedure - 5) 0 (omega arith) (omega arith);
      thunk_called =
          rw
            (
              at (procedure - 5 + 1) 1 (omega arith) (omega arith),
              at (procedure - 5 + 1 + 1) 2 (omega arith) (omega arith),
              at (procedure - 5 + 1 + 2) 3 (omega arith) (omega arith),
              at (procedure - 5 + 1 + 3) 4 (omega arith) (omega arith),
            )
            (omega (arith, u32_bytes-value x (omega arith)));
    }

-- For a procedure with five bytes before it: either the thunk is more than MAXLONG away from it, and
-- no code is made; or seven bytes are made, and once they stand from five bytes before the procedure on,
-- it jumps back by five bytes, to a call of the thunk.
pub trampoline_and_prolog-Diverted :
    (m : Memory) (thunk procedure : ℕ)
    → 5 ≤ procedure
    → procedure < 2 ^ 32
    → thunk < 2 ^ 32
    → ((max_long < distance thunk procedure) × (trampoline_and_prolog thunk procedure ≡ none))
      ⊎ ((payload : List ℕ) × (trampoline_and_prolog thunk procedure ≡ some payload)
          × (length payload ≡ 7)
          × Diverted (store m (procedure - 5) payload) procedure thunk)
trampoline_and_prolog-Diverted m thunk procedure h l k =
    elim (Bool-cases (ltb max_long (distance thunk procedure))) [
      | inl q ↦
          let far = ltb→lt max_long (distance thunk procedure) q in
          inl (far, trampoline_far thunk procedure h l far)
      | inr q ↦ inr (
        _,
        trampoline_near thunk procedure h l (ground (arith, q)),
        refl,
        payload-Diverted m thunk procedure h l k,
      )
    ]
