-- ===== src/Buffers/Held.antt =====
-- What lists of buffers and the buffer of a thread hold.
use ntrace.Base.{
  ℕ, ◌≡◌, ◌≢◌, inl, inr, refl, sym, ap, ap₂, ◌∙◌, some, none, List, [], ◌∷◌, ◌++◌, append-nil,
  append_assoc, update, update_ne, tally, reverse_onto, reverse_onto-append, arith, if◌then◌else◌,
  Bool-cases, Option-cases, map,
}
use ntrace.Format.{ClientId}
use ntrace.Reader.Clients.{equals_client}
use ntrace.Reader.Inventory.Registered.{equals_client_iff}
use ntrace.Buffers.{Buffer, Pool, used_bytes}
use ntrace.Buffers.Steps.{Threads, client_of}

-- The bytes of a client in what was written, or handed on.
unfoldable pub bytes_for : ClientId → List (ClientId × List ℕ) → List ℕ
bytes_for c [] = []
bytes_for c ((client, bytes) ∷ events) =
    let rest = bytes_for c events in if equals_client client c then bytes ++ rest else rest

pub bytes_for-append :
    (c : ClientId) (xs ys : List (ClientId × List ℕ))
    → bytes_for c (xs ++ ys) ≡ bytes_for c xs ++ bytes_for c ys
unfolding bytes_for
bytes_for-append c [] ys = refl
bytes_for-append c ((client, bytes) ∷ xs) ys =
    ground (arith, bytes_for-append c xs ys, append_assoc bytes (bytes_for c xs) (bytes_for c ys))

-- What the buffers of a list hold.
abbrev pub inside : (ℕ → Buffer) → List ℕ → List (ClientId × List ℕ)
inside buffers = map (λ (b : ℕ). ((buffers b).client, used_bytes (buffers b)))

inside-append :
    (buffers : ℕ → Buffer) (xs ys : List ℕ)
    → inside buffers (xs ++ ys) ≡ inside buffers xs ++ inside buffers ys
inside-append buffers [] ys = refl
inside-append buffers (x ∷ xs) ys =
    ap (◌∷◌ ((buffers x).client, used_bytes (buffers x))) (inside-append buffers xs ys)

pub inside-update :
    (buffers : ℕ → Buffer) (b : ℕ) (v : Buffer) (xs : List ℕ)
    → tally b xs ≡ 0
    → inside (update buffers b v) xs ≡ inside buffers xs
inside-update buffers b v [] h = refl
inside-update buffers b v (x ∷ xs) h =
    let n : b ≢ x = ground arith in
    ap₂ ◌∷◌ (rw (update_ne buffers b v x n) refl) (inside-update buffers b v xs (ground arith))

-- What the current buffer of a thread holds.
abbrev pub held : Pool → ℕ → List ℕ
held p t = elim (p.current t) [ none ↦ [] | some b ↦ used_bytes (p.buffers b) ]

pub append_behind : (a b c d e : List ℕ) → (a ++ (b ++ (c ++ d))) ++ e ≡ a ++ (b ++ (c ++ (d ++ e)))
append_behind a b c d e =
    append_assoc a (b ++ (c ++ d)) e
    ∙ ap (◌++◌ a) (append_assoc b (c ++ d) e ∙ ap (◌++◌ b) (append_assoc c d e))

pub held-some : (p : Pool) (t b : ℕ) → p.current t ≡ some b → held p t ≡ used_bytes (p.buffers b)
held-some p t b e = rw (e, held) refl

pub held_none : (p : Pool) (t : ℕ) → p.current t ≡ none → held p t ≡ []
held_none p t e = rw (e, held) refl

-- A list of one more buffer.
pub bytes_for-turned :
    (buffers : ℕ → Buffer) (c : ClientId) (b : ℕ) (dirty : List ℕ)
    → bytes_for c (inside buffers (reverse_onto (b ∷ dirty) []))
      ≡ bytes_for c (inside buffers (reverse_onto dirty []))
        ++ bytes_for c (((buffers b).client, used_bytes (buffers b)) ∷ [])
bytes_for-turned buffers c b dirty =
    ap (λ (xs : List ℕ). bytes_for c (inside buffers xs)) (reverse_onto-append dirty [] (b ∷ []))
    ∙ ap (bytes_for c) (inside-append buffers (reverse_onto dirty []) (b ∷ []))
    ∙ bytes_for-append c (inside buffers (reverse_onto dirty [])) (inside buffers (b ∷ []))

-- A buffer that no list holds is changed.
pub elsewhere :
    (buffers : ℕ → Buffer) (b : ℕ) (v : Buffer) (xs ys : List ℕ) (c : ClientId) (l l' : List ℕ)
    → tally b xs ≡ 0
    → tally b ys ≡ 0
    → l ≡ l'
    → bytes_for c (inside buffers xs) ++ (bytes_for c (inside buffers ys) ++ l)
      ≡ bytes_for c (inside (update buffers b v) xs)
        ++ (bytes_for c (inside (update buffers b v) ys) ++ l')
elsewhere buffers b v xs ys c l l' hx hy e = sym (
    ap₂ ◌++◌ (ap (bytes_for c) (inside-update buffers b v xs hx))
      (ap₂ ◌++◌ (ap (bytes_for c) (inside-update buffers b v ys hy)) (sym e)))

pub held-update :
    (p : Pool) (b t : ℕ) (v : Buffer)
    → p.current t ≢ some b
    → held p t ≡ held (record p { buffers = update p.buffers b v }) t
held-update p b t v n = elim (Option-cases (p.current t)) [
  | inl e ↦ held_none p t e ∙ sym (held_none (record p { buffers = update p.buffers b v }) t e)
  | inr (d, e) ↦
      held-some p t d e
      ∙ ap used_bytes (sym (update_ne p.buffers b v d (λ q. n (e ∙ ap some (sym q)))))
      ∙ sym (held-some (record p { buffers = update p.buffers b v }) t d e)
]

module _ (threads : Threads) where
  -- The bytes of one client in a list of one.
  pub bytes_for-own :
      (t : ℕ) (client : ClientId) (bytes : List ℕ)
      → client ≡ client_of threads t
      → bytes_for (client_of threads t) ((client, bytes) ∷ []) ≡ bytes
  unfolding bytes_for
  bytes_for-own t client bytes e =
      rw ((equals_client_iff client (client_of threads t)).1 e) (append-nil bytes)

  pub bytes_for-other :
      (t u : ℕ) (client : ClientId) (bytes : List ℕ)
      → client ≡ client_of threads u
      → u ≢ t
      → bytes_for (client_of threads t) ((client, bytes) ∷ []) ≡ []
  unfolding bytes_for
  bytes_for-other t u client bytes e n =
      elim (Bool-cases (equals_client client (client_of threads t))) [
        | inl q ↦ absurd (
            n (threads.distinct u t (sym e ∙ (equals_client_iff client (client_of threads t)).0 q)))
        | inr q ↦ rw q refl
      ]
