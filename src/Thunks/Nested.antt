-- ===== src/Thunks/Nested.antt =====
-- Calls that are nested, without an exception.
use ntrace.Base.{
  ℕ, zero, suc, ◌+◌, ◌-◌, ◌%◌, ◌^◌, ◌≤◌, ◌<◌, ◌≡◌, inl, inr, refl, ap, sym, ◌∙◌, subst, Bool, true,
  some, ◌==◌, ==_iff, update, update_self, arith, Option-cases, Bool-cases,
}
use ntrace.Thunks.{
  bottom, Seh, nothing, refers, registered, Stack, registration, lookup, lookup_from, install,
  uninstall, add_frame, take_frame,
}

-- The frame counts are ULONGs.
abbrev pub Counted : Stack → Type 0
Counted s = (i r o c : ℕ) → s.seh i ≡ registered r o c → c < 2 ^ 32

-- A frame that is found is above the bottom and not above the stack pointer.
lookup_from-bounds :
    (seh : ℕ → Seh) (r frame n h : ℕ)
    → lookup_from seh r frame n ≡ some h
    → (frame ≤ h) × ((o : ℕ) × (c : ℕ) × (seh h ≡ registered r o c))
unfolding lookup_from registration
lookup_from-bounds seh r frame zero h e = absurd (ground (arith, e))
lookup_from-bounds seh r frame (suc n) h e =
    go (lookup_from-bounds seh r (frame + 1) n h) (seh frame) refl
  where
    go :
        (lookup_from seh r (frame + 1) n ≡ some h
          → (frame + 1 ≤ h) × ((o : ℕ) × (c : ℕ) × (seh h ≡ registered r o c)))
        → (q : Seh) → seh frame ≡ q
        → (frame ≤ h) × ((o : ℕ) × (c : ℕ) × (seh h ≡ registered r o c))
    go more nothing f = let (a, b) = more (ground (arith, e, f)) in (omega (arith, a), b)
    go more (refers j) f = let (a, b) = more (ground (arith, e, f)) in (omega (arith, a), b)
    go more (registered q o c) f = elim (Bool-cases (q == r)) [
      | inl g ↦
          let z : frame ≡ h = ground (arith, e, f, g) in
          let w : q ≡ r = (==_iff q r).0 g in
          (omega (arith, z), (o, c, ap seh (sym z) ∙ f ∙ ap (λ x. registered x o c) w))
      | inr g ↦ let (a, b) = more (ground (arith, e, f, g)) in (omega (arith, a), b)
    ]

take_frame-bound : (q : Seh) (r o c : ℕ) → take_frame q ≡ registered r o c → c < 2 ^ 32
unfolding take_frame
take_frame-bound nothing r o c e = absurd (ground (arith, e))
take_frame-bound (refers h) r o c e = absurd (ground (arith, e))
take_frame-bound (registered r' o' c') r o c e =
    let n : (c' + 2 ^ 32 - 1) % 2 ^ 32 ≡ c = ground (arith, e) in omega (arith, n)

module _ (valid : ℕ → Bool) (thunk_handler : ℕ) where
  -- The ways of installing a handler for a frame.
  data Installed (top p : ℕ) (s : Stack) : Stack → Type 0 where
    by_none : Installed top p s (record s { seh = update s.seh p nothing })
    by_other :
        (h o c : ℕ)
        → s.stack_pointer ≤ h
        → s.seh h ≡ registered top o c
        → Installed top p s (record s {
          seh = update (update s.seh h (registered top o ((c + 1) % 2 ^ 32))) p (refers h);
        })
    by_frame : Installed top p s (record s {
      seh = update s.seh p (registered top (s.handlers top) 1);
      handlers = update s.handlers top thunk_handler;
    })

  install-Installed :
      (top p : ℕ) (s s1 : Stack)
      → install valid thunk_handler top p s ≡ some (true, s1)
      → Installed top p s s1
  unfolding install lookup add_frame
  install-Installed top p s s1 e = elim (Bool-cases (top == 0xffffffff)) [
    | inl a ↦
        let q : record s { seh = update s.seh p nothing } ≡ s1 = ground (arith, e, a) in
        subst (Installed top p s) q by_none
    | inr a ↦ elim (Bool-cases (valid top)) [
      | inr b ↦ absurd (ground (arith, e, a, b))
      | inl b ↦ elim (Bool-cases (s.handlers top == thunk_handler)) [
        | inr c ↦
            let q : record s {
              seh = update s.seh p (registered top (s.handlers top) 1);
              handlers = update s.handlers top thunk_handler;
            }
                ≡ s1 =
              ground (arith, e, a, b, c) in
            subst (Installed top p s) q by_frame
        | inl c ↦ elim (Option-cases (lookup s top)) [
          | inl d ↦ absurd (ground (arith, e, a, b, c, d))
          | inr (h, d) ↦
              let (l, (o, n, f)) =
                lookup_from-bounds s.seh top s.stack_pointer (bottom - s.stack_pointer) h d in
              let q : record s { seh = update (update s.seh h (add_frame (s.seh h))) p (refers h) }
                  ≡ s1 =
                ground (arith, e, a, b, c, d) in
              let g : add_frame (s.seh h) ≡ registered top o ((n + 1) % 2 ^ 32) = ap add_frame f in
              subst (Installed top p s)
                (ap (λ (x : Seh). record s { seh = update (update s.seh h x) p (refers h) }) (sym g)
                  ∙ q)
                (by_other h o n l f)
        ]
      ]
    ]
  ]

  -- A stack is as another one was: its pointer, its frames in use, and all handlers.
  pub record Restored (s t : Stack) : Type 0 where
    pub pointer : t.stack_pointer ≡ s.stack_pointer
    pub frames : (i : ℕ) → s.stack_pointer ≤ i → t.seh i ≡ s.seh i
    pub handler : (r : ℕ) → t.handlers r ≡ s.handlers r

  uninstall-Installed :
      (top p : ℕ) (s s1 t : Stack)
      → s.stack_pointer ≡ suc p
      → Counted s
      → Installed top p s s1
      → ((i : ℕ) → p ≤ i → t.seh i ≡ s1.seh i)
      → ((r : ℕ) → t.handlers r ≡ s1.handlers r)
      → ((i : ℕ) → suc p ≤ i → (uninstall p t).seh i ≡ s.seh i)
        × ((r : ℕ) → (uninstall p t).handlers r ≡ s.handlers r)
  unfolding uninstall take_frame
  uninstall-Installed top p s s1 t e b by_none f g =
      let a : t.seh p ≡ nothing = f p (omega arith) ∙ update_self s.seh p nothing in
      (λ i l. ground (arith, a, f i, l), λ r. ground (arith, a, g r))
  uninstall-Installed top p s s1 t e b (by_other h o c l m) f g =
      let a : t.seh p ≡ refers h = f p (omega arith) ∙ ground arith in
      let d : t.seh h ≡ registered top o ((c + 1) % 2 ^ 32) =
        f h (omega (arith, e, l)) ∙ ground (arith, e, l) in
      let k : ((c + 1) % 2 ^ 32 + 2 ^ 32 - 1) % 2 ^ 32 ≡ c =
        let n = b h top o c m in omega (arith, n) in
      let x : take_frame (t.seh h) ≡ s.seh h = ap take_frame d ∙ ap (registered top o) k ∙ sym m in
      (
        λ i n. elim (Bool-cases (h == i)) [
          | inl q ↦ let j : h ≡ i = ground (arith, q) in ground (arith, a, q, x, ap s.seh j)
          | inr q ↦ ground (arith, a, q, f i, n)
        ],
        λ r. ground (arith, a, g r),
      )
  uninstall-Installed top p s s1 t e b by_frame f g =
      let a : t.seh p ≡ registered top (s.handlers top) 1 =
        f p (omega arith) ∙ update_self s.seh p (registered top (s.handlers top) 1) in
      (
        λ i l. ground (arith, a, f i, l),
        λ r. elim (Bool-cases (top == r)) [
          | inl q ↦ let j : top ≡ r = ground (arith, q) in ground (arith, a, q, ap s.handlers j)
          | inr q ↦ ground (arith, a, q, g r)
        ],
      )

  Installed-Counted : (top p : ℕ) (s s1 : Stack) → Installed top p s s1 → Counted s → Counted s1
  Installed-Counted top p s s1 by_none b i r o c e = elim (Bool-cases (p == i)) [
    | inl q ↦ absurd (ground (arith, e, q))
    | inr q ↦ b i r o c (ground (arith, e, q))
  ]
  Installed-Counted top p s s1 (by_other h o' c' l m) b i r o c e = elim (Bool-cases (p == i)) [
    | inl q ↦ absurd (ground (arith, e, q))
    | inr q ↦ elim (Bool-cases (h == i)) [
      | inl w ↦ let n : (c' + 1) % 2 ^ 32 ≡ c = ground (arith, e, q, w) in omega (arith, n)
      | inr w ↦ b i r o c (ground (arith, e, q, w))
    ]
  ]
  Installed-Counted top p s s1 by_frame b i r o c e = elim (Bool-cases (p == i)) [
    | inl q ↦ let n : 1 ≡ c = ground (arith, e, q) in omega (arith, n)
    | inr q ↦ b i r o c (ground (arith, e, q))
  ]

  uninstall-Counted : (p : ℕ) (t : Stack) → Counted t → Counted (uninstall p t)
  unfolding uninstall
  uninstall-Counted p t b = go (t.seh p) refl
    where
      go : (q : Seh) → t.seh p ≡ q → Counted (uninstall p t)
      go nothing a i r o c e = b i r o c (ground (arith, a, e))
      go (registered r' o' c') a i r o c e = b i r o c (ground (arith, a, e))
      go (refers h) a i r o c e = elim (Bool-cases (h == i)) [
        | inr q ↦ b i r o c (ground (arith, a, e, q))
        | inl q ↦ take_frame-bound (t.seh h) r o c (ground (arith, a, e, q))
      ]

-- What a thread does between two points at the same depth: it calls no instrumented procedure any more;
-- or it calls one, which is entered under the registration record `top` and its frame pushed, does what
-- it does, and returns, its frame popped.
pub data Run (valid : ℕ → Bool) (thunk_handler : ℕ) : Stack → Stack → Type 0 where
  quiet : {s : Stack} → Run valid thunk_handler s s
  call :
      {s s2 s3 : Stack} (top p : ℕ) (s1 : Stack)
      → s.stack_pointer ≡ suc p
      → install valid thunk_handler top p s ≡ some (true, s1)
      → Run valid thunk_handler (record s1 { stack_pointer = p }) s2
      → Run valid thunk_handler (record (uninstall p s2) { stack_pointer = suc p }) s3
      → Run valid thunk_handler s s3

module _ (valid : ℕ → Bool) (thunk_handler : ℕ) where
  -- Whatever instrumented procedures a thread calls, nested in any way, each with its handler installed
  -- and none left by an exception: afterwards the stack pointer, the frames in use with their counts, and
  -- the handlers of all registration records are as before.
  pub Run-Restored :
      {s t : Stack}
      → Counted s
      → Run valid thunk_handler s t
      → Restored valid thunk_handler s t × Counted t
  Run-Restored b quiet = (record { pointer = refl; frames = λ i l. refl; handler = λ r. refl }, b)
  Run-Restored {s = s} b (call {s2 = s2} top p s1 e q inner after) =
      let w = install-Installed valid thunk_handler top p s s1 q in
      let (x, c) = Run-Restored (Installed-Counted valid thunk_handler top p s s1 w b) inner in
      let (f, g) = uninstall-Installed valid thunk_handler top p s s1 s2 e b w x.frames x.handler in
      let (y, d) = Run-Restored (uninstall-Counted valid thunk_handler p s2 c) after in
      (
        record {
          pointer = y.pointer ∙ sym e;
          frames = λ i l. y.frames i (omega (arith, e, l)) ∙ f i (omega (arith, e, l));
          handler = λ r. y.handler r ∙ g r;
        },
        d,
      )
