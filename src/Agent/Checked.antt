-- ===== src/Agent/Checked.antt =====
-- What the check of the procedures of a request means.
use ntrace.Base.{
  ℕ, zero, suc, ◌+◌, ◌%◌, ◌/◌, ◌^◌, ◌≤◌, ◌<◌, ◌≡◌, ◌⊎◌, inl, inr, refl, sym, ap, ◌∙◌, subst, true,
  false, Option, none, some, List, [], ◌∷◌, map, All, ◌==◌, arith, Bool-cases, Option-cases,
}
use ntrace.Agent.Pointers.{
  ModuleInfo, contains, is_valid_code_pointer, is_marked, mark_module, match_modules, involved,
}

-- An image: its load address, its size and its path.
abbrev pub Image : Type 0
Image = ℕ × ℕ × List ℕ

abbrev pub image_of : ModuleInfo → Image
image_of m = (m.image_base, m.image_size, m.full_path_name)

-- An address lies in one of the images.
pub data Inside (p : ℕ) : List Image → Type 0 where
  here :
      (base size : ℕ) (path : List ℕ) (images : List Image)
      → base ≤ p
      → p < base + size
      → Inside p ((base, size, path) ∷ images)
  there : (image : Image) (images : List Image) → Inside p images → Inside p (image ∷ images)

contains-within :
    (m : ModuleInfo) (p : ℕ)
    → contains m p ≡ true
    → (m.image_base ≤ p) × (p < m.image_base + m.image_size)
unfolding contains
contains-within m p h = (ground (arith, h), ground (arith, h))

pub mark-image_of :
    (i : ℕ) (ms : List ModuleInfo) → map image_of (mark_module i ms) ≡ map image_of ms
unfolding mark_module
mark-image_of i [] = refl
mark-image_of zero (m ∷ ms) = ground arith
mark-image_of (suc i) (m ∷ ms) = ap (λ x. image_of m ∷ x) (mark-image_of i ms)

pub match-image_of :
    (ps : List ℕ) (ms : List ModuleInfo) → map image_of (match_modules ps ms).1 ≡ map image_of ms
unfolding match_modules
match-image_of [] ms = refl
match-image_of (p ∷ ps) ms = elim (Option-cases (is_valid_code_pointer p ms)) [
  | inl e ↦ ground (arith, e)
  | inr (i, e) ↦ ground (arith, e, match-image_of ps (mark_module i ms), mark-image_of i ms)
]

involved-marked :
    (m : ModuleInfo) (ms : List ModuleInfo)
    → is_marked m ≡ true
    → involved (m ∷ ms) ≡ image_of m ∷ involved ms
unfolding involved
involved-marked m ms h = ground (arith, h)

involved-unmarked :
    (m : ModuleInfo) (ms : List ModuleInfo) → is_marked m ≡ false → involved (m ∷ ms) ≡ involved ms
unfolding involved
involved-unmarked m ms h = ground (arith, h)

involved_there :
    (p : ℕ) (m : ModuleInfo) (ms : List ModuleInfo)
    → Inside p (involved ms)
    → Inside p (involved (m ∷ ms))
involved_there p m ms h = elim (Bool-cases (is_marked m)) [
  | inl e ↦ subst (Inside p) (sym (involved-marked m ms e)) (there _ _ h)
  | inr e ↦ subst (Inside p) (sym (involved-unmarked m ms e)) h
]

set_bit : (x : ℕ) → ((x / 2 ^ 15) % 2 == 1) ≡ false → (((x + 2 ^ 15) / 2 ^ 15) % 2 == 1) ≡ true
set_bit x h = ground (arith, h)

involved-mark :
    (m : ModuleInfo) (ms : List ModuleInfo)
    → involved (mark_module zero (m ∷ ms)) ≡ image_of m ∷ involved ms
unfolding mark_module is_marked
involved-mark m ms = elim (Bool-cases (is_marked m)) [
  | inl h ↦
      let e : mark_module zero (m ∷ ms) ≡ m ∷ ms = ground (arith, h) in
      ap involved e ∙ involved-marked m ms h
  | inr h ↦
      let m' : ModuleInfo = record m { file_name_offset = m.file_name_offset + 2 ^ 15 } in
      let e : mark_module zero (m ∷ ms) ≡ m' ∷ ms = ground (arith, h) in
      ap involved e ∙ involved-marked m' ms (set_bit m.file_name_offset h)
]

-- An address that the code matches lies in an image that it reports.
is_valid-Inside :
    (p i : ℕ) (ms : List ModuleInfo)
    → is_valid_code_pointer p ms ≡ some i
    → Inside p (involved (mark_module i ms))
unfolding is_valid_code_pointer mark_module
is_valid-Inside p i [] e = absurd (ground (arith, e))
is_valid-Inside p i (m ∷ ms) e = elim (Bool-cases (contains m p)) [
  | inl h ↦
      let z : zero ≡ i = ground (arith, e, h) in
      let (a, b) = contains-within m p h in
      subst (λ j. Inside p (involved (mark_module j (m ∷ ms)))) z
        (subst (Inside p) (sym (involved-mark m ms)) (here _ _ _ _ a b))
  | inr h ↦ elim (Option-cases (is_valid_code_pointer p ms)) [
    | inl f ↦ absurd (ground (arith, e, h, f))
    | inr (j, f) ↦
        let z : suc j ≡ i = ground (arith, e, h, f) in
        subst (λ k. Inside p (involved (mark_module k (m ∷ ms)))) z
          (involved_there p m (mark_module j ms) (is_valid-Inside p j ms f))
  ]
]

pub Inside-cases :
    (p : ℕ) (x : Image) (xs : List Image)
    → Inside p (x ∷ xs)
    → ((x.0 ≤ p) × (p < x.0 + x.1)) ⊎ Inside p xs
Inside-cases p _ _ (here base size path ys a b) = inl (a, b)
Inside-cases p _ _ (there y ys h) = inr h

Inside-cons :
    (p : ℕ) (x : Image) (xs ys : List Image)
    → (Inside p xs → Inside p ys)
    → Inside p (x ∷ xs)
    → Inside p (x ∷ ys)
Inside-cons p x xs ys f h = elim (Inside-cases p x xs h) [
  | inl (a, b) ↦ here x.0 x.1 x.2 ys a b
  | inr k ↦ there x ys (f k)
]

-- A module stays reported when others are marked.
involved-mark_more :
    (p i : ℕ) (ms : List ModuleInfo)
    → Inside p (involved ms)
    → Inside p (involved (mark_module i ms))
unfolding mark_module
involved-mark_more p i [] h = h
involved-mark_more p zero (m ∷ ms) h =
    subst (Inside p) (sym (involved-mark m ms)) (elim (Bool-cases (is_marked m)) [
      | inl e ↦ subst (Inside p) (involved-marked m ms e) h
      | inr e ↦ there _ _ (subst (Inside p) (involved-unmarked m ms e) h)
    ])
involved-mark_more p (suc i) (m ∷ ms) h =
    let more = involved-mark_more p i ms in
    elim (Bool-cases (is_marked m)) [
      | inl e ↦ subst (Inside p) (sym (involved-marked m (mark_module i ms) e)) (
          Inside-cons p (image_of m) (involved ms) (involved (mark_module i ms)) more
            (subst (Inside p) (involved-marked m ms e) h))
      | inr e ↦
          subst (Inside p) (sym (involved-unmarked m (mark_module i ms) e))
            (more (subst (Inside p) (involved-unmarked m ms e) h))
    ]

pub match_modules-on :
    (p i : ℕ) (ps : List ℕ) (ms : List ModuleInfo)
    → is_valid_code_pointer p ms ≡ some i
    → match_modules (p ∷ ps) ms ≡ match_modules ps (mark_module i ms)
unfolding match_modules
match_modules-on p i ps ms e = ground (arith, e)

match_modules-keeps :
    (q : ℕ) (ps : List ℕ) (ms : List ModuleInfo)
    → Inside q (involved ms)
    → Inside q (involved (match_modules ps ms).1)
unfolding match_modules
match_modules-keeps q [] ms h = h
match_modules-keeps q (p ∷ ps) ms h = elim (Option-cases (is_valid_code_pointer p ms)) [
  | inl e ↦
      let f : match_modules (p ∷ ps) ms ≡ (some p, ms) = ground (arith, e) in
      subst (λ (r : Option ℕ × List ModuleInfo). Inside q (involved r.1)) (sym f) h
  | inr (i, e) ↦
      subst (λ (r : Option ℕ × List ModuleInfo). Inside q (involved r.1))
        (sym (match_modules-on p i ps ms e))
        (match_modules-keeps q ps (mark_module i ms) (involved-mark_more q i ms h))
]

-- If all procedures match, each of them lies in an image that is reported.
pub match_modules-Inside :
    (ps : List ℕ) (ms : List ModuleInfo)
    → (match_modules ps ms).0 ≡ none
    → All (λ p. Inside p (involved (match_modules ps ms).1)) ps
unfolding match_modules
match_modules-Inside [] ms e = tt
match_modules-Inside (p ∷ ps) ms e = elim (Option-cases (is_valid_code_pointer p ms)) [
  | inl f ↦ absurd (ground (arith, e, f))
  | inr (i, f) ↦
      let on = match_modules-on p i ps ms f in
      subst (λ (r : Option ℕ × List ModuleInfo). All (λ q. Inside q (involved r.1)) (p ∷ ps))
        (sym on)
        (
          match_modules-keeps p ps (mark_module i ms) (is_valid-Inside p i ms f),
          match_modules-Inside ps (mark_module i ms)
              (sym (ap (λ (r : Option ℕ × List ModuleInfo). r.0) on) ∙ e),
        )
]

-- Only modules are reported.
pub involved-Inside :
    (p : ℕ) (ms : List ModuleInfo) → Inside p (involved ms) → Inside p (map image_of ms)
unfolding involved
involved-Inside p [] h = h
involved-Inside p (m ∷ ms) h = elim (Bool-cases (is_marked m)) [
  | inl e ↦
      Inside-cons p (image_of m) (involved ms) (map image_of ms) (involved-Inside p ms)
        (subst (Inside p) (involved-marked m ms e) h)
  | inr e ↦ there _ _ (involved-Inside p ms (subst (Inside p) (involved-unmarked m ms e) h))
]
