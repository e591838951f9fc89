-- ===== src/Agent/Verdict.antt =====
-- JpkfagsCheckProcedurePointers against the images that are loaded.
use ntrace.Base.{
  ℕ, ◌+◌, ◌^◌, ◌≤◌, ◌<◌, ◌≡◌, ◌≢◌, inl, inr, refl, sym, ap, ◌∙◌, subst, Bool, true, Option, none,
  List, [], ◌∷◌, map, All, if◌then◌else◌, arith, Bool-cases, Option-cases,
}
use ntrace.Agent.{Status, is_success}
use ntrace.Agent.Pointers.{
  ModuleInfo, Modules, contains, is_valid_code_pointer, mark_module, below_range, match_modules,
  involved, check_procedure_pointers,
}
use ntrace.Agent.Checked.{
  Image, image_of, Inside, Inside-cases, match-image_of, mark-image_of, match_modules-on,
  match_modules-Inside, involved-Inside,
}

-- The base and the size of each image add up to less than 2 ^ 32, where the sum would wrap to 0.
abbrev pub Fits : List Image → Type 0
Fits images = All (λ (x : Image). x.0 + x.1 < 2 ^ 32) images

is_valid-found :
    (p : ℕ) (ms : List ModuleInfo)
    → Fits (map image_of ms)
    → Inside p (map image_of ms)
    → is_valid_code_pointer p ms ≢ none
unfolding is_valid_code_pointer contains
is_valid-found p [] f h e = elim h [ ]
is_valid-found p (m ∷ ms) f h e = elim (Inside-cases p (image_of m) (map image_of ms) h) [
  | inl (a, b) ↦ let c : contains m p ≡ true = ground (arith, a, b, f.0) in ground (arith, e, c)
  | inr k ↦ elim (Option-cases (is_valid_code_pointer p ms)) [
    | inl g ↦ is_valid-found p ms f.1 k g
    | inr (i, g) ↦ ground (arith, e, g)
  ]
]

match_modules-found :
    (ps : List ℕ) (ms : List ModuleInfo)
    → Fits (map image_of ms)
    → All (λ p. Inside p (map image_of ms)) ps
    → (match_modules ps ms).0 ≡ none
unfolding match_modules
match_modules-found [] ms f h = refl
match_modules-found (p ∷ ps) ms f h = elim (Option-cases (is_valid_code_pointer p ms)) [
  | inl e ↦ absurd (is_valid-found p ms f h.0 e)
  | inr (i, e) ↦
      ap (λ (r : Option ℕ × List ModuleInfo). r.0) (match_modules-on p i ps ms e)
      ∙ match_modules-found ps (mark_module i ms) (subst Fits (sym (mark-image_of i ms)) f)
          (subst (λ images. All (λ q. Inside q images) ps) (sym (mark-image_of i ms)) h.1)
]

below_range-none : (start : ℕ) (ps : List ℕ) → below_range start ps ≡ none → All (λ p. start ≤ p) ps
unfolding below_range
below_range-none start [] e = tt
below_range-none start (p ∷ ps) e =
    (ground (arith, e), below_range-none start ps (ground (arith, e)))

below_range-above :
    (start : ℕ) (ps : List ℕ) → All (λ p. start ≤ p) ps → below_range start ps ≡ none
unfolding below_range
below_range-above start [] h = refl
below_range-above start (p ∷ ps) h = ground (arith, h.0, below_range-above start ps h.1)

-- All queries of the system succeed, and its images fit into the address space.
pub record Answers (modules : Modules) : Type 0 where
  pub size : is_success modules.query_size ≡ true
  pub pool : modules.has_pool ≡ true
  pub query : is_success modules.query.0 ≡ true
  pub fits : Fits (map image_of modules.query.1)

-- The verdict on a list of procedures, with the images that are reported.
pub record Judges (modules : Modules) (ps : List ℕ) (has_sink : Bool)
    (r : Status × Option ℕ × List Image) : Type 0 where
  pub above : is_success r.0 ≡ true → All (λ p. modules.system_range_start ≤ p) ps
  pub inside : is_success r.0 ≡ true → All (λ p. Inside p (map image_of modules.query.1)) ps
  pub reported : is_success r.0 ≡ true → has_sink ≡ true → All (λ p. Inside p r.2) ps
  pub accepted :
      Answers modules
      → All (λ p. modules.system_range_start ≤ p) ps
      → All (λ p. Inside p (map image_of modules.query.1)) ps
      → is_success r.0 ≡ true

module _ (modules : Modules) (ps : List ℕ) (has_sink : Bool) where
  abbrev verdict : Status × Option ℕ × List Image
  verdict = check_procedure_pointers modules ps has_sink

  abbrev matched : Option ℕ × List ModuleInfo
  matched = match_modules ps modules.query.1

  -- What has to be for the check to succeed.
  record Passes : Type 0 where
    above : below_range modules.system_range_start ps ≡ none
    found : matched.0 ≡ none
    images : verdict.2 ≡ (if has_sink then involved matched.1 else [])

  check_procedure_pointers-Passes : is_success verdict.0 ≡ true → Passes
  unfolding check_procedure_pointers is_success
  check_procedure_pointers-Passes h =
      elim (Option-cases (below_range modules.system_range_start ps)) [
        | inr (p, a) ↦ absurd (ground (arith, h, a))
        | inl a ↦ elim (Bool-cases (is_success modules.query_size)) [
          | inr b ↦ absurd (ground (arith, h, a, b))
          | inl b ↦ elim (Bool-cases modules.has_pool) [
            | inr c ↦ absurd (ground (arith, h, a, b, c))
            | inl c ↦ elim (Bool-cases (is_success modules.query.0)) [
              | inr d ↦ absurd (ground (arith, h, a, b, c, d))
              | inl d ↦ elim (Option-cases matched.0) [
                | inr (p, e) ↦ absurd (ground (arith, h, a, b, c, d, e))
                | inl e ↦ record { above = a; found = e; images = ground (arith, a, b, c, d, e) }
              ]
            ]
          ]
        ]
      ]

  check_procedure_pointers-accepts :
      is_success modules.query_size ≡ true
      → modules.has_pool ≡ true
      → is_success modules.query.0 ≡ true
      → below_range modules.system_range_start ps ≡ none
      → matched.0 ≡ none
      → is_success verdict.0 ≡ true
  unfolding check_procedure_pointers
  check_procedure_pointers-accepts b c d a e = ground (arith, a, b, c, d, e)

  -- JpkfagsCheckProcedurePointers succeeds only if each procedure is in the system range and inside a
  -- module that is loaded, and then, if there is an event sink, reports to it images that hold all of
  -- the procedures. It does succeed on such procedures if both queries of the system succeed, there is
  -- pool memory for their result, and every image ends below the last address of the 32 bit address
  -- space, that is, its base and size add up to less than 2 ^ 32.
  pub check_procedure_pointers-Judges : Judges modules ps has_sink verdict
  check_procedure_pointers-Judges =
      let inside : (h : is_success verdict.0 ≡ true) → All (λ p. Inside p (involved matched.1)) ps =
        λ h. match_modules-Inside ps modules.query.1 (check_procedure_pointers-Passes h).found in
      record {
        above = λ h. below_range-none _ ps (check_procedure_pointers-Passes h).above;
        inside = λ h.
            subst (λ images. All (λ p. Inside p images) ps) (match-image_of ps modules.query.1)
              (All-map _ _ (λ p. involved-Inside p matched.1) ps (inside h));
        reported = λ h s.
            subst (λ images. All (λ p. Inside p images) ps)
              (sym (
                (check_procedure_pointers-Passes h).images
                ∙ ap (λ (b : Bool). if b then involved matched.1 else []) s))
              (inside h);
        accepted = λ a above all.
            check_procedure_pointers-accepts a.size a.pool a.query (below_range-above _ ps above)
              (match_modules-found ps modules.query.1 a.fits all);
      }
    where
      All-map : (P Q : ℕ → Type 0) → ((p : ℕ) → P p → Q p) → (ps : List ℕ) → All P ps → All Q ps
      All-map P Q f [] h = h
      All-map P Q f (p ∷ ps) h = (f p h.0, All-map P Q f ps h.1)
