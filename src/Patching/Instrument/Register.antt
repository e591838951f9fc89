-- ===== src/Patching/Instrument/Register.antt =====
-- Blocks that are allocated and freed, and patches that are put into the table and taken out.
use ntrace.Base.{
  ℕ, zero, suc, ◌+◌, ◌≤◌, ◌<◌, ◌≡◌, ◌≢◌, inl, inr, refl, sym, ap, ◌∙◌, Bool, true, false, Option,
  some, none, List, [], ◌∷◌, ◌==◌, ==_iff, if◌then◌else◌, update, length, map, tally, arith,
  Bool-cases, Option-cases,
}
use ntrace.Base.Table.{Hashtable}
use ntrace.Patching.{CodePatch}
use ntrace.Patching.Instrument.{allocate_from, mark, register_all, unregister_all, find_all}

mark-value :
    (value : Bool) (ks : List ℕ) (live : ℕ → Bool) (i : ℕ)
    → mark value ks live i ≡ (if tally i ks == 0 then live i else value)
unfolding mark
mark-value value [] live i = refl
mark-value value (k ∷ ks) live i = ground (arith, mark-value value ks (update live k value) i)

-- What is allocated comes from the allocator.
pub allocate_from-block :
    (block : ℕ → Option ℕ) (index n k : ℕ)
    → 0 < tally k (allocate_from block index n).1
    → (j : ℕ) × (block j ≡ some k)
unfolding allocate_from
allocate_from-block block index zero k h = absurd (omega arith)
allocate_from-block block index (suc n) k h = elim (Option-cases (block index)) [
  | inl e ↦ absurd (ground (arith, h, e))
  | inr (b, e) ↦ elim (Bool-cases (b == k)) [
    | inl q ↦ (index, e ∙ ap some ((==_iff b k).0 q))
    | inr q ↦ allocate_from-block block (index + 1) n k (ground (arith, h, e, q))
  ]
]

pub length-allocate_from :
    (block : ℕ → Option ℕ) (index n : ℕ)
    → (allocate_from block index n).0 ≡ true
    → length (allocate_from block index n).1 ≡ n
unfolding allocate_from
length-allocate_from block index zero h = refl
length-allocate_from block index (suc n) h = elim (Option-cases (block index)) [
  | inl e ↦ absurd (ground (arith, h, e))
  | inr (b, e) ↦ ground (arith, e, length-allocate_from block (index + 1) n (ground (arith, h, e)))
]

-- Blocks that are freed again are as before, if the allocator gave out free ones.
pub mark-freed :
    (ks : List ℕ) (live : ℕ → Bool) (i : ℕ)
    → ((k : ℕ) → 0 < tally k ks → live k ≡ false)
    → mark false ks (mark true ks live) i ≡ live i
mark-freed ks live i h =
    ground (arith, mark-value false ks (mark true ks live) i, mark-value true ks live i, h i)

-- Elements that a function takes apart.
pub tally-map : (f : ℕ → ℕ) (xs : List ℕ) (x : ℕ) → 0 < tally x xs → 0 < tally (f x) (map f xs)
tally-map f [] x h = h
tally-map f (y ∷ xs) x h = elim (Bool-cases (y == x)) [
  | inl q ↦ let e : f y ≡ f x = ap f ((==_iff y x).0 q) in ground (arith, e)
  | inr q ↦ ground (arith, tally-map f xs x (ground (arith, h, q)))
]

pub apart-map :
    (f : ℕ → ℕ) (xs : List ℕ) (x y : ℕ)
    → ((p : ℕ) → tally p (map f xs) ≤ 1)
    → 0 < tally x xs
    → 0 < tally y xs
    → x ≢ y
    → f x ≢ f y
apart-map f [] x y u h k n e = absurd (omega arith)
apart-map f (z ∷ xs) x y u h k n e = elim (Bool-cases (z == x)) [
  | inl q ↦
      let i : z ≡ x = (==_iff z x).0 q in
      let j : f z ≡ f x = ap f i in
      let d : z ≢ y = λ g. n (sym i ∙ g) in
      let m = tally-map f xs y (ground (arith, k, d)) in ground (arith, u (f y), m, j, e)
  | inr q ↦ elim (Bool-cases (z == y)) [
    | inl r ↦
        let j : f z ≡ f y = ap f ((==_iff z y).0 r) in
        let m = tally-map f xs x (ground (arith, h, q)) in ground (arith, u (f x), m, j, e)
    | inr r ↦
        apart-map f xs x y (λ p. ground (arith, u p)) (ground (arith, h, q)) (ground (arith, k, r))
          n e
  ]
]

-- The procedures of a list of patches.
abbrev pub procedures_of : (ℕ → CodePatch) → List ℕ → List ℕ
procedures_of patches = map (λ (k : ℕ). (patches k).procedure)

module _ (table : Hashtable ℕ ℕ) (patches : ℕ → CodePatch) where
  pub register_all-other :
      (ks : List ℕ) (t : table.Table) (p : ℕ)
      → tally p (procedures_of patches ks) ≡ 0
      → table.get (register_all table ks patches t) p ≡ table.get t p
  unfolding register_all
  register_all-other [] t p h = refl
  register_all-other (k ∷ ks) t p h =
      register_all-other ks (table.put t (patches k).procedure k).0 p (ground (arith, h))
      ∙ table.get-put_ne t (patches k).procedure p k (λ e. ground (arith, h, e))

  -- Each procedure is found with its patch.
  pub find_all-register :
      (ks : List ℕ) (t : table.Table)
      → ((p : ℕ) → tally p (procedures_of patches ks) ≤ 1)
      → find_all table (register_all table ks patches t) (procedures_of patches ks) ≡ (none, ks)
  unfolding register_all find_all
  find_all-register [] t h = refl
  find_all-register (k ∷ ks) t h =
      let t' = (table.put t (patches k).procedure k).0 in
      let e : table.get (register_all table ks patches t') (patches k).procedure ≡ some k =
        register_all-other ks t' (patches k).procedure (ground (arith, h (patches k).procedure))
        ∙ table.get-put_self t (patches k).procedure k in
      ground (arith, e, find_all-register ks t' (λ p. ground (arith, h p)))

  pub unregister_all-other :
      (ks : List ℕ) (t : table.Table) (p : ℕ)
      → tally p (procedures_of patches ks) ≡ 0
      → table.get (unregister_all table ks patches t) p ≡ table.get t p
  unfolding unregister_all
  unregister_all-other [] t p h = refl
  unregister_all-other (k ∷ ks) t p h =
      unregister_all-other ks (table.remove t (patches k).procedure).0 p (ground (arith, h))
      ∙ table.get-remove_ne t (patches k).procedure p (λ e. ground (arith, h, e))

  -- None of the procedures stays in the table.
  pub unregister_all-none :
      (ks : List ℕ) (t : table.Table) (p : ℕ)
      → 0 < tally p (procedures_of patches ks)
      → table.get (unregister_all table ks patches t) p ≡ none
  unfolding unregister_all
  unregister_all-none [] t p h = absurd (omega arith)
  unregister_all-none (k ∷ ks) t p h =
      let t' = (table.remove t (patches k).procedure).0 in
      elim (Bool-cases (tally p (procedures_of patches ks) == 0)) [
        | inr q ↦ unregister_all-none ks t' p (ground (arith, q))
        | inl q ↦
            let e : (patches k).procedure ≡ p = ground (arith, h, q) in
            unregister_all-other ks t' p (ground (arith, q))
            ∙ ap (λ i. table.get (table.remove t i).0 p) e
            ∙ table.get-remove_self t p
      ]
