-- ===== src/Patching/Restore.antt =====
-- Patches that are copied and then taken back leave the code as it was.
use ntrace.Base.{
  ℕ, zero, suc, ◌+◌, ◌-◌, ◌≤◌, ◌<◌, ◌≡◌, ◌≢◌, ◌⊎◌, inl, inr, refl, sym, ap, ap₂, ◌∙◌, subst,
  fun_ext, false, ◌&&◌, List, [], ◌∷◌, ltb, leb, ◌==◌, ==_iff, tally, length, get_or, arith,
  Bool-cases,
}
use ntrace.Base.Bytes.{Memory, bytes_from, length-bytes_from, get_or-bytes_from}
use ntrace.Patching.{Action, patch, unpatch, CodePatch, Machine, copy, copy_all}
use ntrace.Patching.Copies.{
  payload, stripped, In, Out, Laid, copy_step, copy_step-stripped, copy_step-outside,
  copy_step-Laid, copy_step-doomed, copy_step-target, copy_all-outside, copy_all-inside,
}

bytes_from-cong :
    (m m' : Memory) (a n : ℕ)
    → ((i : ℕ) → a ≤ i → i < a + n → m i ≡ m' i)
    → bytes_from m a n ≡ bytes_from m' a n
unfolding bytes_from
bytes_from-cong m m' a zero h = refl
bytes_from-cong m m' a (suc n) h =
    ap₂ ◌∷◌ (h a (omega arith) (omega arith))
      (bytes_from-cong m m' (a + 1) n (λ i l r. h i (omega arith) (omega arith)))

-- The patches of a list, all of them to be copied.
pub record Ready (s : Machine) (ks : List ℕ) : Type 0 where
  pub laid : Laid patch s.patches ks
  pub sound : (k : ℕ) → 0 < tally k ks → (s.patches k).doomed ≡ false
  pub sized : (k : ℕ) → 0 < tally k ks → length (s.patches k).new_code ≡ (s.patches k).code_size

pub copy_all-stripped :
    (action : Action) (ks : List ℕ) (i : ℕ) (s : Machine)
    → stripped ((copy_all action ks s).patches i) ≡ stripped (s.patches i)
unfolding copy_all
copy_all-stripped action [] i s = refl
copy_all-stripped action (k ∷ ks) i s =
    copy_all-stripped action ks i (copy_step action k s) ∙ copy_step-stripped action k i s

copy_all-elsewhere :
    (action : Action) (ks : List ℕ) (i : ℕ) (s : Machine)
    → tally i ks ≡ 0
    → (copy_all action ks s).patches i ≡ s.patches i
unfolding copy_all copy
copy_all-elsewhere action [] i s h = refl
copy_all-elsewhere action (k ∷ ks) i s h =
    copy_all-elsewhere action ks i (copy_step action k s) (ground arith) ∙ same action
  where
    same : (b : Action) → (copy_step b k s).patches i ≡ s.patches i
    same patch = ground arith
    same unpatch = ground arith

-- The patches after one step are as ready.
copy_step-Ready :
    (k : ℕ) (ks : List ℕ) (s : Machine) → Ready s (k ∷ ks) → Ready (copy_step patch k s) ks
copy_step-Ready k ks s r = record {
  laid = copy_step-Laid patch k ks s r.laid;
  sound = λ i m. copy_step-doomed patch k i s ∙ r.sound i (ground arith);
  sized = λ i m.
      ap (λ (p : CodePatch). length p.new_code) (copy_step-stripped patch k i s)
      ∙ r.sized i (ground arith)
      ∙ sym (ap (λ (p : CodePatch). p.code_size) (copy_step-stripped patch k i s));
}

copy_step-saved :
    (k : ℕ) (s : Machine)
    → (s.patches k).doomed ≡ false
    → ((copy_step patch k s).patches k).old_code
      ≡ bytes_from s.code (s.patches k).target (s.patches k).code_size
unfolding copy
copy_step-saved k s h = ground (arith, h)

-- A patch keeps the bytes that it replaces.
copy_all-saved :
    (ks : List ℕ) (k : ℕ) (s : Machine)
    → Ready s ks
    → 0 < tally k ks
    → ((copy_all patch ks s).patches k).old_code
      ≡ bytes_from s.code (s.patches k).target (s.patches k).code_size
unfolding copy_all
copy_all-saved [] k s r m = absurd (omega arith)
copy_all-saved (j ∷ ks) k s r m =
    let t = copy_step patch j s in
    elim (Bool-cases (j == k)) [
      | inl q ↦
          let e : j ≡ k = (==_iff j k).0 q in
          ap (λ (p : CodePatch). p.old_code)
            (copy_all-elsewhere patch ks k t (ground (arith, r.laid.once k)))
          ∙ ap (λ (i : ℕ). ((copy_step patch i s).patches k).old_code) e
          ∙ copy_step-saved k s (r.sound k m)
      | inr q ↦
          let n : k ≢ j = λ e. ground (arith, q, e) in
          copy_all-saved ks k t (copy_step-Ready j ks s r) (ground (arith, m))
          ∙ ap₂ (λ (a n : ℕ). bytes_from t.code a n) (copy_step-target patch j k s)
              (ap (λ (p : CodePatch). p.code_size) (copy_step-stripped patch j k s))
          ∙ bytes_from-cong t.code s.code (s.patches k).target (s.patches k).code_size (λ i l u.
            copy_step-outside patch j i s
              (r.laid.apart k j i m (ground arith) n (l, omega (arith, u, r.sized k m))))
    ]

-- An address is in the target of a patch of the list, or outside all.
place :
    (action : Action) (patches : ℕ → CodePatch) (a : ℕ) (ks : List ℕ)
    → ((k : ℕ) × (0 < tally k ks) × In action (patches k) a)
      ⊎ ((k : ℕ) → 0 < tally k ks → Out action (patches k) a)
place action patches a [] = inr (λ k h. absurd (omega arith))
place action patches a (j ∷ ks) =
    elim (Bool-cases (
      leb (patches j).target a
      && ltb a ((patches j).target + length (payload action (patches j))))) [
        | inl q ↦ inl (j, ground arith, (ground (arith, q), ground (arith, q)))
        | inr q ↦ elim (place action patches a ks) [
          | inl (k, m, h) ↦ inl (k, ground arith, h)
          | inr h ↦ inr (λ k m. elim (Bool-cases (j == k)) [
            | inl e ↦ subst (λ i. Out action (patches i) a) ((==_iff j k).0 e) (ground (arith, q))
            | inr e ↦ h k (ground arith)
          ])
        ]
      ]

-- If the patches are different ones, have targets apart, and none is doomed: copying them and then
-- copying back what they replaced leaves every byte of code as it was.
pub copy_all-unpatch :
    (ks : List ℕ) (s : Machine)
    → Ready s ks
    → (copy_all unpatch ks (copy_all patch ks s)).code ≡ s.code
copy_all-unpatch ks s r =
    let t = copy_all patch ks s in
    let target : (k : ℕ) → (t.patches k).target ≡ (s.patches k).target =
      λ k. ap (λ (p : CodePatch). p.target) (copy_all-stripped patch ks k s) in
    let long : (k : ℕ)
        → 0 < tally k ks
        → length (t.patches k).old_code ≡ length (s.patches k).new_code =
      λ k m.
        ap (λ (xs : List ℕ). length xs) (copy_all-saved ks k s r m)
        ∙ length-bytes_from s.code (s.patches k).target (s.patches k).code_size
        ∙ sym (r.sized k m) in
    let from : (k a : ℕ) → 0 < tally k ks → In unpatch (t.patches k) a → In patch (s.patches k) a =
      λ k a m h. (omega (arith, h.0, target k), omega (arith, h.1, target k, long k m)) in
    let to : (k a : ℕ) → 0 < tally k ks → Out patch (s.patches k) a → Out unpatch (t.patches k) a =
      λ k a m h. ground (arith, h, target k, long k m) in
    let laid : Laid unpatch t.patches ks = record {
      once = r.laid.once;
      apart = λ j k a m m' n h. to k a m' (r.laid.apart j k a m m' n (from j a m h));
    } in
    fun_ext (λ a. elim (place patch s.patches a ks) [
      | inl (k, m, h) ↦
          copy_all-inside unpatch ks k a t laid m
            (ap (λ (p : CodePatch). p.doomed) (copy_all-stripped patch ks k s) ∙ r.sound k m)
            (omega (arith, h.0, target k), omega (arith, h.1, target k, long k m))
          ∙ ap₂ (λ (xs : List ℕ) (i : ℕ). get_or xs (a - i) 0) (copy_all-saved ks k s r m)
              (target k)
          ∙ get_or-bytes_from s.code (s.patches k).target (s.patches k).code_size
              (a - (s.patches k).target) (omega (arith, h.0, h.1, r.sized k m))
          ∙ ap s.code (omega (arith, h.0))
      | inr h ↦
          copy_all-outside unpatch ks a t (λ k m. to k a m (h k m))
          ∙ copy_all-outside patch ks a s h
    ])
