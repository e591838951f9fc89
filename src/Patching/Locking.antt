-- ===== src/Patching/Locking.antt =====
-- The loops of km_patch.c that lock pages and free their MDLs.
use ntrace.Base.{
  ℕ, zero, suc, ◌+◌, ◌-◌, ◌≤◌, ◌<◌, ◌≡◌, ◌≢◌, inl, inr, refl, sym, ap, ◌∙◌, subst, true, false, not,
  ◌&&◌, List, [], ◌∷◌, ◌==◌, if◌then◌else◌, tally, arith, Bool-cases,
}
use ntrace.Patching.{Status, is_success, Machine}
use ntrace.Patching.Kernel.{Kernel, set_mapped, lock_memory, lock_all, unlock_first}

-- The loop that locks, at a patch that is not doomed.
module _ (kernel : Kernel) (k : ℕ) (ks : List ℕ) (n : ℕ) (s : Machine)
    (sane : (s.patches k).doomed ≡ false) where
  lock_all-on :
      is_success (lock_memory kernel (s.patches k).target (s.patches k).code_size) ≡ true
      → lock_all kernel (k ∷ ks) n s ≡ lock_all kernel ks (n + 1) (set_mapped true k s)
  unfolding lock_all
  lock_all-on e = ground (arith, e, sane)

  lock_all-stop :
      is_success (lock_memory kernel (s.patches k).target (s.patches k).code_size) ≡ false
      → lock_all kernel (k ∷ ks) n s
        ≡ (lock_memory kernel (s.patches k).target (s.patches k).code_size, n, s)
  unfolding lock_all
  lock_all-stop e = ground (arith, e, sane)

lock_all-count :
    (kernel : Kernel) (ks : List ℕ) (n : ℕ) (s : Machine)
    → ((k : ℕ) → 0 < tally k ks → (s.patches k).doomed ≡ false)
    → n ≤ (lock_all kernel ks n s).1
unfolding lock_all set_mapped
lock_all-count kernel [] n s d = omega arith
lock_all-count kernel (k ∷ ks) n s d =
    elim (Bool-cases
      (is_success (lock_memory kernel (s.patches k).target (s.patches k).code_size))) [
        | inl q ↦
            let m =
              lock_all-count kernel ks (n + 1) (set_mapped true k s) (λ i h. ground (arith, d i)) in
            let e =
              ap (λ (x : Status × ℕ × Machine). x.1)
                (lock_all-on kernel k ks n s (d k (ground arith)) q) in
            omega (arith, m, e)
        | inr q ↦
            let e =
              ap (λ (x : Status × ℕ × Machine). x.1)
                (lock_all-stop kernel k ks n s (d k (ground arith)) q) in
            omega (arith, e)
      ]

-- A patch that is not in the list keeps its MDL.
lock_all-mapped :
    (kernel : Kernel) (ks : List ℕ) (n : ℕ) (s : Machine) (i : ℕ)
    → tally i ks ≡ 0
    → ((lock_all kernel ks n s).2.patches i).mapped ≡ (s.patches i).mapped
unfolding lock_all set_mapped
lock_all-mapped kernel [] n s i h = refl
lock_all-mapped kernel (k ∷ ks) n s i h =
    let p = s.patches k in
    let locks = not p.doomed && is_success (lock_memory kernel p.target p.code_size) in
    ground (
      arith,
      lock_all-mapped kernel ks (if locks then n + 1 else n) (set_mapped locks k s) i
          (ground (arith, h)),
    )

unlock_first-mapped :
    (n : ℕ) (ks : List ℕ) (s : Machine) (i : ℕ)
    → tally i ks ≡ 0
    → ((unlock_first n ks s).patches i).mapped ≡ (s.patches i).mapped
unfolding unlock_first set_mapped
unlock_first-mapped zero ks s i h = refl
unlock_first-mapped (suc n) [] s i h = refl
unlock_first-mapped (suc n) (k ∷ ks) s i h =
    unlock_first-mapped n ks (if (s.patches k).mapped then set_mapped false k s else s) i
      (ground (arith, h))
    ∙ ground (arith, h)

-- Patches of a list that are different ones, none doomed, and without an MDL.
pub record Clear (ks : List ℕ) (s : Machine) : Type 0 where
  pub sane : (k : ℕ) → 0 < tally k ks → (s.patches k).doomed ≡ false
  pub once : (k : ℕ) → tally k ks ≤ 1
  pub unmapped : (k : ℕ) → 0 < tally k ks → (s.patches k).mapped ≡ false

-- What was locked is unlocked, by a machine whose MDLs are those after locking.
pub unlock-all :
    (kernel : Kernel) (ks : List ℕ) (n : ℕ) (s t : Machine)
    → Clear ks s
    → ((k : ℕ)
        → 0 < tally k ks
        → (t.patches k).mapped ≡ ((lock_all kernel ks n s).2.patches k).mapped)
    → (k : ℕ) → 0 < tally k ks
    → ((unlock_first ((lock_all kernel ks n s).1 - n) ks t).patches k).mapped ≡ false
unfolding unlock_first set_mapped
unlock-all kernel [] n s t c h i m = absurd (omega arith)
unlock-all kernel (k ∷ ks) n s t c h i m =
    let d = c.sane k (ground arith) in
    elim (Bool-cases
      (is_success (lock_memory kernel (s.patches k).target (s.patches k).code_size))) [
        | inr q ↦
            let r = lock_all-stop kernel k ks n s d q in
            let z : (lock_all kernel (k ∷ ks) n s).1 - n ≡ 0 =
              let e = ap (λ (x : Status × ℕ × Machine). x.1) r in omega (arith, e) in
            subst (λ j. ((unlock_first j (k ∷ ks) t).patches i).mapped ≡ false) (sym z)
              (h i m ∙ ap (λ (x : Status × ℕ × Machine). (x.2.patches i).mapped) r ∙ c.unmapped i m)
        | inl q ↦
            let s' = set_mapped true k s in
            let t' : Machine = if (t.patches k).mapped then set_mapped false k t else t in
            let r = lock_all-on kernel k ks n s d q in
            let count = lock_all-count kernel ks (n + 1) s' (λ j f. ground (arith, c.sane j)) in
            let z : (lock_all kernel (k ∷ ks) n s).1 - n
                ≡ suc ((lock_all kernel ks (n + 1) s').1 - (n + 1)) =
              let e = ap (λ (x : Status × ℕ × Machine). x.1) r in omega (arith, e, count) in
            subst (λ j. ((unlock_first j (k ∷ ks) t).patches i).mapped ≡ false) (sym z)
              (elim (Bool-cases (tally i ks == 0)) [
                | inl f ↦
                    let e : k ≡ i = ground (arith, m, f) in
                    unlock_first-mapped ((lock_all kernel ks (n + 1) s').1 - (n + 1)) ks t' i
                      (ground (arith, f))
                    ∙ ground (arith, e)
                | inr f ↦
                    unlock-all kernel ks (n + 1) s' t'
                      (record {
                        sane = λ j g. ground (arith, c.sane j);
                        once = λ j. ground (arith, c.once j);
                        unmapped = λ j g. ground (arith, c.unmapped j, c.once j);
                      })
                      (λ j g.
                        let b : j ≢ k = λ e. ground (arith, c.once j, e, g) in
                        let u =
                          h j (ground (arith, g))
                          ∙ ap (λ (x : Status × ℕ × Machine). (x.2.patches j).mapped) r in
                        ground (arith, u, b))
                      i (ground (arith, f))
              ])
      ]
