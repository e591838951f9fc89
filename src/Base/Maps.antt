-- ===== src/Base/Maps.antt =====
-- Functions from numbers changed at one argument, and how often a number occurs in a list.
use Prim.Native.Nat.{ℕ, ◌+◌}
use mathlib.Core.Path.{◌≡◌, refl}
use mathlib.Core.Logic.{◌≢◌}
use mathlib.Core.List.{List, [], ◌∷◌, ◌++◌}
use native.Mathlib.Omega.{arith}
use ntrace.Base.Tests.{◌==◌, if◌then◌else◌}

abbrev pub update {ℓ} : {A : Type ℓ} → (ℕ → A) → ℕ → A → ℕ → A
update f k v i = if k == i then v else f i

pub update_self {ℓ} : {A : Type ℓ} (f : ℕ → A) (k : ℕ) (v : A) → update f k v k ≡ v
update_self f k v = ground arith

pub update_ne {ℓ} : {A : Type ℓ} (f : ℕ → A) (k : ℕ) (v : A) (i : ℕ) → k ≢ i → update f k v i ≡ f i
update_ne f k v i h = ground arith

abbrev pub tally : ℕ → List ℕ → ℕ
tally b [] = 0
tally b (x ∷ xs) = (if x == b then 1 else 0) + tally b xs

-- The list turned round, in front of another.
abbrev pub reverse_onto {ℓ} : {A : Type ℓ} → List A → List A → List A
reverse_onto [] ys = ys
reverse_onto (x ∷ xs) ys = reverse_onto xs (x ∷ ys)

pub tally-reverse_onto :
    (b : ℕ) (xs ys : List ℕ) → tally b (reverse_onto xs ys) ≡ tally b xs + tally b ys
tally-reverse_onto b [] ys = omega arith
tally-reverse_onto b (x ∷ xs) ys = omega (arith, tally-reverse_onto b xs (x ∷ ys))

pub reverse_onto-append {ℓ} :
    {A : Type ℓ} (xs ys zs : List A) → reverse_onto xs (ys ++ zs) ≡ reverse_onto xs ys ++ zs
reverse_onto-append [] ys zs = refl
reverse_onto-append (x ∷ xs) ys zs = reverse_onto-append xs (x ∷ ys) zs
