-- ===== src/Base/Table.antt =====
-- The hash table library (hashtable.h of the cfix tool kit) is linked in and not part of the
-- repository. Its calls are the fields `get` (JphtGetEntryHashtable), `put` and `remove`, which
-- also hand back the entry that they replace or take out, and `entries` (what
-- JphtEnumerateEntries visits); `count` is JphtGetEntryCountHashtable.
use Prim.Native.Nat.{ℕ}
use mathlib.Core.Path.{◌≡◌, refl}
use mathlib.Core.Logic.{◌≢◌, ◌↔◌}
use mathlib.Core.Bool.{Bool, true}
use mathlib.Core.List.{List, [], ◌∷◌}
use mathlib.Core.Option.{Option, none, some}
use native.Mathlib.Omega.{arith}
use ntrace.Base.Tests.{if◌then◌else◌}
use ntrace.Base.Lists.{length}

pub record Hashtable (K V : Type 0) : Type 1 where
  pub Table : Type 0
  pub empty : Table
  pub get : Table → K → Option V
  pub put : Table → K → V → Table × Option V
  pub remove : Table → K → Table × Option V
  pub entries : Table → List (K × V)
  pub count : Table → ℕ
  pub get-empty : (k : K) → get empty k ≡ none
  pub get-put_self : (t : Table) (k : K) (v : V) → get (put t k v).0 k ≡ some v
  pub get-put_ne : (t : Table) (k j : K) (v : V) → k ≢ j → get (put t k v).0 j ≡ get t j
  pub put-old : (t : Table) (k : K) (v : V) → (put t k v).1 ≡ get t k
  pub get-remove_self : (t : Table) (k : K) → get (remove t k).0 k ≡ none
  pub get-remove_ne : (t : Table) (k j : K) → k ≢ j → get (remove t k).0 j ≡ get t j
  pub remove-old : (t : Table) (k : K) → (remove t k).1 ≡ get t k
  pub count-entries : (t : Table) → count t ≡ length (entries t)

-- An association list without repeated keys serves where a concrete table is wanted.
module _ {K V : Type 0} (eq : K → K → Bool) where
  unfoldable pub assoc_get : List (K × V) → K → Option V
  assoc_get [] k = none
  assoc_get ((j, v) ∷ t) k = if eq j k then some v else assoc_get t k

  unfoldable pub assoc_erase : List (K × V) → K → List (K × V)
  assoc_erase [] k = []
  assoc_erase ((j, v) ∷ t) k = let rest = assoc_erase t k in if eq j k then rest else (j, v) ∷ rest

module _ {K V : Type 0} (eq : K → K → Bool) (eq_iff : (a b : K) → (eq a b ≡ true) ↔ (a ≡ b)) where
  assoc_get-erase_self : (t : List (K × V)) (k : K) → assoc_get eq (assoc_erase eq t k) k ≡ none
  unfolding assoc_get assoc_erase
  assoc_get-erase_self [] k = refl
  assoc_get-erase_self ((j, v) ∷ t) k = ground (arith, assoc_get-erase_self t k)

  assoc_get-erase_ne :
      (t : List (K × V)) (k j : K) → k ≢ j → assoc_get eq (assoc_erase eq t k) j ≡ assoc_get eq t j
  unfolding assoc_get assoc_erase
  assoc_get-erase_ne [] k j h = refl
  assoc_get-erase_ne ((i, v) ∷ t) k j h =
      ground (arith, assoc_get-erase_ne t k j h, eq_iff i k, eq_iff i j)

  assoc_get-put_self :
      (t : List (K × V)) (k : K) (v : V) → assoc_get eq ((k, v) ∷ assoc_erase eq t k) k ≡ some v
  unfolding assoc_get
  assoc_get-put_self t k v = ground (arith, eq_iff k k)

  assoc_get-put_ne :
      (t : List (K × V)) (k j : K) (v : V)
      → k ≢ j
      → assoc_get eq ((k, v) ∷ assoc_erase eq t k) j ≡ assoc_get eq t j
  unfolding assoc_get
  assoc_get-put_ne t k j v h = ground (arith, eq_iff k j, assoc_get-erase_ne t k j h)

  unfoldable pub assoc_table : Hashtable K V
  unfolding assoc_get assoc_erase assoc_get-erase_self assoc_get-erase_ne assoc_get-put_self
      assoc_get-put_ne
  assoc_table = record {
    Table = List (K × V);
    empty = [];
    get = assoc_get eq;
    put = λ t k v. ((k, v) ∷ assoc_erase eq t k, assoc_get eq t k);
    remove = λ t k. (assoc_erase eq t k, assoc_get eq t k);
    entries = λ t. t;
    count = length;
    get-empty = λ k. refl;
    get-put_self = assoc_get-put_self;
    get-put_ne = assoc_get-put_ne;
    put-old = λ t k v. refl;
    get-remove_self = assoc_get-erase_self;
    get-remove_ne = assoc_get-erase_ne;
    remove-old = λ t k. refl;
    count-entries = λ t. refl;
  }
