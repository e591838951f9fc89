-- ===== src/Buffers/Slist.antt =====
-- JpfbtsReverseSlist of Jpfbt/jpfbt/buffer.c: a list of linked entries is turned round in place. The
-- links are a function from an entry to the next one.
use ntrace.Base.{
  ℕ, zero, suc, ◌+◌, ◌≤◌, ◌≡◌, ◌≢◌, refl, sym, ◌∙◌, subst, Option, some, none, List, [], ◌∷◌,
  update, update_self, update_ne, tally, reverse_onto, length, arith,
}

abbrev pub Links : Type 0
Links = ℕ → Option ℕ

-- The loop, with fuel: the first entry and the links after it, or `none` when the fuel runs out.
unfoldable pub reverse_loop : ℕ → Links → Option ℕ → Option ℕ → Option (Option ℕ × Links)
reverse_loop n links none prev = some (prev, links)
reverse_loop zero links (some current) prev = none
reverse_loop (suc n) links (some current) prev =
    reverse_loop n (update links current prev) (links current) (some current)

-- JpfbtsReverseSlist
unfoldable pub reverse_slist : ℕ → Links → Option ℕ → Option (Option ℕ × Links)
unfolding reverse_loop
reverse_slist fuel links list = reverse_loop fuel links list none

-- From `first` on, the links lead through the entries of a list and end there.
unfoldable pub Chain : Links → List ℕ → Option ℕ → Type 0
Chain links [] first = first ≡ none
Chain links (x ∷ xs) first = (first ≡ some x) × Chain links xs (links x)

Chain-update :
    (links : Links) (b : ℕ) (v : Option ℕ) (xs : List ℕ) (first : Option ℕ)
    → tally b xs ≡ 0
    → Chain links xs first
    → Chain (update links b v) xs first
unfolding Chain
Chain-update links b v [] first h c = c
Chain-update links b v (x ∷ xs) first h (e, c) =
    let n : b ≢ x = ground arith in
    (
      e,
      subst (Chain (update links b v) xs) (sym (update_ne links b v x n))
          (Chain-update links b v xs (links x) (ground arith) c),
    )

-- What turning a list round comes to.
pub record Reversed (links : Links) (xs : List ℕ) (ys : List ℕ) (r : Option (Option ℕ × Links))
    : Type 0 where
  pub first : Option ℕ
  pub after : Links
  pub returns : r ≡ some (first, after)
  pub chain : Chain after ys first
  pub others : (i : ℕ) → tally i xs ≡ 0 → after i ≡ links i

reverse_loop-Reversed :
    (xs ys : List ℕ) (n : ℕ) (links : Links) (current prev : Option ℕ)
    → length xs ≤ n
    → ((b : ℕ) → tally b xs + tally b ys ≤ 1)
    → Chain links xs current
    → Chain links ys prev
    → Reversed links xs (reverse_onto xs ys) (reverse_loop n links current prev)
unfolding reverse_loop Chain
reverse_loop-Reversed [] ys n links current prev l u c d =
    subst (λ k. Reversed links [] ys (reverse_loop n links k prev)) (sym c)
      (record { first = prev; after = links; returns = refl; chain = d; others = λ i h. refl })
reverse_loop-Reversed (x ∷ xs) ys zero links current prev l u c d = absurd (omega arith)
reverse_loop-Reversed (x ∷ xs) ys (suc n) links current prev l u (e, c) d =
    let links' = update links x prev in
    let r =
      reverse_loop-Reversed xs (x ∷ ys) n links' (links x) (some x) (omega arith)
        (λ b. ground (arith, u b)) (Chain-update links x prev xs (links x) (ground (arith, u x)) c)
        (
          refl,
          subst (Chain links' ys) (sym (update_self links x prev))
              (Chain-update links x prev ys prev (ground (arith, u x)) d),
        ) in
    subst
      (λ k. Reversed links (x ∷ xs) (reverse_onto xs (x ∷ ys)) (reverse_loop (suc n) links k prev))
      (sym e)
      (record {
        first = r.first;
        after = r.after;
        returns = r.returns;
        chain = r.chain;
        others = λ i h. r.others i (ground arith) ∙ update_ne links x prev i (ground arith);
      })

-- The loop ends for a list without a cycle, and then the entries are linked the other way round; no
-- link of another entry is changed.
pub reverse_slist-Reversed :
    (xs : List ℕ) (fuel : ℕ) (links : Links) (list : Option ℕ)
    → length xs ≤ fuel
    → ((b : ℕ) → tally b xs ≤ 1)
    → Chain links xs list
    → Reversed links xs (reverse_onto xs []) (reverse_slist fuel links list)
unfolding reverse_slist Chain
reverse_slist-Reversed xs fuel links list l u c =
    reverse_loop-Reversed xs [] fuel links list none l (λ b. omega (arith, u b)) c refl
