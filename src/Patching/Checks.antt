-- ===== src/Patching/Checks.antt =====
-- What a procedure that passes the checks is like.
use ntrace.Base.{
  ℕ, zero, suc, ◌+◌, ◌-◌, ◌/◌, ◌<◌, ◌≡◌, ◌≢◌, ◌⊎◌, inl, inr, refl, ap, ◌∙◌, Bool, true, ◌==◌, arith,
  Bool-cases,
}
use ntrace.Base.Bytes.{Memory, read_u16}
use ntrace.Patching.{is_hotpatchable, is_padding_available, filled_with, check_kernel, success}

-- A procedure of mov edi, edi behind five bytes that are all nop, all int 3 or all zero, in memory
-- that is there.
pub record Patchable (valid : ℕ → Bool) (m : Memory) (procedure : ℕ) : Type 0 where
  pub resident : (i : ℕ) → i < 7 → valid (procedure - 5 + i) ≡ true
  pub hotpatchable : read_u16 m procedure ≡ 0xFF8B
  pub padding : ℕ
  pub padded : (i : ℕ) → i < 5 → m (procedure - 5 + i) ≡ padding
  pub usual : (padding ≡ 0x90) ⊎ ((padding ≡ 0xCC) ⊎ (padding ≡ 0))

filled_with-all :
    (m : Memory) (value a n : ℕ)
    → filled_with m value a n ≡ true
    → (i : ℕ) → i < n
    → m (a + i) ≡ value
unfolding filled_with
filled_with-all m value a zero h i l = absurd (omega arith)
filled_with-all m value a (suc n) h zero l =
    let e : a + 0 ≡ a = omega arith in ap m e ∙ ground (arith, h)
filled_with-all m value a (suc n) h (suc i) l =
    ap m (omega arith) ∙ filled_with-all m value (a + 1) n (ground (arith, h)) i (omega arith)

-- MmIsAddressValid answers for the page of an address.
module _ (valid : ℕ → Bool) (by_page : (a b : ℕ) → a / 4096 ≡ b / 4096 → valid a ≡ valid b) where
  between : (a i : ℕ) → valid a ≡ true → valid (a + 7) ≡ true → i < 7 → valid (a + i) ≡ true
  between a i h k l = elim (Bool-cases (a / 4096 == (a + i) / 4096)) [
    | inl q ↦ by_page (a + i) a (ground (arith, q)) ∙ h
    | inr q ↦
        let n : a / 4096 ≢ (a + i) / 4096 = λ e. ground (arith, q, e) in
        by_page (a + i) (a + 7) (omega (arith, n)) ∙ k
  ]

  padded_with :
      (m : Memory) (procedure : ℕ)
      → is_padding_available m procedure 5 ≡ true
      → (value : ℕ) × ((value ≡ 0x90) ⊎ ((value ≡ 0xCC) ⊎ (value ≡ 0)))
        × (filled_with m value (procedure - 5) 5 ≡ true)
  unfolding is_padding_available
  padded_with m procedure h = elim (Bool-cases (filled_with m 0x90 (procedure - 5) 5)) [
    | inl q ↦ (0x90, inl refl, q)
    | inr q ↦ elim (Bool-cases (filled_with m 0xCC (procedure - 5) 5)) [
      | inl r ↦ (0xCC, inr (inl refl), r)
      | inr r ↦ (0, inr (inr refl), ground (arith, h, q, r))
    ]
  ]

  -- If MmIsAddressValid answers by the page: a procedure that the kernel mode build finds instrumentable
  -- begins with mov edi, edi, has five bytes of padding of one of three kinds before it, and all seven
  -- bytes are valid memory, although the code asks for two addresses only.
  pub check_kernel-Patchable :
      (m : Memory) (procedure : ℕ)
      → check_kernel valid m procedure ≡ (success, true)
      → Patchable valid m procedure
  unfolding check_kernel is_hotpatchable
  check_kernel-Patchable m procedure h =
      let a : valid (procedure - 5) ≡ true = ground (arith, h) in
      let b : valid (procedure - 5 + 7) ≡ true = ground (arith, h) in
      let c : is_padding_available m procedure 5 ≡ true = ground (arith, h) in
      let d : is_hotpatchable m procedure ≡ true = ground (arith, h) in
      let (value, usual, f) = padded_with m procedure c in
      record {
        resident = λ i l. between (procedure - 5) i a b l;
        hotpatchable = ground (arith, d);
        padding = value;
        padded = filled_with-all m value (procedure - 5) 5 f;
        usual = usual;
      }
