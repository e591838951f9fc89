-- ===== src/Buffers/ThreadWords.antt =====
-- Jpfbt/jpfbt/km_tls_retail.c: a thread's data is found through spare bits of two words of its ETHREAD,
-- one of which also has a busy bit. Words have 32 bits.
use ntrace.Base.{
  ℕ, ◌+◌, ◌*◌, ◌/◌, ◌%◌, ◌^◌, ◌<◌, ◌≡◌, Bool, true, false, ap, ◌∙◌, ◌==◌, if◌then◌else◌, arith,
}

-- SameThreadPassiveFlags and SameThreadApcFlags
pub record ThreadWords : Type 0 where
  pub passive : ℕ
  pub apc : ℕ

or_bit : ℕ → ℕ → ℕ
or_bit a b = if a + b == 0 then 0 else 1

-- Two bits or-ed with two bits.
or_bits : ℕ → ℕ → ℕ
unfolding or_bit
or_bits a b = or_bit (a % 2) (b % 2) + or_bit (a / 2 % 2) (b / 2 % 2) * 2

-- JpfbtpSetFbtDataThread. The lower half of the pointer is or-ed onto 18 bits that are kept, of which two
-- are in its place.
unfoldable pub set_data : ℕ → ThreadWords → ThreadWords
unfolding or_bits
set_data value w = record {
  passive = value / 2 ^ 16 % 2 ^ 16 * 2 ^ 16 + w.passive % 2 ^ 16;
  apc =
      value / 4 % 2 ^ 14 * 2 ^ 18
      + or_bits (value % 4) (w.apc / 2 ^ 16 % 4) * 2 ^ 16
      + w.apc % 2 ^ 16;
}

-- JpfbtpGetFbtDataThread
unfoldable pub get_data : ThreadWords → ℕ
get_data w = w.passive / 2 ^ 16 * 2 ^ 16 + w.apc / 2 ^ 18 % 2 ^ 14 * 4

is_busy : ThreadWords → Bool
is_busy w = w.passive / 2 ^ 15 % 2 == 1

-- JpfbtpAcquireCurrentThread, with the number of reentrant executions that have been detected.
unfoldable pub acquire_thread : ThreadWords → ℕ → Bool × ThreadWords × ℕ
unfolding is_busy
acquire_thread w reentrant =
    if is_busy w
    then (false, w, reentrant + 1)
    else (true, record w { passive = w.passive + 2 ^ 15 }, reentrant)

-- JpfbtpReleaseCurrentThread
unfoldable pub release_thread : ThreadWords → ThreadWords
release_thread w = record w { passive = w.passive / 2 ^ 16 * 2 ^ 16 + w.passive % 2 ^ 15 }

or_bits_small : (a b : ℕ) → or_bits a b < 4
unfolding or_bits or_bit
or_bits_small a b = ground arith

or_bits-zero : (b : ℕ) → b < 4 → or_bits 0 b ≡ b
unfolding or_bits or_bit
or_bits-zero b h = ground (arith, h)

-- An aligned pointer is read back as it was set.
pub get-set_data :
    (value : ℕ) (w : ThreadWords)
    → value < 2 ^ 32
    → value % 4 ≡ 0
    → get_data (set_data value w) ≡ value
unfolding get_data set_data
get-set_data value w b h = omega (arith, b, h, or_bits_small (value % 4) (w.apc / 2 ^ 16 % 4))

-- Setting the pointer keeps the busy bit and the other spare bits.
pub set_data-passive :
    (value : ℕ) (w : ThreadWords) → (set_data value w).passive % 2 ^ 16 ≡ w.passive % 2 ^ 16
unfolding set_data
set_data-passive value w = omega arith

pub set_data-apc :
    (value : ℕ) (w : ThreadWords) → value % 4 ≡ 0 → (set_data value w).apc % 2 ^ 18 ≡ w.apc % 2 ^ 18
unfolding set_data
set_data-apc value w h =
    let e : or_bits (value % 4) (w.apc / 2 ^ 16 % 4) ≡ w.apc / 2 ^ 16 % 4 =
      ap (λ a. or_bits a (w.apc / 2 ^ 16 % 4)) h ∙ or_bits-zero _ (omega arith) in
    omega (arith, e)

-- While a thread is acquired, its data is found, and it cannot be acquired again.
pub acquire_thread-get_data :
    (w : ThreadWords) (n : ℕ) → get_data (acquire_thread w n).1 ≡ get_data w
unfolding acquire_thread get_data is_busy
acquire_thread-get_data w n = ground arith

pub acquire-acquire_thread :
    (w : ThreadWords) (n : ℕ)
    → let w' = (acquire_thread w n).1 in acquire_thread w' n ≡ (false, w', n + 1)
unfolding acquire_thread is_busy
acquire-acquire_thread w n = ground arith

-- Releasing an acquired thread restores its words.
pub release-acquire_thread :
    (w : ThreadWords) (n : ℕ)
    → (acquire_thread w n).0 ≡ true
    → release_thread (acquire_thread w n).1 ≡ w
unfolding acquire_thread release_thread is_busy
release-acquire_thread w n h =
    let free : (w.passive / 2 ^ 15 % 2 == 1) ≡ false = ground (arith, h) in
    let e : (acquire_thread w n).1 ≡ record w { passive = w.passive + 2 ^ 15 } =
      ground (arith, free) in
    ap release_thread e ∙ ap (λ p. record w { passive = p }) (restored w.passive free)
  where
    restored :
        (p : ℕ)
        → (p / 2 ^ 15 % 2 == 1) ≡ false
        → (p + 2 ^ 15) / 2 ^ 16 * 2 ^ 16 + (p + 2 ^ 15) % 2 ^ 15 ≡ p
    restored p h = ground (arith, h)
