-- ===== src/Base/Bytes.antt =====
-- Little-endian integers in memory, as the x86 code reads and writes them through a pointer to a
-- USHORT, ULONG or ULONGLONG. A memory gives the byte at each address.
use Prim.Native.Nat.{ℕ, zero, suc, ◌+◌, ◌-◌, ◌*◌, ◌/◌, ◌%◌, ◌≤◌, ◌<◌}
use mathlib.Core.Path.{◌≡◌, refl, ap, ap₂, ◌∙◌}
use mathlib.Core.List.{List, [], ◌∷◌, ◌++◌}
use native.Mathlib.Omega.{arith}
use ntrace.Base.Tests.{ltb, if◌then◌else◌}
use ntrace.Base.Lists.{length, get_or}

abbrev pub Memory : Type 0
Memory = ℕ → ℕ

-- What the store holds at `a + i` is byte `i` of the list; other addresses keep their bytes.
unfoldable pub store : Memory → ℕ → List ℕ → Memory
store m a bytes i =
    if ltb i a then m i else if ltb i (a + length bytes) then get_or bytes (i - a) 0 else m i

abbrev pub read_u16 : Memory → ℕ → ℕ
read_u16 m a = m a + 256 * m (a + 1)

abbrev pub read_u32 : Memory → ℕ → ℕ
read_u32 m a = m a + 256 * m (a + 1) + 65536 * m (a + 2) + 16777216 * m (a + 3)

abbrev pub read_u64 : Memory → ℕ → ℕ
read_u64 m a = read_u32 m a + 4294967296 * read_u32 m (a + 4)

abbrev pub u16_bytes : ℕ → List ℕ
u16_bytes x = x % 256 ∷ x / 256 % 256 ∷ []

abbrev pub u32_bytes : ℕ → List ℕ
u32_bytes x = x % 256 ∷ x / 256 % 256 ∷ x / 65536 % 256 ∷ x / 16777216 % 256 ∷ []

abbrev pub u64_bytes : ℕ → List ℕ
u64_bytes x = u32_bytes (x % 4294967296) ++ u32_bytes (x / 4294967296)

pub store_before : (m : Memory) (a : ℕ) (bytes : List ℕ) (i : ℕ) → i < a → store m a bytes i ≡ m i
unfolding store
store_before m a bytes i h = ground arith

pub store_inside :
    (m : Memory) (a : ℕ) (bytes : List ℕ) (i k : ℕ)
    → i ≡ a + k
    → k < length bytes
    → store m a bytes i ≡ get_or bytes k 0
unfolding store
store_inside m a bytes i k e h =
    let d : i - a ≡ k = omega arith in ground (arith, ap (λ (j : ℕ). get_or bytes j 0) d)

pub store_after :
    (m : Memory) (a : ℕ) (bytes : List ℕ) (i : ℕ) → a + length bytes ≤ i → store m a bytes i ≡ m i
unfolding store
store_after m a bytes i h = ground arith

-- The bytes at the addresses from `a` on.
unfoldable pub bytes_from : Memory → ℕ → ℕ → List ℕ
bytes_from m a zero = []
bytes_from m a (suc n) = m a ∷ bytes_from m (a + 1) n

bytes_from-split :
    (m : Memory) (a n k : ℕ) → bytes_from m a (n + k) ≡ bytes_from m a n ++ bytes_from m (a + n) k
unfolding bytes_from
bytes_from-split m a zero k =
    let e : a ≡ a + 0 = omega arith in
    let d : 0 + k ≡ k = omega arith in ap (λ j. bytes_from m a j) d ∙ ap (λ i. bytes_from m i k) e
bytes_from-split m a (suc n) k =
    let e : suc n + k ≡ suc (n + k) = omega arith in
    let d : a + suc n ≡ a + 1 + n = omega arith in
    rw (e, d) (ap (◌∷◌ (m a)) (bytes_from-split m (a + 1) n k))

bytes_from-get :
    (m : Memory) (a : ℕ) (bytes : List ℕ)
    → ((k : ℕ) → k < length bytes → m (a + k) ≡ get_or bytes k 0)
    → bytes_from m a (length bytes) ≡ bytes
unfolding bytes_from
bytes_from-get m a [] h = refl
bytes_from-get m a (x ∷ bytes) h =
    let z : a + 0 ≡ a = omega arith in
    ap₂ ◌∷◌ (rw z at (h 0 (omega arith))) (
      bytes_from-get m (a + 1) bytes
        (λ k l. let e : a + 1 + k ≡ a + suc k = omega arith in rw e (h (suc k) (omega arith))))

bytes_from-before :
    (m : Memory) (a n at : ℕ) (bytes : List ℕ)
    → a + n ≤ at
    → bytes_from (store m at bytes) a n ≡ bytes_from m a n
unfolding bytes_from
bytes_from-before m a zero at bytes h = refl
bytes_from-before m a (suc n) at bytes h =
    ap₂ ◌∷◌ (store_before m at bytes a (omega arith))
      (bytes_from-before m (a + 1) n at bytes (omega arith))

pub bytes_from-store :
    (m : Memory) (n : ℕ) (bytes : List ℕ)
    → bytes_from (store m n bytes) 0 (n + length bytes) ≡ bytes_from m 0 n ++ bytes
bytes_from-store m n bytes =
    bytes_from-split (store m n bytes) 0 n (length bytes)
    ∙ ap₂ ◌++◌ (bytes_from-before m 0 n n bytes (omega arith)) (
        bytes_from-get (store m n bytes) (0 + n) bytes
          (λ k l. store_inside m n bytes (0 + n + k) k (omega arith) l))

pub length-bytes_from : (m : Memory) (a n : ℕ) → length (bytes_from m a n) ≡ n
unfolding bytes_from
length-bytes_from m a zero = refl
length-bytes_from m a (suc n) = ap suc (length-bytes_from m (a + 1) n)

pub get_or-bytes_from : (m : Memory) (a n k : ℕ) → k < n → get_or (bytes_from m a n) k 0 ≡ m (a + k)
unfolding bytes_from
get_or-bytes_from m a zero k h = absurd (omega arith)
get_or-bytes_from m a (suc n) zero h = ap m (omega arith)
get_or-bytes_from m a (suc n) (suc k) h =
    get_or-bytes_from m (a + 1) n k (omega arith) ∙ ap m (omega arith)
