-- ===== src/Sink/Events/Directory.antt =====
-- The debug directory of an image in the chunk that JpkfagsOnImageLoadDefEventSink of
-- Jpkfbt/jpkfag/defevntsink.c builds: its entries, with the pointers to their data fixed up.
use ntrace.Base.{
  ℕ, ◌+◌, ◌-◌, ◌*◌, ◌^◌, ◌≤◌, ◌<◌, ◌≡◌, refl, ◌∙◌, List, [], ◌∷◌, ◌++◌, length, length-append, All,
  arith, zero, suc,
}
use ntrace.Base.Bytes.{Memory, read_u32, u32_bytes}
use ntrace.Sink.Agree.{HasBytes}
use ntrace.Sink.Writes.{get_or-append_left, get_or-append_right}
use ntrace.Sink.Events.{
  DebugEntry, debug_headers, debug_data, size_of_debug_directory, debug_data_size, bytes_at,
}

-- The bytes that a debug directory takes, with its data.
unfoldable pub debug_bytes : List DebugEntry → ℕ
debug_bytes [] = 0
debug_bytes (e ∷ es) = size_of_debug_directory + length e.data_of + debug_bytes es

pub length-bytes_at : (m : Memory) (a n : ℕ) → length (bytes_at m a n) ≡ n
unfolding bytes_at
length-bytes_at m a zero = refl
length-bytes_at m a (suc n) = omega (arith, length-bytes_at m (a + 1) n)

abbrev pub IsEntry : DebugEntry → Type 0
IsEntry e = length e.head ≡ 16

pub length-debug_headers :
    (n : ℕ) (es : List DebugEntry)
    → All IsEntry es
    → length (debug_headers n es) ≡ size_of_debug_directory * length es
unfolding debug_headers
length-debug_headers n [] h = refl
length-debug_headers n (e ∷ es) (a, h) = omega (
  arith,
  a,
  length-append (e.head ++ (u32_bytes (length e.data_of) ++ (u32_bytes 0 ++ u32_bytes n)))
      (debug_headers (n + length e.data_of - size_of_debug_directory) es),
  length-append e.head (u32_bytes (length e.data_of) ++ (u32_bytes 0 ++ u32_bytes n)),
  length-debug_headers (n + length e.data_of - size_of_debug_directory) es h,
)

pub debug_bytes_lem :
    (es : List DebugEntry)
    → size_of_debug_directory * length es + length (debug_data es) ≡ debug_bytes es
unfolding debug_bytes debug_data
debug_bytes_lem [] = refl
debug_bytes_lem (e ∷ es) =
    omega (arith, length-append e.data_of (debug_data es), debug_bytes_lem es)

pub debug_data_size_lem :
    (es : List DebugEntry) → debug_bytes es < 2 ^ 32 → debug_data_size es ≡ length (debug_data es)
unfolding debug_bytes debug_data debug_data_size
debug_data_size_lem [] h = refl
debug_data_size_lem (e ∷ es) h = omega (
  arith,
  length-append e.data_of (debug_data es),
  debug_data_size_lem es (omega arith),
  debug_bytes_lem es,
)

-- The memory has at `a` the entries of a debug directory, one after the other, and from `p` on their data:
-- each entry keeps its first 16 bytes, has in SizeOfData how much data it has, 0 in AddressOfRawData,
-- and in PointerToRawData how far its data is from the entry.
unfoldable pub Directory : Memory → ℕ → ℕ → List DebugEntry → Type 0
Directory m a p [] = Unit
Directory m a p (e ∷ es) =
    HasBytes m a e.head
    × (read_u32 m (a + 16) ≡ length e.data_of)
    × (read_u32 m (a + 20) ≡ 0)
    × (a + read_u32 m (a + 24) ≡ p)
    × HasBytes m p e.data_of
    × Directory m (a + 28) (p + length e.data_of) es

pub HasBytes-left :
    (m : Memory) (a : ℕ) (xs ys : List ℕ) → HasBytes m a (xs ++ ys) → HasBytes m a xs
HasBytes-left m a xs ys h k i e l =
    h k i e (omega (arith, length-append xs ys)) ∙ get_or-append_left xs ys k l

pub HasBytes-right :
    (m : Memory) (a b : ℕ) (xs ys : List ℕ)
    → a + length xs ≡ b
    → HasBytes m a (xs ++ ys)
    → HasBytes m b ys
HasBytes-right m a b xs ys f h k i e l =
    h (length xs + k) i (omega arith) (omega (arith, length-append xs ys))
    ∙ get_or-append_right xs ys (length xs + k) k (omega arith)

-- A number of 32 bits is read back.
read_u32-HasBytes :
    (m : Memory) (a n : ℕ) → n < 2 ^ 32 → HasBytes m a (u32_bytes n) → read_u32 m a ≡ n
read_u32-HasBytes m a n l h = ground (arith, h 0 a, h 1 (a + 1), h 2 (a + 2), h 3 (a + 3))

module _ (m : Memory) (a n : ℕ) (x : DebugEntry) where
  abbrev pointers : List ℕ
  pointers = u32_bytes 0 ++ u32_bytes n

  abbrev entry : List ℕ
  entry = x.head ++ (u32_bytes (length x.data_of) ++ pointers)

  abbrev IsFixed : Type 0
  IsFixed =
      HasBytes m a x.head
      × (read_u32 m (a + 16) ≡ length x.data_of)
      × (read_u32 m (a + 20) ≡ 0)
      × (read_u32 m (a + 24) ≡ n)

  length-entry : length x.head ≡ 16 → length entry ≡ 28
  length-entry h = omega (arith, h, length-append x.head (u32_bytes (length x.data_of) ++ pointers))

  entry-IsFixed :
      length x.head ≡ 16 → n < 2 ^ 32 → length x.data_of < 2 ^ 32 → HasBytes m a entry → IsFixed
  entry-IsFixed w b c own =
      let fields : HasBytes m (a + 16) (u32_bytes (length x.data_of) ++ pointers) =
        HasBytes-right m a (a + 16) x.head (u32_bytes (length x.data_of) ++ pointers)
          (omega (arith, w)) own in
      let rest : HasBytes m (a + 20) pointers =
        HasBytes-right m (a + 16) (a + 20) (u32_bytes (length x.data_of)) pointers (omega arith)
          fields in
      let last : HasBytes m (a + 24) (u32_bytes n) =
        HasBytes-right m (a + 20) (a + 24) (u32_bytes 0) (u32_bytes n) (omega arith) rest in
      (
        HasBytes-left m a x.head (u32_bytes (length x.data_of) ++ pointers) own,
        read_u32-HasBytes m (a + 16) (length x.data_of) c
            (HasBytes-left m (a + 16) (u32_bytes (length x.data_of)) pointers fields),
        read_u32-HasBytes m (a + 20) 0 (omega arith)
            (HasBytes-left m (a + 20) (u32_bytes 0) (u32_bytes n) rest),
        read_u32-HasBytes m (a + 24) n b last,
      )

-- The headers and the data that are written are a debug directory.
pub debug_headers-Directory :
    (m : Memory) (es : List DebugEntry) (a p n : ℕ)
    → All IsEntry es
    → a + n ≡ p
    → size_of_debug_directory * length es ≤ n
    → n + length (debug_data es) < 2 ^ 32
    → HasBytes m a (debug_headers n es)
    → HasBytes m p (debug_data es)
    → Directory m a p es
unfolding Directory debug_headers debug_data
debug_headers-Directory m [] a p n w e l b h d = tt
debug_headers-Directory m (x ∷ es) a p n (w, ws) e l b h d =
    let next : ℕ = n + length x.data_of - size_of_debug_directory in
    let size = length-append x.data_of (debug_data es) in
    let (head, data_size, address, pointer) =
      entry-IsFixed m a n x w (omega (arith, b)) (omega (arith, b, size))
        (HasBytes-left m a (entry m a n x) (debug_headers next es) h) in
    (
      head,
      data_size,
      address,
      omega (arith, pointer, e),
      HasBytes-left m p x.data_of (debug_data es) d,
      debug_headers-Directory m es (a + 28) (p + length x.data_of) next ws (omega (arith, e, l))
          (omega (arith, l)) (omega (arith, b, size, l))
          (HasBytes-right m a (a + 28) (entry m a n x) (debug_headers next es)
            (omega (arith, length-entry m a n x w)) h)
          (HasBytes-right m p (p + length x.data_of) x.data_of (debug_data es) refl d),
    )
