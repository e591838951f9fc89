-- ===== src/Reader/Map/Window.antt =====
-- What JptrcrpMap promises of the pointer that it returns.
use Prim.Native.Nat.{min}
use ntrace.Base.{
  ℕ, ◌+◌, ◌*◌, ◌/◌, ◌≤◌, ◌<◌, ◌≡◌, refl, true, none, arith, ◌⊎◌, inl, inr, ltb, ltb→lt,
  Option-cases, Bool-cases,
}
use ntrace.Base.Bytes.{Memory}
use ntrace.Format.{segment_size}
use ntrace.Reader.{is_ok, Hr, Result, ok, err, Os, View, Pointer, target}
use ntrace.Reader.Map.{window_size, size_to_map, map_window, remap, map_at, IsConsistent}

-- The same file seen through another window.
pub record SameFile (v w : View) : Type 0 where
  pub content : w.content ≡ v.content
  pub file_size : w.file_size ≡ v.file_size

-- What a caller may rely on: the pointer refers to the offset asked for, and the view holds the
-- whole segment around it, as far as the file goes.
pub record Maps (v : View) (at : ℕ) (p : Pointer) (w : View) : Type 0 where
  pub inside : at < v.file_size
  pub refers : target p ≡ at
  pub starts : p.view ≤ at / segment_size * segment_size
  pub ends :
      min ((at / segment_size + 1) * segment_size) v.file_size ≤ p.view + size_to_map v p.view
  pub same : SameFile v w
  pub consistent : IsConsistent w
  pub current : w.mapped ≡ true

abbrev pub IsReply : View → ℕ → Result Pointer × View → Type 0
IsReply v at (ok p, w) = Maps v at p w
IsReply v at (err e, w) = SameFile v w × IsConsistent w

map_window-IsReply :
    (os : Os) (v : View) (at : ℕ) → at < v.file_size → IsReply v at (map_window os v at)
unfolding map_window
map_window-IsReply os v at h =
    elim (Option-cases (
      os.map_view (at / window_size * window_size)
        (size_to_map v (at / window_size * window_size)))) [
          | inl e ↦ rw (e, map_window) (ground arith)
          | inr (x, e) ↦ rw (e, map_window) (ground arith)
        ]

remap-IsReply :
    (os : Os) (v : View) (at : ℕ) → IsConsistent v → at < v.file_size → IsReply v at (remap os v at)
unfolding remap
remap-IsReply os v at c h = ground (arith, map_window-IsReply os v at h)

-- Whatever JptrcrpMap does, with a consistent window: a pointer that it returns refers to the
-- offset asked for, and the view that is mapped then holds the whole segment around that offset, as
-- far as the file goes; a failure leaves the file and a consistent window.
pub map_at-IsReply : (os : Os) (v : View) (at : ℕ) → IsConsistent v → IsReply v at (map_at os v at)
unfolding map_at
map_at-IsReply os v at c = ground (arith, remap-IsReply os v at c)

pub map_at-ends :
    (os : Os) (v : View) (at : ℕ)
    → ((a n : ℕ) → os.map_view a n ≡ none)
    → ((a : ℕ) → os.unmap_view a ≡ none)
    → (is_ok (map_at os v at).0 ≡ ltb at v.file_size)
      × (v.file_size ≤ at → map_at os v at ≡ (err Hr.e_eof, v))
unfolding map_at remap map_window
map_at-ends os v at m u = ground (
  arith,
  m (at / window_size * window_size) (size_to_map v (at / window_size * window_size)),
  u v.offset,
)

-- While the system maps and unmaps views, JptrcrpMap succeeds for exactly the offsets inside the
-- file; for any other it reports the end of the file and leaves the window as it was.
pub map_at-is_ok :
    (os : Os) (v : View) (at : ℕ)
    → ((a n : ℕ) → os.map_view a n ≡ none)
    → ((a : ℕ) → os.unmap_view a ≡ none)
    → (is_ok (map_at os v at).0 ≡ ltb at v.file_size)
      × ((at < v.file_size) ⊎ (map_at os v at ≡ (err Hr.e_eof, v)))
map_at-is_ok os v at m u =
    let e = map_at-ends os v at m u in
    (
      e.0,
      elim (Bool-cases (ltb at v.file_size)) [
        | inl l ↦ inl (ltb→lt at v.file_size l)
        | inr g ↦ inr (e.1 (ground arith))
      ],
    )

-- While the system maps and unmaps views, each offset inside the file is mapped.
pub map_at-Maps :
    (os : Os) (v : View) (at : ℕ)
    → ((a n : ℕ) → os.map_view a n ≡ none)
    → ((a : ℕ) → os.unmap_view a ≡ none)
    → IsConsistent v
    → at < v.file_size
    → (p : Pointer) × (w : View) × (map_at os v at ≡ (ok p, w)) × Maps v at p w
map_at-Maps os v at m u c h =
    go (map_at os v at) refl (map_at-ends os v at m u).0 (map_at-IsReply os v at c)
  where
    go :
        (r : Result Pointer × View)
        → map_at os v at ≡ r
        → is_ok r.0 ≡ ltb at v.file_size
        → IsReply v at r
        → (p : Pointer) × (w : View) × (map_at os v at ≡ (ok p, w)) × Maps v at p w
    go (ok p, w) e i r = (p, w, e, r)
    go (err x, w) e i r = absurd (ground arith)

-- The three ways in which JptrcrpMap returns: with a pointer, at the end of the file, or with an
-- error of the system.
pub data MapCases (os : Os) (v : View) (at : ℕ) : Type 0 where
  mapped : (p : Pointer) (w : View) → map_at os v at ≡ (ok p, w) → Maps v at p w → MapCases os v at
  ended : map_at os v at ≡ (err Hr.e_eof, v) → v.file_size ≤ at → MapCases os v at
  failed : (x : ℕ) (w : View) → map_at os v at ≡ (err (Hr.win32 x), w) → MapCases os v at

map_at-errors :
    (os : Os) (v w : View) (at : ℕ) (e : Hr)
    → map_at os v at ≡ (err e, w)
    → ((e ≡ Hr.e_eof) × (w ≡ v) × (v.file_size ≤ at)) ⊎ ((x : ℕ) × (e ≡ Hr.win32 x))
unfolding map_at remap map_window
map_at-errors os v w at e h = ground arith

pub map_at-cases : (os : Os) (v : View) (at : ℕ) → IsConsistent v → MapCases os v at
map_at-cases os v at c = go (map_at os v at) refl (map_at-IsReply os v at c)
  where
    go : (r : Result Pointer × View) → map_at os v at ≡ r → IsReply v at r → MapCases os v at
    go (ok p, w) e r = mapped p w e r
    go (err x, w) e r = elim (map_at-errors os v w at x e) [
      | inl (a, b, d) ↦ ended (ground arith) d
      | inr (y, a) ↦ failed y w (ground arith)
    ]

-- The system maps and unmaps views.
abbrev pub MapsViews : Os → Type 0
MapsViews os = ((a n : ℕ) → os.map_view a n ≡ none) × ((a : ℕ) → os.unmap_view a ≡ none)

-- A window on the file that holds these bytes.
pub record IsOn (m : Memory) (size : ℕ) (v : View) : Type 0 where
  pub content : v.content ≡ m
  pub file_size : v.file_size ≡ size
  pub consistent : IsConsistent v
