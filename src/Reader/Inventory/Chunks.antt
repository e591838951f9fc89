-- ===== src/Reader/Inventory/Chunks.antt =====
-- What the inventory accepts, and that it ends.
use ntrace.Base.{ℕ, zero, suc, ◌+◌, ◌-◌, ◌<◌, ◌≡◌, ◌∙◌, ◌≢◌, some, none, List, [], ◌∷◌, arith, All}
use ntrace.Base.Bytes.{Memory}
use ntrace.Base.Table.{Hashtable}
use ntrace.Format.{ClientId, ChunkHeader, chunk_header_at}
use ntrace.Format.Layout.{HoldsChunks, IsSound}
use ntrace.Reader.{Hr, ok, err, Os, View, Pointer, target}
use ntrace.Reader.Map.{map_at}
use ntrace.Reader.Map.Window.{Maps, mapped, ended, failed, map_at-cases, IsOn}
use ntrace.Reader.Modules.{LoadedModule}
use ntrace.Reader.Inventory.{File, Surroundings, check_chunk, take_chunk, visit, walk}

module _ (os : Os) (clients : Hashtable ClientId (List ℕ)) (modules : Hashtable ℕ LoadedModule)
    (around : Surroundings) where
  -- A chunk that is taken in is sound, and leaves the view.
  pub visit-IsSound :
      (a offset : ℕ) (f : File clients modules)
      → (visit os clients modules around a offset f).0 ≡ Hr.s_ok
      → IsSound (chunk_header_at f.view.content a)
  unfolding visit check_chunk take_chunk
  visit-IsSound a offset f e = ground arith

  pub view-visit :
      (a offset : ℕ) (f : File clients modules)
      → (visit os clients modules around a offset f).1.view ≡ f.view
  unfolding visit take_chunk
  view-visit a offset f = ground arith

  pub walk-mapped :
      (fuel offset : ℕ) (f : File clients modules) (w : View) (p : Pointer)
      → map_at os f.view offset ≡ (ok p, w)
      → let r = visit os clients modules around (target p) offset (record f { view = w }) in
        walk os clients modules around (suc fuel) offset f ≡ elim r.0 [
          | Hr.s_ok ↦
              walk os clients modules around fuel
                (offset + (chunk_header_at w.content (target p)).size)
                r.1
          | e ↦ some (e, r.1)
        ]
  unfolding walk
  walk-mapped fuel offset f w p e = ground arith

  pub walk-eof :
      (fuel offset : ℕ) (f : File clients modules)
      → map_at os f.view offset ≡ (err Hr.e_eof, f.view)
      → walk os clients modules around (suc fuel) offset f ≡ some (Hr.s_ok, f)
  unfolding walk
  walk-eof fuel offset f e = ground arith

  walk-win32 :
      (fuel offset x : ℕ) (f : File clients modules) (w : View)
      → map_at os f.view offset ≡ (err (Hr.win32 x), w)
      → walk os clients modules around (suc fuel) offset f
        ≡ some (Hr.win32 x, record f { view = w })
  unfolding walk
  walk-win32 fuel offset x f w h = ground arith

  out_of_fuel :
      (offset : ℕ) (f g : File clients modules)
      → walk os clients modules around zero offset f ≢ some (Hr.s_ok, g)
  unfolding walk
  out_of_fuel offset f g e = cc

  accepted :
      (fuel offset : ℕ) (f g : File clients modules) (w : View) (p : Pointer)
      → let r = visit os clients modules around (target p) offset (record f { view = w }) in
        walk os clients modules around (suc fuel) offset f ≡ elim r.0 [
          | Hr.s_ok ↦
              walk os clients modules around fuel
                (offset + (chunk_header_at w.content (target p)).size)
                r.1
          | e ↦ some (e, r.1)
        ]
        → walk os clients modules around (suc fuel) offset f ≡ some (Hr.s_ok, g)
        → (r.0 ≡ Hr.s_ok)
          × (walk os clients modules around fuel
                (offset + (chunk_header_at w.content (target p)).size)
                r.1
              ≡ some (Hr.s_ok, g))
  accepted fuel offset f g w p e h = ground arith

  module _ (m : Memory) (size : ℕ) where
    -- The view behind a round of the loop.
    pub IsOn-visit :
        (f : File clients modules) (p : Pointer) (w : View) (offset : ℕ)
        → IsOn m size f.view
        → Maps f.view offset p w
        → IsOn m size
            (visit os clients modules around (target p) offset (record f { view = w })).1.view
    IsOn-visit f p w offset i r =
        rw (view-visit (target p) offset (record f { view = w })) (record {
          content = r.same.content ∙ i.content;
          file_size = r.same.file_size ∙ i.file_size;
          consistent = r.consistent;
        })

    -- However the system answers, and whatever the file holds, the inventory ends within as many
    -- rounds as there are bytes from its offset to the end of the file, and one more.
    pub walk_ends :
        (fuel offset : ℕ) (f : File clients modules)
        → IsOn m size f.view
        → size - offset < fuel
        → walk os clients modules around fuel offset f ≢ none
    walk_ends zero offset f i h = elim h [ ]
    walk_ends (suc fuel) offset f i h = elim (map_at-cases os f.view offset i.consistent) [
      | ended e x ↦ rw (walk-eof fuel offset f e) (λ q. cc)
      | failed x w e ↦ rw (walk-win32 fuel offset x f w e) (λ q. cc)
      | mapped p w e r ↦
          let g : File clients modules = record f { view = w } in
          let v = visit os clients modules around (target p) offset g in
          rw (walk-mapped fuel offset f w p e) (
            ground (
              arith,
              visit-IsSound (target p) offset g,
              walk_ends fuel (offset + (chunk_header_at w.content (target p)).size) v.1
                  (IsOn-visit f p w offset i r),
              r.inside,
              i.file_size,
            ))
    ]

    -- What the inventory accepts is a file whose chunks follow one another without a gap from its
    -- offset to the end of the file, each with a header that the format allows.
    pub walk-HoldsChunks :
        (fuel offset : ℕ) (f g : File clients modules)
        → IsOn m size f.view
        → walk os clients modules around fuel offset f ≡ some (Hr.s_ok, g)
        → (hs : List ChunkHeader) × HoldsChunks m size offset hs × All IsSound hs
    walk-HoldsChunks zero offset f g i h = absurd (out_of_fuel offset f g h)
    walk-HoldsChunks (suc fuel) offset f g i h = elim (map_at-cases os f.view offset i.consistent) [
      | ended e x ↦ ([], omega (arith, i.file_size), tt)
      | failed x w e ↦ absurd (ground (arith, walk-win32 fuel offset x f w e))
      | mapped p w e r ↦
          let g' : File clients modules = record f { view = w } in
          let v = visit os clients modules around (target p) offset g' in
          let t = accepted fuel offset f g w p (walk-mapped fuel offset f w p e) h in
          let (hs, c, s) =
            walk-HoldsChunks fuel (offset + (chunk_header_at w.content (target p)).size) v.1 g
              (IsOn-visit f p w offset i r) t.1 in
          let q : chunk_header_at m offset ≡ chunk_header_at w.content (target p) =
            rw (r.refers, r.same.content, i.content) in
          (
            chunk_header_at w.content (target p) ∷ hs,
            (omega (arith, r.inside, i.file_size), q, c),
            (visit-IsSound (target p) offset g' t.0, s),
          )
    ]
