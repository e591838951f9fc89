-- ===== src/Reader/Map.antt =====
-- JptrcrpMap of Jptrcr/jptrcr/open.c: the sliding window over the file. Each call maps the window
-- of four segments that holds the offset, unless it is mapped already.
pub mod Window
use Prim.Native.Nat.{min}
use ntrace.Base.{
  ℕ, ◌+◌, ◌-◌, ◌*◌, ◌/◌, ◌≤◌, ◌<◌, ◌≡◌, refl, Bool, true, false, ◌&&◌, Option, none, some, arith,
  leb, ◌==◌, if◌then◌else◌, Option-cases,
}
use ntrace.Format.{segment_size}
use ntrace.Reader.{Hr, Result, ok, err, Os, View, Pointer, target}

abbrev pub segments_map_at_once : ℕ
segments_map_at_once = 4

abbrev pub window_size : ℕ
window_size = segment_size * segments_map_at_once

-- How many bytes from `start` on a view holds.
abbrev pub size_to_map : View → ℕ → ℕ
size_to_map v start = min window_size (v.file_size - start)

-- MapViewOfFile, and the reset of the structure if it fails.
map_window : Os → View → ℕ → Result Pointer × View
map_window os v at =
    let index = at / window_size in
    let start = index * window_size in
    elim (os.map_view start (size_to_map v start)) [
      | none ↦ (
        ok (record { view = start; displacement = at - start }),
        record v { mapped = true; offset = start; map_index = index },
      )
      | some error ↦ (err (Hr.win32 error), record v { mapped = false; offset = 0; map_index = 0 })
    ]

-- The current view is unmapped first; if that fails nothing else happens.
remap : Os → View → ℕ → Result Pointer × View
unfolding map_window
remap os v at =
    if v.mapped
    then elim (os.unmap_view v.offset) [
      | none ↦ map_window os v at
      | some error ↦ (err (Hr.win32 error), v)
    ]
    else map_window os v at

-- JptrcrpMap for a file that is open (its other checks are of NULL arguments).
unfoldable pub map_at : Os → View → ℕ → Result Pointer × View
unfolding remap
map_at os v at =
    if leb v.file_size at
    then (err Hr.e_eof, v)
    else if v.mapped && at / window_size == v.map_index
    then (ok (record { view = v.offset; displacement = at - v.offset }), v)
    else remap os v at

-- The window that is recorded is the one that its index names.
pub record IsConsistent (v : View) : Type 0 where
  pub window : v.mapped ≡ true → v.offset ≡ v.map_index * window_size
