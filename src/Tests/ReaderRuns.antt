-- ===== src/Tests/ReaderRuns.antt =====
-- The reader on the small file.
use ntrace.Base.{
  ℕ, ◌<◌, ◌≡◌, ◌≢◌, refl, arith, List, [], ◌∷◌, none, some, All, ◌⊎◌, inl, inr, ltb, ◌==◌, ==_iff,
  true, Bool-cases, ◌↔◌,
}
use ntrace.Base.Bytes.{store}
use ntrace.Base.Table.{assoc_table, assoc_get, assoc_erase}
use ntrace.Reader.Clients.{equals_client}
use ntrace.Format.{
  ClientId, ChunkHeader, chunk_header_at, chunk_header_bytes, file_header_at, file_header_bytes,
}
use ntrace.Format.Layout.{HoldsChunks, IsSound}
use ntrace.Reader.{Hr, is_ok, err}
use ntrace.Reader.Map.{map_at}
use ntrace.Reader.Map.Window.{IsReply, map_at-IsReply, map_at-is_ok}
use ntrace.Reader.Header.{read_file_header, read_file_header-s_ok, IsSupported}
use ntrace.Reader.Inventory.{File, walk}
use ntrace.Reader.Inventory.Chunks.{walk_ends, walk-HoldsChunks}
use ntrace.Reader.Inventory.Registered.{equals_client_iff, walk-Registers, Registers}
use ntrace.Reader.Tables.{close_file, close_file-empties, Covers}
use ntrace.Tests.Data.{
  os, os-MapsViews, clients, modules, around, around-Succeeds, thread, small_file, small_view,
  small_view-IsOn, small, pad_of_8, trace_of_48,
}

map_at-IsReply_example : IsReply small_view 24 (map_at os small_view 24)
map_at-IsReply_example = map_at-IsReply os small_view 24 small_view-IsOn.consistent

map_at-is_ok_example :
    (is_ok (map_at os small_view 24).0 ≡ ltb 24 72)
    × ((24 < 72) ⊎ (map_at os small_view 24 ≡ (err Hr.e_eof, small_view)))
map_at-is_ok_example = map_at-is_ok os small_view 24 (λ a n. refl) (λ a. refl)

read_file_header-s_ok_example :
    ((read_file_header os small_view).0 ≡ Hr.s_ok) ↔ IsSupported (file_header_at small_file 0)
read_file_header-s_ok_example =
    read_file_header-s_ok os small_view (λ a n. refl) (λ a. refl) small_view-IsOn.consistent
      (omega arith)

small-HoldsChunks : HoldsChunks small_file 72 16 (pad_of_8 ∷ trace_of_48 ∷ [])
unfolding chunk_header_at chunk_header_bytes file_header_bytes store
small-HoldsChunks = (omega arith, refl, (omega arith, refl, omega arith))

small-IsSound : All IsSound (pad_of_8 ∷ trace_of_48 ∷ [])
small-IsSound = (
  record { reserved = refl; whole = omega arith; small = omega arith; known = omega arith },
  (record { reserved = refl; whole = omega arith; small = omega arith; known = omega arith }, tt),
)

small_walk :
    (g : File clients modules) × (walk os clients modules around 3 16 small ≡ some (Hr.s_ok, g))
    × Registers os clients modules around around-Succeeds os-MapsViews small_file 72 16
        (pad_of_8 ∷ trace_of_48 ∷ [])
        small
        g
small_walk =
    walk-Registers os clients modules around around-Succeeds os-MapsViews small_file 72 3 16
      (pad_of_8 ∷ trace_of_48 ∷ []) small small_view-IsOn small-HoldsChunks small-IsSound
      (omega arith)

walk_ends_example : walk os clients modules around 57 16 small ≢ none
walk_ends_example =
    walk_ends os clients modules around small_file 72 57 16 small small_view-IsOn (omega arith)

walk-HoldsChunks_example :
    (hs : List ChunkHeader) × HoldsChunks small_file 72 16 hs × All IsSound hs
walk-HoldsChunks_example =
    walk-HoldsChunks os clients modules around small_file 72 3 16 small small_walk.0 small_view-IsOn
      small_walk.1

-- The file with its client and one module, as the inventory leaves it.
abbrev full : File clients modules
full = record small {
  clients_table = (clients.put clients.empty thread (24 ∷ [])).0;
  modules_table =
      (modules.put modules.empty 4096 (record {
        information = record { load_address = 4096; size = 512 };
        path = 97 ∷ [];
        name = 97 ∷ [];
        symbols_loaded = true;
      })).0;
}

clients-Covers : Covers clients full.clients_table (clients.entries full.clients_table)
unfolding assoc_table assoc_get assoc_erase
clients-Covers k = elim (Bool-cases (equals_client thread k)) [
  | inl e ↦ inr (inl ((equals_client_iff thread k).0 e))
  | inr e ↦ inl (rw e refl)
]

modules-Covers : Covers modules full.modules_table (modules.entries full.modules_table)
unfolding assoc_table assoc_get assoc_erase
modules-Covers k = elim (Bool-cases (4096 == k)) [
  | inl e ↦ inr (inl ((==_iff 4096 k).0 e))
  | inr e ↦ inl (rw e refl)
]

close_file-empties_example :
    ((c : ClientId) → clients.get (close_file clients modules full).clients_table c ≡ none)
    × ((a : ℕ) → modules.get (close_file clients modules full).modules_table a ≡ none)
close_file-empties_example = close_file-empties clients modules full clients-Covers modules-Covers
