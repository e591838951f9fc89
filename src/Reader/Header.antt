-- ===== src/Reader/Header.antt =====
-- JptrcrsReadFileHeader of Jptrcr/jptrcr/open.c.
use ntrace.Base.{ℕ, ◌/◌, ◌%◌, ◌<◌, ◌≡◌, ◌⊎◌, ◌↔◌, not, ◌||◌, none, arith, ◌==◌, if◌then◌else◌}
use ntrace.Format.{FileHeader, file_header_at, header_signature, header_version}
use ntrace.Reader.{Hr, ok, err, Os, View, Pointer, target}
use ntrace.Reader.Map.{map_at, IsConsistent}
use ntrace.Reader.Map.Window.{map_at-Maps}

-- The tests of one header. `c % 4` is `c & 3`, `c / 4 % 4` is `( c & 12 ) / 4`, and `c / 8 % 2` is
-- the bit of JPTRC_CHARACTERISTIC_64BIT.
pub check_header : FileHeader → Hr
check_header h =
    let c = h.characteristics in
    if not (h.signature == header_signature)
    then Hr.e_invalid_signature
    else if not (h.version == header_version)
    then Hr.e_invalid_version
    else if c % 4 == 3 || (c % 4 == 0 || (c / 4 % 4 == 0 || c / 4 % 4 == 3))
    then Hr.e_invalid_characteristics
    else if c / 8 % 2 == 1
    then Hr.e_bitness
    else Hr.s_ok

unfoldable pub read_file_header : Os → View → Hr × View
unfolding check_header
read_file_header os v =
    let (mapping, w) = map_at os v 0 in
    elim mapping [ ok p ↦ (check_header (file_header_at w.content (target p)), w) | err e ↦ (e, w) ]

-- A header of this version, with one kind of timestamps and marked as 32 bit only.
pub record IsSupported (h : FileHeader) : Type 0 where
  pub signature : h.signature ≡ header_signature
  pub version : h.version ≡ header_version
  pub timestamp : (h.characteristics % 4 ≡ 1) ⊎ (h.characteristics % 4 ≡ 2)
  pub bitness : h.characteristics / 4 % 4 ≡ 1

pub check_header-s_ok : (h : FileHeader) → (check_header h ≡ Hr.s_ok) ↔ IsSupported h
unfolding check_header
check_header-s_ok h = (λ e. ground arith, λ s. ground arith)

pub read_file_header-mapped :
    (os : Os) (v w : View) (p : Pointer)
    → map_at os v 0 ≡ (ok p, w)
    → read_file_header os v ≡ (check_header (file_header_at w.content (target p)), w)
unfolding read_file_header
read_file_header-mapped os v w p e = ground arith

-- While the system maps views, the header of a file that is not empty is accepted exactly if it is
-- of the supported version, names one kind of timestamps, and is marked as 32 bit and not 64 bit.
pub read_file_header-s_ok :
    (os : Os) (v : View)
    → ((a n : ℕ) → os.map_view a n ≡ none)
    → ((a : ℕ) → os.unmap_view a ≡ none)
    → IsConsistent v
    → 0 < v.file_size
    → ((read_file_header os v).0 ≡ Hr.s_ok) ↔ IsSupported (file_header_at v.content 0)
read_file_header-s_ok os v m u c h =
    let (p, w, e, r) = map_at-Maps os v 0 m u c h in
    rw (read_file_header-mapped os v w p e, r.refers, r.same.content)
      (check_header-s_ok (file_header_at v.content 0))
