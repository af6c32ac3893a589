-- ===== src/Log.antt =====
-- LogManager::AppendDetailInfo of ServerCore/Utill/LogManager.cpp: the values in the places of the
-- percent signs of a format. A string is the list of its bytes.
pub mod Text
mod Tests
use mmoserver.Shared.{
  ℕ, ◌≡◌, refl, List, [], ◌∷◌, ◌++◌, ◌==◌, if◌then◌else◌, arith, append_assoc, append-nil,
}
use mmoserver.Families.{occurrences}

-- What `append` takes of a value, which is converted to a `const char *`: the bytes before the first
-- one that is 0.
abbrev pub c_str : List ℕ → List ℕ
c_str [] = []
c_str (c ∷ text) = if c == 0 then [] else c ∷ c_str text

-- The loop, over the rest of the format and of the values. It ends at a percent sign that has no
-- value left.
unfoldable pub append_detail_info : List ℕ → List ℕ → List (List ℕ) → List ℕ
append_detail_info result [] values = result
append_detail_info result (c ∷ fmt) [] =
    let copied = append_detail_info (result ++ c ∷ []) fmt [] in
    if c == b'%' then result else copied
append_detail_info result (c ∷ fmt) (v ∷ values) =
    let copied = append_detail_info (result ++ c ∷ []) fmt (v ∷ values) in
    let filled = append_detail_info (result ++ c_str v) fmt values in
    if c == b'%' then filled else copied

-- A format of pieces with a percent sign between each two.
abbrev pub join : List ℕ → List (List ℕ) → List ℕ
join p [] = p
join p (q ∷ qs) = p ++ b'%' ∷ join q qs

-- The pieces with the values between them, each up to a byte that is 0, as far as the first place that
-- has no value.
abbrev pub interleave : List ℕ → List (List ℕ) → List (List ℕ) → List ℕ
interleave p [] values = p
interleave p (q ∷ qs) [] = p
interleave p (q ∷ qs) (v ∷ values) = p ++ (c_str v ++ interleave q qs values)

-- No piece has a percent sign.
abbrev pub ArePlain : List ℕ → List (List ℕ) → Type 0
ArePlain p [] = occurrences b'%' p ≡ 0
ArePlain p (q ∷ qs) = (occurrences b'%' p ≡ 0) × ArePlain q qs

-- A piece is copied.
copy_piece :
    (result p fmt : List ℕ) (values : List (List ℕ))
    → occurrences b'%' p ≡ 0
    → append_detail_info result (p ++ fmt) values ≡ append_detail_info (result ++ p) fmt values
unfolding append_detail_info
copy_piece result [] fmt values h = rw (append-nil result) refl
copy_piece result (c ∷ p) fmt [] h =
    ground (arith, copy_piece (result ++ c ∷ []) p fmt [], append_assoc result (c ∷ []) p)
copy_piece result (c ∷ p) fmt (v ∷ values) h =
    ground (arith, copy_piece (result ++ c ∷ []) p fmt (v ∷ values), append_assoc result (c ∷ []) p)

-- On a format of pieces without a percent sign, with such signs between them, the pieces are appended
-- with the values between them, each up to a byte that is 0, as far as the first place that has no
-- value.
pub append_detail_info_lem :
    (result p : List ℕ) (qs values : List (List ℕ))
    → ArePlain p qs
    → append_detail_info result (join p qs) values ≡ result ++ interleave p qs values
unfolding append_detail_info
append_detail_info_lem result p [] values h =
    ground (arith, copy_piece result p [] values h, append-nil p)
append_detail_info_lem result p (q ∷ qs) [] h =
    ground (arith, copy_piece result p (b'%' ∷ join q qs) [] h.0)
append_detail_info_lem result p (q ∷ qs) (v ∷ values) h = ground (
  arith,
  copy_piece result p (b'%' ∷ join q qs) (v ∷ values) h.0,
  append_detail_info_lem ((result ++ p) ++ c_str v) q qs values h.1,
  append_assoc result p (c_str v ++ interleave q qs values),
  append_assoc (result ++ p) (c_str v) (interleave q qs values),
)
