-- ===== src/Plates.antt =====
-- The rules about plate texts: `normalizePlateText` and `isIranianStructure` of
-- src/net/PlateSender.cpp, `checkPlate8` and `plateSimilar` of src/process/PlateProcessor.cpp.
-- A text is its bytes; isdigit is that of the C locale.
pub mod Format
pub mod Similar
mod Tests
use lpr_refactored.Prelude.{
  ℕ, suc, ◌+◌, ◌-◌, Bool, true, false, not, ◌&&◌, ◌||◌, Option, none, some, List, [], ◌∷◌, map, ltb,
  leb, ◌==◌, if◌then◌else◌, length, is_empty, all, take, drop, get_or, Text,
}

abbrev pub is_digit : ℕ → Bool
is_digit c = leb b'0' c && leb c b'9'

-- D and S are the diplomatic and service codes, and stay upper case.
unfoldable pub normalize_char : ℕ → ℕ
normalize_char c =
    if c == b'D' || c == b'S' then c else if leb b'A' c && leb c b'Z' then c - b'A' + b'a' else c

unfoldable pub normalize_plate_text : Text → Text
unfolding normalize_char
normalize_plate_text = map normalize_char

abbrev pub is_letter : ℕ → Bool
is_letter c = (leb b'a' c && leb c b'z') || (c == b'D' || c == b'S')

-- Two digits, a letter, five digits.
unfoldable pub is_iranian_structure : Text → Bool
is_iranian_structure t =
    if not (length t == 8)
    then false
    else if not (is_digit (get_or t 0 0))
        || (not (is_digit (get_or t 1 0)) || not (is_letter (get_or t 2 0)))
    then false
    else all is_digit (drop 3 t)

-- Eight characters: digits but for the third, which is none.
unfoldable pub check_plate8 : Text → Bool
check_plate8 s =
    if not (length s == 8) || is_digit (get_or s 2 0)
    then false
    else if not (all is_digit (take 2 s))
    then false
    else all is_digit (drop 3 s)

-- The loop over the positions, `none` for the early `return false`.
unfoldable pub count_diffs : ℕ → ℕ → Text → Text → Option ℕ
count_diffs max diffs (a ∷ s) (b ∷ t) =
    let rest = count_diffs max (suc diffs) s t in
    let same = count_diffs max diffs s t in
    if a == b
    then same
    else if not (is_digit a) || not (is_digit b)
    then none
    else if ltb max (suc diffs)
    then none
    else rest
count_diffs max diffs _ _ = some diffs

abbrev pub in_range : ℕ → Option ℕ → Bool
in_range max none = false
in_range max (some diffs) = ltb 0 diffs && leb diffs max

unfoldable pub plate_similar : Text → Text → ℕ → Bool
unfolding count_diffs
plate_similar a b max =
    if leb max 0 || (is_empty a || not (length a == length b))
    then false
    else in_range max (count_diffs max 0 a b)
