-- ===== src/Plates/Similar.antt =====
-- The plate-structure rule against what its comment says.
use lpr_refactored.Prelude.{
  ℕ, suc, ◌+◌, ◌≡◌, refl, Bool, true, ◌&&◌, ◌||◌, [], ◌∷◌, arith, length, Text, ltb, leb, ◌==◌,
  if◌then◌else◌, none, some,
}
use lpr_refactored.Plates.{is_digit, count_diffs, plate_similar}

-- How many positions differ.
unfoldable pub differing : Text → Text → ℕ
differing (a ∷ s) (b ∷ t) = if a == b then differing s t else suc (differing s t)
differing _ _ = 0

-- Every position that differs has a digit on both sides.
unfoldable pub digits_differ : Text → Text → Bool
digits_differ (a ∷ s) (b ∷ t) = (a == b || (is_digit a && is_digit b)) && digits_differ s t
digits_differ _ _ = true

count_diffs_lem :
    (max n : ℕ) (a b : Text)
    → leb n max ≡ true
    → count_diffs max n a b ≡ (
        if digits_differ a b && leb (n + differing a b) max then some (n + differing a b) else none)
unfolding count_diffs digits_differ differing
count_diffs_lem max n [] b h = ground arith
count_diffs_lem max n (x ∷ a) [] h = ground arith
count_diffs_lem max n (x ∷ a) (y ∷ b) h =
    ground (arith, count_diffs_lem max n a b, count_diffs_lem max (suc n) a b)

-- Two plates are similar exactly when they have one length, differ in at least one position and at
-- most `max`, and every position where they differ is a digit on both sides (so the letter slot is
-- the same).
pub plate_similar_lem :
    (a b : Text) (max : ℕ)
    → plate_similar a b max
      ≡ length a == length b
        && (digits_differ a b && (ltb 0 (differing a b) && leb (differing a b) max))
unfolding plate_similar differing
plate_similar_lem [] b max = ground arith
plate_similar_lem (x ∷ a) b max = ground (arith, count_diffs_lem max 0 (x ∷ a) b)

differing_comm : (a b : Text) → differing a b ≡ differing b a
unfolding differing
differing_comm [] [] = refl
differing_comm [] (y ∷ b) = refl
differing_comm (x ∷ a) [] = refl
differing_comm (x ∷ a) (y ∷ b) = ground (arith, differing_comm a b)

digits_differ_comm : (a b : Text) → digits_differ a b ≡ digits_differ b a
unfolding digits_differ
digits_differ_comm [] [] = refl
digits_differ_comm [] (y ∷ b) = refl
digits_differ_comm (x ∷ a) [] = refl
digits_differ_comm (x ∷ a) (y ∷ b) = ground (arith, digits_differ_comm a b)

-- The rule does not depend on which of the two plates was read first.
pub plate_similar_comm : (a b : Text) (max : ℕ) → plate_similar a b max ≡ plate_similar b a max
plate_similar_comm a b max = ground (
  arith,
  plate_similar_lem a b max,
  plate_similar_lem b a max,
  differing_comm a b,
  digits_differ_comm a b,
)
