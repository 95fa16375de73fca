-- ===== src/Ctc.antt =====
-- `ctcGreedyDecode` of src/detect/CtcDecoder.cpp, on the classes: `probability` rows are compared
-- as floats, and the confidence, an average of logarithms, is left out. A row is not empty.
pub mod Collapse
mod Tests
use lpr_refactored.Prelude.{
  ℕ, suc, ◌-◌, Bool, true, false, not, ◌&&◌, Option, none, some, List, [], ◌∷◌, ltb, ◌==◌,
  if◌then◌else◌, get_elem?, Text, map,
}
use lpr_refactored.Floats.{Float}

-- `alphabet[idx]` is a signed char here, and a negative one is taken for no character.
abbrev pub as_char : Option ℕ → Option ℕ
as_char none = none
as_char (some ch) = if ltb ch 128 then some ch else none

-- The character of a class, `none` for the blank and past the alphabet.
pub class_to_char : Text → ℕ → ℕ → Option ℕ
class_to_char alphabet blank c =
    if c == blank
    then none
    else if ltb c blank
    then as_char (get_elem? alphabet c)
    else as_char (get_elem? alphabet (c - 1))

-- The first index of the largest entry.
module _ (F : Float) where
  pub argmax_from : ℕ → List F.Num → ℕ → F.Num → ℕ
  argmax_from c [] amax mx = amax
  argmax_from c (v ∷ row) amax mx =
      argmax_from (suc c) row (if F.lt mx v then c else amax) (if F.lt mx v then v else mx)

  pub argmax : List F.Num → ℕ
  unfolding argmax_from
  argmax [] = 0
  argmax (v ∷ row) = argmax_from 1 row 0 v

abbrev pub is_prev : ℕ → Option ℕ → Bool
is_prev c none = false
is_prev c (some p) = c == p

abbrev pub emit : Option ℕ → Text → Text
emit none t = t
emit (some ch) t = ch ∷ t

-- The loop over the timesteps, by their classes; `prev` is -1, here `none`, at the start.
pub decode_from : Text → ℕ → Option ℕ → List ℕ → Text
unfolding class_to_char
decode_from alphabet blank prev [] = []
decode_from alphabet blank prev (c ∷ cs) =
    let rest = decode_from alphabet blank (some c) cs in
    if not (c == blank) && not (is_prev c prev)
    then emit (class_to_char alphabet blank c) rest
    else rest

pub ctc_greedy_decode : (F : Float) → Text → ℕ → List (List F.Num) → Text
unfolding decode_from argmax
ctc_greedy_decode F alphabet blank rows = decode_from alphabet blank none (map (argmax F) rows)
