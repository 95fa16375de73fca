-- ===== src/Ctc/Collapse.antt =====
-- The decoding against the definition of CTC: merge the repeats, drop the blanks, read the rest.
use lpr_refactored.Prelude.{
  ℕ, ◌≡◌, refl, not, Option, none, some, List, [], ◌∷◌, arith, ◌==◌, if◌then◌else◌, Text, keep, map,
}
use lpr_refactored.Floats.{Float}
use lpr_refactored.Ctc.{class_to_char, argmax, is_prev, emit, decode_from, ctc_greedy_decode}

-- Each run of equal classes once; the option is the class before.
pub merge : Option ℕ → List ℕ → List ℕ
merge prev [] = []
merge prev (c ∷ cs) = if is_prev c prev then merge (some c) cs else c ∷ merge (some c) cs

-- The characters of the classes that have one.
pub read : Text → ℕ → List ℕ → Text
read alphabet blank [] = []
read alphabet blank (c ∷ cs) = emit (class_to_char alphabet blank c) (read alphabet blank cs)

decode_from-merge :
    (alphabet : Text) (blank : ℕ) (prev : Option ℕ) (cs : List ℕ)
    → decode_from alphabet blank prev cs
      ≡ read alphabet blank (keep (λ c. not (c == blank)) (merge prev cs))
unfolding decode_from read merge
decode_from-merge alphabet blank prev [] = refl
decode_from-merge alphabet blank prev (c ∷ cs) =
    ground (arith, decode_from-merge alphabet blank (some c) cs)

-- The greedy decoding reads what CTC defines: of the best class of each timestep, runs of equal
-- classes are merged first, then the blanks are dropped, and the classes left are read in the
-- alphabet, where a class without a character there gives none.
pub ctc_greedy_decode-merge :
    (F : Float) (alphabet : Text) (blank : ℕ) (rows : List (List F.Num))
    → ctc_greedy_decode F alphabet blank rows
      ≡ read alphabet blank (keep (λ c. not (c == blank)) (merge none (map (argmax F) rows)))
unfolding ctc_greedy_decode
ctc_greedy_decode-merge F alphabet blank rows =
    decode_from-merge alphabet blank none (map (argmax F) rows)
