-- ===== src/Ctc/Tests.antt =====
-- Seven timesteps over the classes blank, a, b.
use lpr_refactored.Prelude.{ℕ, ◌≡◌, refl, not, none, List, [], ◌∷◌, map, keep, ◌==◌, codes}
use lpr_refactored.Floats.{naturals}
use lpr_refactored.Ctc.{argmax, ctc_greedy_decode}
use lpr_refactored.Ctc.Collapse.{merge, read, ctc_greedy_decode-merge}

abbrev a_row : List ℕ
a_row = 1 ∷ 7 ∷ 2 ∷ []

abbrev b_row : List ℕ
b_row = 1 ∷ 2 ∷ 7 ∷ []

abbrev blank_row : List ℕ
blank_row = 9 ∷ 2 ∷ 7 ∷ []

abbrev rows : List (List ℕ)
rows = a_row ∷ a_row ∷ blank_row ∷ a_row ∷ b_row ∷ b_row ∷ []

ctc_greedy_decode-merge_example :
    ctc_greedy_decode naturals (codes "ab") 0 rows
    ≡ read (codes "ab") 0 (keep (λ c. not (c == 0)) (merge none (map (argmax naturals) rows)))
ctc_greedy_decode-merge_example = ctc_greedy_decode-merge naturals (codes "ab") 0 rows

decoded : ctc_greedy_decode naturals (codes "ab") 0 rows ≡ codes "aab"
unfolding ctc_greedy_decode
decoded = refl
