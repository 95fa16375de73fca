-- ===== src/PlateProcessor/Tests.antt =====
-- Two cars, one tracked; the integers from -1 on serve as the weights.
use lpr_refactored.Prelude.{
  lookup, ℕ, ◌≡◌, refl, true, some, List, [], ◌∷◌, arith, Text, codes, text_eq, ℤ, All,
  if◌then◌else◌,
}
use lpr_refactored.Floats.{shifted, shifted-IsSigned}
use lpr_refactored.Plates.{check_plate8}
use lpr_refactored.PlateProcessor.{PlateResult, Config, weighted_consensus, process_all, init}
use lpr_refactored.PlateProcessor.Vote.{mentions, weighted_consensus_lem}
use lpr_refactored.PlateProcessor.Genuine.{came_in, process_all-came_in}
use lpr_refactored.PlateProcessor.Vehicle.{Corrects, process_all-Corrects}

abbrev similarity : Text → Text → ℕ
similarity a b = if text_eq a b then 2 else 1

abbrev config : Config shifted
config = record {
  validator = some check_plate8;
  similarity_threshold = 2;
  min_confidence = 1;
  track_ttl_ms = 5000;
  pass_gap_ms = 1500;
  max_plate_char_diffs = 2;
}

abbrev right : Text
right = codes "22b21957"

abbrev wrong : Text
wrong = codes "32b31957"

abbrev read : Text → ℕ → PlateResult shifted
read t now = record {
  text = t;
  confidence = 8;
  area = 1;
  track_id = ℤ.pos 4;
  timestamp = now;
  gate = codes "in";
  pass_id = [];
}

abbrev untracked : Text → ℕ → PlateResult shifted
untracked t now = record (read t now) { track_id = ℤ.negsuc 0 }

abbrev later : List (PlateResult shifted × Text)
later = (read right 1100, codes "v") ∷ (read right 1200, codes "w") ∷ []

abbrev reads : List (Text × ℕ)
reads = (wrong, 9) ∷ (right, 5) ∷ (right, 7) ∷ []

weighted_consensus_example : mentions (weighted_consensus shifted reads) reads ≡ true
weighted_consensus_example =
    (weighted_consensus_lem shifted shifted-IsSigned (wrong, 9) ((right, 5) ∷ (right, 7) ∷ [])
      (refl, (refl, (refl, tt)))).0

process_all-came_in_example :
    All
      (λ o. came_in shifted similarity config ((read wrong 1000, codes "u") ∷ later) o.text ≡ true)
      (process_all shifted similarity config ((read wrong 1000, codes "u") ∷ later) (init shifted))
process_all-came_in_example =
    process_all-came_in shifted similarity config ((read wrong 1000, codes "u") ∷ later)

process_all-Corrects_example :
    (rest : List (PlateResult shifted)) × (process_all shifted similarity config
        ((read wrong 1000, codes "u") ∷ later)
        (init shifted)
      ≡ record (read wrong 1000) { pass_id = codes "u" } ∷ rest)
    × Corrects shifted similarity config (codes "u") wrong rest
unfolding init check_plate8 lookup
process_all-Corrects_example =
    process_all-Corrects shifted shifted-IsSigned similarity config (ℤ.pos 4) (read wrong 1000)
      (codes "u") later (init shifted) refl refl tt refl refl (omega arith, (omega arith, tt))
      ((refl, refl), ((refl, refl), ((refl, refl), tt)))
