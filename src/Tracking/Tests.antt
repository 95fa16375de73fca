-- ===== src/Tracking/Tests.antt =====
-- Boxes on a line, as numbers: the overlap of two is the smaller, of areas that are the numbers.
use lpr_refactored.Prelude.{ℕ, min, none, List, [], ◌∷◌}
use lpr_refactored.Floats.{naturals}
use lpr_refactored.Tracking.{TrackedObject, bind}
use lpr_refactored.Tracking.Best.{IsBest, bind-IsBest}

abbrev length_of : ℕ → ℕ
length_of b = b

abbrev tracked : List (TrackedObject naturals length_of min)
tracked = record { track_id = 7; box = 4 } ∷ record { track_id = 8; box = 9 } ∷ []

bind-IsBest_example :
    IsBest naturals length_of min 9 tracked 1 none (bind naturals length_of min 9 tracked 1 none)
bind-IsBest_example = bind-IsBest naturals length_of min 9 tracked 1 none
