-- ===== src/Capture/Tests.antt =====
-- Two cameras, one of which fails.
use lpr_refactored.Prelude.{
  ℕ, ◌≡◌, refl, true, false, List, [], ◌∷◌, Text, codes, text_eq, lookup, insert, erase,
}
use lpr_refactored.Capture.{GrabStatus, deliver, frame_pair}
use lpr_refactored.Capture.Faults.{grabs, of_camera, watch, grabs-watch}

abbrev round_trip : List (Text × GrabStatus)
round_trip =
    (codes "a", GrabStatus.timeout)
    ∷ (codes "b", GrabStatus.ok)
    ∷ (codes "a", GrabStatus.bad_frame)
    ∷ (codes "b", GrabStatus.device_error)
    ∷ (codes "a", GrabStatus.timeout)
    ∷ []

third_fails : of_camera (codes "a") (grabs round_trip []) ≡ false ∷ false ∷ true ∷ []
unfolding grabs of_camera lookup insert erase text_eq
third_fails = refl

mono_first : deliver {Image = ℕ} 2 ((1, true) ∷ (2, false) ∷ []) ≡ frame_pair 2 1
unfolding deliver
mono_first = refl

grabs-watch_example :
    of_camera (codes "a") (grabs round_trip []) ≡ watch 0 (of_camera (codes "a") round_trip)
unfolding lookup
grabs-watch_example = grabs-watch (codes "a") round_trip []
