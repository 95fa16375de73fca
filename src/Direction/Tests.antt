-- ===== src/Direction/Tests.antt =====
-- A plate that grows over four sightings; the natural numbers serve as pixels.
use lpr_refactored.Prelude.{◌≡◌, refl, true, false, List, [], ◌∷◌}
use lpr_refactored.Floats.{naturals}
use lpr_refactored.Direction.{unknown, approaching, Config, Track, new_track}
use lpr_refactored.Direction.Events.{Sighting, events, InPass, Corrects, events-Corrects}

abbrev config : Config naturals
config = record {
  min_sightings = 2;
  min_growth_ratio = 2;
  track_gap_ms = 3000;
  cooldown_ms = 8000;
  require_y_agree = false;
  min_y_shift_px = 8;
  window = 1;
  trend_min_sightings = 6;
  min_trend_delta_px = 5;
  confirm_sightings = 8;
  confirm_agreeing = 2;
  peak_min_spread = 2;
  peak_bias = 0;
  receding_bias = 1;
  receding_min_sightings = 0;
  exit_peak_guard_ratio = 1;
}

abbrev growing : List (Sighting naturals config)
growing = (10, 0, 1000) ∷ (25, 0, 1100) ∷ (40, 0, 1200) ∷ (60, 0, 1300) ∷ []

growing-events : events naturals config growing (new_track naturals) ≡ approaching ∷ []
unfolding events
growing-events = refl

events-Corrects_example :
    Corrects unknown (events naturals config growing (new_track naturals))
    × (false ≡ true → events naturals config growing (new_track naturals) ≡ [])
unfolding InPass
events-Corrects_example =
    events-Corrects naturals config growing (new_track naturals) (refl, (refl, (refl, (refl, tt))))

abbrev leaving : Track naturals
leaving = record (new_track naturals) { sizes = 60 ∷ 40 ∷ 20 ∷ 10 ∷ []; ys = 0 ∷ 0 ∷ 0 ∷ 0 ∷ [] }
