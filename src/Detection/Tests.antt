-- ===== src/Detection/Tests.antt =====
-- One gate: a plate held for its direction, freed, and corrected.
use lpr_refactored.Prelude.{
  ℕ, ◌≡◌, ◌≤◌, refl, true, false, Option, none, some, List, [], ◌∷◌, arith, if◌then◌else◌, Text,
  codes, text_eq, ℤ, lookup, insert, inl, inr, ◌⊎◌, Dict,
}
use lpr_refactored.Floats.{shifted}
use lpr_refactored.Sender.{PlateItem}
use lpr_refactored.Detection.{PassState, new_pass, Config, Read, on_read, no_rect}
use lpr_refactored.Detection.Held.{freed, Yields, on_read_held}
use lpr_refactored.Detection.Protocol.{run}
use lpr_refactored.Detection.Worker.{pass_or_new, process_reads}
use lpr_refactored.Detection.Worker.Gates.{Refines, process_reads-Refines}

abbrev similarity : Text → Text → ℕ
similarity a b = if text_eq a b then 2 else 1

abbrev config : Config shifted
config = record { direction_enable = true; hold = 3; pass_gap_ms = 5000; pass_plate_similarity = 2 }

abbrev gate : Text
gate = codes "in"

abbrev item : Text → PlateItem
item t = record {
  text = t;
  confidence = 90;
  box = no_rect;
  vehicle_box = no_rect;
  track_id = ℤ.negsuc 0;
  direction = 0;
  pass_id = [];
  gate = gate;
  force_send = false;
}

abbrev car : Text
car = codes "22b21957"

-- The first read is kept, the others are dropped as repeats.
abbrev kept_read : Read shifted
kept_read = record {
  text = car;
  kept = some (item car);
  uuid = codes "u";
  now = 1000;
  phys = 0;
  sightings = 1;
}

abbrev repeat : ℕ → ℕ → ℕ → Read shifted
repeat now phys sightings = record {
  text = car;
  kept = none;
  uuid = codes "v";
  now = now;
  phys = phys;
  sightings = sightings;
}

abbrev started : PassState
started = record new_pass { pass_id = codes "u"; text = car; last_seen_ms = 900 }

abbrev holding : PassState
holding = record started { pending = some (item car); pending_since = 1 }

on_read_held_example :
    let result : PassState × List PlateItem =
      on_read shifted similarity config gate (repeat 1100 1 2) holding in
    ((◌≡◌ {A = Option PlateItem} none none)
      × (((result.0.pending ≡ some (item car)) × (result.1 ≡ []))
          ⊎ ((result.0.pending ≡ none)
              × (result.1
                  ≡ record (item car) {
                    direction = freed shifted similarity config (repeat 1100 1 2) holding;
                  }
                    ∷ []))))
    ⊎ ((p : PlateItem) × (none ≡ some p)
        × Yields shifted similarity config (repeat 1100 1 2) p holding (item car) result)
on_read_held_example =
    on_read_held shifted similarity config gate (repeat 1100 1 2) holding (item car)
      (record { waiting = λ h. refl }) refl

abbrev reads : List (Read shifted)
reads = kept_read ∷ repeat 1100 0 2 ∷ repeat 1200 1 3 ∷ repeat 1300 2 4 ∷ []

abbrev passes : Dict PassState
passes = (gate, started) ∷ (codes "out", holding) ∷ []

process_reads-Refines_example :
    Refines shifted similarity config gate
      (process_reads shifted similarity config gate (kept_read ∷ []) passes)
      (run shifted similarity config gate (kept_read ∷ []) (pass_or_new (lookup gate passes)))
unfolding lookup text_eq lpr_refactored.Prelude.contains
process_reads-Refines_example =
    process_reads-Refines shifted similarity config gate 1000 (kept_read ∷ []) passes (refl, tt)
      (refl, (refl, tt)) (inl (omega arith))
