-- ===== src/Supervisor/Manual.antt =====
-- What an operator sets by hand, over the connections of a camera.
use lpr_refactored.Prelude.{
  ℕ, ◌≡◌, Bool, Option, none, some, List, [], ◌∷◌, if◌then◌else◌, Text, text_eq,
}
use lpr_refactored.Floats.{Float}
use lpr_refactored.Commands.{ExposureUnit}
use lpr_refactored.Supervisor.Maps.{
  Supervisor, Device, Profile, Setting, Strategy, manual_hold, add_profile, set_manual_exposure,
  set_manual_gain, revert_to_settings, exposure_setting,
}
use lpr_refactored.Supervisor.Lifecycle.{
  Attempt, handle_fault, open_configure_store, note_failure, end_worker, clear_packet_overrides,
  stop_all,
}

module _ (F : Float) where
  open F use {Num}

  -- What happens to the supervisor, in any order and of any camera.
  pub data Event : Type 0 where
    profile_added : Text → Profile F → Event
    exposure_set : Text → Num → ExposureUnit → Event
    gain_set : Text → Num → ExposureUnit → Event
    settings_reverted : Text → Event
    fault_handled : Text → Bool → ℕ → ℕ → Event
    attempt_made : Text → ℕ → Attempt → Event
    attempt_failed : Text → Event
    worker_ended : Text → Event
    overrides_cleared : Event
    all_stopped : Event

  unfoldable pub apply : Event → Supervisor F → Supervisor F
  apply (profile_added k p) s = add_profile F k p s
  apply (exposure_set k v u) s = set_manual_exposure F k v u s
  apply (gain_set k v u) s = set_manual_gain F k v u s
  apply (settings_reverted k) s = revert_to_settings F k s
  apply (fault_handled k spawns now n) s = handle_fault F spawns k now n s
  apply (attempt_made k now a) s = (open_configure_store F k now a s).0
  apply (attempt_failed k) s = note_failure F k s
  apply (worker_ended k) s = end_worker F k s
  apply overrides_cleared s = clear_packet_overrides F s
  apply all_stopped s = stop_all F s

  -- The latest event is the first.
  unfoldable pub apply_all : List Event → Supervisor F → Supervisor F
  unfolding apply
  apply_all [] s = s
  apply_all (e ∷ es) s = apply e (apply_all es s)

  -- The exposure of the camera that the operator has set and not given back.
  abbrev pub wanted_after : Text → Event → Option (Num × ExposureUnit) → Option (Num × ExposureUnit)
  wanted_after serial (exposure_set k v u) w = if text_eq k serial then some (v, u) else w
  wanted_after serial (settings_reverted k) w = if text_eq k serial then none else w
  wanted_after serial e w = w

  unfoldable pub wanted : Text → List Event → Option (Num × ExposureUnit)
  wanted serial [] = none
  wanted serial (e ∷ es) = wanted_after serial e (wanted serial es)

  -- Written to the device, under some ceiling where it is a fraction.
  pub record IsWritten (v : Num) (u : ExposureUnit) (x : Option (Setting F)) : Type 0 where
    pub cap : Num
    pub written : x ≡ some (exposure_setting F cap v u)

  -- A connected camera has the exposure, and nothing else drives it.
  unfoldable pub IsHeld : Option (Num × ExposureUnit) → Option (Device F) → Option Strategy → Type 0
  IsHeld none d e = Unit
  IsHeld (some (v, u)) none e = Unit
  IsHeld (some (v, u)) (some d) e = IsWritten v u d.exposure × (e ≡ some manual_hold)
