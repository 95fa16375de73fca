-- ===== src/Commands/Targets.antt =====
-- What becomes of a message: exceptions, messages that are ignored, and commands.
use lpr_refactored.Prelude.{
  ◌≡◌, refl, sym, ap, true, false, ◌||◌, Option, none, some, [], ◌∷◌, is_empty, if◌then◌else◌, Text,
  codes, both_branches,
}
use lpr_refactored.Router.{Json}
use lpr_refactored.Commands.{
  Conversions, ExposureUnit, SyncRole, Command, value_text, with_unit, with_text, trigger_mode,
  exposure_auto, role_named, sync_role, parameter, other, aoi_command, make_for, make_command,
  or_throw, or_ignore, find_field, text_or_throw, json_to_bool, parse_unit, details, is,
}

module _ (C : Conversions) where
  open C use {Num, number}

  -- The camera that a command goes to.
  abbrev pub serial_of : Command C → Text
  serial_of (Command.set_exposure s n u) = s
  serial_of (Command.set_gain s n u) = s
  serial_of (Command.set_trigger_mode s b) = s
  serial_of (Command.set_aoi s w h x y) = s
  serial_of (Command.save_preset s p) = s
  serial_of (Command.load_preset s p) = s
  serial_of (Command.export_preset s) = s
  serial_of (Command.import_preset s p) = s
  serial_of (Command.factory_reset s) = s
  serial_of (Command.revert_to_settings s) = s
  serial_of (Command.apply_sync_role s r) = s
  serial_of (Command.set_parameter s k j) = s

  -- The command, when there is one, goes to the camera.
  Goes : Text → Option (Option (Command C)) → Type 0
  Goes s none = Unit
  Goes s (some none) = Unit
  Goes s (some (some c)) = serial_of c ≡ s

  Goes-nothing : (s : Text) → Goes s (some none)
  unfolding Goes
  Goes-nothing s = tt

  Goes-made : (s : Text) (c : Command C) → serial_of c ≡ s → Goes s (some (some c))
  unfolding Goes
  Goes-made s c e = e

  Goes-or_throw :
      {A : Type 0} (s : Text) (o : Option A) (f : A → Option (Option (Command C)))
      → ((a : A) → Goes s (f a))
      → Goes s (or_throw C o f)
  unfolding Goes
  Goes-or_throw s none f h = tt
  Goes-or_throw s (some a) f h = h a

  Goes-or_ignore :
      {A : Type 0} (s : Text) (o : Option A) (f : A → Option (Option (Command C)))
      → ((a : A) → Goes s (f a))
      → Goes s (or_ignore C o f)
  unfolding Goes
  Goes-or_ignore s none f h = tt
  Goes-or_ignore s (some a) f h = h a

  with_unit-Goes :
      (s : Text) (f : Num → ExposureUnit → Command C) (v : Json)
      → ((n : Num) (u : ExposureUnit) → serial_of (f n u) ≡ s)
      → Goes s (with_unit C f v)
  unfolding with_unit
  with_unit-Goes s f v h = Goes-or_throw s (find_field (codes "value") v) _ (λ j.
      Goes-or_throw s (number j) _
        (λ n. Goes-or_throw s (parse_unit C v) _ (λ u. Goes-made s (f n u) (h n u))))

  with_text-Goes :
      (s k : Text) (f : Text → Command C) (v : Json)
      → ((t : Text) → serial_of (f t) ≡ s)
      → Goes s (with_text C k f v)
  unfolding with_text
  with_text-Goes s k f v h =
      Goes-or_throw s (value_text k (details v)) _
        (λ t. both_branches (Goes s) (is_empty t) (Goes-nothing s) (Goes-made s (f t) (h t)))

  trigger_mode-Goes : (s : Text) (o : Option Json) → Goes s (trigger_mode C s o)
  unfolding trigger_mode Goes
  trigger_mode-Goes s none = tt
  trigger_mode-Goes s (some j) = refl

  exposure_auto-Goes : (s : Text) (o : Option Json) → Goes s (exposure_auto C s o)
  unfolding exposure_auto
  exposure_auto-Goes s none = Goes-made s (Command.revert_to_settings s) refl
  exposure_auto-Goes s (some j) =
      both_branches (Goes s) (json_to_bool C j true)
        (Goes-made s (Command.revert_to_settings s) refl) (Goes-nothing s)

  role_named-Goes : (s r : Text) → Goes s (role_named C s r)
  unfolding role_named
  role_named-Goes s r =
      both_branches (Goes s)
        (is r (codes "trigger-off") || (is r (codes "free") || is r (codes "master")))
        (Goes-made s (Command.apply_sync_role s SyncRole.exposure_active_output) refl)
        (both_branches (Goes s) (is r (codes "trigger-on") || is r (codes "slave"))
          (Goes-made s (Command.apply_sync_role s SyncRole.triggered_slave) refl)
          (both_branches (Goes s) (is r (codes "software"))
            (Goes-made s (Command.apply_sync_role s SyncRole.software_trigger) refl)
            (Goes-nothing s)))

  sync_role-Goes : (s : Text) (o : Option Json) → Goes s (sync_role C s o)
  unfolding sync_role
  sync_role-Goes s o =
      Goes-or_throw s o _ (λ j. Goes-or_throw s (text_or_throw j) _ (λ r. role_named-Goes s r))

  parameter-Goes : (s : Text) (v : Json) → Goes s (parameter C s v)
  unfolding parameter
  parameter-Goes s v = Goes-or_throw s (value_text (codes "node") v) _ (λ node.
      Goes-or_ignore s (find_field (codes "value") v) _ (λ j.
        both_branches (Goes s) (is_empty node) (Goes-nothing s)
          (Goes-made s (Command.set_parameter s node j) refl)))

  other-Goes : (s key : Text) (v : Json) → Goes s (other C s key v)
  unfolding other
  other-Goes s key v =
      Goes-or_ignore s (find_field (codes "value") v) _
        (λ j. Goes-made s (Command.set_parameter s key j) refl)

  aoi_command-Goes : (s : Text) (v : Json) → serial_of (aoi_command C s v) ≡ s
  unfolding aoi_command
  aoi_command-Goes s v = refl

  -- By the key.
  make_for-Goes : (s key : Text) (v : Json) → Goes s (make_for C s key v)
  unfolding make_for
  make_for-Goes s key v =
      let value = find_field (codes "value") v in
      both_branches (Goes s) (is key (codes "Start Live") || is key (codes "Live")) (Goes-nothing s)
        (both_branches (Goes s) (is key (codes "Exposure Time"))
          (with_unit-Goes s (Command.set_exposure s) v (λ n u. refl))
          (both_branches (Goes s) (is key (codes "Gain"))
            (with_unit-Goes s (Command.set_gain s) v (λ n u. refl))
            (both_branches (Goes s) (is key (codes "Trigger Mode")) (trigger_mode-Goes s value) (
              both_branches (Goes s) (is key (codes "Set AOI"))
                (Goes-made s (aoi_command C s v) (aoi_command-Goes s v))
                (both_branches (Goes s) (is key (codes "Save Preset"))
                  (with_text-Goes s (codes "path") (Command.save_preset s) v (λ t. refl))
                  (both_branches (Goes s) (is key (codes "Load Preset"))
                    (with_text-Goes s (codes "path") (Command.load_preset s) v (λ t. refl))
                    (both_branches (Goes s) (is key (codes "Export Preset"))
                      (Goes-made s (Command.export_preset s) refl)
                      (both_branches (Goes s) (is key (codes "Import Preset"))
                        (with_text-Goes s (codes "pfs") (Command.import_preset s) v (λ t. refl))
                        (both_branches (Goes s) (is key (codes "Factory Reset"))
                          (Goes-made s (Command.factory_reset s) refl)
                          (both_branches (Goes s)
                            (is key (codes "Use Settings") || is key (codes "Reset"))
                            (Goes-made s (Command.revert_to_settings s) refl)
                            (both_branches (Goes s) (is key (codes "Exposure Auto"))
                              (exposure_auto-Goes s value)
                              (both_branches (Goes s) (is key (codes "Sync Role"))
                                (sync_role-Goes s value)
                                (both_branches (Goes s)
                                  (is key (codes "Set Parameter") || is key (codes "Parameter"))
                                  (parameter-Goes s v) (other-Goes s key v))))))))))))))

  -- The commands that are made go to the camera of their message, which is not empty; a message with
  -- an empty camera or none is ignored, and one whose camera is no text, or that is no object, is an
  -- exception.
  pub record Answers (key : Text) (v : Json) : Type 0 where
    pub named :
        (c : Command C)
        → make_command C key v ≡ some (some c)
        → (value_text (codes "camera_serial") v ≡ some (serial_of c))
          × (is_empty (serial_of c) ≡ false)
    pub unnamed : value_text (codes "camera_serial") v ≡ some [] → make_command C key v ≡ some none
    pub malformed : value_text (codes "camera_serial") v ≡ none → make_command C key v ≡ none

  named_camera :
      (s : Text) (o : Option (Option (Command C))) (c : Command C)
      → Goes s o
      → o ≡ some (some c)
      → serial_of c ≡ s
  unfolding Goes
  named_camera s none c g h = absurd (cc)
  named_camera s (some none) c g h = absurd (cc)
  named_camera s (some (some d)) c g h = cc

  named_lem :
      (key : Text) (v : Json) (c : Command C) (o : Option Text)
      → or_throw C o (λ s. if is_empty s then some none else make_for C s key v) ≡ some (some c)
      → (o ≡ some (serial_of c)) × (is_empty (serial_of c) ≡ false)
  named_lem key v c none h = absurd (cc)
  named_lem key v c (some []) h = absurd (cc)
  named_lem key v c (some (a ∷ s)) h =
      let g = named_camera (a ∷ s) (make_for C (a ∷ s) key v) c (make_for-Goes (a ∷ s) key v) h in
      (ap some (sym g), ap is_empty g)

  -- A command that a message makes, by whichever key, goes to the camera of the message, which is not
  -- empty; a message whose camera is missing or empty makes none, whatever its key, and is no error;
  -- one whose camera is no text, or that is no object, is an exception.
  pub make_command-Answers : (key : Text) (v : Json) → Answers key v
  unfolding make_command
  make_command-Answers key v = record {
    named = λ c h. named_lem key v c (value_text (codes "camera_serial") v) h;
    unnamed = λ e. rw e refl;
    malformed = λ e. rw e refl;
  }
