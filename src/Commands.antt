-- ===== src/Commands.antt =====
-- src/basler/Commands.cpp and include/lpr/basler/CommandQueue.h: the commands of an operator to a
-- camera. The JSON values are data; what the library and the language convert them to, std::tolower,
-- std::stoll and std::llround are parameters. `none` is an exception, which the caller catches. The
-- commands other than the area of interest only call the SDK, and are what they were made with.
pub mod Aoi
pub mod Targets
pub mod Queue
mod Tests
use lpr_refactored.Prelude.{
  ℕ, Bool, true, false, not, ◌&&◌, ◌||◌, Option, none, some, List, [], ◌∷◌, if◌then◌else◌, is_empty,
  Text, codes, text_eq, ℤ,
}
use lpr_refactored.Router.{Json, Fields, get_field}

pub data ExposureUnit : Type 0 where
  auto : ExposureUnit
  absolute : ExposureUnit
  normalized : ExposureUnit

pub data SyncRole : Type 0 where
  exposure_active_output : SyncRole
  triggered_slave : SyncRole
  software_trigger : SyncRole

-- What the code calls of other libraries: `number` is get<double>() of a JSON number, and `llround`
-- rounds it.
pub record Conversions : Type 1 where
  pub Num : Type 0
  pub number : Json → Option Num
  pub is_zero : Num → Bool
  pub llround : Num → ℤ
  pub stoll : Text → Option ℤ
  pub to_lower : Text → Text

abbrev pub minus_one : ℤ
minus_one = ℤ.negsuc 0

-- `v.find(key)` of any value, and `v.at(key)`, which throws without the key.
abbrev pub find_field : Text → Json → Option Json
find_field k (Json.object fs) = get_field k fs
find_field k j = none

abbrev pub is_object : Json → Bool
is_object (Json.object fs) = true
is_object j = false

abbrev pub has_field : Text → Json → Bool
has_field k v = elim (find_field k v) [ none ↦ false | some j ↦ true ]

abbrev pub text_or_throw : Json → Option Text
text_or_throw (Json.text t) = some t
text_or_throw j = none

-- `v.value(key, std::string{})`: throws unless v is an object and the value, when there, a string.
abbrev pub value_text : Text → Json → Option Text
value_text k v = elim (find_field k v) [
  | none ↦ if is_object v then some [] else none
  | some j ↦ text_or_throw j
]

-- The object that a command's details ride in.
abbrev pub details : Json → Json
details v = elim (find_field (codes "value") v) [ none ↦ v | some a ↦ if is_object a then a else v ]

abbrev pub is : Text → Text → Bool
is a b = text_eq a b

module _ (C : Conversions) where
  open C use {Num, number, is_zero, llround, stoll, to_lower}

  -- The commands, each with the serial of its camera.
  pub data Command : Type 0 where
    set_exposure : Text → Num → ExposureUnit → Command
    set_gain : Text → Num → ExposureUnit → Command
    set_trigger_mode : Text → Bool → Command
    set_aoi : Text → ℤ → ℤ → ℤ → ℤ → Command
    save_preset : Text → Text → Command
    load_preset : Text → Text → Command
    export_preset : Text → Command
    import_preset : Text → Text → Command
    factory_reset : Text → Command
    revert_to_settings : Text → Command
    apply_sync_role : Text → SyncRole → Command
    set_parameter : Text → Text → Json → Command

  abbrev nonzero : Option Num → Bool → Bool
  nonzero none dflt = dflt
  nonzero (some n) dflt = not (is_zero n)

  pub json_to_bool : Json → Bool → Bool
  json_to_bool (Json.boolean b) dflt = b
  json_to_bool (Json.text t) dflt =
      let s = to_lower t in
      is s (codes "1") || (is s (codes "true") || (is s (codes "on") || is s (codes "yes")))
  json_to_bool j dflt = nonzero (number j) dflt

  pub unit_of : Text → ExposureUnit
  unit_of t =
      let u = to_lower t in
      if is u (codes "us")
        || (is u (codes "abs") || (is u (codes "absolute") || is u (codes "microseconds")))
      then ExposureUnit.absolute
      else if is u (codes "norm")
          || (is u (codes "normalized") || (is u (codes "pct") || is u (codes "fraction")))
      then ExposureUnit.normalized
      else ExposureUnit.auto

  pub parse_unit : Json → Option ExposureUnit
  unfolding unit_of
  parse_unit v = elim (value_text (codes "unit") v) [ none ↦ none | some t ↦ some (unit_of t) ]

  abbrev or_minus_one : Option ℤ → ℤ
  or_minus_one none = minus_one
  or_minus_one (some z) = z

  abbrev rounded : Option Num → ℤ
  rounded none = minus_one
  rounded (some n) = llround n

  abbrev pixels_of : Json → ℤ
  pixels_of (Json.text t) = or_minus_one (stoll t)
  pixels_of j = rounded (number j)

  -- One of the four numbers of an area of interest, -1 without one.
  pub pixels : Text → Json → ℤ
  pixels k a = elim (find_field k a) [ none ↦ minus_one | some n ↦ pixels_of n ]

  -- What becomes of a message: an exception, nothing to do, or a command.
  abbrev nothing : Option (Option Command)
  nothing = some none

  abbrev made : Command → Option (Option Command)
  made a = some (some a)

  -- A part that throws without a value, and one that does nothing.
  abbrev pub or_throw :
      {A : Type 0} → Option A → (A → Option (Option Command)) → Option (Option Command)
  or_throw none f = none
  or_throw (some a) f = f a

  abbrev pub or_ignore :
      {A : Type 0} → Option A → (A → Option (Option Command)) → Option (Option Command)
  or_ignore none f = some none
  or_ignore (some a) f = f a

  -- The value and its unit, for the exposure and the gain.
  pub with_unit : (Num → ExposureUnit → Command) → Json → Option (Option Command)
  unfolding parse_unit
  with_unit f v =
      or_throw (find_field (codes "value") v)
        (λ j. or_throw (number j) (λ n. or_throw (parse_unit v) (λ u. made (f n u))))

  -- A text that must not be empty.
  pub with_text : Text → (Text → Command) → Json → Option (Option Command)
  with_text k f v =
      or_throw (value_text k (details v)) (λ t. if is_empty t then nothing else made (f t))

  pub trigger_mode : Text → Option Json → Option (Option Command)
  unfolding json_to_bool
  trigger_mode s none = none
  trigger_mode s (some j) = made (set_trigger_mode s (json_to_bool j false))

  pub exposure_auto : Text → Option Json → Option (Option Command)
  unfolding json_to_bool
  exposure_auto s none = made (revert_to_settings s)
  exposure_auto s (some j) = if json_to_bool j true then made (revert_to_settings s) else nothing

  pub role_named : Text → Text → Option (Option Command)
  role_named s role =
      if is role (codes "trigger-off") || (is role (codes "free") || is role (codes "master"))
      then made (apply_sync_role s SyncRole.exposure_active_output)
      else if is role (codes "trigger-on") || is role (codes "slave")
      then made (apply_sync_role s SyncRole.triggered_slave)
      else if is role (codes "software")
      then made (apply_sync_role s SyncRole.software_trigger)
      else nothing

  pub sync_role : Text → Option Json → Option (Option Command)
  unfolding role_named
  sync_role s o = or_throw o (λ j. or_throw (text_or_throw j) (λ r. role_named s r))

  pub parameter : Text → Json → Option (Option Command)
  parameter s v = or_throw (value_text (codes "node") v) (λ node.
      or_ignore (find_field (codes "value") v)
        (λ j. if is_empty node then nothing else made (set_parameter s node j)))

  -- An unknown key with a value names a node.
  pub other : Text → Text → Json → Option (Option Command)
  other s key v = or_ignore (find_field (codes "value") v) (λ j. made (set_parameter s key j))

  pub aoi_command : Text → Json → Command
  unfolding pixels
  aoi_command s v =
      let a = details v in
      set_aoi s (pixels (codes "width") a) (pixels (codes "height") a) (pixels (codes "offset_x") a)
        (pixels (codes "offset_y") a)

  -- `makeCommand`, once the camera is named.
  pub make_for : Text → Text → Json → Option (Option Command)
  unfolding with_unit trigger_mode aoi_command with_text exposure_auto sync_role parameter other
  make_for s key v =
      let value = find_field (codes "value") v in
      if is key (codes "Start Live") || is key (codes "Live")
      then nothing
      else if is key (codes "Exposure Time")
      then with_unit (set_exposure s) v
      else if is key (codes "Gain")
      then with_unit (set_gain s) v
      else if is key (codes "Trigger Mode")
      then trigger_mode s value
      else if is key (codes "Set AOI")
      then made (aoi_command s v)
      else if is key (codes "Save Preset")
      then with_text (codes "path") (save_preset s) v
      else if is key (codes "Load Preset")
      then with_text (codes "path") (load_preset s) v
      else if is key (codes "Export Preset")
      then made (export_preset s)
      else if is key (codes "Import Preset")
      then with_text (codes "pfs") (import_preset s) v
      else if is key (codes "Factory Reset")
      then made (factory_reset s)
      else if is key (codes "Use Settings") || is key (codes "Reset")
      then made (revert_to_settings s)
      else if is key (codes "Exposure Auto")
      then exposure_auto s value
      else if is key (codes "Sync Role")
      then sync_role s value
      else if is key (codes "Set Parameter") || is key (codes "Parameter")
      then parameter s v
      else other s key v

  pub make_command : Text → Json → Option (Option Command)
  unfolding make_for
  make_command key v =
      or_throw (value_text (codes "camera_serial") v)
        (λ s. if is_empty s then nothing else make_for s key v)
