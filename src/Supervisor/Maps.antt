-- ===== src/Supervisor/Maps.antt =====
-- What the supervisor keeps of its cameras, and what is set of them by hand.
use lpr_refactored.Prelude.{
  ℕ, Bool, true, false, Option, none, some, ltb, if◌then◌else◌, is_empty, Text, Dict, lookup,
  insert, erase,
}
use lpr_refactored.Floats.{Float}
use lpr_refactored.Commands.{ExposureUnit, auto, absolute, normalized}

pub data Strategy : Type 0 where
  camera_auto : Strategy
  fixed : Strategy
  host_auto : Strategy
  manual_hold : Strategy

pub data SyncRole : Type 0 where
  free_run_role : SyncRole
  exposure_active_role : SyncRole
  triggered_slave_role : SyncRole

-- A reconnect worker, without its thread.
pub record Worker : Type 0 where
  pub stop : Bool
  pub running : Bool

module _ (F : Float) where
  open F use {Num, lt, ratio}

  -- What the choices below use of `Profile`; a ceiling that is not positive is 0.
  pub record Profile : Type 0 where
    pub trigger_on : Bool
    pub free_run : Bool
    pub camera_native_auto : Bool
    pub fixed_exposure : Bool
    pub auto_exposure : Bool
    pub max_exposure_us : ℕ

  -- A value written by hand: in device units, or as a fraction of the range, which a
  -- ceiling may cut.
  pub data Setting : Type 0 where
    in_units : Num → Setting
    as_fraction : Num → Option Num → Setting

  pub record Device : Type 0 where
    pub exposure : Option Setting
    pub gain : Option Setting

  pub record Override : Type 0 where
    pub exposure : Option (Num × ExposureUnit)
    pub gain : Option (Num × ExposureUnit)

  -- The maps of the supervisor, and of the context that it shares with the capture loop.
  pub record Supervisor : Type 0 where
    pub profiles : Dict Profile
    pub baseline : Dict Text
    pub manual : Dict Override
    pub workers : Dict Worker
    pub attempts : Dict ℕ
    pub connected_at : Dict ℕ
    pub packet_override : Dict ℕ
    pub devices : Dict Device
    pub exposure : Dict Strategy
    pub sync_role : Dict SyncRole

  unfoldable pub add_profile : Text → Profile → Supervisor → Supervisor
  add_profile serial p s = record s { profiles = insert serial p s.profiles }

  unfoldable pub make_exposure_strategy : Profile → Strategy
  make_exposure_strategy p =
      if p.camera_native_auto
      then camera_auto
      else if p.fixed_exposure
      then fixed
      else if p.auto_exposure
      then host_auto
      else manual_hold

  abbrev pub role_of : Profile → SyncRole
  role_of p =
      if p.free_run
      then free_run_role
      else if p.trigger_on
      then triggered_slave_role
      else exposure_active_role

  -- A value without a unit above 1 is in device units.
  pub is_absolute : Num → ExposureUnit → Bool
  is_absolute v absolute = true
  is_absolute v normalized = false
  is_absolute v auto = lt (ratio 1 1) v

  abbrev pub ceiling : ℕ → Num
  ceiling us = if ltb 0 us then ratio us 1 else ratio 50000 1

  -- The exposure of a profile's camera, and a gain, which has no ceiling of the motion blur.
  abbrev pub exposure_setting : Num → Num → ExposureUnit → Setting
  unfolding is_absolute
  exposure_setting cap v u = if is_absolute v u then in_units v else as_fraction v (some cap)

  abbrev pub gain_setting : Num → ExposureUnit → Setting
  unfolding is_absolute
  gain_setting v u = if is_absolute v u then in_units v else as_fraction v none

  abbrev pub override_or_none : Option Override → Override
  override_or_none none = record { exposure = none; gain = none }
  override_or_none (some m) = m

  abbrev pub cap_of : Option Profile → Num
  cap_of none = ratio 50000 1
  cap_of (some p) = ceiling p.max_exposure_us

  abbrev pub with_exposure : Text → Setting → Option Device → Supervisor → Supervisor
  with_exposure serial x none s = s
  with_exposure serial x (some d) s = record s {
    devices = insert serial (record d { exposure = some x }) s.devices;
    exposure = insert serial manual_hold s.exposure;
  }

  abbrev pub with_gain : Text → Setting → Option Device → Supervisor → Supervisor
  with_gain serial x none s = s
  with_gain serial x (some d) s = record s {
    devices = insert serial (record d { gain = some x }) s.devices;
    exposure = insert serial manual_hold s.exposure;
  }

  unfoldable pub set_manual_exposure : Text → Num → ExposureUnit → Supervisor → Supervisor
  set_manual_exposure serial v u s =
      let m = override_or_none (lookup serial s.manual) in
      with_exposure serial (exposure_setting (cap_of (lookup serial s.profiles)) v u)
        (lookup serial s.devices)
        (record s { manual = insert serial (record m { exposure = some (v, u) }) s.manual })

  unfoldable pub set_manual_gain : Text → Num → ExposureUnit → Supervisor → Supervisor
  set_manual_gain serial v u s =
      let m = override_or_none (lookup serial s.manual) in
      with_gain serial (gain_setting v u) (lookup serial s.devices)
        (record s { manual = insert serial (record m { gain = some (v, u) }) s.manual })

  -- The nodes go back to their snapshot, so nothing written by hand is left.
  abbrev pub untouched : Device
  untouched = record { exposure = none; gain = none }

  abbrev pub restored : Option Text → Device → Device
  restored none d = d
  restored (some b) d = if is_empty b then d else untouched

  unfoldable pub reverted : Text → Option Profile → Option Device → Supervisor → Supervisor
  unfolding make_exposure_strategy
  reverted serial (some p) (some d) s = record s {
    devices = insert serial (restored (lookup serial s.baseline) d) s.devices;
    exposure = insert serial (make_exposure_strategy p) s.exposure;
  }
  reverted serial p d s = s

  unfoldable pub revert_to_settings : Text → Supervisor → Supervisor
  unfolding reverted
  revert_to_settings serial s0 =
      let s : Supervisor = record s0 { manual = erase serial s0.manual } in
      reverted serial (lookup serial s.profiles) (lookup serial s.devices) s
