-- ===== src/CameraManager.antt =====
-- src/manager/CameraManager.cpp: the cameras built from the settings, the settings applied again
-- while they run, and the routing of a call to the camera of an id. The settings and std::stoi are
-- parameters; what a source re-reads for itself is left out.
pub mod Reapply
mod Tests
use lpr_refactored.Prelude.{
  ℕ, Bool, true, false, not, ◌&&◌, Option, none, some, List, [], ◌∷◌, map, if◌then◌else◌, is_empty,
  Text, codes, text_eq, to_string, ℤ, ◌==◌,
}

-- `SettingsManager`: the ids, and a camera's setting by its key, as a text, an int or a float.
pub record Settings : Type 1 where
  pub Num : Type 0
  pub camera_ids : List ℕ
  pub get_text : ℕ → Text → Option Text
  pub get_int : ℕ → Text → Option ℤ
  pub get_float : ℕ → Text → Option Num

abbrev pub value_or {ℓ} : {A : Type ℓ} → A → Option A → A
value_or d none = d
value_or d (some a) = a

abbrev pub is_one : ℤ → Bool
is_one (ℤ.pos n) = n == 1
is_one (ℤ.negsuc n) = false

module _ (S : Settings) where
  open S use {Num, camera_ids, get_text, get_int, get_float}

  -- What the settings change of `MotionConfig`.
  pub record MotionConfig : Type 0 where
    pub delay_ms : ℤ
    pub min_deviation : Num
    pub max_deviation : Num
    pub min_changed_pixels : ℤ
    pub detect_on_secondary : Bool
    pub detect_on_color : Bool

  pub record CameraSourceParams : Type 0 where
    pub gate : Text
    pub type_of_link : Text
    pub address : Text
    pub mono_address : Text
    pub delay_ms : ℤ

  -- A worker, with whether it waits for room in the queue of frames.
  pub record Camera : Type 0 where
    pub params : CameraSourceParams
    pub cfg : MotionConfig
    pub backpressure : Bool

  abbrev pub params_of : MotionConfig → ℕ → CameraSourceParams
  params_of defaults id = record {
    gate = to_string id;
    type_of_link = value_or [] (get_text id (codes "type_of_link"));
    address = value_or [] (get_text id (codes "CameraAddress"));
    mono_address = value_or [] (get_text id (codes "MonoCameraAddress"));
    delay_ms = value_or defaults.delay_ms (get_int id (codes "CameraDelayTime"));
  }

  abbrev pub has_mono : CameraSourceParams → Bool
  has_mono p = not (is_empty p.mono_address) && not (text_eq p.mono_address (codes "-1"))

  abbrev pub is_basler : CameraSourceParams → Bool
  is_basler p = text_eq p.type_of_link (codes "pylon")

  -- The operator's switch to the colour stream.
  abbrev pub on_rgb : ℕ → Bool
  on_rgb id = is_one (value_or (ℤ.pos 0) (get_int id (codes "detect_on_rgb")))

  -- `addCamera`: a video is read with backpressure.
  abbrev pub add_camera : CameraSourceParams → MotionConfig → Camera
  add_camera p cfg = record {
    params = p;
    cfg = cfg;
    backpressure = text_eq p.type_of_link (codes "video");
  }

  pub build_camera : MotionConfig → ℕ → Camera
  build_camera defaults id =
      let p = params_of defaults id in
      add_camera p (record {
        delay_ms = p.delay_ms;
        min_deviation = value_or defaults.min_deviation (get_float id (codes "MinDeviation"));
        max_deviation = value_or defaults.max_deviation (get_float id (codes "MaxDeviation"));
        min_changed_pixels = value_or defaults.min_changed_pixels (get_int id (codes "ObjectSize"));
        detect_on_secondary = has_mono p && not (is_basler p);
        detect_on_color = is_basler p && (has_mono p && on_rgb id);
      })

  pub build_from_settings : MotionConfig → List Camera
  unfolding build_camera
  build_from_settings defaults = map (build_camera defaults) camera_ids

  abbrev reapplied : MotionConfig → Camera → Option ℕ → Camera
  reapplied def c none = c
  reapplied def c (some id) = record c {
    cfg = record {
      delay_ms = value_or def.delay_ms (get_int id (codes "CameraDelayTime"));
      min_deviation = value_or def.min_deviation (get_float id (codes "MinDeviation"));
      max_deviation = value_or def.max_deviation (get_float id (codes "MaxDeviation"));
      min_changed_pixels = value_or def.min_changed_pixels (get_int id (codes "ObjectSize"));
      detect_on_secondary = c.cfg.detect_on_secondary;
      detect_on_color = on_rgb id;
    };
  }

  module _ (stoi : Text → Option ℕ) where
    pub reapply_camera : MotionConfig → Camera → Camera
    reapply_camera def c = reapplied def c (stoi c.params.gate)

    pub reapply_camera_settings : MotionConfig → List Camera → List Camera
    unfolding reapply_camera
    reapply_camera_settings def cs = map (reapply_camera def) cs

  -- The calls that go to the camera of an id, the first with that gate: its answer, or `absent`.
  pub at_camera {ℓ} : {A : Type ℓ} → Text → (Camera → A) → A → List Camera → A
  at_camera id call absent [] = absent
  at_camera id call absent (c ∷ cs) =
      let rest = at_camera id call absent cs in if text_eq c.params.gate id then call c else rest
