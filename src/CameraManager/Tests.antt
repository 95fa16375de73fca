-- ===== src/CameraManager/Tests.antt =====
-- A Basler pair on its colour stream, and a pair of network cameras.
use lpr_refactored.Prelude.{
  ℕ, ◌≡◌, refl, true, false, Option, none, some, [], ◌∷◌, if◌then◌else◌, Text, codes, text_eq, ℤ,
}
use lpr_refactored.CameraManager.{
  Settings, MotionConfig, build_camera, build_from_settings, reapply_camera,
  reapply_camera_settings,
}
use lpr_refactored.CameraManager.Reapply.{reapply-build}

abbrev texts : Text → ℕ → Text → Option Text
texts link id key =
    if text_eq key (codes "type_of_link")
    then some link
    else if text_eq key (codes "MonoCameraAddress")
    then some (codes "m")
    else none

abbrev ints : ℕ → Text → Option ℤ
ints id key = if text_eq key (codes "detect_on_rgb") then some (ℤ.pos 1) else none

abbrev linked_by : Text → Settings
linked_by link = record {
  Num = ℕ;
  camera_ids = 3 ∷ [];
  get_text = texts link;
  get_int = ints;
  get_float = λ id key. none;
}

abbrev pair : Settings
pair = linked_by (codes "pylon")

abbrev stoi : Text → Option ℕ
stoi t = some 3

abbrev defaults : (link : Text) → MotionConfig (linked_by link)
defaults link = record {
  delay_ms = ℤ.pos 50;
  min_deviation = 20;
  max_deviation = 0;
  min_changed_pixels = ℤ.pos 250;
  detect_on_secondary = false;
  detect_on_color = false;
}

reapply-build_example :
    reapply_camera_settings pair stoi
      (defaults (codes "pylon"))
      (build_from_settings pair (defaults (codes "pylon")))
    ≡ build_from_settings pair (defaults (codes "pylon"))
unfolding text_eq
reapply-build_example = reapply-build pair stoi (defaults (codes "pylon")) (refl, tt) (refl, tt)

-- Built, such a camera detects on its mono stream, and applied again on its colour stream.
built_mono :
    (build_camera (linked_by (codes "rtsp")) (defaults (codes "rtsp")) 3).cfg.detect_on_color
    ≡ false
unfolding build_camera text_eq
built_mono = refl

reapplied_color :
    (reapply_camera
      (linked_by (codes "rtsp"))
      stoi
      (defaults (codes "rtsp"))
      (build_camera (linked_by (codes "rtsp")) (defaults (codes "rtsp")) 3)).cfg.detect_on_color
    ≡ true
unfolding reapply_camera text_eq
reapplied_color = refl
