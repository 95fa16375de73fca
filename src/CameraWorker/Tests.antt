-- ===== src/CameraWorker/Tests.antt =====
-- One camera, its images numbers: an image above 0 has its tens as its width, and shows motion with
-- any two of its size.
use lpr_refactored.Prelude.{
  ℕ, ◌+◌, ◌/◌, ◌≡◌, refl, min, true, false, none, some, List, [], ◌∷◌, ◌==◌, if◌then◌else◌,
}
use lpr_refactored.CameraWorker.{
  Vision, Config, Worker, Size, size_eq, count_changed_pixels, session, supervise, no_source, ran,
}
use lpr_refactored.CameraWorker.Images.{Degrades, resolve-Degrades}
use lpr_refactored.CameraWorker.Status.{Tells, supervise-Tells}
use lpr_refactored.CameraWorker.Motion.{detections, forwards, moving, moving_after, session-moving}

abbrev width_of : ℕ → Size
width_of i = record { width = i / 10; height = 1 }

abbrev vision : Vision
vision = record {
  Image = ℕ;
  no_image = 0;
  is_empty = λ i. i == 0;
  size = width_of;
  same_data = ◌==◌;
  region = λ i. i;
  gray = λ i. i;
  absdiff = λ a b. if size_eq (width_of a) (width_of b) then some (a + b) else none;
  bitwise_and = min;
  threshold_erode = λ i. i;
  settled = λ i. false;
  mean_positive = λ i. true;
  rows = λ i. (255 ∷ []) ∷ [];
}

abbrev config : Config
config = record {
  enable_motion_gate = true;
  min_changed_pixels = 1;
  reconnect_base_ms = 1000;
  reconnect_max_ms = 30000;
  detect_on_secondary = false;
  detect_on_color = false;
}

abbrev new_worker : Worker vision
new_worker = record {
  connected = false;
  first_frame = true;
  first_color_frame = true;
  last_crud_size = record { width = 0; height = 0 };
  last_color_crud_size = record { width = 0; height = 0 };
  curr = none;
  next = none;
  frames_this_session = 0;
}

abbrev frames : List (ℕ × ℕ)
frames = (11, 0) ∷ (0, 0) ∷ (12, 0) ∷ (13, 0) ∷ (14, 0) ∷ []

-- The size changes after the third usable frame.
abbrev resized : List (ℕ × ℕ)
resized = (11, 0) ∷ (0, 0) ∷ (12, 0) ∷ (13, 0) ∷ (23, 0) ∷ (24, 0) ∷ (25, 0) ∷ []

resolve-Degrades_example : Degrades vision config 11 0
resolve-Degrades_example = resolve-Degrades vision config 11 0

supervise-Tells_example :
    Tells vision false
      (supervise vision config
        (no_source ∷ ran true frames true false ∷ ran false frames false false ∷ [])
        1000
        new_worker).1
      (supervise vision config
        (no_source ∷ ran true frames true false ∷ ran false frames false false ∷ [])
        1000
        new_worker).0.connected
supervise-Tells_example =
    supervise-Tells vision config
      (no_source ∷ ran true frames true false ∷ ran false frames false false ∷ []) 1000 new_worker

session-moving_example :
    forwards vision (session vision true config resized new_worker).1
    ≡ moving vision true 1 (detections vision config resized)
session-moving_example = session-moving vision true config resized new_worker refl refl refl

-- A change of the size costs two frames where the source goes on, and the session where it does not.
resized_goes_on : moving vision true 1 (detections vision config resized) ≡ 13 ∷ 25 ∷ []
unfolding moving moving_after detections count_changed_pixels
resized_goes_on = refl

resized_ends : moving vision false 1 (detections vision config resized) ≡ 13 ∷ []
unfolding moving moving_after detections count_changed_pixels
resized_ends = refl
