-- ===== src/Settings/Tests.antt =====
-- One gate with a mono camera, and one without, with natural numbers for the doubles.
use lpr_refactored.Prelude.{
  ℕ, suc, ◌+◌, ◌≡◌, refl, ap, ◌∙◌, Bool, true, false, Option, none, some, List, [], ◌∷◌, ◌++◌,
  arith, ltb, ◌⊎◌, inl, inr, Text, codes, text_eq, lookup, insert, to_string,
}
use lpr_refactored.Floats.{naturals}
use lpr_refactored.Settings.{
  Point, Library, Settings, Body, last_or, reversed, sanitize_polygon, unique_from, load_all, load,
  get_camera_points, get_general_roi, polygon, make_pts_key,
}
use lpr_refactored.Settings.Polygon.{
  first_or, first_or-reversed, last_or-reversed, IsPolygon, sanitize_polygon-IsPolygon,
}
use lpr_refactored.Settings.Cache.{asked, asks, get_camera_points-asked}
use lpr_refactored.Settings.Crop.{CropSettings}

-- A sign that turns with the order: to the left, from the first to the last point.
abbrev to_left : List Point → Bool
to_left ps = ltb (last_or (0, 0) ps).0 (first_or (0, 0) ps).0

to_left-turns : (ps : List Point) → to_left ps ≡ true → to_left (reversed ps) ≡ false
to_left-turns ps h = ground (
  arith,
  h,
  ap (λ (p : Point). p.0) (first_or-reversed (0, 0) ps),
  ap (λ (p : Point). p.0) (last_or-reversed (0, 0) ps),
)

abbrev corner : List Point
corner = (9, 0) ∷ (9, 0) ∷ (5, 5) ∷ (1, 0) ∷ (9, 0) ∷ []

sanitize_polygon-IsPolygon_example :
    (sanitize_polygon to_left corner ≡ [])
    ⊎ IsPolygon to_left corner (sanitize_polygon to_left corner)
sanitize_polygon-IsPolygon_example = sanitize_polygon-IsPolygon to_left corner to_left-turns

corner_cleaned : sanitize_polygon to_left corner ≡ (1, 0) ∷ (5, 5) ∷ (9, 0) ∷ []
unfolding sanitize_polygon unique_from
corner_cleaned = refl

-- A polygon that is closed twice stays closed.
closed_twice :
    sanitize_polygon to_left ((0, 0) ∷ (5, 5) ∷ (9, 0) ∷ (0, 0) ∷ (0, 0) ∷ [])
    ≡ (0, 0) ∷ (5, 5) ∷ (9, 0) ∷ (0, 0) ∷ []
unfolding sanitize_polygon unique_from
closed_twice = refl

-- A mask is the width that it was made for, a rectangle the number of the points and the width.
abbrev library : Library naturals
library = record {
  Json = Text;
  Mask = ℕ;
  Rect = ℕ × ℕ;
  no_rect = (0, 0);
  rounded = λ n. n;
  is_negative = λ ps. false;
  mask_of = λ ps w h. (w, (lpr_refactored.Prelude.length ps, w));
  text_of = λ t. some t;
  stoi = λ t. some 1;
}

abbrev pair_body : Body naturals library
pair_body = record {
  camera_id = some 7;
  settings = some (codes "MonoCameraAddress", codes "42") ∷ none ∷ [];
  points = some (some 0, some 0) ∷ some (some 1, none) ∷ none ∷ some (some 1, some 1) ∷ [];
  lines = [];
}

abbrev lone_body : Body naturals library
lone_body = record { camera_id = some 8; settings = []; points = []; lines = [] }

abbrev initial : Settings naturals library
initial = record { cameras = []; num_cam = 0; points_cache = []; line_cache = []; roi_cache = [] }

abbrev bodies : List (Body naturals library)
bodies = pair_body ∷ lone_body ∷ []

three_devices : (load_all naturals library bodies initial).num_cam ≡ 3
unfolding load_all load lookup insert text_eq
three_devices = refl

get_camera_points-asked_example :
    (get_camera_points naturals library 7 20 10 (
      asks naturals library
        ((7, 20, 10) ∷ (7, 40, 20) ∷ [])
        (load_all naturals library bodies initial))).1
    ≡ asked naturals library 7 20 10 (load_all naturals library bodies initial)
get_camera_points-asked_example =
    get_camera_points-asked naturals library bodies initial ((7, 20, 10) ∷ (7, 40, 20) ∷ []) 7 20 10

-- A region that was computed is kept when the settings change.
stale_region :
    (get_general_roi naturals library 7 40 20 (
      load_all naturals library bodies
        (get_general_roi naturals library 7 20 10 (load_all naturals library bodies initial)).0)).1
    ≡ (3, 20)
unfolding get_general_roi get_camera_points load_all load polygon sanitize_polygon unique_from
    make_pts_key to_string lookup insert text_eq
stale_region = refl

abbrev crop_settings : CropSettings naturals
crop_settings = record {
  type_of_link = codes "pylon";
  mono_camera_address = codes "42";
  aoi_config_mode = false;
  mono_crop_mode = codes "manual";
  rgb_crop_enable = false;
  rgb_crop_mode = codes "manual";
  mono_crop = (0, 0, 1, 1);
  rgb_crop = (0, 0, 1, 1);
  aoi_crop_margin = 20;
  points = [];
}
