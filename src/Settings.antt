-- ===== src/Settings.antt =====
-- src/config/SettingsManager.cpp, CameraSettings.cpp, CameraLineCache.cpp and RoiMaskCalculator.cpp:
-- the settings of the cameras, their polygons in pixels, and the regions of their images. A message
-- comes parsed, so far as the code accepts its parts; ids, sizes and coordinates are from 0, and an id
-- is a key as its decimal text. The settings of the whole program are left out.
pub mod Polygon
pub mod Cache
pub mod Keys
pub mod Crop
pub mod Count
mod Tests
use lpr_refactored.Prelude.{
  ℕ, suc, ◌+◌, min, max, Bool, true, false, not, ◌&&◌, Option, none, some, List, [], ◌∷◌, ◌++◌, map,
  ltb, ◌==◌, if◌then◌else◌, is_empty, length, Text, codes, to_string, Dict, lookup, insert,
}
use lpr_refactored.Floats.{Float}

abbrev pub Point : Type 0
Point = ℕ × ℕ

abbrev pub same_pt : Point → Point → Bool
same_pt a b = (a.0 == b.0) && (a.1 == b.1)

abbrev pub last_or : Point → List Point → Point
last_or d [] = d
last_or d (p ∷ ps) = last_or p ps

abbrev pub without_last : List Point → List Point
without_last [] = []
without_last (p ∷ []) = []
without_last (p ∷ q ∷ ps) = p ∷ without_last (q ∷ ps)

-- std::unique: each run of equal neighbours becomes its first.
pub unique_from : Point → List Point → List Point
unique_from p [] = p ∷ []
unique_from p (q ∷ ps) =
    let same = unique_from p ps in
    let other = unique_from q ps in if same_pt p q then same else p ∷ other

abbrev pub unique : List Point → List Point
unfolding unique_from
unique [] = []
unique (p ∷ ps) = unique_from p ps

abbrev pub reversed : List Point → List Point
reversed [] = []
reversed (p ∷ ps) = reversed ps ++ p ∷ []

abbrev pub opened : List Point → List Point
opened [] = []
opened (p ∷ ps) = if same_pt p (last_or p ps) then without_last (p ∷ ps) else p ∷ ps

-- `sanitizePolygon`, where the sign of cv::contourArea is a parameter.
pub sanitize_polygon : (List Point → Bool) → List Point → List Point
unfolding unique
sanitize_polygon is_negative pts =
    let poly = unique (opened pts) in
    if ltb (length pts) 3
    then []
    else if ltb (length poly) 3
    then []
    else if is_negative poly
    then reversed poly
    else poly

-- `makePtsKey`
pub make_pts_key : ℕ → ℕ → ℕ → Text
make_pts_key id width height =
    to_string id ++ (codes "_" ++ (to_string width ++ (codes "x" ++ to_string height)))

-- What the code reads of OpenCV, of JSON values and of std::stoi.
pub record Library (F : Float) : Type 1 where
  pub Json : Type 0
  pub Mask : Type 0
  pub Rect : Type 0
  pub no_rect : Rect
  pub rounded : F.Num → ℕ
  pub is_negative : List Point → Bool
  pub mask_of : List Point → ℕ → ℕ → Mask × Rect
  pub text_of : Json → Option Text
  pub stoi : Text → Option ℕ

module _ (F : Float) (L : Library F) where
  open F use {Num, mul, ratio}
  open L use {Json, Mask, Rect, rounded}

  abbrev pub Norm : Type 0
  Norm = Num × Num

  -- A camera of the message: its parts where they have the type that the code asks for. An entry of
  -- the settings has a name and a value, a point two elements, a line its number's text.
  pub record Body : Type 0 where
    pub camera_id : Option ℕ
    pub settings : List (Option (Text × Json))
    pub points : List (Option (Option Num × Option Num))
    pub lines : List (Text × Option (List (Option (Option Num × Option Num))))

  pub record Camera : Type 0 where
    pub values : Dict Json
    pub points_norm : List Norm
    pub lines_norm : Dict (List Norm)

  pub record Settings : Type 0 where
    pub cameras : Dict Camera
    pub num_cam : ℕ
    pub points_cache : Dict (List Point)
    pub line_cache : Dict (Dict (List Point))
    pub roi_cache : Dict (Mask × Rect)

  -- A coordinate that is no number is 0.
  abbrev pub coordinate : Option Num → Num
  coordinate none = ratio 0 1
  coordinate (some x) = x

  abbrev pub load_points : List (Option (Option Num × Option Num)) → List Norm
  load_points [] = []
  load_points (none ∷ ps) = load_points ps
  load_points (some (x, y) ∷ ps) = (coordinate x, coordinate y) ∷ load_points ps

  abbrev pub load_values : List (Option (Text × Json)) → Dict Json → Dict Json
  load_values [] m = m
  load_values (none ∷ es) m = load_values es m
  load_values (some (k, v) ∷ es) m = load_values es (insert k v m)

  abbrev pub store_line :
      Option ℕ
      → Option (List (Option (Option Num × Option Num)))
      → Dict (List Norm)
      → Dict (List Norm)
  store_line (some n) (some ps) m =
      let poly = load_points ps in if is_empty poly then m else insert (to_string n) poly m
  store_line n ps m = m

  abbrev pub load_lines :
      List (Text × Option (List (Option (Option Num × Option Num))))
      → Dict (List Norm)
      → Dict (List Norm)
  load_lines [] m = m
  load_lines ((k, ps) ∷ ls) m = load_lines ls (store_line (L.stoi k) ps m)

  -- `CameraSettings::load`
  pub load : Body → Camera
  load b = record {
    values = load_values b.settings [];
    points_norm = load_points b.points;
    lines_norm = load_lines b.lines [];
  }

  abbrev pub text_at : Option Json → Option Text
  text_at none = none
  text_at (some j) = L.text_of j

  abbrev pub is_given : Option Text → Bool
  is_given none = false
  is_given (some t) = not (is_empty t)

  abbrev pub has_mono : Camera → Bool
  has_mono c = is_given (text_at (lookup (codes "MonoCameraAddress") c.values))

  -- How many devices a camera is.
  abbrev pub devices_of : Camera → ℕ
  devices_of c = if has_mono c then 2 else 1

  abbrev pub load_camera : Option ℕ → Camera → Settings → Settings
  load_camera none c s = s
  load_camera (some id) c s = record s {
    cameras = insert (to_string id) c s.cameras;
    num_cam = s.num_cam + devices_of c;
  }

  abbrev pub load_cameras : List Body → Settings → Settings
  unfolding load
  load_cameras [] s = s
  load_cameras (b ∷ bs) s = load_cameras bs (load_camera b.camera_id (load b) s)

  -- `loadAll`, of the cameras.
  pub load_all : List Body → Settings → Settings
  unfolding load_cameras
  load_all bs s = load_cameras bs (record s { cameras = []; num_cam = 0; points_cache = [] })

  abbrev pub points_of : Option Camera → List Norm
  points_of none = []
  points_of (some c) = c.points_norm

  abbrev pub scaled : ℕ → ℕ → Norm → Point
  scaled width height (x, y) =
      (min (rounded (mul x (ratio width 1))) width, min (rounded (mul y (ratio height 1))) height)

  -- The polygon of a camera in pixels.
  pub polygon : ℕ → ℕ → Option Camera → List Point
  unfolding sanitize_polygon
  polygon width height c = sanitize_polygon L.is_negative (map (scaled width height) (points_of c))

  abbrev pub points_cached :
      Text → Option (List Point) → List Point → Settings → Settings × List Point
  points_cached key (some ps) poly s = (s, ps)
  points_cached key none poly s =
      if ltb (length poly) 3
      then (s, [])
      else (record s { points_cache = insert key poly s.points_cache }, poly)

  -- `getCameraPoints` in pixels.
  pub get_camera_points : ℕ → ℕ → ℕ → Settings → Settings × List Point
  unfolding polygon
  get_camera_points id width height s =
      let key = make_pts_key id width height in
      points_cached key (lookup key s.points_cache)
        (polygon width height (lookup (to_string id) s.cameras)) s

  -- A line in pixels, kept inside the image.
  abbrev pub line_points : ℕ → ℕ → List Norm → List Point
  line_points width height ps = map (scaled width height) ps

  -- A line that the cache has is left, whatever its size was.
  abbrev pub cached_line : Option (List Point) → List Point → List Point
  cached_line none ps = ps
  cached_line (some qs) ps = if is_empty qs then ps else qs

  abbrev pub cache_lines : ℕ → ℕ → Dict (List Norm) → Dict (List Point) → Dict (List Point)
  cache_lines width height [] m = m
  cache_lines width height ((k, ps) ∷ ls) m =
      cache_lines width height ls
        (insert k (cached_line (lookup k m) (line_points width height ps)) m)

  abbrev pub or_no_lines : Option (Dict (List Point)) → Dict (List Point)
  or_no_lines none = []
  or_no_lines (some m) = m

  abbrev pub or_no_points : Option (List Point) → List Point
  or_no_points none = []
  or_no_points (some ps) = ps

  abbrev pub all_lines : Dict (List Norm) → Dict (List Point) → List Point
  all_lines [] m = []
  all_lines ((k, ps) ∷ ls) m = or_no_points (lookup k m) ++ all_lines ls m

  abbrev pub with_lines : ℕ → ℕ → ℕ → Camera → Settings → Settings × List Point
  with_lines id width height c s =
      let m =
        cache_lines width height c.lines_norm (or_no_lines (lookup (to_string id) s.line_cache)) in
      (record s { line_cache = insert (to_string id) m s.line_cache }, all_lines c.lines_norm m)

  -- `RoiMaskCalculator::compute`
  abbrev pub computed : Text → Option (Mask × Rect) → Mask × Rect → Settings → Settings × Rect
  computed key (some r) new s = (s, r.1)
  computed key none new s = (record s { roi_cache = insert key new s.roi_cache }, new.1)

  abbrev pub region : ℕ → ℕ → ℕ → List Point → Settings → Settings × Rect
  region id width height [] s = (s, L.no_rect)
  region id width height (p ∷ ps) s =
      computed (to_string id) (lookup (to_string id) s.roi_cache) (L.mask_of (p ∷ ps) width height)
        (record s { points_cache = insert (make_pts_key id width height) (p ∷ ps) s.points_cache })

  abbrev pub or_lines : ℕ → ℕ → ℕ → Option Camera → List Point → Settings → Settings × Rect
  or_lines id width height none [] s = (s, L.no_rect)
  or_lines id width height (some c) [] s =
      let r = with_lines id width height c s in region id width height r.1 r.0
  or_lines id width height o (p ∷ ps) s = region id width height (p ∷ ps) s

  -- `getGeneralRoi`
  pub get_general_roi : ℕ → ℕ → ℕ → Settings → Settings × Rect
  unfolding get_camera_points
  get_general_roi id width height s =
      let r = get_camera_points id width height s in
      or_lines id width height (lookup (to_string id) r.0.cameras) r.1 r.0
