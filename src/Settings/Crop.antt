-- ===== src/Settings/Crop.antt =====
-- src/config/SettingsManager.cpp, aoiCropNorm and detectionCropNorm: the part of the sensor that a
-- camera sends, as fractions of it. A setting that is missing is its default; a conversion to float and
-- back is left out.
use lpr_refactored.Prelude.{
  ℕ, ◌≡◌, Bool, true, not, ◌&&◌, ◌||◌, Option, none, some, List, [], ◌∷◌, ltb, if◌then◌else◌,
  length, is_empty, Text, codes, text_eq, min,
}
use lpr_refactored.Floats.{Float, le, fmin, fmax}

module _ (F : Float) where
  open F use {Num, lt, add, sub, mul, div, ratio}

  -- The settings of one camera that the crop reads, by the code's names.
  pub record CropSettings : Type 0 where
    pub type_of_link : Text
    pub mono_camera_address : Text
    pub aoi_config_mode : Bool  -- not 0
    pub mono_crop_mode : Text
    pub rgb_crop_enable : Bool  -- not 0
    pub rgb_crop_mode : Text
    pub mono_crop : Num × Num × Num × Num
    pub rgb_crop : Num × Num × Num × Num
    pub aoi_crop_margin : ℕ  -- 0 when not above it
    pub points : List (Num × Num)

  pub record Crop : Type 0 where
    pub x : Num
    pub y : Num
    pub w : Num
    pub h : Num

  abbrev pub zero_num : Num
  zero_num = ratio 0 1

  abbrev pub one_num : Num
  one_num = ratio 1 1

  pub unit_clamp : Num → Num
  unit_clamp v = if lt v zero_num then zero_num else if lt one_num v then one_num else v

  abbrev pub bounds : List (Num × Num) → Num × Num × Num × Num → Num × Num × Num × Num
  bounds [] b = b
  bounds ((x, y) ∷ ps) (x0, y0, x1, y1) =
      bounds ps (fmin F x0 x, fmin F y0 y, fmax F x1 x, fmax F y1 y)

  abbrev pub box_of : Num × Num × Num × Num → Num × Num × Num × Num
  box_of (x0, y0, x1, y1) = (x0, y0, sub x1 x0, sub y1 y0)

  -- The bounding box of the polygon, with its size.
  pub bounding_box : List (Num × Num) → Num × Num × Num × Num
  bounding_box ps =
      let far = ratio 1000000000 1 in
      let low = sub zero_num far in
      if ltb (length ps) 3
      then (zero_num, zero_num, zero_num, zero_num)
      else box_of (bounds ps (far, far, low, low))

  pub wanted_box : Bool → CropSettings → Option (Num × Num × Num × Num)
  unfolding bounding_box
  wanted_box mono c =
      let mode = if mono then c.mono_crop_mode else c.rgb_crop_mode in
      if c.aoi_config_mode
      then none
      else if mono || c.rgb_crop_enable
      then some (
          if text_eq mode (codes "roi")
          then bounding_box c.points
          else if mono
          then c.mono_crop
          else c.rgb_crop)
      else none

  -- Inside the image, a box keeps its corner and loses what is beyond.
  abbrev pub kept : Num → Num → Num → Num → Crop
  unfolding unit_clamp
  kept x y w h = record {
    x = unit_clamp x;
    y = unit_clamp y;
    w = fmin F w (sub one_num (unit_clamp x));
    h = fmin F h (sub one_num (unit_clamp y));
  }

  -- Grown around its centre by a part of its size.
  abbrev pub grown : ℕ → Crop → Crop
  unfolding kept
  grown pct c =
      let mp = div (ratio (min pct 200) 1) (ratio 100 1) in
      let half = ratio 1 2 in
      if ltb 0 pct
      then kept (sub c.x (mul (mul c.w mp) half)) (sub c.y (mul (mul c.h mp) half))
          (mul c.w (add one_num mp)) (mul c.h (add one_num mp))
      else c

  abbrev pub too_small : Num → Num → Num → Bool
  too_small least w h = not (lt least w) || not (lt least h)

  pub crop_of : ℕ → Option (Num × Num × Num × Num) → Option Crop
  unfolding grown
  crop_of pct none = none
  crop_of pct (some (x, y, w, h)) =
      let c = kept x y w h in
      if too_small zero_num w h
      then none
      else if too_small (ratio 1 1000) c.w c.h
      then none
      else some (grown pct c)

  -- `aoiCropNorm`
  pub aoi_crop_norm : Bool → CropSettings → Option Crop
  unfolding wanted_box crop_of
  aoi_crop_norm mono c = crop_of c.aoi_crop_margin (wanted_box mono c)

  -- `detectionCropNorm`: the mono camera of a pair, or the lone camera.
  pub detection_crop_norm : CropSettings → Option Crop
  unfolding aoi_crop_norm
  detection_crop_norm c =
      let has_mono =
        not (is_empty c.mono_camera_address) && not (text_eq c.mono_camera_address (codes "-1")) in
      if text_eq c.type_of_link (codes "pylon") then aoi_crop_norm has_mono c else none

  -- Inside the image.
  pub record IsInside (c : Crop) : Type 0 where
    pub left : le F zero_num c.x ≡ true
    pub right : le F c.x one_num ≡ true
    pub top : le F zero_num c.y ≡ true
    pub bottom : le F c.y one_num ≡ true
    pub width : le F c.w (sub one_num c.x) ≡ true
    pub height : le F c.h (sub one_num c.y) ≡ true

  abbrev pub AllInside : Option Crop → Type 0
  AllInside none = Unit
  AllInside (some c) = IsInside c
