-- ===== src/Tracking.antt =====
-- src/track/PlateTrackingRecognizer.cpp: each plate of a frame takes the id of the tracked box that
-- it overlaps best. The inner recogniser, the tracker of each gate (a wrapper of ByteTrack) and the
-- areas of cv::Rect are parameters.
pub mod Best
mod Tests
use lpr_refactored.Prelude.{
  ℕ, ◌+◌, ◌-◌, Bool, true, false, Option, none, some, List, [], ◌∷◌, map, ltb, if◌then◌else◌,
}
use lpr_refactored.Floats.{Float, le}

module _ (F : Float) {Box : Type 0} (area : Box → ℕ) (common_area : Box → Box → ℕ) where
  open F use {Num, div, ratio}

  -- What the tracker returns, as far as it is used.
  pub record TrackedObject : Type 0 where
    pub track_id : ℕ
    pub box : Box

  -- `none` is the id -1.
  pub record Plate : Type 0 where
    pub bounding_box : Box
    pub confidence : Num
    pub track_id : Option ℕ

  pub iou : Box → Box → Num
  iou a b =
      let inter = common_area a b in
      let union = area a + area b - inter in
      if ltb 0 union then div (ratio inter 1) (ratio union 1) else ratio 0 1

  -- The loop over the tracked boxes, from the best overlap so far and its id.
  pub bind : Box → List TrackedObject → Num → Option ℕ → Num × Option ℕ
  unfolding iou
  bind pb [] best id = (best, id)
  bind pb (t ∷ l) best id =
      let s = iou pb t.box in
      let better = le F best s in
      bind pb l (if better then s else best) (if better then some t.track_id else id)

  abbrev bound : Num → List TrackedObject → Plate → Plate
  unfolding bind
  bound min_iou tracked p = record p { track_id = (bind p.bounding_box tracked min_iou none).1 }

  abbrev input_of : Plate → Box × Num
  input_of p = (p.bounding_box, p.confidence)

  -- `recognize`, with the tracker of the gate as a state that `update` changes.
  pub recognize :
      {Tracker : Type 0}
      → (Tracker → List (Box × Num) → Tracker × List TrackedObject)
      → Num
      → List Plate
      → Tracker
      → Tracker × List Plate
  unfolding bound
  recognize update min_iou plates t =
      let (t', tracked) = update t (map input_of plates) in (t', map (bound min_iou tracked) plates)
