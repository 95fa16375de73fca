-- ===== src/Direction.antt =====
-- src/process/DirectionEstimator.cpp: whether a plate approaches or recedes, from the sizes that it
-- is seen at. Sizes are doubles; times are milliseconds from 0, where 0 stands for none.
pub mod Events
pub mod Bounds
mod Tests
use lpr_refactored.Prelude.{
  ℕ, suc, ◌+◌, ◌-◌, ◌*◌, ◌/◌, min, max, Bool, true, false, not, ◌&&◌, ◌||◌, Option, none, some,
  List, [], ◌∷◌, ◌++◌, ltb, leb, ◌==◌, if◌then◌else◌, length, take, drop, Text, Dict, lookup,
  insert,
}
use lpr_refactored.Floats.{Float, le, fmax, fabs}

pub data Trend : Type 0 where
  unknown approaching receding : Trend

abbrev pub same : Trend → Trend → Bool
same unknown unknown = true
same approaching approaching = true
same receding receding = true
same unknown approaching = false
same unknown receding = false
same approaching unknown = false
same approaching receding = false
same receding unknown = false
same receding approaching = false

-- At least 1, at most half the history.
pub trend_window : ℕ → ℕ → ℕ
trend_window window size = min (max (max window (size / 4)) 1) (max 1 (size / 2))

module _ (F : Float) where
  open F use {Num, lt, add, sub, mul, div, ratio}

  -- The members of `DirectionEstimator::Config` that the estimator reads. Counts and times that are
  -- not positive are 0.
  pub record Config : Type 0 where
    pub min_sightings : ℕ
    pub min_growth_ratio : Num
    pub track_gap_ms : ℕ
    pub cooldown_ms : ℕ
    pub require_y_agree : Bool
    pub min_y_shift_px : Num
    pub window : ℕ
    pub trend_min_sightings : ℕ
    pub min_trend_delta_px : Num
    pub confirm_sightings : ℕ
    pub confirm_agreeing : ℕ
    pub peak_min_spread : Num
    pub peak_bias : Num
    pub receding_bias : Num
    pub receding_min_sightings : ℕ
    pub exit_peak_guard_ratio : Num

  pub record Track : Type 0 where
    pub sizes : List Num  -- oldest first
    pub ys : List Num
    pub last_ts : ℕ
    pub last_interval : ℕ
    pub reported : Trend
    pub pending_dir : Trend
    pub agree : ℕ
    pub decided_ts : ℕ
    pub locked : Bool

  abbrev pub new_track : Track
  new_track = record {
    sizes = [];
    ys = [];
    last_ts = 0;
    last_interval = 0;
    reported = unknown;
    pending_dir = unknown;
    agree = 0;
    decided_ts = 0;
    locked = false;
  }

  abbrev pub zero_num : Num
  zero_num = ratio 0 1

  abbrev pub sum_from : Num → List Num → Num
  sum_from s [] = s
  sum_from s (d ∷ ds) = sum_from (add s d) ds

  abbrev pub reverse_onto : List Num → List Num → List Num
  reverse_onto [] acc = acc
  reverse_onto (d ∷ ds) acc = reverse_onto ds (d ∷ acc)

  module _ (cfg : Config) where
    pub avg_first : List Num → Num
    unfolding trend_window
    avg_first d =
        let n = trend_window cfg.window (length d) in div (sum_from zero_num (take n d)) (ratio n 1)

    pub avg_last : List Num → Num
    unfolding trend_window
    avg_last d =
        let n = trend_window cfg.window (length d) in
        div (sum_from zero_num (take n (reverse_onto d []))) (ratio n 1)

    -- A gap beyond the configured one, or well beyond the last interval. A timestamp before the last
    -- one is a negative gap, which is never long.
    abbrev pub gap_resets : ℕ → Track → Bool
    gap_resets ts t =
        ltb (t.last_ts + 4 * cfg.track_gap_ms) ts
        || (ltb 0 t.last_interval && ltb (t.last_ts + 3 * t.last_interval) ts)

    -- A fresh pass: after a gap, or once the cooldown of a finalized decision is over.
    abbrev pub resets : ℕ → Track → Bool
    resets ts t =
        (not (t.last_ts == 0) && gap_resets ts t)
        || (t.locked && ltb (t.decided_ts + cfg.cooldown_ms) ts)

    pub refreshed : ℕ → Track → Track
    refreshed ts t =
        if resets ts t
        then record new_track { last_ts = ts }
        else if t.last_ts == 0
        then record t { last_ts = ts }
        else record t { last_interval = ts - t.last_ts; last_ts = ts }

    abbrev pub max_samples : ℕ
    max_samples = 600

    abbrev pub bounded : List Num → List Num → List Num
    bounded sizes d = if ltb max_samples (length sizes) then drop 1 d else d

    pub sampled : Num → Num → Track → Track
    sampled size y t =
        let sizes = t.sizes ++ size ∷ [] in
        if lt zero_num size
        then record t { sizes = bounded sizes sizes; ys = bounded sizes (t.ys ++ y ∷ []) }
        else t

    abbrev pub rec_bias : Num
    rec_bias = fmax F (ratio 1 1) cfg.receding_bias

    -- By the averages at the two ends.
    pub by_trend : List Num → Num → Num → Trend
    by_trend sizes s0 s1 =
        let r = div s1 s0 in
        let rec_ratio = div (ratio 1 1) (mul cfg.min_growth_ratio rec_bias) in
        if le F cfg.min_growth_ratio r
        then approaching
        else if le F r rec_ratio
        then receding
        else if leb cfg.trend_min_sightings (length sizes)
            && le F cfg.min_trend_delta_px (fabs F (sub s1 s0))
        then (if lt s0 s1
            then approaching
            else if le F (mul cfg.min_trend_delta_px rec_bias) (fabs F (sub s1 s0))
            then receding
            else unknown)
        else unknown

    -- The loop over the sizes from index 1: index of the maximum, maximum, minimum.
    abbrev pub extremes : ℕ → List Num → ℕ × Num × Num → ℕ × Num × Num
    extremes i [] acc = acc
    extremes i (v ∷ vs) (at, mx, mn) =
        extremes (suc i) vs
          (if lt mx v then i else at, if lt mx v then v else mx, if lt v mn then v else mn)

    abbrev extremes_of : List Num → ℕ × Num × Num
    extremes_of [] = (0, zero_num, zero_num)
    extremes_of (v ∷ vs) = extremes 1 vs (0, v, v)

    -- By the place of the largest size.
    pub by_peak : List Num → Trend
    by_peak sizes =
        let (at, mx, mn) = extremes_of sizes in
        let interior = ltb 0 at && ltb (at + 1) (length sizes) in
        let rel = div (ratio at 1) (ratio (length sizes - 1) 1) in
        if interior && (lt zero_num mn && le F cfg.peak_min_spread (div mx mn))
        then (if le F (add (ratio 1 2) cfg.peak_bias) rel
            then approaching
            else if le F rel (sub (ratio 1 2) (mul cfg.peak_bias rec_bias))
            then receding
            else unknown)
        else unknown

    -- The guards, each of which may take a verdict back.
    pub enough_reads : List Num → Trend → Trend
    enough_reads sizes dir =
        if same dir receding
          && (ltb cfg.min_sightings cfg.receding_min_sightings
              && ltb (length sizes) cfg.receding_min_sightings)
        then unknown
        else dir

    pub y_agrees : List Num → Trend → Trend
    unfolding avg_first avg_last
    y_agrees ys dir =
        let dy = sub (avg_last ys) (avg_first ys) in
        if not cfg.require_y_agree
        then dir
        else if same dir approaching && lt dy cfg.min_y_shift_px
        then unknown
        else if same dir receding && lt (sub zero_num cfg.min_y_shift_px) dy
        then unknown
        else dir

    abbrev pub peak_of : Num → List Num → Num
    peak_of mx [] = mx
    peak_of mx (v ∷ vs) = peak_of (if lt mx v then v else mx) vs

    abbrev pub newest : Num → List Num → Num
    newest v [] = v
    newest v (w ∷ ws) = newest w ws

    -- The newest size is at or near the largest.
    abbrev pub at_peak : List Num → Bool
    at_peak [] = false
    at_peak (v ∷ vs) =
        let mx = peak_of v vs in
        lt zero_num mx && le F (mul cfg.exit_peak_guard_ratio mx) (newest v vs)

    pub exit_guard : List Num → Trend → Trend
    exit_guard sizes dir = if same dir receding && at_peak sizes then unknown else dir

    abbrev if_unknown : Trend → Trend → Trend
    if_unknown unknown d = d
    if_unknown approaching d = approaching
    if_unknown receding d = receding

    -- The verdict on the history.
    pub verdict : Track → Trend
    unfolding avg_first avg_last by_trend by_peak enough_reads y_agrees exit_guard
    verdict t =
        let s0 = avg_first t.sizes in
        let s1 = avg_last t.sizes in
        let dir = if_unknown (by_trend t.sizes s0 s1) (by_peak t.sizes) in
        if ltb (length t.sizes) cfg.min_sightings || le F s0 zero_num
        then unknown
        else exit_guard t.sizes (y_agrees t.ys (enough_reads t.sizes dir))

    -- A known verdict meets the streak; the second component is the event.
    pub settle : ℕ → Trend → Track → Track × Trend
    settle ts dir t0 =
        let t =
          if same dir t0.pending_dir
          then record t0 { agree = suc t0.agree }
          else record t0 { pending_dir = dir; agree = 1 } in
        let final = record t { locked = true; decided_ts = ts } in
        if leb cfg.confirm_agreeing t.agree
        then (if not (same dir t.reported)
            then (record final { reported = dir }, dir)
            else (final, unknown))
        else if leb cfg.confirm_sightings (length t.sizes)
        then (if not (same t.reported unknown)
            then (final, unknown)
            else (record final { reported = dir }, dir))
        else if not (same dir t.reported)
        then (record t { reported = dir }, dir)
        else (t, unknown)

    pub sight : Num → Num → ℕ → Track → Track × Trend
    unfolding refreshed sampled verdict settle
    sight size y ts t0 =
        let t1 = refreshed ts t0 in
        let t2 = sampled size y t1 in
        let dir = verdict t2 in
        if t1.locked
        then (t1, unknown)
        else if same dir unknown
        then (t2, unknown)
        else settle ts dir t2

    abbrev track_or_new : Option Track → Track
    track_or_new none = new_track
    track_or_new (some t) = t

    pub update : Text → Num → Num → ℕ → Dict Track → Dict Track × Trend
    unfolding sight
    update key size y ts tracks =
        let (t, event) = sight size y ts (track_or_new (lookup key tracks)) in
        (insert key t tracks, event)

    abbrev reported_of : Option Track → Trend
    reported_of none = unknown
    reported_of (some t) = t.reported

    pub current : Text → Dict Track → Trend
    current key tracks = reported_of (lookup key tracks)
