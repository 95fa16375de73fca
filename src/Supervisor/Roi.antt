-- ===== src/Supervisor/Roi.antt =====
-- src/basler/ConnectionSupervisor.cpp, applyRoi: the area of the sensor that a profile asks for, as
-- fractions of it. An axis and its steps are those of Commands.Aoi; its greatest size at the least
-- offset is the length of the sensor, 0 where it cannot be read. Nodes that throw are left out.
use lpr_refactored.Prelude.{
  ℕ, ◌-◌, ◌≡◌, ◌≤◌, refl, sym, ap, subst, ◌∙◌, Bool, true, not, ◌&&◌, arith, ltb, if◌then◌else◌,
  both_branches,
}
use lpr_refactored.Floats.{Float}
use lpr_refactored.Commands.Aoi.{Axis, clamp, align, home, Fits, IsSound, clamp_low, clamp_high}

module _ (F : Float) (rounded : F.Num → ℕ) where
  open F use {Num, lt, mul, ratio}

  -- The part of one axis.
  pub record Crop : Type 0 where
    pub start : Num
    pub length : Num

  abbrev pub part : Num → ℕ → ℕ
  part x sensor = rounded (mul x (ratio sensor 1))

  -- One axis that is at its least offset.
  pub crop_axis : Crop → Axis → Axis
  crop_axis r a =
      let sensor = a.size_max a.offset in
      let w = clamp (align (part r.length sensor) a.size_min a.size_inc) a.size_min sensor in
      let x =
        clamp (align (part r.start sensor) a.offset_min a.offset_inc) a.offset_min (sensor - w) in
      record a {
        size = if a.size_writable then w else a.size;
        offset = if a.offset_writable then x else a.offset;
      }

  abbrev pub is_asked : Crop → Bool
  is_asked r = lt (ratio 0 1) r.length

  -- `applyRoi`, of the two axes.
  pub apply_roi : Crop → Crop → Axis × Axis → Axis × Axis
  unfolding crop_axis
  apply_roi rx ry (x0, y0) =
      let x = home x0 in
      let y = home y0 in
      if not (is_asked rx && is_asked ry)
      then (x0, y0)
      else if ltb 0 (x.size_max x.offset) && ltb 0 (y.size_max y.offset)
      then (crop_axis rx x, crop_axis ry y)
      else (x, y)

  -- The axis can be written, and the current area fits.
  pub record IsReady (a : Axis) : Type 0 where
    pub offset_writable : a.offset_writable ≡ true
    pub size_writable : a.size_writable ≡ true
    pub sound : IsSound a

  home-Fits : (a : Axis) → IsReady a → Fits (home a)
  home-Fits a r = record {
    low = r.sound.fits.low;
    offset_low = ground (arith, r.offset_writable);
    inside = ground (arith, r.offset_writable, r.sound.fits.inside, r.sound.fits.offset_low);
  }

  crop_axis-Fits :
      (r : Crop) (a : Axis)
      → a.offset_writable ≡ true
      → a.size_writable ≡ true
      → a.offset ≡ a.offset_min
      → a.offset_min ≡ 0
      → a.size_min ≤ a.size_max a.offset
      → Fits (crop_axis r a)
  unfolding crop_axis
  crop_axis-Fits r a ow sw homed z low =
      let sensor = a.size_max a.offset in
      let v = align (part r.length sensor) a.size_min a.size_inc in
      let w = clamp v a.size_min sensor in
      let u = align (part r.start sensor) a.offset_min a.offset_inc in
      let same = ap a.size_max homed in
      let x : clamp u a.offset_min (sensor - w) ≤ sensor - w =
        clamp_high u a.offset_min (sensor - w) (omega (arith, z)) in
      record {
        low = rw sw (clamp_low v a.size_min sensor low);
        offset_low = rw ow (clamp_low u a.offset_min (sensor - w) (omega (arith, z)));
        inside = rw (sw, ow) (omega (arith, x, same, clamp_high v a.size_min sensor low));
      }

  homed-Fits : (r : Crop) (a : Axis) → IsReady a → Fits (crop_axis r (home a))
  homed-Fits r a h =
      let homed : (home a).offset ≡ a.offset_min = rw h.offset_writable refl in
      crop_axis-Fits r (home a) h.offset_writable h.size_writable homed h.sound.zero_min
        (subst (λ o. a.size_min ≤ a.size_max o) (sym (homed ∙ h.sound.zero_min)) h.sound.sizes)

  -- The area that a profile asks for, whatever its fractions, lies inside the sensor, and its sizes are not
  -- below the camera's least ones. Both axes can be written, and the area fitted before.
  pub apply_roi-Fits :
      (rx ry : Crop) (x y : Axis)
      → IsReady x
      → IsReady y
      → Fits (apply_roi rx ry (x, y)).0 × Fits (apply_roi rx ry (x, y)).1
  unfolding apply_roi
  apply_roi-Fits rx ry x y h k =
      both_branches (λ (p : Axis × Axis). Fits p.0 × Fits p.1) (not (is_asked rx && is_asked ry))
        {x = (x, y)} (h.sound.fits, k.sound.fits)
        (both_branches (λ (p : Axis × Axis). Fits p.0 × Fits p.1)
          (ltb 0 ((home x).size_max (home x).offset) && ltb 0 ((home y).size_max (home y).offset))
          {x = (crop_axis rx (home x), crop_axis ry (home y))} {y = (home x, home y)}
          (homed-Fits rx x h, homed-Fits ry y k) (home-Fits x h, home-Fits y k))
