-- ===== src/Commands/Aoi.antt =====
-- src/basler/Commands.cpp, SetAoiCommand: one axis of the area of interest, its size and its offset.
-- The values are pixels from 0; a number below 0 leaves its node alone. What the camera says of its
-- nodes comes with an axis, the greatest size by the offset that is set. Values that the camera
-- refuses, and the grab that is stopped meanwhile, are left out.
use lpr_refactored.Prelude.{
  ℕ, ◌+◌, ◌-◌, ◌*◌, ◌/◌, ◌≡◌, ◌≤◌, refl, sym, subst, ◌∙◌, Bool, true, false, arith, ltb,
  if◌then◌else◌, ℤ,
}

pub record Axis : Type 0 where
  pub size : ℕ
  pub offset : ℕ
  pub size_min : ℕ
  pub size_inc : ℕ
  pub size_max : ℕ → ℕ  -- by the offset
  pub offset_min : ℕ
  pub offset_inc : ℕ
  pub size_writable : Bool
  pub offset_writable : Bool

-- std::clamp of integers.
abbrev pub clamp : ℕ → ℕ → ℕ → ℕ
clamp v lo hi = if ltb v lo then lo else (if ltb hi v then hi else v)

-- Down to a step above the minimum, and not below it.
pub align : ℕ → ℕ → ℕ → ℕ
align v mn inc =
    let a = if ltb 0 inc then mn + ((v - mn) / inc) * inc else v in if ltb a mn then mn else a

-- A size above 0 is asked for.
abbrev pub asks : ℤ → Bool
asks (ℤ.pos n) = ltb 0 n
asks (ℤ.negsuc n) = false

abbrev pub at_least_zero : ℤ → Bool
at_least_zero (ℤ.pos n) = true
at_least_zero (ℤ.negsuc n) = false

abbrev pub value : ℤ → ℕ
value (ℤ.pos n) = n
value (ℤ.negsuc n) = 0

-- The offset to its minimum, so that the size can reach its maximum.
abbrev pub home : Axis → Axis
home a = record a { offset = if a.offset_writable then a.offset_min else a.offset }

abbrev pub resize : ℤ → Axis → Axis
unfolding align
resize w a = record a {
  size =
      if ltb 0 (value w)
      then (if a.size_writable
          then clamp (align (value w) a.size_min a.size_inc) a.size_min (a.size_max a.offset)
          else a.size)
      else a.size;
}

abbrev pub place : ℤ → Axis → Axis
unfolding align
place x a = record a {
  offset =
      if at_least_zero x
      then (if a.offset_writable
          then clamp (align (value x) a.offset_min a.offset_inc) a.offset_min
              (a.size_max a.offset - a.size)
          else a.offset)
      else a.offset;
}

pub set_axis : ℤ → ℤ → Axis → Axis
unfolding resize place
set_axis w x a = place x (resize w (home a))

-- The offset and the size lie inside the sensor, whose length is the greatest size at the least
-- offset, and the size inside its own limits.
pub record Fits (a : Axis) : Type 0 where
  pub low : a.size_min ≤ a.size
  pub offset_low : a.offset_min ≤ a.offset
  pub inside : a.offset + a.size ≤ a.size_max a.offset_min

-- What the camera keeps: with the least offset, 0, the least size is within the greatest, and
-- the current area fits.
pub record IsSound (a : Axis) : Type 0 where
  pub zero_min : a.offset_min ≡ 0
  pub sizes : a.size_min ≤ a.size_max 0
  pub fits : Fits a

pub clamp_low : (v lo hi : ℕ) → lo ≤ hi → lo ≤ clamp v lo hi
clamp_low v lo hi h = ground (arith, h)

pub clamp_high : (v lo hi : ℕ) → lo ≤ hi → clamp v lo hi ≤ hi
clamp_high v lo hi h = ground (arith, h)

-- A value that is set or left.
chosen : (P : ℕ → Type 0) (b : Bool) (m n : ℕ) → P m → P n → P (if b then m else n)
chosen P true m n h k = h
chosen P false m n h k = k

home-Fits : (a : Axis) → a.offset_writable ≡ true → Fits a → Fits (home a)
home-Fits a ow f = record {
  low = f.low;
  offset_low = rw ow (omega arith);
  inside = rw ow (omega (arith, f.inside, f.offset_low));
}

resize-Fits :
    (w : ℤ) (a : Axis)
    → a.offset ≡ a.offset_min
    → a.offset_min ≡ 0
    → a.size_min ≤ a.size_max a.offset
    → Fits a
    → Fits (resize w a)
unfolding resize
resize-Fits w a h z l f =
    let v = align (value w) a.size_min a.size_inc in
    let top : a.offset + clamp v a.size_min (a.size_max a.offset) ≤ a.size_max a.offset_min =
      subst (λ o. a.offset + clamp v a.size_min (a.size_max a.offset) ≤ a.size_max o) h
        (omega (arith, clamp_high v a.size_min (a.size_max a.offset) l, h, z)) in
    record {
      low =
          chosen (λ n. a.size_min ≤ n) (ltb 0 (value w)) _ _
            (chosen (λ n. a.size_min ≤ n) a.size_writable _ _
              (clamp_low v a.size_min (a.size_max a.offset) l) f.low)
            f.low;
      offset_low = f.offset_low;
      inside =
          chosen (λ n. a.offset + n ≤ a.size_max a.offset_min) (ltb 0 (value w)) _ _
            (chosen (λ n. a.offset + n ≤ a.size_max a.offset_min) a.size_writable _ _ top f.inside)
            f.inside;
    }

place-Fits :
    (x : ℤ) (a : Axis) → a.offset ≡ a.offset_min → a.offset_min ≡ 0 → Fits a → Fits (place x a)
unfolding place
place-Fits x a h z f =
    let v = align (value x) a.offset_min a.offset_inc in
    let hi = a.size_max a.offset - a.size in
    let fits : a.size ≤ a.size_max a.offset =
      subst (λ o. a.size ≤ a.size_max o) (sym h) (omega (arith, f.inside, z)) in
    let top : clamp v a.offset_min hi + a.size ≤ a.size_max a.offset_min =
      subst (λ o. clamp v a.offset_min hi + a.size ≤ a.size_max o) h
        (omega (arith, clamp_high v a.offset_min hi (omega (arith, z)), fits)) in
    record {
      low = f.low;
      offset_low =
          chosen (λ n. a.offset_min ≤ n) (at_least_zero x) _ _
            (chosen (λ n. a.offset_min ≤ n) a.offset_writable _ _
              (clamp_low v a.offset_min hi (omega (arith, z))) f.offset_low)
            f.offset_low;
      inside =
          chosen (λ n. n + a.size ≤ a.size_max a.offset_min) (at_least_zero x) _ _
            (chosen (λ n. n + a.size ≤ a.size_max a.offset_min) a.offset_writable _ _ top f.inside)
            f.inside;
    }

homed : (a : Axis) → a.offset_writable ≡ true → (home a).offset ≡ a.offset_min
homed a ow = rw ow refl

-- An area of interest, whatever is asked for, lies inside the sensor, and its size is not below the
-- camera's minimum. The offset can be written, and the area fitted before.
pub set_axis-Fits :
    (w x : ℤ) (a : Axis) → a.offset_writable ≡ true → IsSound a → Fits (set_axis w x a)
unfolding set_axis resize
set_axis-Fits w x a ow s =
    let low : a.size_min ≤ a.size_max (home a).offset =
      subst (λ o. a.size_min ≤ a.size_max o) (sym (homed a ow ∙ s.zero_min)) s.sizes in
    place-Fits x (resize w (home a)) (homed a ow) s.zero_min
      (resize-Fits w (home a) (homed a ow) s.zero_min low (home-Fits a ow s.fits))
