-- ===== src/Exposure.antt =====
-- include/lpr/basler/ExposureController.h (and its copy in include/lpr/process/): the decision of
-- the next exposure and gain. `damped` stands for std::pow of a factor and the clamped damping.
pub mod Bounds
pub mod Priority
pub mod Metering
pub mod Loop
mod Tests
use lpr_refactored.Prelude.{Bool, true, false, not, ◌&&◌, ◌||◌, if◌then◌else◌}
use lpr_refactored.Floats.{Float, fmax, fmin, fabs}

-- std::clamp.
abbrev pub clamp : (F : Float) → F.Num → F.Num → F.Num → F.Num
clamp F v lo hi = if F.lt v lo then lo else (if F.lt hi v then hi else v)

module _ (F : Float) where
  open F use {Num, lt, add, sub, mul, div, ratio}

  pub record ExposureParams : Type 0 where
    pub target : Num
    pub deadband : Num
    pub damping : Num
    pub max_step_ratio : Num
    pub exp_min : Num
    pub exp_max : Num
    pub g_min : Num
    pub g_max : Num
    pub gain_step : Num
    pub highlight_priority : Bool

  pub record ExposureDecision : Type 0 where
    pub exposure : Num
    pub gain : Num
    pub changed : Bool
    pub dark : Bool

  abbrev pub one : Num
  one = ratio 1 1

  -- The correction: the damped quotient of the target and the measurement, limited to a step.
  pub factor_of : (Num → Num → Num) → ExposureParams → Num → Num
  factor_of damped p measured =
      clamp F (damped (div p.target (fmax F measured one)) (clamp F p.damping (ratio 5 100) one))
        (div one p.max_step_ratio) p.max_step_ratio

  -- The gain one step down, not below its minimum, and the exposure that a correction comes to.
  abbrev pub gain_down : ExposureParams → Num → Num
  gain_down p gain = fmax F p.g_min (sub gain p.gain_step)

  abbrev pub applied : ExposureParams → Num → Num → Num
  applied p exposure factor = clamp F (mul exposure factor) p.exp_min p.exp_max

  -- Too bright: the gain down first, then a shorter exposure.
  pub darken : ExposureParams → Num → Num → Num → Bool → ExposureDecision
  darken p exposure gain factor dark =
      if lt p.g_min gain
      then record { exposure = exposure; gain = gain_down p gain; changed = true; dark = dark }
      else (if lt (applied p exposure factor) (sub exposure one)
          then record {
            exposure = applied p exposure factor;
            gain = gain;
            changed = true;
            dark = dark;
          }
          else record { exposure = exposure; gain = gain; changed = false; dark = dark })

  -- Highlight priority with headroom: a longer exposure, and the gain down.
  pub lengthen : ExposureParams → Num → Num → Num → Bool → ExposureDecision
  lengthen p exposure gain factor dark =
      let longer = lt (add exposure one) (applied p exposure factor) in
      record {
        exposure = if longer then applied p exposure factor else exposure;
        gain = if lt p.g_min gain then gain_down p gain else gain;
        changed = longer || lt p.g_min gain;
        dark = dark;
      }

  -- Too dark: a longer exposure first, then gain for what is left.
  pub brighten : ExposureParams → Num → Num → Num → Bool → ExposureDecision
  brighten p exposure gain factor dark =
      let longer = lt (add exposure one) (applied p exposure factor) in
      let exposure' = if longer then applied p exposure factor else exposure in
      let residual = div (mul exposure factor) (fmax F exposure' one) in
      let gains = lt (ratio 102 100) residual && lt gain p.g_max in
      record {
        exposure = exposure';
        gain = if gains then fmin F p.g_max (add gain p.gain_step) else gain;
        changed = longer || gains;
        dark = dark;
      }

  -- The correction, by whether the highlights have priority and whether it is too dark.
  pub correct : Bool → Bool → ExposureParams → Num → Num → Num → ExposureDecision
  unfolding darken lengthen brighten
  correct true dark p exposure gain factor =
      if lt factor one
      then darken p exposure gain factor dark
      else lengthen p exposure gain factor dark
  correct false true p exposure gain factor = brighten p exposure gain factor true
  correct false false p exposure gain factor = darken p exposure gain factor false

  pub decide_exposure : (Num → Num → Num) → Num → Num → Num → ExposureParams → ExposureDecision
  unfolding factor_of correct
  decide_exposure damped measured exposure gain p =
      let factor = factor_of damped p measured in
      let corrected = correct p.highlight_priority (lt one factor) p exposure gain factor in
      if lt (add p.exp_max one) exposure
      then record { exposure = p.exp_max; gain = gain; changed = true; dark = false }
      else if lt (fabs F (sub p.target measured)) p.deadband
      then record { exposure = exposure; gain = gain; changed = false; dark = false }
      else corrected
