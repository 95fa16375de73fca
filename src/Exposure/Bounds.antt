-- ===== src/Exposure/Bounds.antt =====
-- What a decision may do to the exposure and the gain.
use lpr_refactored.Prelude.{◌≡◌, Bool, true, false, arith, if◌then◌else◌, Bool-cases, ◌⊎◌, inl, inr}
use lpr_refactored.Floats.{Float, fmin, fabs}
use lpr_refactored.Exposure.{
  clamp, ExposureParams, ExposureDecision, one, factor_of, gain_down, applied, darken, lengthen,
  brighten, correct, decide_exposure,
}

module _ (F : Float) where
  open F use {Num, lt, add, sub, ratio}

  abbrev pub Within : Num → Num → Num → Type 0
  Within lo hi a = (lt a lo ≡ false) × (lt hi a ≡ false)

  pub clamp-Within : (v lo hi : Num) → lt hi lo ≡ false → Within lo hi (clamp F v lo hi)
  clamp-Within v lo hi h = ground (arith, h, F.lt_irrefl lo, F.lt_irrefl hi)

  -- Of the arithmetic: one is not negative, and neither is a gain step, so that adding one does not
  -- make a number smaller, nor subtracting one larger.
  pub record Steps (p : ExposureParams F) : Type 0 where
    pub add_one : (a : Num) → lt (add a (one F)) a ≡ false
    pub sub_one : (a : Num) → lt a (sub a (one F)) ≡ false
    pub gain_up : (a : Num) → lt (add a p.gain_step) a ≡ false
    pub gain_down : (a : Num) → lt a (sub a p.gain_step) ≡ false

  -- The limits are in order.
  pub record IsSound (p : ExposureParams F) : Type 0 where
    pub exposures : lt p.exp_max p.exp_min ≡ false
    pub gains : lt p.g_max p.g_min ≡ false

  gain_down-Within :
      (p : ExposureParams F) (gain : Num)
      → Steps p
      → IsSound p
      → Within p.g_min p.g_max gain
      → Within p.g_min p.g_max (gain_down F p gain)
  gain_down-Within p gain s i w =
      let down = F.not_lt_trans (sub gain p.gain_step) gain p.g_max (s.gain_down gain) w.1 in
      ground (arith, down, i.gains, F.lt_irrefl p.g_min, F.lt_asymm p.g_min (sub gain p.gain_step))

  gain_up-Within :
      (p : ExposureParams F) (gain : Num)
      → Steps p
      → IsSound p
      → Within p.g_min p.g_max gain
      → Within p.g_min p.g_max (fmin F p.g_max (add gain p.gain_step))
  gain_up-Within p gain s i w =
      let up = F.not_lt_trans p.g_min gain (add gain p.gain_step) w.0 (s.gain_up gain) in
      ground (arith, up, i.gains, F.lt_irrefl p.g_max, F.lt_asymm (add gain p.gain_step) p.g_max)

  -- A decision within the limits.
  pub record InLimits (p : ExposureParams F) (d : ExposureDecision F) : Type 0 where
    pub exposure : Within p.exp_min p.exp_max d.exposure
    pub gain : Within p.g_min p.g_max d.gain

  module _ (p : ExposureParams F) (s : Steps p) (i : IsSound p) (exposure gain : Num)
      (we : Within p.exp_min p.exp_max exposure) (wg : Within p.g_min p.g_max gain) where
    darken-InLimits :
        (factor : Num) (dark : Bool) → InLimits p (darken F p exposure gain factor dark)
    unfolding darken
    darken-InLimits factor dark =
        let a = clamp-Within (F.mul exposure factor) p.exp_min p.exp_max i.exposures in
        let g = gain_down-Within p gain s i wg in
        elim (Bool-cases (lt p.g_min gain)) [
          | inl e ↦ rw e (record { exposure = we; gain = g })
          | inr e ↦ elim (Bool-cases (lt (applied F p exposure factor) (sub exposure (one F)))) [
            | inl q ↦ rw (e, q) (record { exposure = a; gain = wg })
            | inr q ↦ rw (e, q) (record { exposure = we; gain = wg })
          ]
        ]

    chosen : (b : Bool) (P : Num → Type 0) (x y : Num) → P x → P y → P (if b then x else y)
    chosen true P x y h k = h
    chosen false P x y h k = k

    left :
        (dark : Bool)
        → InLimits p (record { exposure = exposure; gain = gain; changed = false; dark = dark })
    left dark = record { exposure = we; gain = wg }

    lengthen-InLimits :
        (factor : Num) (dark : Bool) → InLimits p (lengthen F p exposure gain factor dark)
    unfolding lengthen
    lengthen-InLimits factor dark = record {
      exposure =
          chosen (lt (add exposure (one F)) (applied F p exposure factor))
            (Within p.exp_min p.exp_max) _ _
            (clamp-Within (F.mul exposure factor) p.exp_min p.exp_max i.exposures) we;
      gain =
          chosen (lt p.g_min gain) (Within p.g_min p.g_max) _ _ (gain_down-Within p gain s i wg) wg;
    }

    brighten-InLimits :
        (factor : Num) (dark : Bool) → InLimits p (brighten F p exposure gain factor dark)
    unfolding brighten
    brighten-InLimits factor dark = record {
      exposure =
          chosen (lt (add exposure (one F)) (applied F p exposure factor))
            (Within p.exp_min p.exp_max) _ _
            (clamp-Within (F.mul exposure factor) p.exp_min p.exp_max i.exposures) we;
      gain = chosen _ (Within p.g_min p.g_max) _ _ (gain_up-Within p gain s i wg) wg;
    }

  -- The exposure is within the limits, or more than a microsecond above the cap.
  abbrev pub Reined : ExposureParams F → Num → Type 0
  Reined p exposure =
      Within p.exp_min p.exp_max exposure ⊎ (lt (add p.exp_max (one F)) exposure ≡ true)

  correct-InLimits :
      (high dark : Bool) (p : ExposureParams F) (exposure gain factor : Num)
      → Steps p
      → IsSound p
      → Within p.exp_min p.exp_max exposure
      → Within p.g_min p.g_max gain
      → InLimits p (correct F high dark p exposure gain factor)
  unfolding correct
  correct-InLimits true dark p exposure gain factor s i we wg =
      elim (Bool-cases (lt factor (one F))) [
        | inl q ↦ rw q (darken-InLimits p s i exposure gain we wg factor dark)
        | inr q ↦ rw q (lengthen-InLimits p s i exposure gain we wg factor dark)
      ]
  correct-InLimits false true p exposure gain factor s i we wg =
      brighten-InLimits p s i exposure gain we wg factor true
  correct-InLimits false false p exposure gain factor s i we wg =
      darken-InLimits p s i exposure gain we wg factor false

  corrected-InLimits :
      (damped : Num → Num → Num) (p : ExposureParams F) (measured exposure gain : Num)
      → Steps p
      → IsSound p
      → lt (add p.exp_max (one F)) exposure ≡ false
      → Within p.exp_min p.exp_max exposure
      → Within p.g_min p.g_max gain
      → InLimits p (decide_exposure F damped measured exposure gain p)
  unfolding decide_exposure
  corrected-InLimits damped p measured exposure gain s i c we wg =
      let factor = factor_of F damped p measured in
      elim (Bool-cases (lt (fabs F (sub p.target measured)) p.deadband)) [
        | inl e ↦ rw (c, e) (left p s i exposure gain we wg false)
        | inr e ↦
            rw (c, e)
              (correct-InLimits p.highlight_priority (lt (one F) factor) p exposure gain factor s i
                we wg)
      ]

  -- Whatever is measured and however the correction is damped, a decision leaves the gain within its
  -- limits when it was, and the exposure within the sensor's minimum and the motion-blur cap, when
  -- it was, or when it was more than a microsecond above the cap. The limits are in order, and steps
  -- are not negative.
  pub decide_exposure-InLimits :
      (damped : Num → Num → Num) (p : ExposureParams F) (measured exposure gain : Num)
      → Steps p
      → IsSound p
      → Reined p exposure
      → Within p.g_min p.g_max gain
      → InLimits p (decide_exposure F damped measured exposure gain p)
  unfolding decide_exposure
  decide_exposure-InLimits damped p measured exposure gain s i r wg =
      elim (Bool-cases (lt (add p.exp_max (one F)) exposure)) [
        | inl c ↦ rw c (record { exposure = (i.exposures, F.lt_irrefl p.exp_max); gain = wg })
        | inr c ↦ elim r [
          | inl we ↦ corrected-InLimits damped p measured exposure gain s i c we wg
          | inr over ↦ absurd (cc)
        ]
      ]
