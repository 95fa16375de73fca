-- ===== src/Exposure/Priority.antt =====
-- Which of the exposure and the gain a decision lowers first.
use lpr_refactored.Prelude.{◌≡◌, refl, Bool, true, false, arith, Bool-cases, inl, inr}
use lpr_refactored.Floats.{Float, fabs}
use lpr_refactored.Exposure.{
  ExposureParams, ExposureDecision, one, factor_of, applied, darken, correct, decide_exposure,
}
use lpr_refactored.Exposure.Bounds.{Steps}

module _ (F : Float) where
  open F use {Num, lt, add, sub, ratio}

  -- Against too much light: the gain does not rise, the exposure does not grow longer, and it is
  -- shortened only with the gain at its minimum.
  pub record Darkens (p : ExposureParams F) (exposure0 gain0 : Num) (d : ExposureDecision F)
      : Type 0 where
    pub gain : lt gain0 d.gain ≡ false
    pub exposure : lt exposure0 d.exposure ≡ false
    pub gain_first : lt p.g_min gain0 ≡ true → d.exposure ≡ exposure0

  darken-Darkens :
      (p : ExposureParams F) (exposure gain factor : Num) (dark : Bool)
      → Steps F p
      → Darkens p exposure gain (darken F p exposure gain factor dark)
  unfolding darken
  darken-Darkens p exposure gain factor dark s = elim (Bool-cases (lt p.g_min gain)) [
    | inl e ↦ rw e (record {
      gain = ground (arith, e, s.gain_down gain, F.lt_asymm p.g_min gain);
      exposure = F.lt_irrefl exposure;
      gain_first = λ h. refl;
    })
    | inr e ↦ elim (Bool-cases (lt (applied F p exposure factor) (sub exposure (one F)))) [
      | inl q ↦
          rw (e, q)
            (record {
              gain = F.lt_irrefl gain;
              exposure = shorter q;
              gain_first = λ h. absurd (cc);
            })
      | inr q ↦
          rw (e, q)
            (record {
              gain = F.lt_irrefl gain;
              exposure = F.lt_irrefl exposure;
              gain_first = λ h. refl;
            })
    ]
  ]
    where
      shorter :
          lt (applied F p exposure factor) (sub exposure (one F)) ≡ true
          → lt exposure (applied F p exposure factor) ≡ false
      shorter q =
          F.not_lt_trans (applied F p exposure factor) (sub exposure (one F)) exposure
            (F.lt_asymm (applied F p exposure factor) (sub exposure (one F)) q) (s.sub_one exposure)

  -- The correction is below one, or under the usual priority not above one.
  abbrev pub Bright : Bool → Bool → Num → Type 0
  Bright true dark factor = lt factor (one F) ≡ true
  Bright false dark factor = dark ≡ false

  correct-Darkens :
      (high dark : Bool) (p : ExposureParams F) (exposure gain factor : Num)
      → Steps F p
      → Bright high dark factor
      → Darkens p exposure gain (correct F high dark p exposure gain factor)
  unfolding correct
  correct-Darkens true dark p exposure gain factor s b =
      rw b (darken-Darkens p exposure gain factor dark s)
  correct-Darkens false true p exposure gain factor s b = absurd (cc)
  correct-Darkens false false p exposure gain factor s b =
      darken-Darkens p exposure gain factor false s

  -- When the image is not too dark, by a correction that is below one under highlight priority and
  -- not above one otherwise, a decision on an exposure below the cap only darkens: it drops gain
  -- before it shortens the exposure.
  pub decide_exposure-Darkens :
      (damped : Num → Num → Num) (p : ExposureParams F) (measured exposure gain : Num)
      → Steps F p
      → lt exposure p.exp_max ≡ true
      → Bright p.highlight_priority
          (lt (one F) (factor_of F damped p measured))
          (factor_of F damped p measured)
      → Darkens p exposure gain (decide_exposure F damped measured exposure gain p)
  unfolding decide_exposure
  decide_exposure-Darkens damped p measured exposure gain s u b =
      let factor = factor_of F damped p measured in
      let c : lt (add p.exp_max (one F)) exposure ≡ false =
        F.lt_asymm exposure (add p.exp_max (one F)) (
          ground (
            arith,
            u,
            F.not_lt_trans p.exp_max (add p.exp_max (one F)) exposure,
            F.not_lt_trans (add p.exp_max (one F)) exposure p.exp_max,
            s.add_one p.exp_max,
          )) in
      elim (Bool-cases (lt (fabs F (sub p.target measured)) p.deadband)) [
        | inl e ↦
            rw (c, e)
              (record {
                gain = F.lt_irrefl gain;
                exposure = F.lt_irrefl exposure;
                gain_first = λ h. refl;
              })
        | inr e ↦
            rw (c, e)
              (correct-Darkens p.highlight_priority (lt (one F) factor) p exposure gain factor s b)
      ]
