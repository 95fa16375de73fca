-- ===== src/Exposure/Tests.antt =====
-- A camera that is too dark, then too bright.
use lpr_refactored.Prelude.{ℕ, refl, false, none, some, List, [], ◌∷◌, arith, inl}
use lpr_refactored.Floats.{shifted}
use lpr_refactored.Exposure.{ExposureParams, decide_exposure, factor_of}
use lpr_refactored.Exposure.Bounds.{Steps, IsSound, InLimits, decide_exposure-InLimits}
use lpr_refactored.Exposure.Priority.{Darkens, decide_exposure-Darkens}
use lpr_refactored.Exposure.Loop.{
  Limits, Strategy, Refusal, no_refusal, exposure_refused, Frame, write_times, Apart,
  write_times-Apart,
}

-- The numbers are by their successors.
abbrev params : ExposureParams shifted
params = record {
  target = 101;
  deadband = 11;
  damping = 1;
  max_step_ratio = 3;
  exp_min = 2;
  exp_max = 5001;
  g_min = 6;
  g_max = 26;
  gain_step = 4;
  highlight_priority = false;
}

abbrev undamped : ℕ → ℕ → ℕ
undamped factor damping = factor

params-Steps : Steps shifted params
params-Steps = record {
  add_one = λ a. ground arith;
  sub_one = λ a. ground arith;
  gain_up = λ a. ground arith;
  gain_down = λ a. ground arith;
}

params-IsSound : IsSound shifted params
params-IsSound = record { exposures = refl; gains = refl }

decide_exposure-InLimits_example :
    InLimits shifted params (decide_exposure shifted undamped 51 1001 7 params)
decide_exposure-InLimits_example =
    decide_exposure-InLimits shifted undamped params 51 1001 7 params-Steps params-IsSound
      (inl (refl, refl)) (refl, refl)

decide_exposure-Darkens_example :
    Darkens shifted params 1001 7 (decide_exposure shifted undamped 201 1001 7 params)
unfolding factor_of
decide_exposure-Darkens_example =
    decide_exposure-Darkens shifted undamped params 201 1001 7 params-Steps refl refl

abbrev limits : Limits shifted
limits = record {
  max_exposure_us = 5001;
  target = 101;
  min_gain = 6;
  max_gain = 26;
  min_interval = 1000;
  ema_alpha = 2;
  damping = 1;
  max_step_ratio = 3;
  gain_step_frac = 2;
  deadband = 11;
  highlight_priority = false;
}

abbrev frame : Refusal shifted → ℕ → ℕ → Frame shifted
frame refusal now measured = record {
  refusal = refusal;
  now = now;
  measured = measured;
  nodes = some (1001, 7);
  exp_min = 2;
}

abbrev frames : List (Frame shifted)
frames =
    frame exposure_refused 100 51
    ∷ frame no_refusal 500 51
    ∷ frame no_refusal 900 51
    ∷ frame no_refusal 1600 201
    ∷ []

abbrev idle : Strategy shifted
idle = record { measured_ema = none; last_change = none }

write_times-Apart_example :
    Apart shifted 1000 none (write_times shifted undamped limits frames idle)
write_times-Apart_example =
    write_times-Apart shifted undamped limits frames idle (refl, (refl, (refl, (refl, tt))))
