-- ===== src/Exposure/Loop.antt =====
-- src/basler/ExposureStrategies.cpp: AutoExposureStrategy::apply, and the limits of the manual
-- settings. The measurement, the sensor's minimum, and the exposure and gain that the camera holds,
-- when it has nodes for them, come with each frame, with the write that the camera refuses, if any; a
-- refusal is caught and ends the frame. The log is left out.
use lpr_refactored.Prelude.{
  ℕ, ◌+◌, ◌≡◌, ◌≤◌, refl, ap, subst, Bool, true, false, ◌||◌, Option, none, some, List, [], ◌∷◌,
  arith, ltb, if◌then◌else◌, Bool-cases, Option-cases, inl, inr, ◌⊎◌, All,
}
use lpr_refactored.Floats.{Float, fabs, fmax}
use lpr_refactored.Exposure.{ExposureParams, ExposureDecision, one, decide_exposure}

module _ (F : Float) where
  open F use {Num, lt, add, sub, mul, ratio}

  -- `Limits`, the gains as converted.
  pub record Limits : Type 0 where
    pub max_exposure_us : Num
    pub target : Num
    pub min_gain : Num
    pub max_gain : Num
    pub min_interval : ℕ
    pub ema_alpha : Num
    pub damping : Num
    pub max_step_ratio : Num
    pub gain_step_frac : Num
    pub deadband : Num
    pub highlight_priority : Bool

  -- `none` is a smoothed brightness below 0, and a clock that is not set.
  pub record Strategy : Type 0 where
    pub measured_ema : Option Num
    pub last_change : Option ℕ

  -- Which write of a frame throws, if it is made.
  pub data Refusal : Type 0 where
    no_refusal : Refusal
    exposure_refused : Refusal
    gain_refused : Refusal

  abbrev pub refuses_gain : Refusal → Bool
  refuses_gain gain_refused = true
  refuses_gain r = false

  pub record Frame : Type 0 where
    pub refusal : Refusal
    pub now : ℕ
    pub measured : Num
    pub nodes : Option (Num × Num)
    pub exp_min : Num

  abbrev pub throttled : Limits → ℕ → Option ℕ → Bool
  throttled lim now none = false
  throttled lim now (some t) = ltb now (t + lim.min_interval)

  abbrev pub smooth : Limits → Num → Option Num → Num
  smooth lim measured none = measured
  smooth lim measured (some ema) =
      add (mul lim.ema_alpha measured) (mul (sub (one F) lim.ema_alpha) ema)

  pub params : Limits → Num → ExposureParams F
  params lim exp_min = record {
    target = lim.target;
    deadband = lim.deadband;
    damping = lim.damping;
    max_step_ratio = lim.max_step_ratio;
    exp_min = exp_min;
    exp_max = lim.max_exposure_us;
    g_min = lim.min_gain;
    g_max = lim.max_gain;
    gain_step = fmax F (one F) (mul lim.gain_step_frac (sub lim.max_gain lim.min_gain));
    highlight_priority = lim.highlight_priority;
  }

  -- What is written to the camera.
  pub record Writes : Type 0 where
    pub exposure : Option Num
    pub gain : Option Num

  abbrev pub no_writes : Writes
  no_writes = record { exposure = none; gain = none }

  abbrev written : Bool → Num → Option Num
  written b x = if b then some x else none

  abbrev pub writes_of : Num × Num → ExposureDecision F → Writes
  writes_of (exposure, gain) d = record {
    exposure = written (lt (one F) (fabs F (sub d.exposure exposure))) d.exposure;
    gain = written (lt (ratio 1 1000000) (fabs F (sub d.gain gain))) d.gain;
  }

  -- The writes up to one that throws, and whether none did, so that the clock is set.
  abbrev pub gain_thrown : Writes → Option Num → Writes × Bool
  gain_thrown w none = (w, true)
  gain_thrown w (some g) = (record w { gain = none }, false)

  abbrev pub exposure_thrown : Writes → Option Num → Writes × Bool
  exposure_thrown w none = (w, true)
  exposure_thrown w (some e) = (no_writes, false)

  abbrev pub attempted : Refusal → Writes → Writes × Bool
  attempted no_refusal w = (w, true)
  attempted exposure_refused w = exposure_thrown w w.exposure
  attempted gain_refused w = gain_thrown w w.gain

  module _ (damped : Num → Num → Num) where
    abbrev pub decided : Limits → Frame → Num × Num → Num → ExposureDecision F
    unfolding params
    decided lim f (exposure, gain) m =
        decide_exposure F damped m exposure gain (params lim f.exp_min)

    -- The clock is set after the writes.
    clocked : ℕ → Strategy → Writes × Bool → Strategy × Writes
    clocked now s (w, true) = (record s { last_change = some now }, w)
    clocked now s (w, false) = (s, w)

    adjust : Limits → Frame → Num → Strategy → Option (Num × Num) → Strategy × Writes
    unfolding clocked
    adjust lim f m s none = (s, no_writes)
    adjust lim f m s (some n) =
        let d = decided lim f n m in
        if d.changed then clocked f.now s (attempted f.refusal (writes_of n d)) else (s, no_writes)

    pub apply : Limits → Frame → Strategy → Strategy × Writes
    unfolding adjust
    apply lim f s0 =
        let m = smooth lim f.measured s0.measured_ema in
        let s : Strategy = record s0 { measured_ema = some m } in
        let changed = adjust lim f m s f.nodes in
        if throttled lim f.now s0.last_change || lt (fabs F (sub lim.target m)) lim.deadband
        then (s, no_writes)
        else changed

    wrote : Option Num → Option Num → Bool
    wrote none none = false
    wrote a b = true

    -- The times of the frames at which something was written.
    pub write_times : Limits → List Frame → Strategy → List ℕ
    unfolding apply wrote
    write_times lim [] s = []
    write_times lim (f ∷ fs) s =
        let (s', w) = apply lim f s in
        let rest = write_times lim fs s' in if wrote w.exposure w.gain then f.now ∷ rest else rest

  -- Each time is at least `n` after the one before it, the first after `t`, if any.
  pub Apart : ℕ → Option ℕ → List ℕ → Type 0
  Apart n t [] = Unit {0}
  Apart n none (u ∷ l) = Apart n (some u) l
  Apart n (some t) (u ∷ l) = (t + n ≤ u) × Apart n (some u) l

  Apart-nil : (n : ℕ) (t : Option ℕ) → Apart n t []
  unfolding Apart
  Apart-nil n none = tt
  Apart-nil n (some t) = tt

  Apart-earlier : (n t u : ℕ) (l : List ℕ) → t ≤ u → Apart n (some u) l → Apart n (some t) l
  unfolding Apart
  Apart-earlier n t u [] h a = tt
  Apart-earlier n t u (v ∷ l) h a = (omega (arith, h, a.0), a.1)

  Apart-any : (n u : ℕ) (l : List ℕ) → Apart n (some u) l → Apart n none l
  unfolding Apart
  Apart-any n u [] a = tt
  Apart-any n u (v ∷ l) a = a.1

  -- A step after a throttle that has run out.
  Apart-step :
      (lim : Limits) (now : ℕ) (last : Option ℕ) (b : Bool) (l : List ℕ)
      → throttled lim now last ≡ false
      → Apart lim.min_interval (some now) l
      → Apart lim.min_interval last (if b then now ∷ l else l)
  unfolding Apart
  Apart-step lim now none true l t a = a
  Apart-step lim now none false l t a = Apart-any lim.min_interval now l a
  Apart-step lim now (some u) true l t a = (ground (arith, t), a)
  Apart-step lim now (some u) false l t a =
      Apart-earlier lim.min_interval u now l (ground (arith, t)) a

  -- Without a refusal of the gain, the clock is set, or nothing is written.
  attempted_cases :
      (r : Refusal) (w : Writes)
      → refuses_gain r ≡ false
      → ((attempted r w).1 ≡ true) ⊎ ((attempted r w).0 ≡ no_writes)
  attempted_cases no_refusal w h = inl refl
  attempted_cases exposure_refused w h = elim (Option-cases w.exposure) [
    | inl e ↦ rw e (inl refl)
    | inr (x, e) ↦ rw e (inr refl)
  ]
  attempted_cases gain_refused w h = absurd (cc)

  module _ (damped : Num → Num → Num) where
    clocked_cases :
        (now : ℕ) (s : Strategy) (r : Writes × Bool)
        → (r.1 ≡ true) ⊎ (r.0 ≡ no_writes)
        → (clocked damped now s r ≡ (s, no_writes))
          ⊎ ((clocked damped now s r).0 ≡ record s { last_change = some now })
    unfolding clocked
    clocked_cases now s (w, true) h = inr refl
    clocked_cases now s (w, false) (inl h) = absurd (cc)
    clocked_cases now s (w, false) (inr h) = inl (ap (λ x. (s, x)) h)

    adjust-cases :
        (lim : Limits) (f : Frame) (m : Num) (s : Strategy) (n : Option (Num × Num))
        → refuses_gain f.refusal ≡ false
        → (adjust damped lim f m s n ≡ (s, no_writes))
          ⊎ ((adjust damped lim f m s n).0 ≡ record s { last_change = some f.now })
    unfolding adjust
    adjust-cases lim f m s none g = inl refl
    adjust-cases lim f m s (some n) g = elim (Bool-cases (decided damped lim f n m).changed) [
      | inl e ↦
          let w = writes_of n (decided damped lim f n m) in
          rw e (clocked_cases f.now s (attempted f.refusal w) (attempted_cases f.refusal w g))
      | inr e ↦ rw e (inl refl)
    ]

    -- A frame that refuses no gain either leaves the clock and the camera alone, or finds the throttle
    -- run out and sets the clock.
    apply-cases :
        (lim : Limits) (f : Frame) (s : Strategy)
        → refuses_gain f.refusal ≡ false
        → (((apply damped lim f s).0.last_change ≡ s.last_change)
            × ((apply damped lim f s).1 ≡ no_writes))
          ⊎ ((throttled lim f.now s.last_change ≡ false)
              × ((apply damped lim f s).0.last_change ≡ some f.now))
    unfolding apply
    apply-cases lim f s g =
        let m = smooth lim f.measured s.measured_ema in
        let s1 : Strategy = record s { measured_ema = some m } in
        elim (Bool-cases
          (throttled lim f.now s.last_change || lt (fabs F (sub lim.target m)) lim.deadband)) [
            | inl e ↦ rw e (inl (refl, refl))
            | inr e ↦ rw e (elim (adjust-cases lim f m s1 f.nodes g) [
              | inl a ↦ inl (ap (λ x. x.0.last_change) a, ap (λ x. x.1) a)
              | inr a ↦ inr (ground (arith, e), ap (λ x. x.last_change) a)
            ])
          ]

    -- Over frames of a camera none of which refuses its gain, whatever is measured, whatever the camera
    -- holds, and also where it refuses an exposure, the frames at which its exposure or gain is written
    -- are at least the minimal interval apart, and the first is that far from the last change before
    -- them.
    pub write_times-Apart :
        (lim : Limits) (fs : List Frame) (s : Strategy)
        → All (λ (f : Frame). refuses_gain f.refusal ≡ false) fs
        → Apart lim.min_interval s.last_change (write_times damped lim fs s)
    unfolding write_times wrote Apart
    write_times-Apart lim [] s g = Apart-nil lim.min_interval s.last_change
    write_times-Apart lim (f ∷ fs) s g =
        let (s', w) = apply damped lim f s in
        let rest = write_times-Apart lim fs s' g.1 in
        elim (apply-cases lim f s g.0) [
          | inl (e, n) ↦
              rw n (subst (λ t. Apart lim.min_interval t (write_times damped lim fs s')) e rest)
          | inr (t, e) ↦
              Apart-step lim f.now s.last_change (wrote damped w.exposure w.gain) _ t
                (subst (λ t. Apart lim.min_interval t (write_times damped lim fs s')) e rest)
        ]
