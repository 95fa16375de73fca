-- ===== src/GigE/Rate/Range.antt =====
-- The frame rates that the adaptation and the coordinator give.
use lpr_refactored.Prelude.{
  ℕ, ◌^◌, ◌≡◌, true, false, List, [], ◌∷◌, arith, leb, Text, Bool-cases, inl, inr,
}
use lpr_refactored.Floats.{Float, fmax, fmin}
use lpr_refactored.GigE.{Coordinator, count_in_group}
use lpr_refactored.GigE.Rate.{AdaptConfig, Adapt, Grab, LinkConfig, safe_fps_for_group}

module _ (F : Float) where
  open F use {Num, lt, mul, div, ratio, lt_irrefl, lt_asymm, not_lt_trans}

  -- The two factors step the right way, at rates that are not below the floor.
  pub record IsSane (c : AdaptConfig F) : Type 0 where
    pub shrinks : (x : Num) → lt x c.min_fps ≡ false → lt x (mul x c.down_f) ≡ false
    pub grows : (x : Num) → lt x c.min_fps ≡ false → lt (mul x c.up_f) x ≡ false

  -- Every camera's own rate is at the floor or above it.
  abbrev pub RatesAbove : Num → List (Grab F) → Type 0
  RatesAbove m [] = Unit {0}
  RatesAbove m (g ∷ gs) = (lt g.frame_rate m ≡ false) × RatesAbove m gs

  -- The rate lies between the floor and the rate at connection, once that is known.
  pub record InRange (c : AdaptConfig F) (a : Adapt F) : Type 0 where
    pub above : a.inited ≡ true → lt a.cur c.min_fps ≡ false
    pub below : a.inited ≡ true → lt a.ceil a.cur ≡ false

  fmax_above : (a b : Num) → lt (fmax F a b) a ≡ false
  fmax_above a b = ground (arith, lt_irrefl a, lt_asymm a b)

  fmax_below : (a b c : Num) → lt c a ≡ false → lt c b ≡ false → lt c (fmax F a b) ≡ false
  fmax_below a b c h k = ground arith

  fmin_below : (a b : Num) → lt a (fmin F a b) ≡ false
  fmin_below a b = ground (arith, lt_irrefl a, lt_asymm b a)

  -- With a target of at least a tenth of a frame a second, the coordinator gives a camera never
  -- less than that tenth and never more than the target, however many cameras share the link.
  pub safe_fps_range :
      (cfg : LinkConfig F) (group : Text) (bytes : ℕ) (c : Coordinator)
      → lt cfg.target_fps (ratio 1 10) ≡ false
      → let fps = safe_fps_for_group F cfg group bytes c in
        (lt fps (ratio 1 10) ≡ false) × (lt cfg.target_fps fps ≡ false)
  unfolding safe_fps_for_group
  safe_fps_range cfg group bytes c h =
      let link = mul cfg.link_mbytes_per_sec (ratio (10 ^ 6) 1) in
      let cap = div (div link (ratio (count_in_group group c) 1)) (ratio bytes 1) in
      let fair = fmin F cfg.target_fps cap in
      elim (Bool-cases (leb bytes 0)) [
        | inl e ↦ rw e (h, lt_irrefl cfg.target_fps)
        | inr e ↦ rw e (
          fmax_above (ratio 1 10) fair,
          fmax_below (ratio 1 10) fair cfg.target_fps h (fmin_below cfg.target_fps cap),
        )
      ]
