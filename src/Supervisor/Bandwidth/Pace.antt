-- ===== src/Supervisor/Bandwidth/Pace.antt =====
-- The frame rate of a camera, by the settings and by its trigger.
use lpr_refactored.Prelude.{
  ℕ, ◌≡◌, ◌<◌, refl, Bool, true, false, ◌⊎◌, inl, inr, Option, arith, lt→ltb, ltb→lt, ltb,
  Bool-cases, sym, subst, both_branches, Text,
}
use lpr_refactored.Floats.{Float, fmin}
use lpr_refactored.GigE.{Coordinator}
use lpr_refactored.Supervisor.Bandwidth.{
  Link, RateNode, Camera, clamp_rate, write_rate, capped_rate, with_rate, with_modern, with_legacy,
  enabled, cap_rate, tune_packets, apply_bandwidth, sharing, stagger_index,
}

module _ (F : Float) (truncated : F.Num → ℕ) where
  open F use {Num, lt}

  fmin-Capped : (a b : Num) → lt b (fmin F a b) ≡ false
  fmin-Capped a b = ground (arith, F.lt_irrefl b)

  capped_rate-Capped :
      (cfg : Link) (b : Num) (p : ℕ)
      → 0 < cfg.frame_rate_cap
      → lt (F.ratio cfg.frame_rate_cap 1) (capped_rate F truncated cfg b p) ≡ false
  unfolding capped_rate
  capped_rate-Capped cfg b p h =
      rw (lt→ltb 0 cfg.frame_rate_cap h) (fmin-Capped _ (F.ratio cfg.frame_rate_cap 1))

  abbrev pub cap_of : Link → Num
  cap_of cfg = F.ratio cfg.frame_rate_cap 1

  -- Not above the cap, unless the camera can do no less.
  abbrev pub Capped : Num → RateNode F truncated → Type 0
  Capped cap n = (lt cap n.val ≡ false) ⊎ (n.val ≡ n.least)

  -- A node was left, or keeps to the cap, if there is one.
  abbrev pub Kept : Bool → Num → RateNode F truncated → RateNode F truncated → Type 0
  Kept false cap n m = Unit
  Kept true cap n m = (m ≡ n) ⊎ Capped cap m

  -- What becomes of a camera that is triggered, and of one that is not.
  unfoldable pub IsPaced : Link → Bool → Camera F truncated → Camera F truncated → Type 0
  IsPaced cfg true c d =
      (d.rate ≡ c.rate) × (d.rate_abs ≡ c.rate_abs) × (d.rate_enabled ≡ c.rate_enabled)
  IsPaced cfg false c d =
      Kept (ltb 0 cfg.frame_rate_cap) (cap_of cfg) c.rate d.rate
      × Kept (ltb 0 cfg.frame_rate_cap) (cap_of cfg) c.rate_abs d.rate_abs

  clamp_rate-Capped :
      (v cap : Num) (n : RateNode F truncated)
      → lt cap v ≡ false
      → Capped cap (write_rate F truncated v n)
  unfolding write_rate clamp_rate
  clamp_rate-Capped v cap n k = elim (Bool-cases (lt v n.least)) [
    | inl e ↦ rw e (inr refl)
    | inr e ↦ rw e (inl (ground (arith, k, F.lt_asymm n.most v, F.not_lt_trans n.most v cap)))
  ]

  Kept-same : (b : Bool) (cap : Num) (n : RateNode F truncated) → Kept b cap n n
  Kept-same false cap n = tt
  Kept-same true cap n = inl refl

  Kept-written :
      (cfg : Link) (b : Num) (p : ℕ) (n : RateNode F truncated)
      → Kept
          (ltb 0 cfg.frame_rate_cap)
          (cap_of cfg)
          n
          (write_rate F truncated (capped_rate F truncated cfg b p) n)
  Kept-written cfg b p n =
      let m = write_rate F truncated (capped_rate F truncated cfg b p) n in
      elim (Bool-cases (ltb 0 cfg.frame_rate_cap)) [
        | inl e ↦
            subst (λ t. Kept t (cap_of cfg) n m) (sym e)
              (inr (
                clamp_rate-Capped _ (cap_of cfg) n
                  (capped_rate-Capped cfg b p (ltb→lt 0 cfg.frame_rate_cap e))))
        | inr e ↦ subst (λ t. Kept t (cap_of cfg) n m) (sym e) tt
      ]

  with_rate-IsPaced :
      (cfg : Link) (b : Num) (p : ℕ) (c : Camera F truncated)
      → IsPaced cfg false c (with_rate F truncated (capped_rate F truncated cfg b p) c)
  unfolding IsPaced
  with_rate-IsPaced cfg b p c =
      let v = capped_rate F truncated cfg b p in
      let has_cap = ltb 0 cfg.frame_rate_cap in
      both_branches (IsPaced cfg false c) c.rate.writable {x = with_modern F truncated v c}
        (Kept-written cfg b p c.rate, Kept-same has_cap (cap_of cfg) c.rate_abs)
        (both_branches (IsPaced cfg false c) c.rate_abs.writable {x = with_legacy F truncated v c}
          {y = enabled F truncated c}
          (Kept-same has_cap (cap_of cfg) c.rate, Kept-written cfg b p c.rate_abs)
          (Kept-same has_cap (cap_of cfg) c.rate, Kept-same has_cap (cap_of cfg) c.rate_abs))

  -- A triggered camera keeps its frame rate, which its trigger decides. Of another one, with a cap
  -- in the settings, each node of the frame rate is left as it was, or is not above the cap, or is
  -- the least rate of the camera, whatever the budget.
  pub apply_bandwidth-IsPaced :
      (cfg : Link) (serial nic : Text) (o : Option ℕ) (t : Bool) (coord : Coordinator)
      (c : Camera F truncated)
      → IsPaced cfg t c (apply_bandwidth F truncated cfg serial nic o t coord c).1
  unfolding apply_bandwidth tune_packets cap_rate IsPaced
  apply_bandwidth-IsPaced cfg serial nic o true coord c = (refl, refl, refl)
  apply_bandwidth-IsPaced cfg serial nic o false coord c =
      let d =
        tune_packets F truncated cfg o (sharing cfg nic coord) (stagger_index serial nic coord).1
          c in
      let has_cap = ltb 0 cfg.frame_rate_cap in
      both_branches (IsPaced cfg false c) _ {x = with_rate F truncated _ d} {y = d}
        (with_rate-IsPaced cfg _ _ d)
        (Kept-same has_cap (cap_of cfg) c.rate, Kept-same has_cap (cap_of cfg) c.rate_abs)
