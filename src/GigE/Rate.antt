-- ===== src/GigE/Rate.antt =====
-- `gigeAdaptDecide` of include/lpr/basler/GigeRateAdapt.h, its use for each grab in
-- src/basler/CapturePipeline.cpp (`adaptRate`), and `safeFpsForGroup` of
-- src/basler/GigEBandwidthCoordinator.cpp. Times are steady-clock milliseconds.
pub mod Range
use lpr_refactored.Prelude.{
  ℕ, suc, ◌+◌, ◌*◌, ◌^◌, Bool, true, false, not, ◌&&◌, ◌||◌, List, [], ◌∷◌, ltb, leb, if◌then◌else◌,
  Text,
}
use lpr_refactored.Floats.{Float, le, fmax, fmin}
use lpr_refactored.GigE.{Coordinator, count_in_group}

pub data Action : Type 0 where
  none throttle recover : Action

pub data GrabStatus : Type 0 where
  grabbed bad_frame timeout other_fault : GrabStatus

abbrev is_loss : GrabStatus → Bool
is_loss grabbed = false
is_loss bad_frame = true
is_loss timeout = true
is_loss other_fault = false

abbrev is_none : Action → Bool
is_none none = true
is_none throttle = false
is_none recover = false

module _ (F : Float) where
  open F use {Num, lt, mul, div, ratio}

  pub record AdaptConfig : Type 0 where
    pub down_pct : Num
    pub up_pct : Num
    pub down_f : Num
    pub up_f : Num
    pub min_fps : Num
    pub recover_ms : ℕ

  pub adapt_decide : Num → Num → ℕ → Num → ℕ → AdaptConfig → Action × Num
  adapt_decide cur ceil last_step loss now c =
      if le F c.down_pct loss && lt c.min_fps cur
      then (throttle, fmax F c.min_fps (mul cur c.down_f))
      else if le F loss c.up_pct && (lt cur ceil && leb (last_step + c.recover_ms) now)
      then (recover, fmin F ceil (mul cur c.up_f))
      else (none, cur)

  -- The members of `Adapt`.
  pub record Adapt : Type 0 where
    pub inited : Bool
    pub skip : Bool
    pub cur : Num
    pub ceil : Num
    pub grabs : ℕ
    pub bad : ℕ
    pub last_step : ℕ

  -- One grab of a camera: its frame rate and whether it is triggered, which the first grab reads,
  -- the grab's status, the time, and whether the camera accepts a new rate.
  pub record Grab : Type 0 where
    pub frame_rate : Num
    pub triggered : Bool
    pub status : GrabStatus
    pub now : ℕ
    pub accepts : Bool

  pub first_grab : Grab → Adapt → Adapt
  first_grab g a = if a.inited then a else record a {
    inited = true;
    cur = g.frame_rate;
    ceil = g.frame_rate;
    skip = le F g.frame_rate (ratio 0 1) || g.triggered;
  }

  -- The end of a window.
  pub close_window : AdaptConfig → Grab → Adapt → Adapt
  unfolding adapt_decide
  close_window c g a =
      let loss = div (mul (ratio 100 1) (ratio a.bad 1)) (ratio a.grabs 1) in
      let (action, new_fps) = adapt_decide a.cur a.ceil a.last_step loss g.now c in
      if not (is_none action) && g.accepts
      then record a { cur = new_fps; last_step = g.now; grabs = 0; bad = 0 }
      else record a { grabs = 0; bad = 0 }

  pub count_grab : Grab → Adapt → Adapt
  count_grab g a = record a {
    grabs = suc a.grabs;
    bad = if is_loss g.status then suc a.bad else a.bad;
  }

  pub adapt_rate : Bool → ℕ → AdaptConfig → Grab → Adapt → Adapt
  unfolding first_grab count_grab close_window
  adapt_rate enabled window c g a0 =
      let a = first_grab g a0 in
      let b = count_grab g a in
      if not enabled
      then a0
      else if a.skip
      then a
      else if ltb b.grabs window
      then b
      else close_window c g b

  pub adapt_all : Bool → ℕ → AdaptConfig → List Grab → Adapt → Adapt
  adapt_all enabled window c [] a = a
  adapt_all enabled window c (g ∷ gs) a =
      adapt_all enabled window c gs (adapt_rate enabled window c g a)

  pub record LinkConfig : Type 0 where
    pub link_mbytes_per_sec : Num
    pub target_fps : Num

  -- A frame size that is not positive is 0. The warnings that the code logs on the way are left out.
  pub safe_fps_for_group : LinkConfig → Text → ℕ → Coordinator → Num
  unfolding count_in_group
  safe_fps_for_group cfg group bytes_per_frame c =
      let link = mul cfg.link_mbytes_per_sec (ratio (10 ^ 6) 1) in
      let per_cam = div link (ratio (count_in_group group c) 1) in
      let cap = div per_cam (ratio bytes_per_frame 1) in
      if leb bytes_per_frame 0
      then cfg.target_fps
      else fmax F (ratio 1 10) (fmin F cfg.target_fps cap)
