-- ===== src/Supervisor/Bandwidth.antt =====
-- src/basler/ConnectionSupervisor.cpp, applyBandwidth: the packets, delays and the frame rate of one
-- camera, so that the cameras of a network interface share its link. A node of the camera keeps what
-- is written to it; an unreadable number is 0 where the code takes 0 for it. Nodes that throw are left
-- out.
pub mod Bounds
pub mod Pace
pub mod Stagger
mod Tests
use lpr_refactored.Prelude.{
  ℕ, ◌+◌, ◌-◌, ◌*◌, min, max, Bool, true, false, ◌&&◌, Option, none, some, ltb, if◌then◌else◌, Text,
}
use lpr_refactored.Floats.{Float, fmin}
use lpr_refactored.GigE.{Coordinator, count_in_group, register_camera}
use lpr_refactored.Commands.Aoi.{clamp}

-- An integer node, from 0.
pub record Node : Type 0 where
  pub readable : Bool
  pub writable : Bool
  pub least : ℕ
  pub most : ℕ
  pub val : ℕ

abbrev pub write_node : ℕ → Node → Node
write_node v n = record n { val = if n.writable then clamp v n.least n.most else n.val }

-- The settings, with their defaults; a number that is not positive is 0.
pub record Link : Type 0 where
  pub num_camera : ℕ
  pub packet_size : ℕ
  pub packet_overhead : ℕ
  pub link_mbytes_per_sec : ℕ
  pub scpd_floor : ℕ
  pub bw_reserve_pct : ℕ
  pub fps_safety_pct : ℕ
  pub frame_rate_cap : ℕ

-- The slot of a camera, within the cameras that its interface has had.
pub stagger_index : Text → Text → Coordinator → Coordinator × ℕ
stagger_index serial nic c =
    let r = register_camera serial nic c in (r.0, min r.1 (count_in_group nic c - 1))

-- How many cameras share the link.
pub sharing : Link → Text → Coordinator → ℕ
sharing cfg nic c = if ltb 0 cfg.num_camera then cfg.num_camera else count_in_group nic c

abbrev pub or_global : ℕ → Option ℕ → ℕ
or_global size none = size
or_global size (some n) = if ltb 0 n then n else size

abbrev pub readings : Node → ℕ → ℕ
readings n v = if n.readable then n.val else v

module _ (F : Float) (truncated : F.Num → ℕ) where
  open F use {Num, lt, add, mul, div, ratio}

  pub record RateNode : Type 0 where
    pub readable : Bool
    pub writable : Bool
    pub least : Num
    pub most : Num
    pub val : Num

  pub record Camera : Type 0 where
    pub channel_writable : Bool
    pub channel : ℕ
    pub packet_size : Node
    pub packet_delay : Node  -- GevSCPD
    pub frame_delay : Node  -- GevSCFTD
    pub reserve : Node
    pub link_speed : ℕ  -- Mbps
    pub tick_frequency : ℕ
    pub payload : ℕ
    pub assigned : ℕ → ℕ → ℕ → ℕ  -- GevSCBWA, by the packet size, its delay and the reserve
    pub rate_enable_writable : Bool
    pub rate_enabled : Bool
    pub rate : RateNode
    pub rate_abs : RateNode

  abbrev pub whole : ℕ → Num
  whole n = ratio n 1

  -- std::clamp of doubles.
  pub clamp_rate : Num → RateNode → Num
  clamp_rate v n = if lt v n.least then n.least else if lt n.most v then n.most else v

  abbrev pub write_rate : Num → RateNode → RateNode
  unfolding clamp_rate
  write_rate v n = record n { val = clamp_rate v n }

  -- The usable bytes per second of the link.
  pub link_rate : Link → Camera → Num
  link_rate cfg c =
      let speed = if ltb 0 c.link_speed then c.link_speed else 1000 in
      if ltb 0 cfg.link_mbytes_per_sec
      then mul (whole cfg.link_mbytes_per_sec) (whole 1000000)
      else mul (div (mul (whole speed) (whole 1000000)) (whole 8)) (ratio 72 100)

  -- The frames per second that a budget carries, with the safety margin and the cap of the settings.
  pub capped_rate : Link → Num → ℕ → Num
  capped_rate cfg budget payload =
      let pct = clamp cfg.fps_safety_pct 10 100 in
      let fps = mul (div budget (whole payload)) (div (whole pct) (whole 100)) in
      if ltb 0 cfg.frame_rate_cap then fmin F fps (whole cfg.frame_rate_cap) else fps

  abbrev pub target_rate : Link → ℕ → Camera → Num
  unfolding link_rate capped_rate
  target_rate cfg n c =
      let budget = div (link_rate cfg c) (whole n) in
      if ltb 0 c.payload && lt (whole 0) budget then capped_rate cfg budget c.payload else whole 0

  -- The inter-packet delay of one of so many cameras, in ticks.
  pub packet_delay_of : Link → ℕ → ℕ → Camera → ℕ
  unfolding link_rate
  packet_delay_of cfg n slot c =
      if ltb n 2
      then cfg.scpd_floor
      else if ltb 0 c.tick_frequency && lt (whole 0) (link_rate cfg c)
      then truncated
          (mul (mul (div (whole slot) (link_rate cfg c)) (whole (n - 1))) (whole c.tick_frequency))
      else slot * (n - 1)

  abbrev pub rate_or_current : Num → Camera → Num
  rate_or_current fps c =
      if lt (ratio 1 10) fps
      then fps
      else if c.rate.readable
      then c.rate.val
      else if c.rate_abs.readable
      then c.rate_abs.val
      else fps

  -- The delay of a camera's frames, in ticks.
  pub frame_delay_of : Link → ℕ → ℕ → ℕ → Camera → ℕ
  unfolding target_rate
  frame_delay_of cfg n idx slot c =
      let fps = rate_or_current (target_rate cfg n c) c in
      if ltb 0 c.tick_frequency && lt (ratio 1 10) fps
      then truncated
          (mul (mul (div (div (whole 1) fps) (whole n)) (whole idx)) (whole c.tick_frequency))
      else slot * idx

  -- Both nodes of the frame rate need it enabled.
  abbrev pub enabled : Camera → Camera
  enabled c = record c { rate_enabled = if c.rate_enable_writable then true else c.rate_enabled }

  abbrev pub with_modern : Num → Camera → Camera
  with_modern v c = record (enabled c) { rate = write_rate v c.rate }

  abbrev pub with_legacy : Num → Camera → Camera
  with_legacy v c = record (enabled c) { rate_abs = write_rate v c.rate_abs }

  abbrev pub with_rate : Num → Camera → Camera
  with_rate v c =
      if c.rate.writable
      then with_modern v c
      else if c.rate_abs.writable
      then with_legacy v c
      else enabled c

  -- The cap of the frame rate, by what the camera says it is assigned.
  pub cap_rate : Link → ℕ → Camera → Camera
  unfolding link_rate capped_rate
  cap_rate cfg n c =
      let bwa = c.assigned c.packet_size.val c.packet_delay.val c.reserve.val in
      let budget = if ltb 0 bwa then whole bwa else div (link_rate cfg c) (whole n) in
      if ltb 0 c.payload && lt (whole 0) budget
      then with_rate (capped_rate cfg budget c.payload) c
      else c

  -- The nodes of the packets, of one of so many cameras.
  pub tune_packets : Link → Option ℕ → ℕ → ℕ → Camera → Camera
  unfolding packet_delay_of frame_delay_of
  tune_packets cfg override n idx c0 =
      let want = or_global cfg.packet_size override in
      let c = record c0 {
        channel = if c0.channel_writable then 0 else c0.channel;
        packet_size = write_node want c0.packet_size;
      } in
      let slot = readings c.packet_size want + cfg.packet_overhead in
      record c {
        packet_delay = write_node (packet_delay_of cfg n slot c) c.packet_delay;
        frame_delay = write_node (frame_delay_of cfg n idx slot c) c.frame_delay;
        reserve = write_node cfg.bw_reserve_pct c.reserve;
      }

  -- `applyBandwidth`, with the packet size that the camera is pinned to and whether it is triggered.
  pub apply_bandwidth :
      Link → Text → Text → Option ℕ → Bool → Coordinator → Camera → Coordinator × Camera
  unfolding stagger_index sharing tune_packets cap_rate
  apply_bandwidth cfg serial nic override trigger_on coord c =
      let n = sharing cfg nic coord in
      let s = stagger_index serial nic coord in
      let tuned = tune_packets cfg override n s.1 c in
      (s.0, if trigger_on then tuned else cap_rate cfg n tuned)
