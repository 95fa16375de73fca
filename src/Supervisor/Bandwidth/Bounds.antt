-- ===== src/Supervisor/Bandwidth/Bounds.antt =====
-- The limits within which a camera of a shared link is tuned.
use lpr_refactored.Prelude.{ℕ, ◌≡◌, ◌≤◌, Bool, true, Option, arith, both_branches, Text}
use lpr_refactored.Floats.{Float, le}
use lpr_refactored.GigE.{Coordinator}
use lpr_refactored.Commands.Aoi.{clamp_low, clamp_high}
use lpr_refactored.Supervisor.Bandwidth.{
  Node, write_node, Link, RateNode, Camera, clamp_rate, write_rate, with_rate, cap_rate,
  tune_packets, apply_bandwidth, sharing, stagger_index,
}

pub record Within (n : Node) : Type 0 where
  pub low : n.least ≤ n.val
  pub high : n.val ≤ n.most

write_node-Within : (v : ℕ) (n : Node) → Within n → Within (write_node v n)
write_node-Within v n w = record {
  low = ground (arith, clamp_low v n.least n.most (omega (arith, w.low, w.high)), w.low);
  high = ground (arith, clamp_high v n.least n.most (omega (arith, w.low, w.high)), w.high);
}

module _ (F : Float) (truncated : F.Num → ℕ) where
  open F use {Num, lt}

  pub record RateWithin (n : RateNode F truncated) : Type 0 where
    pub low : le F n.least n.val ≡ true
    pub high : le F n.val n.most ≡ true

  -- The nodes of a camera hold values within their limits.
  pub record IsSound (c : Camera F truncated) : Type 0 where
    pub packet_size : Within c.packet_size
    pub packet_delay : Within c.packet_delay
    pub frame_delay : Within c.frame_delay
    pub reserve : Within c.reserve
    pub rate : RateWithin c.rate
    pub rate_abs : RateWithin c.rate_abs

  write_rate-RateWithin :
      (v : Num) (n : RateNode F truncated) → RateWithin n → RateWithin (write_rate F truncated v n)
  unfolding clamp_rate
  write_rate-RateWithin v n w = record {
    low = ground (
      arith,
      F.lt_irrefl n.least,
      F.lt_asymm n.least v,
      F.lt_asymm n.most v,
      F.not_lt_trans n.least n.val n.most,
      w.low,
      w.high,
    );
    high = ground (
      arith,
      F.lt_irrefl n.most,
      F.lt_asymm v n.least,
      F.not_lt_trans n.least n.val n.most,
      w.low,
      w.high,
    );
  }

  tune_packets-IsSound :
      (cfg : Link) (o : Option ℕ) (n idx : ℕ) (c : Camera F truncated)
      → IsSound c
      → IsSound (tune_packets F truncated cfg o n idx c)
  unfolding tune_packets
  tune_packets-IsSound cfg o n idx c s = record {
    packet_size = write_node-Within _ c.packet_size s.packet_size;
    packet_delay = write_node-Within _ c.packet_delay s.packet_delay;
    frame_delay = write_node-Within _ c.frame_delay s.frame_delay;
    reserve = write_node-Within _ c.reserve s.reserve;
    rate = s.rate;
    rate_abs = s.rate_abs;
  }

  with_rate-IsSound :
      (v : Num) (c : Camera F truncated) → IsSound c → IsSound (with_rate F truncated v c)
  with_rate-IsSound v c s =
      both_branches IsSound c.rate.writable
        (record {
          packet_size = s.packet_size;
          packet_delay = s.packet_delay;
          frame_delay = s.frame_delay;
          reserve = s.reserve;
          rate = write_rate-RateWithin v c.rate s.rate;
          rate_abs = s.rate_abs;
        })
        (both_branches IsSound c.rate_abs.writable
          (record {
            packet_size = s.packet_size;
            packet_delay = s.packet_delay;
            frame_delay = s.frame_delay;
            reserve = s.reserve;
            rate = s.rate;
            rate_abs = write_rate-RateWithin v c.rate_abs s.rate_abs;
          })
          (record {
            packet_size = s.packet_size;
            packet_delay = s.packet_delay;
            frame_delay = s.frame_delay;
            reserve = s.reserve;
            rate = s.rate;
            rate_abs = s.rate_abs;
          }))

  cap_rate-IsSound :
      (cfg : Link) (n : ℕ) (c : Camera F truncated)
      → IsSound c
      → IsSound (cap_rate F truncated cfg n c)
  unfolding cap_rate
  cap_rate-IsSound cfg n c s = both_branches IsSound _ (with_rate-IsSound _ c s) s

  -- Whatever the settings, the link and the other cameras, the values that are written to a camera
  -- lie within the limits of its nodes: the packet size, the two delays and the reserve, and the
  -- frame rate in either of its nodes. The nodes held values within their limits before.
  pub apply_bandwidth-IsSound :
      (cfg : Link) (serial nic : Text) (o : Option ℕ) (t : Bool) (coord : Coordinator)
      (c : Camera F truncated)
      → IsSound c
      → IsSound (apply_bandwidth F truncated cfg serial nic o t coord c).1
  unfolding apply_bandwidth
  apply_bandwidth-IsSound cfg serial nic o t coord c s =
      let u =
        tune_packets-IsSound cfg o (sharing cfg nic coord) (stagger_index serial nic coord).1 c s in
      both_branches IsSound t u (cap_rate-IsSound cfg (sharing cfg nic coord) _ u)
