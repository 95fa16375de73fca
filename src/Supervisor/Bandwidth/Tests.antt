-- ===== src/Supervisor/Bandwidth/Tests.antt =====
-- A camera on a gigabit link, with natural numbers for the doubles, and three cameras on it.
use lpr_refactored.Prelude.{
  ℕ, ◌≡◌, ◌≢◌, refl, ap, true, false, none, some, List, [], ◌∷◌, Text, codes, text_eq, lookup,
  arith, insert,
}
use lpr_refactored.Floats.{naturals}
use lpr_refactored.GigE.{Entry, init, run, register_camera, step, assign, next_of, register_found}
use lpr_refactored.Supervisor.Bandwidth.{
  Node, Link, RateNode, Camera, stagger_index, apply_bandwidth,
}
use lpr_refactored.Supervisor.Bandwidth.Bounds.{IsSound, apply_bandwidth-IsSound}
use lpr_refactored.Supervisor.Bandwidth.Pace.{IsPaced, apply_bandwidth-IsPaced}
use lpr_refactored.Supervisor.Bandwidth.Stagger.{connections, stagger_index-Apart}

abbrev node : ℕ → ℕ → ℕ → Node
node least most val = record {
  readable = true;
  writable = true;
  least = least;
  most = most;
  val = val;
}

abbrev same : ℕ → ℕ
same n = n

abbrev rate_node : RateNode naturals same
rate_node = record { readable = true; writable = true; least = 1; most = 60; val = 30 }

abbrev camera : Camera naturals same
camera = record {
  channel_writable = true;
  channel = 1;
  packet_size = node 220 9000 1500;
  packet_delay = node 0 100000 0;
  frame_delay = node 0 100000000 0;
  reserve = node 0 100 10;
  link_speed = 1000;
  tick_frequency = 125000000;
  payload = 2304000;
  assigned = λ size delay reserve. 0;
  rate_enable_writable = true;
  rate_enabled = false;
  rate = rate_node;
  rate_abs = rate_node;
}

abbrev settings : Link
settings = record {
  num_camera = 3;
  packet_size = 8960;
  packet_overhead = 36;
  link_mbytes_per_sec = 0;
  scpd_floor = 2000;
  bw_reserve_pct = 18;
  fps_safety_pct = 85;
  frame_rate_cap = 12;
}

camera-IsSound : IsSound naturals same camera
camera-IsSound = record {
  packet_size = record { low = omega arith; high = omega arith };
  packet_delay = record { low = omega arith; high = omega arith };
  frame_delay = record { low = omega arith; high = omega arith };
  reserve = record { low = omega arith; high = omega arith };
  rate = record { low = refl; high = refl };
  rate_abs = record { low = refl; high = refl };
}

apply_bandwidth-IsSound_example :
    IsSound naturals same
      (apply_bandwidth naturals same settings
        (codes "a")
        (codes "n")
        (some 1500)
        false
        init
        camera).1
apply_bandwidth-IsSound_example =
    apply_bandwidth-IsSound naturals same settings (codes "a") (codes "n") (some 1500) false init
      camera camera-IsSound

apply_bandwidth-IsPaced_example :
    IsPaced naturals same settings false camera
      (apply_bandwidth naturals same settings (codes "a") (codes "n") none false init camera).1
apply_bandwidth-IsPaced_example =
    apply_bandwidth-IsPaced naturals same settings (codes "a") (codes "n") none false init camera

abbrev one_interface : Text → Text
one_interface s = codes "n"

abbrev serials : List Text
serials = codes "a" ∷ codes "b" ∷ codes "c" ∷ []

abbrev slot : ℕ → Entry
slot i = record { nic_group = codes "n"; index = i }

different : codes "b" ≢ codes "c"
unfolding text_eq
different e = let f : true ≡ false = ap (text_eq (codes "b")) e in absurd (cc)

stagger_index-Apart_example :
    (stagger_index (codes "b") (codes "n") (run (connections one_interface serials) init)).1
    ≢ (stagger_index (codes "c") (codes "n") (run (connections one_interface serials) init)).1
unfolding run connections step register_camera register_found assign next_of init lookup insert
    text_eq
stagger_index-Apart_example =
    stagger_index-Apart one_interface serials (codes "b") (codes "c") (slot 1) (slot 2) refl refl
      refl different
