-- ===== src/GigE.antt =====
-- src/basler/GigEBandwidthCoordinator.cpp: which slot of its network interface each GigE camera
-- has, so that the cameras of one interface are staggered; and the live frame-rate adaptation of
-- include/lpr/basler/GigeRateAdapt.h is in the child Rate.
pub mod Slots
pub mod Reconnect
pub mod Rate
mod Tests
use lpr_refactored.Prelude.{
  ℕ, suc, ◌+◌, max, Bool, true, false, Option, none, some, List, [], ◌∷◌, if◌then◌else◌, Text,
  text_eq, Dict, lookup, insert, erase,
}

pub record Entry : Type 0 where
  pub nic_group : Text
  pub index : ℕ

pub record Coordinator : Type 0 where
  pub cams : Dict Entry
  pub next_index : Dict ℕ

unfoldable pub init : Coordinator
init = record { cams = []; next_index = [] }

-- `nextIndex_[group]`, which is 0 for a new group.
abbrev pub index_or_zero : Option ℕ → ℕ
index_or_zero none = 0
index_or_zero (some i) = i

unfoldable pub next_of : Text → Coordinator → ℕ
next_of group c = index_or_zero (lookup group c.next_index)

-- `nextIndex_[group]++` for the entry of a camera.
unfoldable pub assign : Text → Text → Coordinator → Coordinator × ℕ
unfolding next_of
assign serial group c =
    let i = next_of group c in
    (
      record {
        cams = insert serial (record { nic_group = group; index = i }) c.cams;
        next_index = insert group (i + 1) c.next_index;
      },
      i,
    )

unfoldable pub register_found : Text → Text → Option Entry → Coordinator → Coordinator × ℕ
unfolding assign
register_found serial group none c = assign serial group c
register_found serial group (some e) c =
    if text_eq e.nic_group group then (c, e.index) else assign serial group c

unfoldable pub register_camera : Text → Text → Coordinator → Coordinator × ℕ
unfolding register_found
register_camera serial group c = register_found serial group (lookup serial c.cams) c

unfoldable pub unregister_camera : Text → Coordinator → Coordinator
unregister_camera serial c = record c { cams = erase serial c.cams }

-- -1 in the source is `none`.
abbrev index_of : Option Entry → Option ℕ
index_of none = none
index_of (some e) = some e.index

pub index_in_group : Text → Coordinator → Option ℕ
index_in_group serial c = index_of (lookup serial c.cams)

abbrev pub count_entries : Text → Dict Entry → ℕ
count_entries group [] = 0
count_entries group ((s, e) ∷ cams) =
    let rest = count_entries group cams in if text_eq e.nic_group group then suc rest else rest

-- At least 1, since it divides the link's bandwidth.
unfoldable pub count_in_group : Text → Coordinator → ℕ
count_in_group group c = max 1 (count_entries group c.cams)

-- The calls of the camera threads.
pub data Call : Type 0 where
  register : Text → Text → Call
  unregister : Text → Call

unfoldable pub step : Call → Coordinator → Coordinator
step (register serial group) c = (register_camera serial group c).0
step (unregister serial) c = unregister_camera serial c

unfoldable pub run : List Call → Coordinator → Coordinator
run [] c = c
run (call ∷ calls) c = run calls (step call c)
