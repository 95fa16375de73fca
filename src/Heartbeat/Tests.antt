-- ===== src/Heartbeat/Tests.antt =====
-- A heartbeat each 120 ms.
use lpr_refactored.Prelude.{◌≡◌, refl}
use lpr_refactored.Heartbeat.{Config, start, rounds}
use lpr_refactored.Heartbeat.Period.{count_heartbeats}

abbrev periods : Config
periods = record { interval_ms = 120; resources_interval_ms = 1000 }

seven_rounds : count_heartbeats (rounds periods 7 (start periods)) ≡ 3
unfolding start rounds count_heartbeats
seven_rounds = refl
