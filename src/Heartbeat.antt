-- ===== src/Heartbeat.antt =====
-- src/net/HeartbeatMonitor.cpp: the loop of `run`, which sends a heartbeat and the resource figures
-- at their own periods. A period that is not positive is 0. What is sent is the message kind; its
-- JSON text is built by the JSON library.
pub mod Period
mod Tests
use lpr_refactored.Prelude.{
  ℕ, zero, suc, ◌+◌, Bool, true, false, List, [], ◌∷◌, ◌++◌, leb, if◌then◌else◌,
}

pub record Config : Type 0 where
  pub interval_ms : ℕ
  pub resources_interval_ms : ℕ

pub data Sent : Type 0 where
  heartbeat resources : Sent

-- The local variables of `run`.
pub record Timers : Type 0 where
  pub since_heartbeat : ℕ
  pub since_resources : ℕ

-- Both are due at the start.
pub start : Config → Timers
start cfg = record {
  since_heartbeat = cfg.interval_ms;
  since_resources = cfg.resources_interval_ms;
}

abbrev pub step_ms : ℕ
step_ms = 50

abbrev pub advance : ℕ → ℕ → ℕ
advance interval since = (if leb interval since then 0 else since) + step_ms

-- One round of the loop, with what it sends.
pub round : Config → Timers → Timers × List Sent
round cfg t = (
  record {
    since_heartbeat = advance cfg.interval_ms t.since_heartbeat;
    since_resources = advance cfg.resources_interval_ms t.since_resources;
  },
  (if leb cfg.interval_ms t.since_heartbeat then heartbeat ∷ [] else [])
      ++ (if leb cfg.resources_interval_ms t.since_resources then resources ∷ [] else []),
)

-- So many rounds, until `running_` is cleared.
pub rounds : Config → ℕ → Timers → List Sent
unfolding round
rounds cfg zero t = []
rounds cfg (suc n) t = let (t', sent) = round cfg t in sent ++ rounds cfg n t'
