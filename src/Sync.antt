-- ===== src/Sync.antt =====
-- src/basler/SyncConfigurators.cpp: the nodes that give a camera its part in the synchronisation, each
-- written and read back, of a camera that is an interface. A camera that cannot be opened is left out.
pub mod Held
mod Tests
use lpr_refactored.Prelude.{
  ℕ, ◌≡◌, Bool, true, false, not, ◌&&◌, ◌||◌, Option, none, some, List, [], ◌∷◌, ◌==◌,
}

pub data Node : Type 0 where
  trigger_mode : Node
  trigger_source : Node
  trigger_activation : Node
  trigger_selector : Node
  line_selector : Node
  line_mode : Node
  line_source : Node

pub data Value : Type 0 where
  off : Value
  on : Value
  line1 : Value
  line2 : Value
  software : Value
  rising_edge : Value
  frame_start : Value
  output : Value
  exposure_active : Value

abbrev pub node_number : Node → ℕ
node_number trigger_mode = 0
node_number trigger_source = 1
node_number trigger_activation = 2
node_number trigger_selector = 3
node_number line_selector = 4
node_number line_mode = 5
node_number line_source = 6

abbrev pub value_number : Value → ℕ
value_number off = 0
value_number on = 1
value_number line1 = 2
value_number line2 = 3
value_number software = 4
value_number rising_edge = 5
value_number frame_start = 6
value_number output = 7
value_number exposure_active = 8

abbrev pub same_node : Node → Node → Bool
same_node m n = node_number m == node_number n

abbrev pub same_value : Value → Value → Bool
same_value v w = value_number v == value_number w

-- A write is `none` where the node is not writable or the camera refuses.
pub record Camera : Type 1 where
  pub State : Type 0
  pub write : Node → Value → State → Option State
  pub read : Node → State → Option Value

pub record Setting : Type 0 where
  pub node : Node
  pub value : Value
  pub required : Bool

abbrev pub required_node : Node → Value → Setting
required_node n v = record { node = n; value = v; required = true }

abbrev pub optional_node : Node → Value → Setting
optional_node n v = record { node = n; value = v; required = false }

pub data Role : Type 0 where
  exposure_active_output : Role
  triggered_slave : Role
  software_trigger : Role
  free_run : Role

-- The writes of a role, in their order. The slave's last one is that of logLineStatus.
pub settings_of : Role → List Setting
settings_of exposure_active_output =
    required_node trigger_mode off
    ∷ required_node line_selector line2
    ∷ required_node line_mode output
    ∷ required_node line_source exposure_active
    ∷ optional_node trigger_selector frame_start
    ∷ []
settings_of triggered_slave =
    required_node trigger_mode on
    ∷ required_node trigger_source line1
    ∷ required_node trigger_activation rising_edge
    ∷ optional_node trigger_selector frame_start
    ∷ optional_node line_selector line1
    ∷ []
settings_of software_trigger =
    required_node trigger_mode on
    ∷ required_node trigger_source software
    ∷ optional_node trigger_selector frame_start
    ∷ []
settings_of free_run =
    required_node trigger_mode off ∷ optional_node trigger_selector frame_start ∷ []

module _ (C : Camera) where
  open C use {State, write, read}

  abbrev pub reads : Option Value → Value → Bool
  reads none v = false
  reads (some w) v = same_value w v

  abbrev pub written : Node → Value → State → Option State → State × Bool
  written n v s none = (s, false)
  written n v s (some t) = (t, reads (read n t) v)

  -- `setNode`: whether the camera holds the value that was asked for.
  pub set_node : Node → Value → State → State × Bool
  set_node n v s = written n v s (write n v s)

  pub apply_settings : List Setting → State → State × Bool
  unfolding set_node
  apply_settings [] s = (s, true)
  apply_settings (x ∷ xs) s =
      let r = set_node x.node x.value s in
      let rest = apply_settings xs r.0 in (rest.0, (r.1 || not x.required) && rest.1)

  -- `configure` of a role.
  pub configure : Role → State → State × Bool
  unfolding apply_settings settings_of
  configure role s = apply_settings (settings_of role) s
