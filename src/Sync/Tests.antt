-- ===== src/Sync/Tests.antt =====
-- A camera whose nodes are registers of their own, and one with two triggers behind its selector.
use lpr_refactored.Prelude.{
  ℕ, ◌≡◌, refl, sym, ap, ◌∙◌, Bool, true, false, Option, none, some, arith, ◌==◌, ==_iff,
  if◌then◌else◌, Bool-cases, inl, inr,
}
use lpr_refactored.Sync.{
  Node, trigger_mode, trigger_source, trigger_activation, trigger_selector, line_selector,
  line_mode, line_source, node_number, same_node, Value, off, on, frame_start, same_value, Camera,
  triggered_slave, free_run, settings_of, configure, apply_settings, set_node,
}
use lpr_refactored.Sync.Held.{disturbs, IsDocumented, Holds, configure-Holds}

abbrev node_of : ℕ → Node
node_of n =
    if n == 0
    then trigger_mode
    else if n == 1
    then trigger_source
    else if n == 2
    then trigger_activation
    else if n == 3
    then trigger_selector
    else if n == 4
    then line_selector
    else if n == 5
    then line_mode
    else line_source

node_of-number : (n : Node) → node_of (node_number n) ≡ n
node_of-number trigger_mode = refl
node_of-number trigger_source = refl
node_of-number trigger_activation = refl
node_of-number trigger_selector = refl
node_of-number line_selector = refl
node_of-number line_mode = refl
node_of-number line_source = refl

same_node_sound : (m n : Node) → same_node m n ≡ true → m ≡ n
same_node_sound m n h =
    sym (node_of-number m)
    ∙ ap node_of ((==_iff (node_number m) (node_number n)).0 h)
    ∙ node_of-number n

abbrev set_register : Node → Value → (Node → Value) → Node → Value
set_register m v s n = if same_node m n then v else s n

abbrev registers : Camera
registers = record {
  State = Node → Value;
  write = λ n v s. some (set_register n v s);
  read = λ n s. some (s n);
}

-- The state that was written.
written_state : (n : Node) (s u t : Node → Value) → some u ≡ some t → t n ≡ u n
written_state n s u t e = ap (λ o. state_or o n) (sym e)
  where
    state_or : Option (Node → Value) → Node → Value
    state_or none = s
    state_or (some t) = t

register_idle : (m n : Node) (v : Value) (s : Node → Value) → s m ≡ v → set_register m v s n ≡ s n
register_idle m n v s h = elim (Bool-cases (same_node m n)) [
  | inl e ↦ rw e (sym h ∙ ap s (same_node_sound m n e))
  | inr e ↦ rw e refl
]

abbrev value_or : Value → Option Value → Value
value_or v none = v
value_or v (some w) = w

registers-IsDocumented : IsDocumented registers
registers-IsDocumented = record {
  keeps = λ m n v s t d e.
      ap some (written_state n s (set_register m v s) t e ∙ rw (not_same m n d) refl);
  idle = λ m n v s t r e.
      ap some
        (written_state n s (set_register m v s) t e ∙ register_idle m n v s (ap (value_or v) r));
}
  where
    not_same : (m n : Node) → disturbs m n ≡ false → same_node m n ≡ false
    not_same m n d = ground (arith, d)

abbrev frame_selected : Node → Value
frame_selected n = if same_node n trigger_selector then frame_start else off

configure-Holds_example :
    Holds registers
      (settings_of triggered_slave)
      (configure registers triggered_slave frame_selected).0
unfolding configure apply_settings set_node settings_of
configure-Holds_example =
    configure-Holds registers triggered_slave frame_selected registers-IsDocumented refl refl

-- The modes of the frame trigger and of another one, and whether the frame trigger is selected.
record Triggers : Type 0 where
  frame_mode : Value
  other_mode : Value
  selected : Bool

abbrev write_of : Node → Value → Triggers → Option Triggers
write_of trigger_mode v s = some (record s {
  frame_mode = if s.selected then v else s.frame_mode;
  other_mode = if s.selected then s.other_mode else v;
})
write_of trigger_selector v s = some (record s { selected = same_value v frame_start })
write_of n v s = none

abbrev read_of : Node → Triggers → Option Value
read_of trigger_mode s = some (if s.selected then s.frame_mode else s.other_mode)
read_of trigger_selector s = if s.selected then some frame_start else none
read_of n s = none

abbrev two_triggers : Camera
two_triggers = record { State = Triggers; write = write_of; read = read_of }

-- With the other trigger selected at first, a camera that says it runs free has its frame trigger on.
still_triggered :
    configure two_triggers free_run (record { frame_mode = on; other_mode = on; selected = false })
    ≡ (record { frame_mode = on; other_mode = off; selected = true }, true)
unfolding configure apply_settings set_node settings_of
still_triggered = refl
