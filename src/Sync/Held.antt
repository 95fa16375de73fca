-- ===== src/Sync/Held.antt =====
-- What a camera holds that says it is configured.
use lpr_refactored.Prelude.{
  ℕ, ◌≡◌, refl, sym, ap, ◌∙◌, Bool, true, false, not, ◌||◌, ◌⊎◌, inl, inr, Option, none, some, List,
  [], ◌∷◌, arith, ◌==◌, ==_iff, if◌then◌else◌, All,
}
use lpr_refactored.Sync.{
  Node, trigger_mode, trigger_source, trigger_activation, trigger_selector, line_selector,
  line_mode, line_source, same_node, Value, off, on, line1, line2, software, rising_edge,
  frame_start, output, exposure_active, value_number, Camera, Setting, Role, exposure_active_output,
  triggered_slave, software_trigger, free_run, settings_of, same_value, reads, written, set_node,
  apply_settings, configure,
}

-- The nodes that show another register when a selector changes.
abbrev pub selects : Node → Node → Bool
selects trigger_selector n =
    same_node n trigger_mode || (same_node n trigger_source || same_node n trigger_activation)
selects line_selector n = same_node n line_mode || same_node n line_source
selects m n = false

-- A write of one node can change what another one reads.
abbrev pub disturbs : Node → Node → Bool
disturbs m n = same_node m n || selects m n

abbrev value_of : ℕ → Value
value_of n =
    if n == 0
    then off
    else if n == 1
    then on
    else if n == 2
    then line1
    else if n == 3
    then line2
    else if n == 4
    then software
    else if n == 5
    then rising_edge
    else if n == 6
    then frame_start
    else if n == 7
    then output
    else exposure_active

value_of-number : (v : Value) → value_of (value_number v) ≡ v
value_of-number off = refl
value_of-number on = refl
value_of-number line1 = refl
value_of-number line2 = refl
value_of-number software = refl
value_of-number rising_edge = refl
value_of-number frame_start = refl
value_of-number output = refl
value_of-number exposure_active = refl

same_value_sound : (v w : Value) → same_value v w ≡ true → v ≡ w
same_value_sound v w h =
    sym (value_of-number v)
    ∙ ap value_of ((==_iff (value_number v) (value_number w)).0 h)
    ∙ value_of-number w

-- A write that leaves what a node reads: of another node which does not select it, or of the frame
-- trigger to the selector of the triggers.
abbrev pub IsHarmless : Node → Setting → Type 0
IsHarmless n x =
    (disturbs x.node n ≡ false) ⊎ ((x.node ≡ trigger_selector) × (x.value ≡ frame_start))

-- The writes leave the selector of the triggers, and each required node after its own write.
abbrev pub IsRequiredSafe : Bool → Node → List Setting → Type 0
IsRequiredSafe false n xs = Unit
IsRequiredSafe true n xs = All (IsHarmless n) xs

abbrev pub IsSafe : List Setting → Type 0
IsSafe [] = Unit
IsSafe (x ∷ xs) = IsRequiredSafe x.required x.node xs × IsHarmless trigger_selector x × IsSafe xs

settings_of-IsSafe : (role : Role) → IsSafe (settings_of role)
unfolding settings_of
settings_of-IsSafe exposure_active_output = (
  (inl refl, (inl refl, (inl refl, (inr (refl, refl), tt)))),
  inl refl,
  (
    (inl refl, (inl refl, (inl refl, tt))),
    inl refl,
    ((inl refl, (inl refl, tt)), inl refl, ((inl refl, tt), inl refl, (tt, inr (refl, refl), tt))),
  ),
)
settings_of-IsSafe triggered_slave = (
  (inl refl, (inl refl, (inr (refl, refl), (inl refl, tt)))),
  inl refl,
  (
    (inl refl, (inr (refl, refl), (inl refl, tt))),
    inl refl,
    ((inr (refl, refl), (inl refl, tt)), inl refl, (tt, inr (refl, refl), (tt, inl refl, tt))),
  ),
)
settings_of-IsSafe software_trigger = (
  (inl refl, (inr (refl, refl), tt)),
  inl refl,
  ((inr (refl, refl), tt), inl refl, (tt, inr (refl, refl), tt)),
)
settings_of-IsSafe free_run = ((inr (refl, refl), tt), inl refl, (tt, inr (refl, refl), tt))

module _ (C : Camera) where
  open C use {State, read}

  -- The documented nodes: a write changes the node and what it selects, and nothing when the node has
  -- the value already.
  pub record IsDocumented : Type 0 where
    pub keeps :
        (m n : Node) (v : Value) (s t : State)
        → disturbs m n ≡ false
        → C.write m v s ≡ some t
        → read n t ≡ read n s
    pub idle :
        (m n : Node) (v : Value) (s t : State)
        → read m s ≡ some v
        → C.write m v s ≡ some t
        → read n t ≡ read n s

  abbrev pub HoldsIf : Bool → Node → Value → State → Type 0
  HoldsIf false n v s = Unit
  HoldsIf true n v s = read n s ≡ some v

  -- Each required node reads its value.
  abbrev pub Holds : List Setting → State → Type 0
  Holds [] s = Unit
  Holds (x ∷ xs) s = HoldsIf x.required x.node x.value s × Holds xs s

  written_reads :
      (n : Node) (v : Value) (s : State) (o : Option State)
      → (written C n v s o).1 ≡ true
      → read n (written C n v s o).0 ≡ some v
  written_reads n v s none h = absurd (cc)
  written_reads n v s (some t) h = read_value (read n t) h
    where
      read_value : (o : Option Value) → reads C o v ≡ true → o ≡ some v
      read_value none k = absurd (cc)
      read_value (some w) k = ap some (same_value_sound w v k)

  written-keeps :
      (d : IsDocumented) (n : Node) (x : Setting) (s : State) (o : Option State)
      → C.write x.node x.value s ≡ o
      → IsHarmless n x
      → read trigger_selector s ≡ some frame_start
      → read n (written C x.node x.value s o).0 ≡ read n s
  written-keeps d n x s none e h t = refl
  written-keeps d n x s (some u) e (inl h) t = d.keeps x.node n x.value s u h e
  written-keeps d n x s (some u) e (inr (m, v)) t =
      d.idle x.node n x.value s u (ap (λ k. read k s) m ∙ t ∙ ap some (sym v)) e

  set_node-keeps :
      (d : IsDocumented) (n : Node) (x : Setting) (s : State)
      → IsHarmless n x
      → read trigger_selector s ≡ some frame_start
      → read n (set_node C x.node x.value s).0 ≡ read n s
  unfolding set_node
  set_node-keeps d n x s h t = written-keeps d n x s (C.write x.node x.value s) refl h t

  apply_settings-keeps :
      (d : IsDocumented) (n : Node) (xs : List Setting) (s : State)
      → All (IsHarmless n) xs
      → IsSafe xs
      → read trigger_selector s ≡ some frame_start
      → read n (apply_settings C xs s).0 ≡ read n s
  unfolding apply_settings
  apply_settings-keeps d n [] s a f t = refl
  apply_settings-keeps d n (x ∷ xs) s a f t =
      apply_settings-keeps d n xs _ a.1 f.2 (set_node-keeps d trigger_selector x s f.1 t ∙ t)
      ∙ set_node-keeps d n x s a.0 t

  -- The first node, once the others are written.
  required_holds :
      (d : IsDocumented) (b : Bool) (n : Node) (v : Value) (xs : List Setting) (s : State)
      → IsRequiredSafe b n xs
      → IsSafe xs
      → read trigger_selector s ≡ some frame_start
      → HoldsIf b n v s
      → HoldsIf b n v (apply_settings C xs s).0
  required_holds d false n v xs s a f t h = tt
  required_holds d true n v xs s a f t h = apply_settings-keeps d n xs s a f t ∙ h

  set_node_holds :
      (b : Bool) (n : Node) (v : Value) (s : State)
      → ((set_node C n v s).1 || not b) ≡ true
      → HoldsIf b n v (set_node C n v s).0
  unfolding set_node
  set_node_holds false n v s h = tt
  set_node_holds true n v s h = written_reads n v s (C.write n v s) (ground (arith, h))

  apply_settings-Holds :
      (d : IsDocumented) (xs : List Setting) (s : State)
      → IsSafe xs
      → read trigger_selector s ≡ some frame_start
      → (apply_settings C xs s).1 ≡ true
      → Holds xs (apply_settings C xs s).0
  unfolding apply_settings
  apply_settings-Holds d [] s f t h = tt
  apply_settings-Holds d (x ∷ xs) s f t h =
      let u = set_node-keeps d trigger_selector x s f.1 t ∙ t in
      (
        required_holds d x.required x.node x.value xs _ f.0 f.2 u
            (set_node_holds x.required x.node x.value s (ground (arith, h))),
        apply_settings-Holds d xs _ f.2 u (ground (arith, h)),
      )

  -- A camera whose frame trigger is selected, and which reports a role as configured, holds the
  -- value of every required node of the role when the configuration ends, whatever it refused or
  -- coerced on the way. Its nodes are as documented: a write changes the node and what it selects,
  -- and nothing when the node has the value already.
  pub configure-Holds :
      (role : Role) (s : State)
      → IsDocumented
      → read trigger_selector s ≡ some frame_start
      → (configure C role s).1 ≡ true
      → Holds (settings_of role) (configure C role s).0
  unfolding configure
  configure-Holds role s d t h =
      apply_settings-Holds d (settings_of role) s (settings_of-IsSafe role) t h
