-- ===== src/Supervisor/Bandwidth/Stagger.antt =====
-- The slots in which the cameras of an interface send their frames.
use lpr_refactored.Prelude.{
  ◌+◌, ◌≡◌, ◌≢◌, refl, sym, ap, subst, ◌∙◌, false, none, some, List, [], ◌∷◌, arith, if◌then◌else◌,
  Text, text_eq, text_eq_iff, text_eq_refl, lookup, insert, inl, inr, Option-cases, Bool-cases,
  Dict,
}
use lpr_refactored.GigE.{
  Entry, Coordinator, init, next_of, assign, register_camera, register_found, count_in_group,
  count_entries, Call, register, step, run,
}
use lpr_refactored.GigE.Slots.{
  slots_apart, reachable-IsValid, next_of-assign, assigned_cases, fresh_entry,
}
use lpr_refactored.Supervisor.Bandwidth.{stagger_index}

-- The cameras that have been connected, each on its own interface.
unfoldable pub connections : (Text → Text) → List Text → List Call
connections nic [] = []
connections nic (s ∷ ss) = register s (nic s) ∷ connections nic ss

-- Every interface has given as many slots as it has cameras, and each camera stays on its own.
record IsFull (nic : Text → Text) (c : Coordinator) : Type 0 where
  full : (g : Text) → next_of g c ≡ count_entries g c.cams
  own : (s : Text) (e : Entry) → lookup s c.cams ≡ some e → e.nic_group ≡ nic s

count_entries-insert :
    (g k : Text) (e : Entry) (cams : Dict Entry)
    → lookup k cams ≡ none
    → count_entries g (insert k e cams)
      ≡ count_entries g cams + (if text_eq e.nic_group g then 1 else 0)
unfolding lookup insert
count_entries-insert g k e [] h = ground arith
count_entries-insert g k e ((j, f) ∷ cams) h = ground (arith, count_entries-insert g k e cams)

assign-IsFull :
    (nic : Text → Text) (s : Text) (c : Coordinator)
    → lookup s c.cams ≡ none
    → IsFull nic c
    → IsFull nic (assign s (nic s) c).0
unfolding assign
assign-IsFull nic s c n i = record {
  full = λ g. elim (Bool-cases (text_eq (nic s) g)) [
    | inl e ↦ ground (
      arith,
      e,
      next_of-assign s (nic s) g c,
      count_entries-insert g s (fresh_entry (nic s) c) c.cams n,
      i.full g,
      ap (λ k. next_of k c) ((text_eq_iff (nic s) g).0 e),
    )
    | inr e ↦ ground (
      arith,
      e,
      next_of-assign s (nic s) g c,
      count_entries-insert g s (fresh_entry (nic s) c) c.cams n,
      i.full g,
    )
  ];
  own = λ t e h. elim (assigned_cases s (nic s) c t e h) [
    | inl (st, new) ↦ ap (λ x. x.nic_group) new ∙ ap nic st
    | inr old ↦ i.own t e old
  ];
}

-- A camera that connects again keeps its slot.
register_found-same :
    (nic : Text → Text) (s : Text) (e : Entry) (c : Coordinator)
    → lookup s c.cams ≡ some e
    → IsFull nic c
    → register_camera s (nic s) c ≡ (c, e.index)
unfolding register_camera register_found
register_found-same nic s e c h i = rw (h, i.own s e h, text_eq_refl (nic s)) refl

register_found-new :
    (nic : Text → Text) (s : Text) (c : Coordinator)
    → lookup s c.cams ≡ none
    → register_camera s (nic s) c ≡ assign s (nic s) c
unfolding register_camera register_found
register_found-new nic s c h = rw h refl

step-IsFull :
    (nic : Text → Text) (s : Text) (c : Coordinator)
    → IsFull nic c
    → IsFull nic (step (register s (nic s)) c)
unfolding step
step-IsFull nic s c i = elim (Option-cases (lookup s c.cams)) [
  | inl n ↦
      subst (λ r. IsFull nic r.0) (sym (register_found-new nic s c n)) (assign-IsFull nic s c n i)
  | inr (e, h) ↦ subst (λ r. IsFull nic r.0) (sym (register_found-same nic s e c h i)) i
]

run-IsFull :
    (nic : Text → Text) (ss : List Text) (c : Coordinator)
    → IsFull nic c
    → IsFull nic (run (connections nic ss) c)
unfolding run connections
run-IsFull nic [] c i = i
run-IsFull nic (s ∷ ss) c i =
    run-IsFull nic ss (step (register s (nic s)) c) (step-IsFull nic s c i)

init-IsFull : (nic : Text → Text) → IsFull nic init
unfolding init next_of lookup
init-IsFull nic = record { full = λ g. refl; own = λ s e h. cc }

-- The slot of a camera that connects again is its own.
stagger_index-again :
    (nic : Text → Text) (ss : List Text) (s : Text) (e : Entry)
    → lookup s (run (connections nic ss) init).cams ≡ some e
    → (stagger_index s (nic s) (run (connections nic ss) init)).1 ≡ e.index
unfolding stagger_index count_in_group
stagger_index-again nic ss s e h =
    let c = run (connections nic ss) init in
    let i = run-IsFull nic ss init (init-IsFull nic) in
    let b = (reachable-IsValid (connections nic ss)).below s e h in
    let r = ap (λ x. x.1) (register_found-same nic s e c h i) in
    let own = ap (λ g. next_of g c) (i.own s e h) in rw r (omega (arith, b, own, i.full (nic s)))

-- Once the cameras have connected, each on its own interface and in any order, two of one
-- interface that connect again send their frames in different slots. Both have connected before.
pub stagger_index-Apart :
    (nic : Text → Text) (ss : List Text) (s t : Text) (e f : Entry)
    → lookup s (run (connections nic ss) init).cams ≡ some e
    → lookup t (run (connections nic ss) init).cams ≡ some f
    → nic s ≡ nic t
    → s ≢ t
    → (stagger_index s (nic s) (run (connections nic ss) init)).1
      ≢ (stagger_index t (nic t) (run (connections nic ss) init)).1
stagger_index-Apart nic ss s t e f h k g ne q =
    let i = run-IsFull nic ss init (init-IsFull nic) in
    slots_apart (connections nic ss) s t e f h k (i.own s e h ∙ g ∙ sym (i.own t f k)) ne
      (sym (stagger_index-again nic ss s e h) ∙ q ∙ stagger_index-again nic ss t f k)

-- Two cameras that connect for the first time, one after the other.
first_two-Same :
    (g s t : Text)
    → text_eq s t ≡ false
    → (stagger_index t g (stagger_index s g init).0).1 ≡ (stagger_index s g init).1
unfolding stagger_index register_camera register_found assign next_of count_in_group init lookup
    insert
first_two-Same g s t h = rw h (ground arith)
