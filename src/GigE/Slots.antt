-- ===== src/GigE/Slots.antt =====
-- No two cameras of one interface share a slot.
use lpr_refactored.Prelude.{
  ◌+◌, ◌≤◌, ◌<◌, ◌≡◌, ◌≢◌, sym, ap, ◌∙◌, some, List, [], ◌∷◌, arith, if◌then◌else◌, Text, text_eq,
  text_eq_iff, text_eq_refl, lookup, erase, lookup-insert, lookup-erase, inl, inr, ◌⊎◌,
}
use lpr_refactored.GigE.{
  Entry, Coordinator, init, next_of, assign, register_camera, unregister_camera, Call, register,
  unregister, step, run,
}

-- Every slot in use lies below its group's next slot, and no two cameras have the same.
pub record IsValid (c : Coordinator) : Type 0 where
  pub below : (s : Text) (e : Entry) → lookup s c.cams ≡ some e → e.index < next_of e.nic_group c
  pub apart :
      (s t : Text) (e f : Entry)
      → lookup s c.cams ≡ some e
      → lookup t c.cams ≡ some f
      → e.nic_group ≡ f.nic_group
      → e.index ≡ f.index
      → s ≡ t

init-IsValid : IsValid init
unfolding init lookup
init-IsValid = record { below = λ s e h. cc; apart = λ s t e f h k g i. cc }

unregister-IsValid : (s : Text) (c : Coordinator) → IsValid c → IsValid (unregister_camera s c)
unfolding unregister_camera next_of
unregister-IsValid s c v = record {
  below = λ t e h. v.below t e (erased t e h);
  apart = λ t u e f h k g i. v.apart t u e f (erased t e h) (erased u f k) g i;
}
  where
    erased : (t : Text) (e : Entry) → lookup t (erase s c.cams) ≡ some e → lookup t c.cams ≡ some e
    erased t e h = ground (arith, lookup-erase s t c.cams)

-- The entry that `assign` makes.
abbrev pub fresh_entry : Text → Coordinator → Entry
fresh_entry g c = record { nic_group = g; index = next_of g c }

pub assigned_cases :
    (s g : Text) (c : Coordinator) (t : Text) (e : Entry)
    → lookup t (assign s g c).0.cams ≡ some e
    → ((s ≡ t) × (e ≡ fresh_entry g c)) ⊎ (lookup t c.cams ≡ some e)
unfolding assign
assigned_cases s g c t e h =
    ground (arith, lookup-insert s t (fresh_entry g c) c.cams, text_eq_iff s t)

pub next_of-assign :
    (s g h : Text) (c : Coordinator)
    → next_of h (assign s g c).0 ≡ (if text_eq g h then next_of g c + 1 else next_of h c)
unfolding next_of assign
next_of-assign s g h c = ground (arith, lookup-insert g h (next_of g c + 1) c.next_index)

next_of-assign_grows : (s g h : Text) (c : Coordinator) → next_of h c ≤ next_of h (assign s g c).0
next_of-assign_grows s g h c =
    ground (arith, next_of-assign s g h c, text_eq_iff g h, ap (λ k. next_of k c) {x = g} {y = h})

next_of-assign_self : (s g : Text) (c : Coordinator) → next_of g (assign s g c).0 ≡ next_of g c + 1
next_of-assign_self s g c = rw (next_of-assign s g g c, text_eq_refl g)

assign-IsValid : (s g : Text) (c : Coordinator) → IsValid c → IsValid (assign s g c).0
assign-IsValid s g c v = record {
  below = λ t e h. elim (assigned_cases s g c t e h) [
    | inl (_, new) ↦ rw new (omega (arith, next_of-assign_self s g c))
    | inr old ↦ omega (arith, v.below t e old, next_of-assign_grows s g e.nic_group c)
  ];
  apart = λ t u e f h k same i. elim (assigned_cases s g c t e h) [
    | inl (st, new) ↦ elim (assigned_cases s g c u f k) [
      | inl (su, _) ↦ sym st ∙ su
      | inr old ↦ absurd (clash u f e old new same i)
    ]
    | inr old ↦ elim (assigned_cases s g c u f k) [
      | inl (su, new) ↦ absurd (clash t e f old new (sym same) (sym i))
      | inr old' ↦ v.apart t u e f old old' same i
    ]
  ];
}
  where
    -- A camera that was there has a slot below the new one.
    clash :
        (u : Text) (f e : Entry)
        → lookup u c.cams ≡ some f
        → e ≡ fresh_entry g c
        → e.nic_group ≡ f.nic_group
        → e.index ≡ f.index
        → ⊥
    clash u f e old new same i =
        let gf : f.nic_group ≡ g = sym same ∙ ap (λ x. x.nic_group) new in
        let fi : f.index ≡ next_of g c = sym i ∙ ap (λ x. x.index) new in
        omega (arith, rw gf at (v.below u f old), fi)

register_cases :
    (s g : Text) (c : Coordinator)
    → ((register_camera s g c).0 ≡ c) ⊎ ((register_camera s g c).0 ≡ (assign s g c).0)
unfolding register_camera
register_cases s g c = ground arith

step-IsValid : (call : Call) (c : Coordinator) → IsValid c → IsValid (step call c)
unfolding step
step-IsValid (unregister s) c v = unregister-IsValid s c v
step-IsValid (register s g) c v = elim (register_cases s g c) [
  | inl e ↦ rw e v
  | inr e ↦ rw e (assign-IsValid s g c v)
]

run-IsValid : (calls : List Call) (c : Coordinator) → IsValid c → IsValid (run calls c)
unfolding run
run-IsValid [] c v = v
run-IsValid (call ∷ calls) c v = run-IsValid calls (step call c) (step-IsValid call c v)

pub reachable-IsValid : (calls : List Call) → IsValid (run calls init)
reachable-IsValid calls = run-IsValid calls init init-IsValid

-- After any sequence of registrations (also in another group, after recabling) and
-- deregistrations, two different cameras registered in one group have different slots.
pub slots_apart :
    (calls : List Call) (s t : Text) (e f : Entry)
    → lookup s (run calls init).cams ≡ some e
    → lookup t (run calls init).cams ≡ some f
    → e.nic_group ≡ f.nic_group
    → s ≢ t
    → e.index ≢ f.index
slots_apart calls s t e f h k g ne i = ne ((reachable-IsValid calls).apart s t e f h k g i)
