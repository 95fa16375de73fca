-- ===== src/Detection/Legal.antt =====
-- What one read may do to a pass, and the steps that keep to it.
use lpr_refactored.Prelude.{
  ℕ, ◌≡◌, ap, Bool, true, false, Option, none, some, List, [], ◌∷◌, ◌++◌, ◌==◌, Text, All,
  All-append,
}
use lpr_refactored.Sender.{PlateItem}
use lpr_refactored.Detection.{PassState, is_some, was_sent}

-- What is remembered of a pass: whether it was announced, the direction last sent, and the plate held.
pub record Spec : Type 0 where
  pub announced : Bool
  pub last : Option ℕ
  pub held : Option PlateItem

abbrev pub spec_of : PassState → Spec
spec_of st = record { announced = st.emitted_early; last = st.last_sent_dir; held = st.pending }

-- At the start of a read, the plate held may be let go as unknown, once.
pub data Before (s : Spec) : List PlateItem → Spec → Type 0 where
  stays : Before s [] s
  lets_go :
      (h : PlateItem)
      → s.held ≡ some h
      → s.announced ≡ false
      → h.force_send ≡ false
      → Before s (record h { direction = 0 } ∷ []) (record s { held = none })

abbrev pub plain : Text → PlateItem → PlateItem
plain pass p = record p { pass_id = pass; force_send = false }

-- What a read with the plate `k`, if it is kept, and the direction `d` does then: nothing; before the
-- announcement it holds its plate while the direction is unknown, or it announces its plate, or the
-- plate held, in its direction; after it, it corrects the direction, when it is known and not the one
-- last sent.
pub data After (pass : Text) (k : Option PlateItem) (d : ℕ) (s : Spec)
    : List PlateItem → Spec → Type 0 where
  quiet : After pass k d s [] s
  holds :
      (p out : PlateItem)
      → k ≡ some p
      → out ≡ plain pass p
      → s.announced ≡ false
      → d ≡ 0
      → After pass k d s [] (record s { held = some out })
  announces :
      (p out : PlateItem)
      → k ≡ some p
      → out ≡ plain pass p
      → s.announced ≡ false
      → After pass k d s
          (record out { direction = d } ∷ [])
          (record { announced = true; last = some d; held = none })
  releases :
      (h : PlateItem)
      → s.held ≡ some h
      → s.announced ≡ false
      → h.force_send ≡ false
      → After pass k d s
          (record h { direction = d } ∷ [])
          (record { announced = true; last = some d; held = none })
  corrects :
      (x : PlateItem)
      → s.announced ≡ true
      → x.force_send ≡ true
      → x.direction ≡ d
      → (d == 0) ≡ false
      → was_sent d s.last ≡ false
      → After pass k d s (x ∷ []) (record s { last = some d })

pub data Round (pass : Text) (k : Option PlateItem) (d : ℕ) (s : Spec)
    : List PlateItem → Spec → Type 0 where
  round :
      (t u : Spec) (xs ys : List PlateItem)
      → Before s xs t
      → After pass k d t ys u
      → Round pass k d s (xs ++ ys) u

pub some_inj {ℓ} : {A : Type ℓ} {a b : A} → some a ≡ some b → b ≡ a
some_inj h = cc

-- The state inside a pass.
pub record InPass (pass : Text) (st : PassState) : Type 0 where
  pub same : st.pass_id ≡ pass
  pub waiting : is_some st.pending ≡ true → st.emitted_early ≡ false
  pub held_pass : (h : PlateItem) → st.pending ≡ some h → h.pass_id ≡ pass
  pub held_plain : (h : PlateItem) → st.pending ≡ some h → h.force_send ≡ false

-- What a part of the handling does, on the pass.
pub record Keeps (pass : Text) (R : Spec → List PlateItem → Spec → Type 0) (st : PassState)
    (r : PassState × List PlateItem) : Type 0 where
  pub inside : InPass pass r.0
  pub legal : R (spec_of st) r.1 (spec_of r.0)
  pub ids : All (λ x. x.pass_id ≡ pass) r.1

pub Keeps-round :
    (pass : Text) (k : Option PlateItem) (d : ℕ) (st st1 st2 : PassState) (xs ys : List PlateItem)
    → Keeps pass Before st (st1, xs)
    → Keeps pass (After pass k d) st1 (st2, ys)
    → Keeps pass (Round pass k d) st (st2, xs ++ ys)
Keeps-round pass k d st st1 st2 xs ys h g = record {
  inside = g.inside;
  legal = round (spec_of st1) (spec_of st2) xs ys h.legal g.legal;
  ids = All-append (λ (x : PlateItem). x.pass_id ≡ pass) xs ys h.ids g.ids;
}

pub Keeps-stays : (pass : Text) (st : PassState) → InPass pass st → Keeps pass Before st (st, [])
Keeps-stays pass st h = record { inside = h; legal = stays; ids = tt }

pub Keeps-quiet :
    (pass : Text) (k : Option PlateItem) (d : ℕ) (st : PassState)
    → InPass pass st
    → Keeps pass (After pass k d) st (st, [])
Keeps-quiet pass k d st h = record { inside = h; legal = quiet; ids = tt }

-- A held plate leaves: announced in a direction, or let go.
pub Keeps-release :
    (pass : Text) (k : Option PlateItem) (d : ℕ) (st : PassState) (h : PlateItem) (now : ℕ)
    → InPass pass st
    → st.pending ≡ some h
    → Keeps pass (After pass k d) st (
      record st {
        last_seen_ms = now;
        emitted_early = true;
        last_sent_dir = some d;
        pending = none;
      },
      record h { direction = d } ∷ [],
    )
Keeps-release pass k d st h now i e = record {
  inside = record {
    same = i.same;
    waiting = λ k. cc;
    held_pass = λ g k. cc;
    held_plain = λ g k. cc;
  };
  legal = releases h e (i.waiting (ap is_some e)) (i.held_plain h e);
  ids = (i.held_pass h e, tt);
}

pub Keeps-let_go :
    (pass : Text) (st : PassState) (h : PlateItem)
    → InPass pass st
    → st.pending ≡ some h
    → Keeps pass Before st (record st { pending = none }, record h { direction = 0 } ∷ [])
Keeps-let_go pass st h i e = record {
  inside = record {
    same = i.same;
    waiting = λ k. cc;
    held_pass = λ g k. cc;
    held_plain = λ g k. cc;
  };
  legal = lets_go h e (i.waiting (ap is_some e)) (i.held_plain h e);
  ids = (i.held_pass h e, tt);
}
