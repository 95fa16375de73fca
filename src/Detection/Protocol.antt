-- ===== src/Detection/Protocol.antt =====
-- The messages of one pass.
use lpr_refactored.Prelude.{◌≡◌, false, Option, none, some, List, [], ◌∷◌, ◌++◌, Text}
use lpr_refactored.Floats.{Float}
use lpr_refactored.Sender.{PlateItem}
use lpr_refactored.Detection.{PassState, Config, Read, starts_pass, on_read}
use lpr_refactored.Detection.Legal.{Spec, Round, Keeps}

module _ (F : Float) (jaro : Text → Text → F.Num) (cfg : Config F) where
  -- The read starts no new pass.
  abbrev pub Stays : Read F → Option PlateItem → PassState → Type 0
  Stays r none st = Unit {0}
  Stays r (some p) st = starts_pass F jaro cfg r.now p.text st ≡ false

  -- The reads of a gate, one after the other.
  unfoldable pub run : Text → List (Read F) → PassState → PassState × List PlateItem
  unfolding on_read
  run gate [] st = (st, [])
  run gate (r ∷ rs) st =
      let (st1, xs) = on_read F jaro cfg gate r st in
      let (st2, ys) = run gate rs st1 in (st2, xs ++ ys)

  unfoldable pub StayIn : Text → List (Read F) → PassState → Type 0
  unfolding on_read
  StayIn gate [] st = Unit {0}
  StayIn gate (r ∷ rs) st = Stays r r.kept st × StayIn gate rs (on_read F jaro cfg gate r st).0

  -- One round for each read.
  pub data Rounds (pass : Text) : List (Read F) → Spec → List PlateItem → Spec → Type 0 where
    none_left : (s : Spec) → Rounds pass [] s [] s
    one_more :
        (r : Read F) (rs : List (Read F)) (s t u : Spec) (xs ys : List PlateItem)
        → Round pass r.kept r.phys s xs t
        → Rounds pass rs t ys u
        → Rounds pass (r ∷ rs) s (xs ++ ys) u

  -- What the reads of a gate do, on the pass.
  abbrev pub KeepsAll : Text → List (Read F) → PassState → PassState × List PlateItem → Type 0
  KeepsAll pass rs st r = Keeps pass (Rounds pass rs) st r
