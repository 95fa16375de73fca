-- ===== src/Tracking/Best.antt =====
-- The box that a plate is bound to.
use lpr_refactored.Prelude.{
  ℕ, ◌≡◌, refl, true, false, Option, some, List, [], ◌∷◌, arith, ◌⊎◌, inl, inr, All, Bool-cases,
}
use lpr_refactored.Floats.{Float, le}
use lpr_refactored.Tracking.{TrackedObject, iou, bind}

module _ (F : Float) {Box : Type 0} (area : Box → ℕ) (common_area : Box → Box → ℕ) where
  open F use {Num, lt}

  -- The overlap and the id are those of one of the boxes.
  pub Picks : Box → Num × Option ℕ → List (TrackedObject F area common_area) → Type 0
  Picks pb r [] = true ≡ false
  Picks pb r (t ∷ l) = (r ≡ (iou F area common_area pb t.box, some t.track_id)) ⊎ Picks pb r l

  -- No box overlaps better; and the choice is one of the boxes, with at least the overlap of the
  -- start, or it is the start's, and every box overlaps less.
  pub record IsBest (pb : Box) (l : List (TrackedObject F area common_area)) (best : Num)
      (id : Option ℕ) (r : Num × Option ℕ) : Type 0 where
    pub not_below : lt r.0 best ≡ false
    pub top : All (λ t. lt r.0 (iou F area common_area pb t.box) ≡ false) l
    pub choice :
        Picks pb r l
        ⊎ ((r ≡ (best, id)) × All (λ t. lt (iou F area common_area pb t.box) best ≡ true) l)

  -- From a least overlap and an id to start with, the overlap and the id chosen are those of a
  -- tracked box that overlaps at least so much, and that no tracked box exceeds; or they are the
  -- ones to start with, and every tracked box overlaps less.
  pub bind-IsBest :
      (pb : Box) (l : List (TrackedObject F area common_area)) (best : Num) (id : Option ℕ)
      → IsBest pb l best id (bind F area common_area pb l best id)
  unfolding bind Picks
  bind-IsBest pb [] best id = record {
    not_below = F.lt_irrefl best;
    top = tt;
    choice = inr (refl, tt);
  }
  bind-IsBest pb (t ∷ l) best id =
      let s = iou F area common_area pb t.box in
      elim (Bool-cases (le F best s)) [
        | inl e ↦
            let b = bind-IsBest pb l s (some t.track_id) in
            let r = (bind F area common_area pb l s (some t.track_id)).0 in
            rw e (record {
              not_below = F.not_lt_trans best s r (ground (arith, e)) b.not_below;
              top = (b.not_below, b.top);
              choice = elim b.choice [ inl p ↦ inl (inr p) | inr (q, a) ↦ inl (inl q) ];
            })
        | inr e ↦
            let b = bind-IsBest pb l best id in
            let r = (bind F area common_area pb l best id).0 in
            let less : lt s best ≡ true = ground (arith, e) in
            rw e (record {
              not_below = b.not_below;
              top = (F.not_lt_trans s best r (F.lt_asymm s best less) b.not_below, b.top);
              choice = elim b.choice [ inl p ↦ inl (inr p) | inr (q, a) ↦ inr (q, (less, a)) ];
            })
      ]
