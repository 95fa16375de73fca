-- ===== src/Detection/Held.antt =====
-- A held announcement is not lost.
use lpr_refactored.Prelude.{
  ℕ, ◌≡◌, refl, ap, ◌∙◌, true, false, Option, none, some, List, [], ◌∷◌, ◌++◌, arith, if◌then◌else◌,
  Text, Bool-cases, Option-cases, ◌⊎◌, inl, inr,
}
use lpr_refactored.Floats.{Float}
use lpr_refactored.Sender.{PlateItem}
use lpr_refactored.Detection.{
  PassState, new_pass, is_some, Config, Read, differ, pass_for, same_pass, on_dropped, announce,
  flush, on_kept, on_processed, on_read,
}

-- A plate is held only while the pass is not announced.
pub record IsSound (st : PassState) : Type 0 where
  pub waiting : is_some st.pending ≡ true → st.emitted_early ≡ false

new_pass-IsSound : IsSound new_pass
new_pass-IsSound = record { waiting = λ h. refl }

module _ (F : Float) (jaro : Text → Text → F.Num) (cfg : Config F) where
  pass_for-IsSound :
      (now : ℕ) (text uuid : Text) (st : PassState)
      → IsSound st
      → IsSound (pass_for F jaro cfg now text uuid st)
  unfolding pass_for
  pass_for-IsSound now text uuid st h = ground (arith, h.waiting)

  on_dropped-IsSound :
      (gate : Text) (r : Read F) (st : PassState)
      → IsSound st
      → IsSound (on_dropped F jaro cfg gate r st).0
  unfolding on_dropped
  on_dropped-IsSound gate r st h = ground (arith, h.waiting)

  flush-IsSound :
      (out : PlateItem) (st : PassState) → IsSound st → IsSound (flush F jaro cfg out st).0
  unfolding flush
  flush-IsSound out st h = ground (arith, h.waiting)

  announce-IsSound :
      (r : Read F) (out : PlateItem) (st : PassState)
      → IsSound st
      → IsSound (announce F jaro cfg r out st).0
  unfolding announce
  announce-IsSound r out st h = ground (arith, h.waiting)

  on_read-IsSound :
      (gate : Text) (r : Read F) (st : PassState)
      → IsSound st
      → IsSound (on_read F jaro cfg gate r st).0
  unfolding on_read
  on_read-IsSound gate r st h = go r.kept
    where
      go : (k : Option PlateItem) → IsSound (on_processed F jaro cfg gate r k st).0
      go none = on_dropped-IsSound gate r st h
      go (some p) =
          let st' = pass_for F jaro cfg r.now p.text r.uuid st in
          let out : PlateItem = record p { pass_id = st'.pass_id; force_send = false } in
          announce-IsSound r out (flush F jaro cfg out st').0
            (flush-IsSound out st' (pass_for-IsSound r.now p.text r.uuid st h))

  -- The read's own plate, under the id of its pass.
  abbrev pub stamped : Read F → PlateItem → PassState → PlateItem
  stamped r p st = record p {
    pass_id = (pass_for F jaro cfg r.now p.text r.uuid st).pass_id;
    force_send = false;
  }

  -- The direction that a held plate gets: the settled one, or unknown for another vehicle's read.
  abbrev pub freed : Read F → PassState → ℕ
  freed r st = if same_pass F jaro cfg r.text st then r.phys else 0

  pub dropped_held :
      (gate : Text) (r : Read F) (st : PassState) (h : PlateItem)
      → st.pending ≡ some h
      → (((on_dropped F jaro cfg gate r st).0.pending ≡ some h)
          × ((on_dropped F jaro cfg gate r st).1 ≡ []))
        ⊎ (((on_dropped F jaro cfg gate r st).0.pending ≡ none)
            × ((on_dropped F jaro cfg gate r st).1 ≡ record h { direction = freed r st } ∷ []))
  unfolding on_dropped
  dropped_held gate r st h e = ground (arith, e)

  -- A kept read announces itself, or waits in its turn, while the pass is not announced.
  announce_waiting :
      (r : Read F) (out : PlateItem) (st : PassState)
      → st.emitted_early ≡ false
      → ((announce F jaro cfg r out st).0.pending ≡ some out)
          × ((announce F jaro cfg r out st).1 ≡ [])
        ⊎ ((announce F jaro cfg r out st).1 ≡ record out { direction = r.phys } ∷ [])
  unfolding announce
  announce_waiting r out st e = ground (arith, e)

  pass_for-pending :
      (now : ℕ) (text uuid : Text) (st : PassState)
      → (pass_for F jaro cfg now text uuid st).pending ≡ st.pending
  unfolding pass_for
  pass_for-pending now text uuid st = ground arith

  flush_other :
      (out : PlateItem) (st : PassState) (h : PlateItem)
      → st.pending ≡ some h
      → differ F jaro cfg h.text out.text ≡ true
      → (flush F jaro cfg out st).1 ≡ record h { direction = 0 } ∷ []
  unfolding flush
  flush_other out st h e d = ground (arith, e, d)

  flush_same :
      (out : PlateItem) (st : PassState) (h : PlateItem)
      → st.pending ≡ some h
      → differ F jaro cfg h.text out.text ≡ false
      → flush F jaro cfg out st ≡ (st, [])
  unfolding flush
  flush_same out st h e d = ground (arith, e, d)

  -- What a kept read does to a held plate.
  abbrev pub Yields :
      Read F → PlateItem → PassState → PlateItem → PassState × List PlateItem → Type 0
  Yields r p st h result =
      ((differ F jaro cfg h.text p.text ≡ true)
        × (rest : List PlateItem) × (result.1 ≡ record h { direction = 0 } ∷ rest))
      ⊎ ((differ F jaro cfg h.text p.text ≡ false)
          × ((result.0.pending ≡ some (stamped r p st)) × (result.1 ≡ [])
              ⊎ (result.1 ≡ record (stamped r p st) { direction = r.phys } ∷ [])))

  pub kept_held :
      (r : Read F) (p : PlateItem) (st : PassState) (h : PlateItem)
      → IsSound st
      → st.pending ≡ some h
      → Yields r p st h (on_kept F jaro cfg r p st)
  unfolding on_kept
  kept_held r p st h s e =
      let st' = pass_for F jaro cfg r.now p.text r.uuid st in
      let out = stamped r p st in
      let e' = pass_for-pending r.now p.text r.uuid st ∙ e in
      let s' = pass_for-IsSound r.now p.text r.uuid st s in
      elim (Bool-cases (differ F jaro cfg h.text p.text)) [
        | inl d ↦ inl (
          d,
          (announce F jaro cfg r out (flush F jaro cfg out st').0).1,
          ap (λ l. l ++ (announce F jaro cfg r out (flush F jaro cfg out st').0).1)
              (flush_other out st' h e' d),
        )
        | inr d ↦ inr (
          d,
          rw (flush_same out st' h e' d) (announce_waiting r out st' (s'.waiting (ap is_some e'))),
        )
      ]

  -- A plate whose announcement is held for the direction to settle stays held until it is emitted,
  -- with the settled direction or as unknown, or until a kept read whose text does not differ from
  -- its own takes its place, which is then held or emitted itself under the id of its pass, be it
  -- the same or a later one. The pass is not announced while the plate is held.
  pub on_read_held :
      (gate : Text) (r : Read F) (st : PassState) (h : PlateItem)
      → IsSound st
      → st.pending ≡ some h
      → ((r.kept ≡ none)
          × ((((on_read F jaro cfg gate r st).0.pending ≡ some h)
                × ((on_read F jaro cfg gate r st).1 ≡ []))
              ⊎ (((on_read F jaro cfg gate r st).0.pending ≡ none)
                  × ((on_read F jaro cfg gate r st).1 ≡ record h { direction = freed r st } ∷ []))))
        ⊎ ((p : PlateItem) × (r.kept ≡ some p) × Yields r p st h (on_read F jaro cfg gate r st))
  unfolding on_read on_processed
  on_read_held gate r st h s e = elim (Option-cases r.kept) [
    | inl k ↦ inl (k, rw (k, on_processed) (dropped_held gate r st h e))
    | inr (p, k) ↦ inr (p, k, rw (k, on_processed) (kept_held r p st h s e))
  ]
