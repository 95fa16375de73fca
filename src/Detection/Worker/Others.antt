-- ===== src/Detection/Worker/Others.antt =====
-- The passes of the gates that a frame is not of.
use lpr_refactored.Prelude.{
  ℕ, ◌≡◌, refl, sym, subst, ◌∙◌, true, false, Option, none, some, List, [], ◌∷◌, arith, Text,
  text_eq, Dict, lookup, insert, Bool-cases, ◌⊎◌, inl, inr, All, HasUniqueKeys,
  HasUniqueKeys-insert, lookup-erase_if, lookup-insert, surviving,
}
use lpr_refactored.Floats.{Float}
use lpr_refactored.Sender.{PlateItem}
use lpr_refactored.Detection.{PassState, Config, Read, on_read}
use lpr_refactored.Detection.Worker.{
  pass_or_new, is_stale, pruned, dropped_unseen, process_read, process_reads,
}
use lpr_refactored.Detection.Worker.Gates.{pruned-HasUniqueKeys}

module _ (F : Float) (jaro : Text → Text → F.Num) (cfg : Config F) where
  -- Another gate's pass is untouched, or pruned for having been quiet for five minutes.
  abbrev pub Spared : ℕ → Option PassState → Option PassState → Type 0
  Spared now before after =
      (after ≡ before)
      ⊎ ((after ≡ none) × (st : PassState) × (before ≡ some st) × (is_stale now st ≡ true))

  Spared-then :
      (now : ℕ) (a b c : Option PassState) → Spared now a b → Spared now b c → Spared now a c
  Spared-then now a b c (inl e) (inl f) = inl (f ∙ e)
  Spared-then now a b c (inl e) (inr (n, st, k, s)) = inr (n, st, sym e ∙ k, s)
  Spared-then now a b c (inr (n, st, k, s)) (inl f) = inr (f ∙ n, st, k, s)
  Spared-then now a b c (inr (n, st, k, s)) (inr (m, st', k', s')) = inr (m, st, k, s)

  pruned-Spared :
      (g : Text) (now : ℕ) (k : Option PlateItem) (passes : Dict PassState)
      → HasUniqueKeys passes
      → Spared now (lookup g passes) (lookup g (pruned F jaro cfg now k passes))
  pruned-Spared g now none passes u = inl refl
  pruned-Spared g now (some p) passes u =
      rw (lookup-erase_if (is_stale now) g passes u) (go (lookup g passes))
    where
      go : (o : Option PassState) → Spared now o (surviving (is_stale now) o)
      go none = inl refl
      go (some st) = elim (Bool-cases (is_stale now st)) [
        | inl s ↦ inr (ground (arith, s), st, refl, s)
        | inr s ↦ inl (ground (arith, s))
      ]

  process_read-Spared :
      (gate g : Text) (r : Read F) (passes : Dict PassState)
      → text_eq gate g ≡ false
      → HasUniqueKeys passes
      → Spared r.now (lookup g passes) (lookup g (process_read F jaro cfg gate r passes).0)
  unfolding process_read
  process_read-Spared gate g r passes e u =
      let p = pruned F jaro cfg r.now r.kept passes in
      let v = (on_read F jaro cfg gate r (pass_or_new (lookup gate p))).0 in
      let kept : Spared r.now (lookup g passes) (lookup g (insert gate v p)) =
        subst (Spared r.now (lookup g passes)) (sym (lookup-insert gate g v p ∙ ground (arith, e)))
          (pruned-Spared g r.now r.kept passes u) in
      elim (Bool-cases (dropped_unseen F jaro cfg r.kept)) [
        | inl d ↦ rw d (inl refl)
        | inr d ↦ rw d kept
      ]

  process_read-HasUniqueKeys :
      (gate : Text) (r : Read F) (passes : Dict PassState)
      → HasUniqueKeys passes
      → HasUniqueKeys (process_read F jaro cfg gate r passes).0
  unfolding process_read
  process_read-HasUniqueKeys gate r passes u =
      elim (Bool-cases (dropped_unseen F jaro cfg r.kept)) [
        | inl d ↦ rw d u
        | inr d ↦
            rw d (
              HasUniqueKeys-insert gate _ _ (pruned-HasUniqueKeys F jaro cfg r.now r.kept passes u))
      ]

  -- The reads of a frame leave the pass of every other gate as it was, its held plate with it,
  -- except that a pass that was not seen for five minutes may be dropped.
  pub process_reads-Spared :
      (gate g : Text) (now : ℕ) (rs : List (Read F)) (passes : Dict PassState)
      → text_eq gate g ≡ false
      → All (λ r. r.now ≡ now) rs
      → HasUniqueKeys passes
      → Spared now (lookup g passes) (lookup g (process_reads F jaro cfg gate rs passes).0)
  unfolding process_reads
  process_reads-Spared gate g now [] passes e t u = inl refl
  process_reads-Spared gate g now (r ∷ rs) passes e t u =
      let passes' = (process_read F jaro cfg gate r passes).0 in
      Spared-then now (lookup g passes) (lookup g passes') _
        (subst (λ n. Spared n (lookup g passes) (lookup g passes')) t.0
          (process_read-Spared gate g r passes e u))
        (process_reads-Spared gate g now rs passes' e t.1
          (process_read-HasUniqueKeys gate r passes u))
