-- ===== src/Direction/Bounds.antt =====
-- The memory of a pass, and the evidence behind an exit.
use lpr_refactored.Prelude.{
  ℕ, ◌≡◌, ◌≤◌, refl, sym, ap, subst, ◌∙◌, Bool, true, false, ◌||◌, List, [], ◌∷◌, ◌++◌, arith,
  length, length-append, length-drop, Bool-cases, inl, inr, ltb, if◌then◌else◌,
}
use lpr_refactored.Floats.{Float, le}
use lpr_refactored.Direction.{
  Trend, unknown, approaching, receding, same, Track, Config, new_track, refreshed, sampled,
  verdict, settle, sight, at_peak, exit_guard, y_agrees, enough_reads, if_unknown, by_trend,
  by_peak, avg_first, avg_last,
}
use lpr_refactored.Direction.Events.{Sighting}

module _ (F : Float) (cfg : Config F) where
  -- At most 600 samples, each a size and a vertical centre.
  pub record IsBounded (t : Track F) : Type 0 where
    pub few : length t.sizes ≤ 600
    pub paired : length t.ys ≡ length t.sizes

  refreshed-IsBounded : (ts : ℕ) (t : Track F) → IsBounded t → IsBounded (refreshed F cfg ts t)
  unfolding refreshed
  refreshed-IsBounded ts t h = record {
    few = ground (arith, h.few);
    paired = ground (arith, h.paired);
  }

  sampled-IsBounded :
      (size y : F.Num) (t : Track F) → IsBounded t → IsBounded (sampled F cfg size y t)
  unfolding sampled
  sampled-IsBounded size y t h = record {
    few =
        ground
          (arith, h.few, length-append t.sizes (size ∷ []), length-drop 1 (t.sizes ++ size ∷ []));
    paired = ground (
      arith,
      h.paired,
      length-append t.sizes (size ∷ []),
      length-append t.ys (y ∷ []),
      length-drop 1 (t.sizes ++ size ∷ []),
      length-drop 1 (t.ys ++ y ∷ []),
    );
  }

  settle_sizes :
      (ts : ℕ) (dir : Trend) (t : Track F)
      → ((settle F cfg ts dir t).0.sizes ≡ t.sizes) × ((settle F cfg ts dir t).0.ys ≡ t.ys)
  unfolding settle
  settle_sizes ts dir t = ground arith

  settle-IsBounded :
      (ts : ℕ) (dir : Trend) (t : Track F) → IsBounded t → IsBounded (settle F cfg ts dir t).0
  settle-IsBounded ts dir t h =
      let s = settle_sizes ts dir t in
      record {
        few = subst (λ l. length l ≤ 600) (sym s.0) h.few;
        paired = ap length s.1 ∙ h.paired ∙ ap length (sym s.0);
      }

  decided-IsBounded :
      (locked none : Bool) (t1 t2 : Track F) (r : Track F × Trend)
      → IsBounded t1
      → IsBounded t2
      → IsBounded r.0
      → IsBounded (
          let o : Track F × Trend =
            if locked then (t1, unknown) else if none then (t2, unknown) else r in
          o.0)
  decided-IsBounded true none t1 t2 r h1 h2 h = h1
  decided-IsBounded false true t1 t2 r h1 h2 h = h2
  decided-IsBounded false false t1 t2 r h1 h2 h = h

  sight-IsBounded :
      (size y : F.Num) (ts : ℕ) (t : Track F) → IsBounded t → IsBounded (sight F cfg size y ts t).0
  unfolding sight
  sight-IsBounded size y ts t h =
      let t1 = refreshed F cfg ts t in
      let t2 = sampled F cfg size y t1 in
      let b1 = refreshed-IsBounded ts t h in
      let b2 = sampled-IsBounded size y t1 b1 in
      decided-IsBounded t1.locked (same (verdict F cfg t2) unknown) t1 t2
        (settle F cfg ts (verdict F cfg t2) t2) b1 b2 (settle-IsBounded ts (verdict F cfg t2) t2 b2)

  pub sights : List (Sighting F cfg) → Track F → Track F
  unfolding sight
  sights [] t = t
  sights ((size, y, ts) ∷ ss) t = sights ss (sight F cfg size y ts t).0

  sights_keep-IsBounded :
      (ss : List (Sighting F cfg)) (t : Track F) → IsBounded t → IsBounded (sights ss t)
  unfolding sights
  sights_keep-IsBounded [] t h = h
  sights_keep-IsBounded ((size, y, ts) ∷ ss) t h =
      sights_keep-IsBounded ss _ (sight-IsBounded size y ts t h)

  -- However long a plate stays in view, its track never holds more than 600 samples, and always as
  -- many vertical centres as sizes.
  pub sights-IsBounded : (ss : List (Sighting F cfg)) → IsBounded (sights ss (new_track F))
  sights-IsBounded ss =
      sights_keep-IsBounded ss (new_track F) (record { few = omega arith; paired = refl })

  exit_guard_receding :
      (sizes : List F.Num) (d : Trend)
      → exit_guard F cfg sizes d ≡ receding
      → (d ≡ receding) × (at_peak F cfg sizes ≡ false)
  unfolding exit_guard
  exit_guard_receding sizes unknown h = absurd (ground (arith, ap (λ x. same x receding) h))
  exit_guard_receding sizes approaching h = absurd (ground (arith, ap (λ x. same x receding) h))
  exit_guard_receding sizes receding h = elim (Bool-cases (at_peak F cfg sizes)) [
    | inl e ↦ absurd (ground (arith, ap (λ x. same x receding) h, e))
    | inr e ↦ (refl, e)
  ]

  y_agrees_receding : (ys : List F.Num) (d : Trend) → y_agrees F cfg ys d ≡ receding → d ≡ receding
  unfolding y_agrees
  y_agrees_receding ys unknown h = absurd (ground (arith, ap (λ x. same x receding) h))
  y_agrees_receding ys approaching h = absurd (ground (arith, ap (λ x. same x receding) h))
  y_agrees_receding ys receding h = refl

  enough_reads_receding :
      (sizes : List F.Num) (d : Trend)
      → enough_reads F cfg sizes d ≡ receding
      → cfg.min_sightings ≤ length sizes
      → cfg.receding_min_sightings ≤ length sizes
  unfolding enough_reads
  enough_reads_receding sizes unknown h m = absurd (ground (arith, ap (λ x. same x receding) h))
  enough_reads_receding sizes approaching h m = absurd (ground (arith, ap (λ x. same x receding) h))
  enough_reads_receding sizes receding h m = ground (arith, ap (λ x. same x receding) h)

  judged :
      (t : Track F) (dir : Trend) (few : Bool)
      → (if few
          then unknown
          else exit_guard F cfg t.sizes (y_agrees F cfg t.ys (enough_reads F cfg t.sizes dir)))
        ≡ receding
      → (few ≡ false → cfg.min_sightings ≤ length t.sizes)
      → (at_peak F cfg t.sizes ≡ false)
        × (cfg.min_sightings ≤ length t.sizes)
        × (cfg.receding_min_sightings ≤ length t.sizes)
  judged t dir true h m = absurd (ground (arith, ap (λ x. same x receding) h))
  judged t dir false h m =
      let g = exit_guard_receding t.sizes _ h in
      let r = y_agrees_receding t.ys _ g.0 in
      (g.1, m refl, enough_reads_receding t.sizes dir r (m refl))

  -- A history is judged receding, which reads as an exit, only when the newest size is below the
  -- guard's share of the largest one, and when there are as many samples as either of the two
  -- configured minima asks for.
  pub verdict-receding :
      (t : Track F)
      → verdict F cfg t ≡ receding
      → (at_peak F cfg t.sizes ≡ false)
        × (cfg.min_sightings ≤ length t.sizes)
        × (cfg.receding_min_sightings ≤ length t.sizes)
  unfolding verdict
  verdict-receding t h =
      let dir =
        if_unknown F cfg (by_trend F cfg t.sizes (avg_first F cfg t.sizes) (avg_last F cfg t.sizes))
          (by_peak F cfg t.sizes) in
      judged t dir
        (ltb (length t.sizes) cfg.min_sightings || le F (avg_first F cfg t.sizes) (F.ratio 0 1)) h
        (λ e. ground (arith, e))
