-- ===== src/Direction/Events.antt =====
-- Which events one pass gives.
use lpr_refactored.Prelude.{
  ℕ, ◌-◌, ◌==◌, ◌≡◌, refl, sym, ap, subst, ◌∙◌, Bool, true, false, List, [], ◌∷◌, arith, Bool-cases,
  ◌⊎◌, inl, inr, if◌then◌else◌,
}
use lpr_refactored.Floats.{Float}
use lpr_refactored.Direction.{
  Trend, unknown, approaching, receding, same, Track, Config, resets, refreshed, sampled, verdict,
  settle, sight,
}

abbrev pub with_event : Trend → List Trend → List Trend
with_event unknown es = es
with_event approaching es = approaching ∷ es
with_event receding es = receding ∷ es

-- Each event differs from the decision that stood before it.
abbrev pub Corrects : Trend → List Trend → Type 0
Corrects r [] = Unit {0}
Corrects r (e ∷ es) = (same e r ≡ false) × Corrects e es

module _ (F : Float) (cfg : Config F) where
  -- A sighting: size, vertical centre, time.
  abbrev pub Sighting : Type 0
  Sighting = F.Num × F.Num × ℕ

  -- The events of the sightings of one plate.
  unfoldable pub events : List Sighting → Track F → List Trend
  unfolding sight
  events [] t = []
  events ((size, y, ts) ∷ ss) t =
      let (t', e) = sight F cfg size y ts t in with_event e (events ss t')

  -- No sighting starts a fresh pass.
  unfoldable pub InPass : Track F → List Sighting → Type 0
  unfolding sight
  InPass t [] = Unit {0}
  InPass t ((size, y, ts) ∷ ss) =
      (resets F cfg ts t ≡ false) × InPass (sight F cfg size y ts t).0 ss

  -- What a sighting does to the standing decision.
  record Steps (t : Track F) (r : Track F × Trend) : Type 0 where
    event :
        ((r.1 ≡ unknown) × (r.0.reported ≡ t.reported))
        ⊎ ((same r.1 unknown ≡ false) × (r.1 ≡ r.0.reported) × (same r.1 t.reported ≡ false))
    lock : t.locked ≡ true → (r.0.locked ≡ true) × (r.1 ≡ unknown)

  settle_event :
      (ts : ℕ) (dir : Trend) (t : Track F)
      → same dir unknown ≡ false
      → ((settle F cfg ts dir t).1 ≡ unknown) × ((settle F cfg ts dir t).0.reported ≡ t.reported)
        ⊎ (same (settle F cfg ts dir t).1 unknown ≡ false)
          × ((settle F cfg ts dir t).1 ≡ (settle F cfg ts dir t).0.reported)
          × (same (settle F cfg ts dir t).1 t.reported ≡ false)
  unfolding settle
  settle_event ts unknown t h = absurd cc
  settle_event ts approaching t h = ground arith
  settle_event ts receding t h = ground arith

  refreshed_keeps :
      (ts : ℕ) (t : Track F)
      → resets F cfg ts t ≡ false
      → ((refreshed F cfg ts t).reported ≡ t.reported) × ((refreshed F cfg ts t).locked ≡ t.locked)
  unfolding refreshed
  refreshed_keeps ts t h = rw h (go (t.last_ts == 0))
    where
      go :
          (b : Bool)
          → ((if b
                then record t { last_ts = ts }
                else record t { last_interval = ts - t.last_ts; last_ts = ts }).reported
              ≡ t.reported)
            × ((if b
                  then record t { last_ts = ts }
                  else record t { last_interval = ts - t.last_ts; last_ts = ts }).locked
                ≡ t.locked)
      go true = (refl, refl)
      go false = (refl, refl)

  sampled_keeps : (size y : F.Num) (t : Track F) → (sampled F cfg size y t).reported ≡ t.reported
  unfolding sampled
  sampled_keeps size y t = ground arith

  -- The end of `sight`, on the refreshed track and the one with the new sample.
  abbrev decided : ℕ → Trend → Track F → Track F → Track F × Trend
  decided ts dir t1 t2 =
      if t1.locked
      then (t1, unknown)
      else if same dir unknown
      then (t2, unknown)
      else settle F cfg ts dir t2

  decided-Steps :
      (ts : ℕ) (dir : Trend) (t t1 t2 : Track F)
      → t1.reported ≡ t.reported
      → t1.locked ≡ t.locked
      → t2.reported ≡ t.reported
      → Steps t (decided ts dir t1 t2)
  decided-Steps ts dir t t1 t2 r l r2 = elim (Bool-cases t1.locked) [
    | inl e ↦ rw e (record { event = inl (refl, r); lock = λ k. (refl, refl) })
    | inr e ↦ elim (Bool-cases (same dir unknown)) [
      | inl d ↦ rw (e, d) (record { event = inl (refl, r2); lock = λ k. ground (arith, e, k, l) })
      | inr d ↦
          rw (e, d)
            (record {
              event =
                  subst
                    (λ x.
                      ((settle F cfg ts dir t2).1 ≡ unknown)
                        × ((settle F cfg ts dir t2).0.reported ≡ x)
                      ⊎ (same (settle F cfg ts dir t2).1 unknown ≡ false)
                        × ((settle F cfg ts dir t2).1 ≡ (settle F cfg ts dir t2).0.reported)
                        × (same (settle F cfg ts dir t2).1 x ≡ false))
                    r2 (settle_event ts dir t2 d);
              lock = λ k. ground (arith, e, k, l);
            })
    ]
  ]

  sight-Steps :
      (size y : F.Num) (ts : ℕ) (t : Track F)
      → resets F cfg ts t ≡ false
      → Steps t (sight F cfg size y ts t)
  unfolding sight
  sight-Steps size y ts t h =
      let k = refreshed_keeps ts t h in
      decided-Steps ts (verdict F cfg (sampled F cfg size y (refreshed F cfg ts t))) t
        (refreshed F cfg ts t) (sampled F cfg size y (refreshed F cfg ts t)) k.0 k.1
        (sampled_keeps size y (refreshed F cfg ts t) ∙ k.0)

  with_event-Corrects :
      (e r r' : Trend) (es : List Trend)
      → ((e ≡ unknown) × (r' ≡ r)) ⊎ ((same e unknown ≡ false) × (e ≡ r') × (same e r ≡ false))
      → Corrects r' es
      → Corrects r (with_event e es)
  with_event-Corrects unknown r r' es (inl h) c = subst (λ x. Corrects x es) h.1 c
  with_event-Corrects unknown r r' es (inr h) c = absurd (ground (arith, h.0))
  with_event-Corrects approaching r r' es (inl h) c =
      absurd (ground (arith, ap (λ x. same x unknown) h.0))
  with_event-Corrects approaching r r' es (inr h) c = (h.2, subst (λ x. Corrects x es) (sym h.1) c)
  with_event-Corrects receding r r' es (inl h) c =
      absurd (ground (arith, ap (λ x. same x unknown) h.0))
  with_event-Corrects receding r r' es (inr h) c = (h.2, subst (λ x. Corrects x es) (sym h.1) c)

  -- Within one pass of a plate, each event differs from the decision that stood before it, so an
  -- unchanged direction is never announced again; and once the decision is locked no event comes at
  -- all.
  pub events-Corrects :
      (ss : List Sighting) (t : Track F)
      → InPass t ss
      → Corrects t.reported (events ss t) × (t.locked ≡ true → events ss t ≡ [])
  unfolding events InPass
  events-Corrects [] t h = (tt, λ k. refl)
  events-Corrects ((size, y, ts) ∷ ss) t h =
      let r = sight-Steps size y ts t h.0 in
      let rest = events-Corrects ss (sight F cfg size y ts t).0 h.1 in
      (
        with_event-Corrects (sight F cfg size y ts t).1 t.reported
            (sight F cfg size y ts t).0.reported _ r.event rest.0,
        λ k.
            ap (λ e. with_event e (events ss (sight F cfg size y ts t).0)) (r.lock k).1
            ∙ rest.1 (r.lock k).0,
      )
