-- ===== src/PlateProcessor/Join.antt =====
-- Which cluster an untracked plate joins.
use lpr_refactored.Prelude.{
  ℕ, suc, ◌≡◌, refl, sym, subst, ◌∙◌, true, false, ◌||◌, ◌&&◌, not, some, [], ◌∷◌, ◌++◌, arith,
  if◌then◌else◌, is_empty, Text, text_eq_iff, text_eq_refl, lookup, Dict, Bool-cases, ◌⊎◌, inl, inr,
  is_nonneg, starts_with, to_string, HasUniqueKeys, lookup_none_of_contains, contains,
}
use lpr_refactored.Floats.{Float}
use lpr_refactored.PlateProcessor.{
  PlateResult, Track, Config, PlateProcessor, minus_one, best_cluster, gate_prefix, other_pass,
  qualifies, is_outlier, resolve_key,
}

module _ (F : Float) (jaro : Text → Text → F.Num) (cfg : Config F) where
  -- The key is that of a cluster of the gate that is still in its pass and that the text matches.
  pub record Joins (p : PlateResult F) (now : ℕ) (tracks : Dict (Track F)) (key : Text)
      : Type 0 where
    pub track : Track F
    pub found : lookup key tracks ≡ some track
    pub of_gate : starts_with (gate_prefix F jaro cfg p.gate) key ≡ true
    pub same_pass : other_pass F jaro cfg now track ≡ false
    pub matches : qualifies F jaro cfg p.text track ≡ true

  Joins-cons :
      (p : PlateResult F) (now : ℕ) (k key : Text) (tr : Track F) (tracks : Dict (Track F))
      → contains k tracks ≡ false
      → Joins p now tracks key
      → Joins p now ((k, tr) ∷ tracks) key
  unfolding lookup
  Joins-cons p now k key tr0 tracks u j = record {
    track = j.track;
    of_gate = j.of_gate;
    same_pass = j.same_pass;
    matches = j.matches;
    found = ground (arith, j.found, text_eq_iff k key, lookup_none_of_contains k tracks u);
  }

  -- What the loop holds after a cluster.
  abbrev considered : PlateResult F → ℕ → Text → Track F → Text × F.Num → Text × F.Num
  considered p now k tr best =
      if not (starts_with (gate_prefix F jaro cfg p.gate) k) || other_pass F jaro cfg now tr
      then best
      else if qualifies F jaro cfg p.text tr && F.lt best.1 (jaro p.text tr.consensus)
      then (k, jaro p.text tr.consensus)
      else best

  considered-Joins :
      (p : PlateResult F) (now : ℕ) (k : Text) (tr : Track F) (tracks : Dict (Track F))
      (best : Text × F.Num)
      → (considered p now k tr best ≡ best)
        ⊎ Joins p now ((k, tr) ∷ tracks) (considered p now k tr best).0
  unfolding lookup
  considered-Joins p now k t tracks best =
      let skip =
        not (starts_with (gate_prefix F jaro cfg p.gate) k) || other_pass F jaro cfg now t in
      elim (Bool-cases
        (not skip && (qualifies F jaro cfg p.text t && F.lt best.1 (jaro p.text t.consensus)))) [
          | inl e ↦ inr (record {
            track = t;
            found = ground (arith, text_eq_refl k);
            of_gate = ground arith;
            same_pass = ground arith;
            matches = ground arith;
          })
          | inr e ↦ inl (ground arith)
        ]

  best_cluster-Joins :
      (p : PlateResult F) (now : ℕ) (tracks : Dict (Track F)) (best : Text × F.Num)
      → HasUniqueKeys tracks
      → (best_cluster F jaro cfg (gate_prefix F jaro cfg p.gate) p.text now tracks best ≡ best)
        ⊎ Joins p now tracks
            (best_cluster F jaro cfg (gate_prefix F jaro cfg p.gate) p.text now tracks best).0
  unfolding best_cluster
  best_cluster-Joins p now [] best u = inl refl
  best_cluster-Joins p now ((k, t) ∷ tracks) best u =
      elim (best_cluster-Joins p now tracks (considered p now k t best) u.1) [
        | inr j ↦ inr (Joins-cons p now k _ t tracks u.0 j)
        | inl i ↦ elim (considered-Joins p now k t tracks best) [
          | inl c ↦ inl (i ∙ c)
          | inr j ↦ inr (subst (λ r. Joins p now ((k, t) ∷ tracks) r.0) (sym i) j)
        ]
      ]

  -- Where the map holds each key once, an untracked plate joins a cluster of its own gate, last read within the pass gap, which the
  -- plate matches by similarity or by plate structure, and which therefore never rejects it as an
  -- outlier; or it opens a cluster under the next number, and the counter moves on.
  pub resolve_key-Joins :
      (p : PlateResult F) (now : ℕ) (s : PlateProcessor F)
      → HasUniqueKeys s.tracks
      → is_nonneg p.track_id ≡ false
      → ((j : Joins p now s.tracks (resolve_key F jaro cfg p now s).0) × ((resolve_key F jaro cfg p
              now s).1
            ≡ s)
          × (is_outlier F jaro cfg p j.track ≡ false))
        ⊎ (resolve_key F jaro cfg p now s ≡ (
          gate_prefix F jaro cfg p.gate ++ to_string s.untracked_counter,
          record s { untracked_counter = suc s.untracked_counter },
        ))
  unfolding resolve_key
  resolve_key-Joins p now s u n =
      let b =
        best_cluster F jaro cfg (gate_prefix F jaro cfg p.gate) p.text now s.tracks
          ([], minus_one F) in
      elim (Bool-cases (is_empty b.0)) [
        | inl e ↦ inr (rw (n, e) refl)
        | inr e ↦
            rw (n, e)
              (elim (best_cluster-Joins p now s.tracks ([], minus_one F) u) [
                | inl i ↦ absurd (ground (arith, i, e))
                | inr j ↦ inl (j, refl, ground (arith, j.matches))
              ])
      ]
