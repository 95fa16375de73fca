-- ===== src/PlateProcessor/Vehicle.antt =====
-- One tracked vehicle in the whole processor.
use lpr_refactored.Prelude.{
  ℕ, ◌+◌, ◌≡◌, ◌≤◌, refl, ap, subst, ◌∙◌, true, false, Option, none, some, List, [], ◌∷◌, arith,
  if◌then◌else◌, is_empty, Text, lookup, insert, Bool-cases, ◌⊎◌, inl, inr, All, ℤ, is_nonneg,
  HasUniqueKeys, HasUniqueKeys-insert, HasUniqueKeys-erase_if, lookup-erase_if, lookup-insert_self,
}
use lpr_refactored.Floats.{Float, IsSigned, fmax}
use lpr_refactored.PlateProcessor.{
  PlateResult, Track, Config, PlateProcessor, new_track, weighted_consensus, track_key, resolve_key,
  evict_stale, is_stale, accepted, vote, add_read, process, process_all, emitted, track_or_new,
}
use lpr_refactored.PlateProcessor.First.{vote_of_one, first_vote}
use lpr_refactored.PlateProcessor.Resend.{
  Changes, IsLive, IsConfident, Continues, vote-Continues, consensus_there, size_nonneg,
}

module _ (F : Float) (jaro : Text → Text → F.Num) (cfg : Config F) where
  evict_stale-HasUniqueKeys :
      (now : ℕ) (s : PlateProcessor F)
      → HasUniqueKeys s.tracks
      → HasUniqueKeys (evict_stale F jaro cfg now s).tracks
  unfolding evict_stale
  evict_stale-HasUniqueKeys now s u =
      ground (arith, u, HasUniqueKeys-erase_if (is_stale F jaro cfg now) s.tracks u)

  -- A track read within the time to live stays.
  lookup-evict_stale :
      (now : ℕ) (s : PlateProcessor F) (k : Text) (t : Track F)
      → HasUniqueKeys s.tracks
      → lookup k s.tracks ≡ some t
      → now ≤ t.last_update_ms + cfg.track_ttl_ms
      → lookup k (evict_stale F jaro cfg now s).tracks ≡ some t
  unfolding evict_stale
  lookup-evict_stale now s k t u e h =
      ground (arith, e, lookup-erase_if (is_stale F jaro cfg now) k s.tracks u)

  absent-evict_stale :
      (now : ℕ) (s : PlateProcessor F) (k : Text)
      → HasUniqueKeys s.tracks
      → lookup k s.tracks ≡ none
      → lookup k (evict_stale F jaro cfg now s).tracks ≡ none
  unfolding evict_stale
  absent-evict_stale now s k u e =
      ground (arith, e, lookup-erase_if (is_stale F jaro cfg now) k s.tracks u)

  process-tracked :
      (p : PlateResult F) (uuid : Text) (s : PlateProcessor F) (t : Track F)
      → accepted F jaro cfg p ≡ true
      → is_nonneg p.track_id ≡ true
      → track_or_new F jaro cfg
          (lookup (track_key F jaro cfg p.track_id) (evict_stale F jaro cfg p.timestamp s).tracks)
        ≡ t
      → process F jaro cfg p uuid s ≡ (
        record (evict_stale F jaro cfg p.timestamp s) {
          tracks =
              insert
                (track_key F jaro cfg p.track_id)
                (vote F jaro cfg p uuid t).0
                (evict_stale F jaro cfg p.timestamp s).tracks;
        },
        (vote F jaro cfg p uuid t).1,
      )
  unfolding process resolve_key
  process-tracked p uuid s t a n e = rw (a, n, e) refl

  process-rejected :
      (p : PlateResult F) (uuid : Text) (s : PlateProcessor F)
      → accepted F jaro cfg p ≡ false
      → process F jaro cfg p uuid s ≡ (s, none)
  unfolding process
  process-rejected p uuid s a = rw a refl

  process-vehicle :
      (id : ℤ) (p : PlateResult F) (uuid : Text) (s : PlateProcessor F) (t : Track F)
      → accepted F jaro cfg p ≡ true
      → is_nonneg id ≡ true
      → p.track_id ≡ id
      → track_or_new F jaro cfg
          (lookup (track_key F jaro cfg id) (evict_stale F jaro cfg p.timestamp s).tracks)
        ≡ t
      → process F jaro cfg p uuid s ≡ (
        record (evict_stale F jaro cfg p.timestamp s) {
          tracks =
              insert
                (track_key F jaro cfg id)
                (vote F jaro cfg p uuid t).0
                (evict_stale F jaro cfg p.timestamp s).tracks;
        },
        (vote F jaro cfg p uuid t).1,
      )
  process-vehicle id p uuid s t a n i e =
      subst
        (λ k. process F jaro cfg p uuid s ≡ (
          record (evict_stale F jaro cfg p.timestamp s) {
            tracks =
                insert (track_key F jaro cfg k) (vote F jaro cfg p uuid t).0
                  (evict_stale F jaro cfg p.timestamp s).tracks;
          },
          (vote F jaro cfg p uuid t).1,
        ))
        i (process-tracked p uuid s t a (rw i n) (rw i e))

  -- The plates are reads of one vehicle, with confidences that are not negative.
  abbrev pub IsOf : ℤ → PlateResult F × Text → Type 0
  IsOf id x = (x.0.track_id ≡ id) × (F.lt x.0.confidence (F.ratio 0 1) ≡ false)

  -- Each plate comes within the time to live of the last accepted one.
  abbrev pub Prompt : ℕ → List (PlateResult F × Text) → Type 0
  Prompt at [] = Unit {0}
  Prompt at (x ∷ xs) =
      (x.0.timestamp ≤ at + cfg.track_ttl_ms)
      × Prompt (if accepted F jaro cfg x.0 then x.0.timestamp else at) xs

  -- Emissions under one pass id, each with another text than the one before it.
  abbrev pub Corrects : Text → Text → List (PlateResult F) → Type 0
  Corrects pass last os =
      Changes (λ (o : PlateResult F). o.text) last os × All (λ o. o.pass_id ≡ pass) os

  process_all-step :
      (p : PlateResult F) (uuid : Text) (ps : List (PlateResult F × Text)) (s s' : PlateProcessor F)
      (out : Option (PlateResult F))
      → process F jaro cfg p uuid s ≡ (s', out)
      → process_all F jaro cfg ((p, uuid) ∷ ps) s
        ≡ emitted F jaro cfg out (process_all F jaro cfg ps s')
  unfolding process_all
  process_all-step p uuid ps s s' out e =
      ap (λ r. emitted F jaro cfg r.1 (process_all F jaro cfg ps r.0)) e

module _ (F : Float) (S : IsSigned F) (jaro : Text → Text → F.Num) (cfg : Config F) where
  join_emission :
      (pass last : Text) (at : ℕ) (t : Track F) (out : Option (PlateResult F))
      (rest : List (PlateResult F))
      → Continues F S jaro cfg pass last at (t, out)
      → ((l : Text) → IsLive F S jaro cfg pass l at t → Corrects F jaro cfg pass l rest)
      → Corrects F jaro cfg pass last (emitted F jaro cfg out rest)
  unfolding Continues
  join_emission pass last at t none rest c k = k last c
  join_emission pass last at t (some o) rest c k =
      let r = k o.text c.0 in ((c.1.1, r.0), (c.1.0, r.1))

  process_all-live :
      (id : ℤ) (pass last : Text) (at : ℕ) (ps : List (PlateResult F × Text)) (s : PlateProcessor F)
      (t : Track F)
      → is_nonneg id ≡ true
      → is_empty pass ≡ false
      → HasUniqueKeys s.tracks
      → lookup (track_key F jaro cfg id) s.tracks ≡ some t
      → IsLive F S jaro cfg pass last at t
      → Prompt F jaro cfg at ps
      → All (IsOf F jaro cfg id) ps
      → Corrects F jaro cfg pass last (process_all F jaro cfg ps s)
  unfolding process_all
  process_all-live id pass last at [] s t n e u l h q o = (tt, tt)
  process_all-live id pass last at ((p, uuid) ∷ ps) s t n e u l h q o =
      elim (Bool-cases (accepted F jaro cfg p)) [
        | inr a ↦
            rw
              (process_all-step F jaro cfg p uuid ps s s none
                (process-rejected F jaro cfg p uuid s a))
              (process_all-live id pass last at ps s t n e u l h
                (subst (λ c. Prompt F jaro cfg (if c then p.timestamp else at) ps) a q.1) o.1)
        | inl a ↦
            let s1 = evict_stale F jaro cfg p.timestamp s in
            let v = vote F jaro cfg p uuid t in
            let s2 : PlateProcessor F = record s1 {
              tracks = insert (track_key F jaro cfg id) v.0 s1.tracks;
            } in
            let found =
              lookup-evict_stale F jaro cfg p.timestamp s (track_key F jaro cfg id) t u l
                (omega (arith, h.update, q.0)) in
            let e1 : process F jaro cfg p uuid s ≡ (s2, v.1) =
              process-vehicle F jaro cfg id p uuid s t a n o.0.0
                (ap (track_or_new F jaro cfg) found) in
            rw (process_all-step F jaro cfg p uuid ps s s2 v.1 e1) (
              join_emission pass last p.timestamp v.0 v.1 _
                (vote-Continues F S jaro cfg pass last at p uuid t e (ground (arith, a)) o.0.1 h)
                (λ l' h'.
                  process_all-live id pass l' p.timestamp ps s2 v.0 n e
                    (HasUniqueKeys-insert _ v.0 s1.tracks
                      (evict_stale-HasUniqueKeys F jaro cfg p.timestamp s u))
                    (lookup-insert_self (track_key F jaro cfg id) v.0 s1.tracks) h'
                    (subst (λ c. Prompt F jaro cfg (if c then p.timestamp else at) ps) a q.1) o.1))
      ]

  -- The track that the first read leaves.
  first_vote-IsLive :
      (p : PlateResult F) (uuid c : Text)
      → is_empty p.text ≡ false
      → IsConfident F S jaro cfg p
      → weighted_consensus F
          ((p.text, F.mul p.confidence (fmax F (F.ratio 1 1) (F.ratio p.area 1))) ∷ [])
        ≡ c
      → (c ≡ p.text) ⊎ (c ≡ [])
      → is_empty c ≡ false
      → IsLive F S jaro cfg uuid p.text p.timestamp (vote F jaro cfg p uuid (new_track F)).0
  unfolding vote add_read
  first_vote-IsLive p uuid c n h e o k = record {
    sent = refl;
    consensus = e ∙ ground (arith, k);
    last_sent = e ∙ ground (arith, k);
    pass_id = refl;
    reads = ((n, S.mul_nonneg p.confidence _ h (size_nonneg F S jaro cfg p.area)), tt);
    update = refl;
  }

  -- Of one tracked vehicle that has no track yet, and whose plates then come without a pause longer
  -- than the time to live, the first plate that passes the guards is emitted as it was read. Every
  -- later emission carries the same pass id and another text than the one before it: an unchanged
  -- vote is never sent again, and a changed one corrects the same passage. The pass id drawn is not
  -- empty, confidences are not negative, and the map holds each key once.
  pub process_all-Corrects :
      (id : ℤ) (p : PlateResult F) (uuid : Text) (ps : List (PlateResult F × Text))
      (s : PlateProcessor F)
      → is_nonneg id ≡ true
      → is_empty uuid ≡ false
      → HasUniqueKeys s.tracks
      → lookup (track_key F jaro cfg id) s.tracks ≡ none
      → accepted F jaro cfg p ≡ true
      → Prompt F jaro cfg p.timestamp ps
      → All (IsOf F jaro cfg id) ((p, uuid) ∷ ps)
      → (rest : List (PlateResult F)) × (process_all F jaro cfg ((p, uuid) ∷ ps) s
          ≡ record p { pass_id = uuid } ∷ rest)
        × Corrects F jaro cfg uuid p.text rest
  process_all-Corrects id p uuid ps s n e u l a q o =
      let s1 = evict_stale F jaro cfg p.timestamp s in
      let v = vote F jaro cfg p uuid (new_track F) in
      let s2 : PlateProcessor F = record s1 {
        tracks = insert (track_key F jaro cfg id) v.0 s1.tracks;
      } in
      let absent = absent-evict_stale F jaro cfg p.timestamp s (track_key F jaro cfg id) u l in
      let e1 : process F jaro cfg p uuid s ≡ (s2, v.1) =
        process-vehicle F jaro cfg id p uuid s (new_track F) a n o.0.0
          (ap (track_or_new F jaro cfg) absent) in
      let e2 = first_vote F jaro cfg p uuid _ refl (vote_of_one F p.text _) in
      let there =
        consensus_there F S jaro cfg []
          (p.text, F.mul p.confidence (fmax F (F.ratio 1 1) (F.ratio p.area 1)))
          (
            (
              ground (arith, a),
              S.mul_nonneg p.confidence _ o.0.1 (size_nonneg F S jaro cfg p.area),
            ),
            tt,
          ) in
      (
        process_all F jaro cfg ps s2,
        process_all-step F jaro cfg p uuid ps s s2 (some (record p { pass_id = uuid }))
            (e1 ∙ ap (λ r. (s2, r)) e2),
        process_all-live id uuid p.text p.timestamp ps s2 v.0 n e
            (HasUniqueKeys-insert _ v.0 s1.tracks
              (evict_stale-HasUniqueKeys F jaro cfg p.timestamp s u))
            (lookup-insert_self (track_key F jaro cfg id) v.0 s1.tracks)
            (first_vote-IsLive p uuid _ (ground (arith, a)) o.0.1 refl (vote_of_one F p.text _)
              there)
            q o.1,
      )
