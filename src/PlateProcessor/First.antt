-- ===== src/PlateProcessor/First.antt =====
-- The first read of a pass.
use lpr_refactored.Prelude.{
  ◌≡◌, refl, true, none, some, [], ◌∷◌, arith, if◌then◌else◌, Text, lookup, insert, ◌⊎◌,
}
use lpr_refactored.Floats.{Float}
use lpr_refactored.PlateProcessor.{
  PlateResult, Config, PlateProcessor, new_track, weighted_consensus, tally, heaviest, resolve_key,
  evict_stale, accepted, vote, add_read, process,
}

module _ (F : Float) where
  -- A vote of one read elects its text, or none at all.
  pub vote_of_one :
      (t : Text) (w : F.Num)
      → (weighted_consensus F ((t, w) ∷ []) ≡ t) ⊎ (weighted_consensus F ((t, w) ∷ []) ≡ [])
  unfolding weighted_consensus tally heaviest lookup insert
  vote_of_one t w = ground arith

  pub first_vote :
      (jaro : Text → Text → F.Num) (cfg : Config F) (p : PlateResult F) (uuid c : Text)
      → weighted_consensus F (
          (
            p.text,
            F.mul p.confidence
                (if F.lt (F.ratio 1 1) (F.ratio p.area 1) then F.ratio p.area 1 else F.ratio 1 1),
          )
          ∷ [])
        ≡ c
      → (c ≡ p.text) ⊎ (c ≡ [])
      → (vote F jaro cfg p uuid (new_track F)).1 ≡ some (record p { pass_id = uuid })
  unfolding vote add_read
  first_vote jaro cfg p uuid c e h = rw e (ground arith)

  -- A plate that passes the guards and that opens a new pass (its key has no track once the stale
  -- ones are evicted) is emitted at once, as it was read, under the pass id drawn for it: a car
  -- seen on a single frame is never dropped.
  pub process-first_read :
      (jaro : Text → Text → F.Num) (cfg : Config F) (p : PlateResult F) (uuid : Text)
      (s : PlateProcessor F)
      → accepted F jaro cfg p ≡ true
      → lookup
          (resolve_key F jaro cfg p p.timestamp (evict_stale F jaro cfg p.timestamp s)).0
          (resolve_key F jaro cfg p p.timestamp (evict_stale F jaro cfg p.timestamp s)).1.tracks
        ≡ none
      → (process F jaro cfg p uuid s).1 ≡ some (record p { pass_id = uuid })
  unfolding process
  process-first_read jaro cfg p uuid s h k =
      ground (arith, first_vote jaro cfg p uuid _ refl (vote_of_one p.text _))
