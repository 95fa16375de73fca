-- ===== src/PlateProcessor/Resend.antt =====
-- What leaves of one tracked vehicle: its first read, and then a correction whenever the vote changes.
use lpr_refactored.Prelude.{
  ℕ, ◌≡◌, refl, ap, Bool, true, false, ◌&&◌, Option, none, some, List, [], ◌∷◌, ◌++◌, arith,
  if◌then◌else◌, is_empty, Text, text_eq, text_eq_iff, All, All-append,
}
use lpr_refactored.Floats.{Float, IsSigned, fmax}
use lpr_refactored.PlateProcessor.{
  PlateResult, Track, Config, weighted_consensus, vote, add_read, mark_sent, emission,
}
use lpr_refactored.PlateProcessor.Vote.{mentions, weighted_consensus_lem, IsWeight}

-- Each text differs from the one before it.
abbrev pub Changes {ℓ} : {A : Type ℓ} → (A → Text) → Text → List A → Type 0
Changes f last [] = Unit
Changes f last (o ∷ os) = (text_eq (f o) last ≡ false) × Changes f (f o) os

module _ (F : Float) (S : IsSigned F) (jaro : Text → Text → F.Num) (cfg : Config F) where
  open F use {Num, lt, mul, ratio}

  -- A read that counts: a text, and a weight that is not negative.
  abbrev pub IsRead : Text × Num → Type 0
  IsRead r = (is_empty r.0 ≡ false) × IsWeight F r

  read_mentioned :
      (reads : List (Text × Num)) (t : Text)
      → All IsRead reads
      → mentions t reads ≡ true
      → is_empty t ≡ false
  unfolding mentions
  read_mentioned [] t h m = cc
  read_mentioned ((u, w) ∷ reads) t h m =
      ground (arith, text_eq_iff u t, read_mentioned reads t h.1, h.0.0)

  reads_weigh : (reads : List (Text × Num)) → All IsRead reads → All (IsWeight F) reads
  reads_weigh [] h = tt
  reads_weigh (r ∷ reads) h = (h.0.1, reads_weigh reads h.1)

  pub consensus_there :
      (reads : List (Text × Num)) (r : Text × Num)
      → All IsRead (reads ++ r ∷ [])
      → is_empty (weighted_consensus F (reads ++ r ∷ [])) ≡ false
  consensus_there [] r h =
      read_mentioned (r ∷ []) _ h (weighted_consensus_lem F S r [] (reads_weigh (r ∷ []) h)).0
  consensus_there (x ∷ reads) r h =
      read_mentioned _ _ h
        (weighted_consensus_lem F S x (reads ++ r ∷ []) (reads_weigh (x ∷ (reads ++ r ∷ [])) h)).0

  -- A track that has been emitted, under a pass id, last read at a time.
  pub record IsLive (pass last : Text) (at : ℕ) (t : Track F) : Type 0 where
    pub sent : t.sent ≡ true
    pub consensus : t.consensus ≡ last
    pub last_sent : t.last_sent ≡ last
    pub pass_id : t.pass_id ≡ pass
    pub reads : All IsRead t.reads
    pub update : t.last_update_ms ≡ at

  -- Confidences are not negative.
  abbrev pub IsConfident : PlateResult F → Type 0
  IsConfident p = lt p.confidence (ratio 0 1) ≡ false

  pub size_nonneg : (n : ℕ) → lt (fmax F (ratio 1 1) (ratio n 1)) (ratio 0 1) ≡ false
  size_nonneg n = ground (arith, S.ratio_nonneg 1, S.ratio_nonneg n)

  pub add_read-reads :
      (p : PlateResult F) (uuid : Text) (t : Track F)
      → is_empty p.text ≡ false
      → IsConfident p
      → All IsRead t.reads
      → All IsRead (add_read F jaro cfg p uuid t).reads
        × (is_empty (add_read F jaro cfg p uuid t).consensus ≡ false)
  unfolding add_read
  add_read-reads p uuid t e c h =
      let all = All-append IsRead t.reads (_ ∷ []) h (
        (e, S.mul_nonneg p.confidence (fmax F (ratio 1 1) (ratio p.area 1)) c (size_nonneg p.area)),
        tt,
      ) in
      (all, consensus_there t.reads _ all)

  -- What a read of a live track leads to: nothing new, or a correction under the same pass id.
  unfoldable pub Continues : Text → Text → ℕ → Track F × Option (PlateResult F) → Type 0
  Continues pass last at (t, none) = IsLive pass last at t
  Continues pass last at (t, some o) =
      IsLive pass o.text at t × ((o.pass_id ≡ pass) × (text_eq o.text last ≡ false))

  abbrev voted : PlateResult F → Bool → Track F → Track F × Option (PlateResult F)
  voted p again a =
      if again then (a, none) else (mark_sent F jaro cfg a, some (emission F jaro cfg p a))

  -- A track that a read has joined, before it is marked as sent.
  record IsJoined (pass last : Text) (at : ℕ) (a : Track F) : Type 0 where
    sent : a.sent ≡ true
    last_sent : a.last_sent ≡ last
    pass_id : a.pass_id ≡ pass
    reads : All IsRead a.reads
    there : is_empty a.consensus ≡ false
    update : a.last_update_ms ≡ at

  voted-Continues :
      (pass last : Text) (at : ℕ) (p : PlateResult F) (a : Track F)
      → IsJoined pass last at a
      → (again : Bool) → (a.sent && text_eq a.consensus a.last_sent) ≡ again
      → Continues pass last at (voted p again a)
  unfolding Continues
  voted-Continues pass last at p a j true e = record {
    sent = j.sent;
    consensus = ground (arith, e, j.last_sent, text_eq_iff a.consensus a.last_sent);
    last_sent = j.last_sent;
    pass_id = j.pass_id;
    reads = j.reads;
    update = j.update;
  }
  voted-Continues pass last at p a j false e = (
    record {
      sent = refl;
      consensus = ground (arith, j.there);
      last_sent = ground (arith, j.there);
      pass_id = j.pass_id;
      reads = j.reads;
      update = j.update;
    },
    (j.pass_id, ground (arith, j.there, j.sent, e, ap (text_eq a.consensus) j.last_sent)),
  )

  pub vote-Continues :
      (pass last : Text) (at : ℕ) (p : PlateResult F) (uuid : Text) (t : Track F)
      → is_empty pass ≡ false
      → is_empty p.text ≡ false
      → IsConfident p
      → IsLive pass last at t
      → Continues pass last p.timestamp (vote F jaro cfg p uuid t)
  unfolding vote
  vote-Continues pass last at p uuid t n e c h =
      let r = add_read-reads p uuid t e c h.reads in
      voted-Continues pass last p.timestamp p (add_read F jaro cfg p uuid t)
        (record {
          sent = h.sent;
          last_sent = h.last_sent;
          pass_id = rw h.pass_id (ground (arith, n));
          reads = r.0;
          there = r.1;
          update = refl;
        })
        _ refl
