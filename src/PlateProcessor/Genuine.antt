-- ===== src/PlateProcessor/Genuine.antt =====
-- Every text that leaves was read.
use lpr_refactored.Prelude.{
  ℕ, ◌≡◌, refl, sym, subst, Bool, true, false, ◌||◌, ◌&&◌, Option, none, some, List, [], ◌∷◌, ◌++◌,
  arith, if◌then◌else◌, is_empty, length, ◌==◌, leb, Text, text_eq, text_eq_refl, lookup, insert,
  Dict, Bool-cases, Option-cases, ◌⊎◌, inl, inr, All, All-append, All-mono, All-insert,
  All-erase_if, All-lookup,
}
use lpr_refactored.Floats.{Float}
use lpr_refactored.PlateProcessor.{
  PlateResult, Track, Config, PlateProcessor, new_track, weighted_consensus, tally, heaviest,
  minus_one, resolve_key, evict_stale, accepted, is_outlier, is_stale, vote, add_read, mark_sent,
  emission, process, process_all, emitted, init, track_or_new,
}

module _ (F : Float) (P : Text → Type 0) where
  open F use {Num}

  -- A text that is absent or that has the property.
  abbrev pub OrEmpty : Text → Type 0
  OrEmpty t = (t ≡ []) ⊎ P t

  insert-All :
      (t : Text) (w : Num) (d : Dict Num)
      → P t
      → All (λ e. P e.0) d
      → All (λ e. P e.0) (insert t w d)
  unfolding insert
  insert-All t w [] p k = (p, tt)
  insert-All t w ((j, v) ∷ d) p k = elim (Bool-cases (text_eq j t)) [
    | inl e ↦ rw e (k.0, k.1)
    | inr e ↦ rw e (k.0, insert-All t w d p k.1)
  ]

  tally-All :
      (reads : List (Text × Num)) (d : Dict Num)
      → All (λ r. P r.0) reads
      → All (λ e. P e.0) d
      → All (λ e. P e.0) (tally F reads d)
  unfolding tally
  tally-All [] d h k = k
  tally-All ((t, w) ∷ reads) d h k = tally-All reads _ h.1 (insert-All t _ d h.0 k)

  either :
      (c : Bool) (x y : Text × Num) → OrEmpty x.0 → OrEmpty y.0 → OrEmpty (if c then x else y).0
  either true x y h k = h
  either false x y h k = k

  heaviest-OrEmpty :
      (d : Dict Num) (b : Text × Num)
      → OrEmpty b.0
      → All (λ e. P e.0) d
      → OrEmpty (heaviest F d b).0
  unfolding heaviest
  heaviest-OrEmpty [] b h k = h
  heaviest-OrEmpty ((t, w) ∷ d) b h k =
      heaviest-OrEmpty d (if F.lt b.1 w then (t, w) else b)
        (either (F.lt b.1 w) (t, w) b (inr k.0) h) k.1

  weighted_consensus-OrEmpty :
      (reads : List (Text × Num)) → All (λ r. P r.0) reads → OrEmpty (weighted_consensus F reads)
  unfolding weighted_consensus
  weighted_consensus-OrEmpty reads h =
      heaviest-OrEmpty (tally F reads []) ([], minus_one F) (inl refl) (tally-All reads [] h tt)

  -- The reads of the track and its best sample have the property.
  pub record IsGenuine (tr : Track F) : Type 0 where
    pub reads : All (λ r. P r.0) tr.reads
    pub best : (tr.reads ≡ []) ⊎ P tr.best.text

  new_track-IsGenuine : IsGenuine (new_track F)
  new_track-IsGenuine = record { reads = tt; best = inl refl }

  -- The sample that a read leaves: the new one, or an earlier one where there is one.
  larger_sample :
      (p : PlateResult F) (t : Track F) (w : Text × Num) (larger : Bool)
      → P p.text
      → (t.reads ≡ []) ⊎ P t.best.text
      → P (if (length (t.reads ++ w ∷ []) == 1) || larger then p else t.best).text
  larger_sample p t w larger h (inl e) = rw e h
  larger_sample p t w larger h (inr k) = go ((length (t.reads ++ w ∷ []) == 1) || larger)
    where
      go : (c : Bool) → P (if c then p else t.best).text
      go true = h
      go false = k

  -- Of what a track emits.
  abbrev pub Emits : Option (PlateResult F) → Type 0
  Emits none = Unit {0}
  Emits (some o) = P o.text

  module _ (jaro : Text → Text → Num) (cfg : Config F) where
    add_read-IsGenuine :
        (p : PlateResult F) (uuid : Text) (t : Track F)
        → P p.text
        → IsGenuine t
        → IsGenuine (add_read F jaro cfg p uuid t)
          × (OrEmpty (add_read F jaro cfg p uuid t).consensus
              × P (add_read F jaro cfg p uuid t).best.text)
    unfolding add_read
    add_read-IsGenuine p uuid t h g =
        let kept : P (add_read F jaro cfg p uuid t).best.text = larger_sample p t _ _ h g.best in
        let all = All-append (λ (r : Text × Num). P r.0) t.reads (_ ∷ []) g.reads (h, tt) in
        (record { reads = all; best = inr kept }, (weighted_consensus-OrEmpty _ all, kept))

    emission_text : (c b : Text) → OrEmpty c → P b → P (if is_empty c then b else c)
    emission_text [] b h k = k
    emission_text (x ∷ c) b (inl e) k = absurd cc
    emission_text (x ∷ c) b (inr h) k = h

    abbrev voted : PlateResult F → Bool → Track F → Track F × Option (PlateResult F)
    voted p again a =
        if again then (a, none) else (mark_sent F jaro cfg a, some (emission F jaro cfg p a))

    vote-IsGenuine :
        (p : PlateResult F) (uuid : Text) (t : Track F)
        → P p.text
        → IsGenuine t
        → IsGenuine (vote F jaro cfg p uuid t).0 × Emits (vote F jaro cfg p uuid t).1
    unfolding vote
    vote-IsGenuine p uuid t h g =
        let a = add_read F jaro cfg p uuid t in
        let r = add_read-IsGenuine p uuid t h g in
        go (a.sent && text_eq a.consensus a.last_sent) a r.0
          (emission_text a.consensus a.best.text r.1.0 r.1.1)
      where
        go :
            (again : Bool) (a : Track F)
            → IsGenuine a
            → P (if is_empty a.consensus then a.best.text else a.consensus)
            → IsGenuine (voted p again a).0 × Emits (voted p again a).1
        go true a g e = (g, tt)
        go false a g e = (record { reads = g.reads; best = g.best }, e)

    resolve_key-tracks :
        (p : PlateResult F) (now : ℕ) (s : PlateProcessor F)
        → (resolve_key F jaro cfg p now s).1.tracks ≡ s.tracks
    unfolding resolve_key
    resolve_key-tracks p now s = ground arith

    evict_stale-All :
        (now : ℕ) (s : PlateProcessor F)
        → All (λ e. IsGenuine e.1) s.tracks
        → All (λ e. IsGenuine e.1) (evict_stale F jaro cfg now s).tracks
    unfolding evict_stale
    evict_stale-All now s h = elim (Bool-cases (leb cfg.track_ttl_ms 0 || leb now 0)) [
      | inl e ↦ rw e h
      | inr e ↦ rw e (All-erase_if IsGenuine (is_stale F jaro cfg now) s.tracks h)
    ]

    track_or_new-IsGenuine :
        (key : Text) (tracks : Dict (Track F))
        → All (λ e. IsGenuine e.1) tracks
        → IsGenuine (track_or_new F jaro cfg (lookup key tracks))
    track_or_new-IsGenuine key tracks h = elim (Option-cases (lookup key tracks)) [
      | inl e ↦ rw e new_track-IsGenuine
      | inr (t, e) ↦ rw e (All-lookup IsGenuine key t tracks h e)
    ]

    process-IsGenuine :
        (p : PlateResult F) (uuid : Text) (s : PlateProcessor F)
        → (accepted F jaro cfg p ≡ true → P p.text)
        → All (λ e. IsGenuine e.1) s.tracks
        → All (λ e. IsGenuine e.1) (process F jaro cfg p uuid s).0.tracks
          × Emits (process F jaro cfg p uuid s).1
    unfolding process
    process-IsGenuine p uuid s f h =
        let s1 = evict_stale F jaro cfg p.timestamp s in
        let (key, s2) = resolve_key F jaro cfg p p.timestamp s1 in
        let all : All (λ e. IsGenuine e.1) s2.tracks =
          subst (All (λ e. IsGenuine e.1)) (sym (resolve_key-tracks p p.timestamp s1))
            (evict_stale-All p.timestamp s h) in
        let t0 = track_or_new F jaro cfg (lookup key s2.tracks) in
        let g0 = track_or_new-IsGenuine key s2.tracks all in
        elim (Bool-cases (accepted F jaro cfg p)) [
          | inr e ↦ rw e (h, tt)
          | inl e ↦ elim (Bool-cases (is_outlier F jaro cfg p t0)) [
            | inl o ↦ rw (e, o) (all, tt)
            | inr o ↦
                rw (e, o)
                  (let v = vote-IsGenuine p uuid t0 (f e) g0 in
                    (All-insert IsGenuine key _ s2.tracks v.0 all, v.1))
          ]
        ]

    process_all-P :
        (ps : List (PlateResult F × Text)) (s : PlateProcessor F)
        → All (λ x. accepted F jaro cfg x.0 ≡ true → P x.0.text) ps
        → All (λ e. IsGenuine e.1) s.tracks
        → All (λ o. P o.text) (process_all F jaro cfg ps s)
    unfolding process_all
    process_all-P [] s f h = tt
    process_all-P ((p, uuid) ∷ ps) s f h =
        let r = process-IsGenuine p uuid s f.0 h in
        joined (process F jaro cfg p uuid s).1
          (process_all F jaro cfg ps (process F jaro cfg p uuid s).0) r.1
          (process_all-P ps _ f.1 r.0)
      where
        joined :
            (out : Option (PlateResult F)) (rest : List (PlateResult F))
            → Emits out
            → All (λ o. P o.text) rest
            → All (λ o. P o.text) (emitted F jaro cfg out rest)
        joined none rest e h = h
        joined (some o) rest e h = (e, h)

module _ (F : Float) (jaro : Text → Text → F.Num) (cfg : Config F) where
  -- Some plate that came in passes the guards and has the text.
  unfoldable pub came_in : List (PlateResult F × Text) → Text → Bool
  came_in [] t = false
  came_in ((p, uuid) ∷ ps) t = (accepted F jaro cfg p && text_eq p.text t) || came_in ps t

  came_in_all :
      (ps : List (PlateResult F × Text))
      → All (λ x. accepted F jaro cfg x.0 ≡ true → came_in ps x.0.text ≡ true) ps
  unfolding came_in
  came_in_all [] = tt
  came_in_all ((p, uuid) ∷ ps) = (
    λ a. ground (arith, a, text_eq_refl p.text),
    All-mono
        (λ (x : PlateResult F × Text). accepted F jaro cfg x.0 ≡ true → came_in ps x.0.text ≡ true)
        (λ x. accepted F jaro cfg x.0 ≡ true → came_in ((p, uuid) ∷ ps) x.0.text ≡ true) ps
        (λ x h a. ground (arith, h a)) (came_in_all ps),
  )

  -- Whatever plates come in, every text that the processor emits is the text of a plate that came
  -- in, is not empty, was confident enough and passed the validator: the vote never makes a text
  -- up, and a rejected read never leaves.
  pub process_all-came_in :
      (ps : List (PlateResult F × Text))
      → All (λ o. came_in ps o.text ≡ true) (process_all F jaro cfg ps (init F))
  unfolding init
  process_all-came_in ps =
      process_all-P F (λ t. came_in ps t ≡ true) jaro cfg ps (init F) (came_in_all ps) tt
