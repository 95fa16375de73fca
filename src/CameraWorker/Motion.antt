-- ===== src/CameraWorker/Motion.antt =====
-- Which frames of a session go on to detection.
use lpr_refactored.Prelude.{
  ℕ, ◌≡◌, refl, sym, ap, ◌∙◌, Bool, true, false, not, ◌&&◌, Option, none, some, List, [], ◌∷◌, ◌++◌,
  arith, if◌then◌else◌, Bool-cases, inl, inr,
}
use lpr_refactored.CameraWorker.{
  Vision, Config, Event, Worker, resolve, references, on_resolved, on_frame, session, status,
  first_frame, raw, forwarded, motion_of, motion_gate, judged, gate_of, when_passed,
  have_separate_evidence, is_none,
}

module _ (V : Vision) where
  -- The images in which plates are looked for.
  unfoldable pub detections : Config → List (V.Image × V.Image) → List V.Image
  unfolding resolve
  detections cfg [] = []
  detections cfg ((frame, mono) ∷ l) =
      let detect = (resolve V cfg frame mono).0 in
      let rest = detections cfg l in if V.is_empty detect then rest else detect ∷ rest

  -- The images that were forwarded.
  pub forwards : List (Event V) → List V.Image
  forwards [] = []
  forwards (status b ∷ l) = forwards l
  forwards (first_frame i c ∷ l) = forwards l
  forwards (raw i ∷ l) = forwards l
  forwards (forwarded i e ∷ l) = i ∷ forwards l

  -- An image goes on when it and the two before it show motion; where the differences cannot be
  -- taken there are no more.
  abbrev pub picked : Bool → Option Bool → V.Image → List V.Image → List V.Image
  picked goes_on none i rest = if goes_on then rest else []
  picked goes_on (some b) i rest = if b then i ∷ rest else rest

  unfoldable pub moving_after : Bool → ℕ → V.Image → V.Image → List V.Image → List V.Image
  moving_after goes_on n a b [] = []
  moving_after goes_on n a b (c ∷ l) =
      let rest = moving_after goes_on n b c l in
      picked goes_on
        (judged V n (motion_of V (V.gray (V.region a)) (V.gray (V.region b)) (V.gray (V.region c))))
        c rest

  unfoldable pub moving : Bool → ℕ → List V.Image → List V.Image
  unfolding moving_after
  moving goes_on n [] = []
  moving goes_on n (a ∷ []) = []
  moving goes_on n (a ∷ b ∷ l) = moving_after goes_on n a b l

  forwards_append : (l k : List (Event V)) → forwards (l ++ k) ≡ forwards l ++ forwards k
  unfolding forwards
  forwards_append [] k = refl
  forwards_append (status b ∷ l) k = forwards_append l k
  forwards_append (first_frame i c ∷ l) k = forwards_append l k
  forwards_append (raw i ∷ l) k = forwards_append l k
  forwards_append (forwarded i e ∷ l) k = ap (λ x. i ∷ x) (forwards_append l k)

  forwards-references :
      (detect evidence : V.Image) (separate : Bool) (w : Worker V) (l : List (Event V))
      → forwards ((references V detect evidence separate w).1 ++ l) ≡ forwards l
  unfolding forwards references
  forwards-references detect evidence separate w l = ground arith

  forwards-connect :
      (b : Bool) (l : List (Event V))
      → forwards ((if b then [] else status true ∷ []) ++ l) ≡ forwards l
  unfolding forwards
  forwards-connect true l = refl
  forwards-connect false l = refl

  abbrev passed : Option Bool → V.Image → List V.Image
  passed (some true) i = i ∷ []
  passed o i = []

  forwards-passed :
      (o : Option Bool) (detect evidence : V.Image)
      → forwards (when_passed V o detect evidence) ≡ passed o detect
  unfolding forwards
  forwards-passed none detect evidence = refl
  forwards-passed (some true) detect evidence = refl
  forwards-passed (some false) detect evidence = refl

  forwards-on_resolved :
      (cfg : Config) (detect evidence : V.Image) (w : Worker V)
      → forwards (on_resolved V cfg detect evidence w).1
        ≡ passed (gate_of V cfg detect w).passes detect
  unfolding on_resolved forwards
  forwards-on_resolved cfg detect evidence w =
      forwards-connect w.connected _
      ∙ forwards-references detect evidence (have_separate_evidence V detect evidence) w _
      ∙ forwards-passed (gate_of V cfg detect w).passes detect _

  picked_next :
      (goes_on : Bool) (o : Option Bool) (i : V.Image) (rest : List V.Image)
      → (is_none V o && not goes_on) ≡ false
      → picked goes_on o i rest ≡ passed o i ++ rest
  picked_next true none i rest h = refl
  picked_next false none i rest h = cc
  picked_next goes_on (some true) i rest h = refl
  picked_next goes_on (some false) i rest h = refl

  picked_last :
      (goes_on : Bool) (o : Option Bool) (i : V.Image) (rest : List V.Image)
      → (is_none V o && not goes_on) ≡ true
      → picked goes_on o i rest ≡ passed o i
  picked_last false none i rest h = refl
  picked_last true none i rest h = cc
  picked_last goes_on (some b) i rest h = cc

  on_resolved_thrown :
      (cfg : Config) (detect evidence : V.Image) (w : Worker V)
      → (on_resolved V cfg detect evidence w).2 ≡ is_none V (gate_of V cfg detect w).passes
  unfolding on_resolved
  on_resolved_thrown cfg detect evidence w = refl

  abbrev judged_of : ℕ → V.Image → V.Image → V.Image → Option Bool
  judged_of n a b c =
      judged V n (motion_of V (V.gray (V.region a)) (V.gray (V.region b)) (V.gray (V.region c)))

  -- The two images that the gate keeps.
  record After (cfg : Config) (a b : V.Image) (w : Worker V) : Type 0 where
    gated : cfg.enable_motion_gate ≡ true
    curr : w.curr ≡ some (V.gray (V.region a))
    next : w.next ≡ some (V.gray (V.region b))

  gate-After :
      (cfg : Config) (detect a b : V.Image) (w : Worker V)
      → After cfg a b w
      → gate_of V cfg detect w ≡ record {
        curr = some (V.gray (V.region b));
        next = some (V.gray (V.region detect));
        passes = judged_of cfg.min_changed_pixels a b detect;
      }
  unfolding gate_of motion_gate
  gate-After cfg detect a b w h = rw (h.gated, h.curr, h.next) refl

  on_resolved-After :
      (cfg : Config) (detect evidence a b : V.Image) (w : Worker V)
      → After cfg a b w
      → After cfg b detect (on_resolved V cfg detect evidence w).0
  unfolding on_resolved references
  on_resolved-After cfg detect evidence a b w h = record {
    gated = h.gated;
    curr = ap (λ g. g.curr) (gate-After cfg detect a b w h);
    next = ap (λ g. g.next) (gate-After cfg detect a b w h);
  }

  -- One usable frame, and the rest of the session.
  session_step :
      (goes_on : Bool) (cfg : Config) (frame mono : V.Image) (frames : List (V.Image × V.Image))
      (w : Worker V)
      → V.is_empty (resolve V cfg frame mono).0 ≡ false
      → let (detect, evidence) = resolve V cfg frame mono in
        forwards (session V goes_on cfg ((frame, mono) ∷ frames) w).1
        ≡ picked goes_on
            (gate_of V cfg detect w).passes
            detect
            (forwards (session V goes_on cfg frames (on_resolved V cfg detect evidence w).0).1)
  unfolding session on_frame
  session_step goes_on cfg frame mono frames w e =
      let (detect, evidence) = resolve V cfg frame mono in
      let here = on_resolved V cfg detect evidence w in
      let o = (gate_of V cfg detect w).passes in
      let one = forwards-on_resolved cfg detect evidence w in
      let thrown = ap (λ b. b && not goes_on) (on_resolved_thrown cfg detect evidence w) in
      elim (Bool-cases (here.2 && not goes_on)) [
        | inl t ↦ rw (e, t) (one ∙ sym (picked_last goes_on o detect _ (sym thrown ∙ t)))
        | inr t ↦
            rw (e, t)
              (forwards_append here.1 _
                ∙ ap (λ l. l ++ forwards (session V goes_on cfg frames here.0).1) one
                ∙ sym (picked_next goes_on o detect _ (sym thrown ∙ t)))
      ]

  session_skip :
      (goes_on : Bool) (cfg : Config) (frame mono : V.Image) (frames : List (V.Image × V.Image))
      (w : Worker V)
      → V.is_empty (resolve V cfg frame mono).0 ≡ true
      → forwards (session V goes_on cfg ((frame, mono) ∷ frames) w).1
        ≡ forwards (session V goes_on cfg frames w).1
  unfolding session on_frame
  session_skip goes_on cfg frame mono frames w e = rw e refl

  -- The rest of a session, by the two images that are kept.
  session-After :
      (goes_on : Bool) (cfg : Config) (frames : List (V.Image × V.Image)) (w : Worker V)
      (a b : V.Image)
      → After cfg a b w
      → forwards (session V goes_on cfg frames w).1
        ≡ moving_after goes_on cfg.min_changed_pixels a b (detections cfg frames)
  unfolding session detections moving_after forwards
  session-After goes_on cfg [] w a b h = refl
  session-After goes_on cfg ((frame, mono) ∷ frames) w a b h =
      let (detect, evidence) = resolve V cfg frame mono in
      let rest =
        session-After goes_on cfg frames (on_resolved V cfg detect evidence w).0 b detect
          (on_resolved-After cfg detect evidence a b w h) in
      let passes = ap (λ g. g.passes) (gate-After cfg detect a b w h) in
      elim (Bool-cases (V.is_empty detect)) [
        | inl e ↦
            session_skip goes_on cfg frame mono frames w e
            ∙ rw e (session-After goes_on cfg frames w a b h)
        | inr e ↦
            session_step goes_on cfg frame mono frames w e
            ∙ rw (e, passes) (ap (picked goes_on _ detect) rest)
      ]

  -- One image is kept.
  session_second :
      (goes_on : Bool) (cfg : Config) (frames : List (V.Image × V.Image)) (w : Worker V)
      (a : V.Image)
      → cfg.enable_motion_gate ≡ true
      → w.curr ≡ some (V.gray (V.region a))
      → w.next ≡ none
      → forwards (session V goes_on cfg frames w).1
        ≡ moving goes_on cfg.min_changed_pixels (a ∷ detections cfg frames)
  unfolding session on_resolved references gate_of motion_gate detections moving forwards
  session_second goes_on cfg [] w a g h k = refl
  session_second goes_on cfg ((frame, mono) ∷ frames) w a g h k =
      let (detect, evidence) = resolve V cfg frame mono in
      let here : gate_of V cfg detect w ≡ record {
        curr = some (V.gray (V.region a));
        next = some (V.gray (V.region detect));
        passes = some false;
      } =
        rw (g, h, k) refl in
      let rest =
        session-After goes_on cfg frames (on_resolved V cfg detect evidence w).0 a detect
          (record { gated = g; curr = ap (λ x. x.curr) here; next = ap (λ x. x.next) here }) in
      elim (Bool-cases (V.is_empty detect)) [
        | inl e ↦
            session_skip goes_on cfg frame mono frames w e
            ∙ rw e (session_second goes_on cfg frames w a g h k)
        | inr e ↦
            session_step goes_on cfg frame mono frames w e ∙ rw (e, ap (λ x. x.passes) here) rest
      ]

  -- With the motion gate on, and from the start of a session, the images forwarded for detection are
  -- the usable ones that show motion together with the two usable ones before them, in their order,
  -- without one whose differences cannot be taken; that one ends the session where the source does
  -- not catch the exception, so that nothing after it is forwarded, and where the source does, the
  -- images after it go on being compared with the two before each. The first two are never forwarded.
  -- Empty images count for nothing.
  pub session-moving :
      (goes_on : Bool) (cfg : Config) (frames : List (V.Image × V.Image)) (w : Worker V)
      → cfg.enable_motion_gate ≡ true
      → w.curr ≡ none
      → w.next ≡ none
      → forwards (session V goes_on cfg frames w).1
        ≡ moving goes_on cfg.min_changed_pixels (detections cfg frames)
  unfolding session on_resolved references gate_of motion_gate detections moving forwards
  session-moving goes_on cfg [] w g h k = refl
  session-moving goes_on cfg ((frame, mono) ∷ frames) w g h k =
      let (detect, evidence) = resolve V cfg frame mono in
      let here : gate_of V cfg detect w
          ≡ record { curr = some (V.gray (V.region detect)); next = none; passes = some false } =
        rw (g, h, k) refl in
      let rest =
        session_second goes_on cfg frames (on_resolved V cfg detect evidence w).0 detect g
          (ap (λ x. x.curr) here) (ap (λ x. x.next) here) in
      elim (Bool-cases (V.is_empty detect)) [
        | inl e ↦
            session_skip goes_on cfg frame mono frames w e
            ∙ rw e (session-moving goes_on cfg frames w g h k)
        | inr e ↦
            session_step goes_on cfg frame mono frames w e ∙ rw (e, ap (λ x. x.passes) here) rest
      ]
