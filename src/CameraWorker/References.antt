-- ===== src/CameraWorker/References.antt =====
-- The reference images that the operator's editors are sent.
use lpr_refactored.Prelude.{
  ◌≡◌, refl, sym, ap, subst, ◌∙◌, Bool, true, false, not, ◌||◌, Option, none, some, List, [], ◌∷◌,
  ◌++◌, arith, if◌then◌else◌, Bool-cases, inl, inr,
}
use lpr_refactored.CameraWorker.{
  Vision, Config, Event, Worker, Size, size_eq, resolve, references, on_resolved, on_frame, session,
  status, first_frame, raw, forwarded, when_passed, have_separate_evidence, gate_of,
}
use lpr_refactored.CameraWorker.Motion.{detections}

module _ (V : Vision) where
  abbrev keep : Bool → V.Image → List V.Image → List V.Image
  keep b i l = if b then l else i ∷ l

  -- The reference images that are no colour variant.
  pub zone_references : List (Event V) → List V.Image
  zone_references [] = []
  zone_references (status b ∷ l) = zone_references l
  zone_references (first_frame i color ∷ l) = let rest = zone_references l in keep color i rest
  zone_references (raw i ∷ l) = zone_references l
  zone_references (forwarded i e ∷ l) = zone_references l

  -- The images whose size is not that of the image before.
  pub resized : Size → List V.Image → List V.Image
  resized s [] = []
  resized s (i ∷ l) =
      let rest = resized (V.size i) l in if size_eq (V.size i) s then rest else i ∷ rest

  pub renewed : List V.Image → List V.Image
  unfolding resized
  renewed [] = []
  renewed (i ∷ l) = i ∷ resized (V.size i) l

  abbrev due : Worker V → V.Image → Bool
  due w i = w.first_frame || not (size_eq (V.size i) w.last_crud_size)

  zone_append :
      (l k : List (Event V)) → zone_references (l ++ k) ≡ zone_references l ++ zone_references k
  unfolding zone_references
  zone_append [] k = refl
  zone_append (status b ∷ l) k = zone_append l k
  zone_append (first_frame i true ∷ l) k = zone_append l k
  zone_append (first_frame i false ∷ l) k = ap (λ x. i ∷ x) (zone_append l k)
  zone_append (raw i ∷ l) k = zone_append l k
  zone_append (forwarded i e ∷ l) k = zone_append l k

  zone-references :
      (detect evidence : V.Image) (separate : Bool) (w : Worker V)
      → zone_references (references V detect evidence separate w).1
        ≡ (if due w detect then detect ∷ [] else [])
  unfolding zone_references references
  zone-references detect evidence separate w = ground arith

  zone-passed :
      (o : Option Bool) (detect evidence : V.Image)
      → zone_references (when_passed V o detect evidence) ≡ []
  unfolding zone_references
  zone-passed none detect evidence = refl
  zone-passed (some true) detect evidence = refl
  zone-passed (some false) detect evidence = refl

  zone-connect :
      (b : Bool) (l : List (Event V))
      → zone_references ((if b then [] else status true ∷ []) ++ l) ≡ zone_references l
  unfolding zone_references
  zone-connect true l = refl
  zone-connect false l = refl

  append_nil_of : (l k : List V.Image) → k ≡ [] → l ++ k ≡ l
  append_nil_of l k e = ap (λ x. l ++ x) e ∙ lpr_refactored.Prelude.append-nil l

  zone-on_resolved :
      (cfg : Config) (detect evidence : V.Image) (w : Worker V)
      → zone_references (on_resolved V cfg detect evidence w).1
        ≡ (if due w detect then detect ∷ [] else [])
  unfolding on_resolved zone_references
  zone-on_resolved cfg detect evidence w =
      zone-connect w.connected _
      ∙ zone_append (references V detect evidence (have_separate_evidence V detect evidence) w).1 _
      ∙ append_nil_of _ _ (zone-passed (gate_of V cfg detect w).passes detect _)
      ∙ zone-references detect evidence (have_separate_evidence V detect evidence) w

  -- The worker after a usable image.
  record Sent (i : V.Image) (w : Worker V) : Type 0 where
    settled : w.first_frame ≡ false
    last : w.last_crud_size ≡ V.size i

  on_resolved-Sent :
      (cfg : Config) (detect evidence : V.Image) (w : Worker V)
      → Sent detect (on_resolved V cfg detect evidence w).0
  unfolding on_resolved references
  on_resolved-Sent cfg detect evidence w = record { settled = refl; last = refl }

  session_sound :
      (cfg : Config) (frame mono : V.Image) (frames : List (V.Image × V.Image)) (w : Worker V)
      → (session V false cfg ((frame, mono) ∷ frames) w).2 ≡ false
      → ((on_frame V cfg frame mono w).2 ≡ false)
        × ((session V false cfg frames (on_frame V cfg frame mono w).0).2 ≡ false)
  unfolding session
  session_sound cfg frame mono frames w h = ground (arith, h)

  session_rest :
      (cfg : Config) (frame mono : V.Image) (frames : List (V.Image × V.Image)) (w : Worker V)
      → (session V false cfg ((frame, mono) ∷ frames) w).2 ≡ false
      → zone_references (session V false cfg ((frame, mono) ∷ frames) w).1
        ≡ zone_references (on_frame V cfg frame mono w).1
          ++ zone_references (session V false cfg frames (on_frame V cfg frame mono w).0).1
  unfolding session
  session_rest cfg frame mono frames w h =
      rw ((session_sound cfg frame mono frames w h).0)
        (zone_append (on_frame V cfg frame mono w).1 _)

  frame_usable :
      (cfg : Config) (frame mono : V.Image) (w : Worker V)
      → V.is_empty (resolve V cfg frame mono).0 ≡ false
      → on_frame V cfg frame mono w
        ≡ on_resolved V cfg (resolve V cfg frame mono).0 (resolve V cfg frame mono).1 w
  unfolding on_frame
  frame_usable cfg frame mono w e = rw e refl

  frame_empty :
      (cfg : Config) (frame mono : V.Image) (w : Worker V)
      → V.is_empty (resolve V cfg frame mono).0 ≡ true
      → on_frame V cfg frame mono w ≡ (w, [], false)
  unfolding on_frame
  frame_empty cfg frame mono w e = rw e refl

  -- One usable frame, and one that is not.
  session_seen :
      (cfg : Config) (frame mono : V.Image) (frames : List (V.Image × V.Image)) (w : Worker V)
      → (session V false cfg ((frame, mono) ∷ frames) w).2 ≡ false
      → V.is_empty (resolve V cfg frame mono).0 ≡ false
      → let (detect, evidence) = resolve V cfg frame mono in
        let w' = (on_resolved V cfg detect evidence w).0 in
        ((session V false cfg frames w').2 ≡ false)
        × (zone_references (session V false cfg ((frame, mono) ∷ frames) w).1
            ≡ (if due w detect then detect ∷ [] else [])
              ++ zone_references (session V false cfg frames w').1)
  session_seen cfg frame mono frames w h e =
      let (detect, evidence) = resolve V cfg frame mono in
      let u = frame_usable cfg frame mono w e in
      (
        subst (λ x. (session V false cfg frames x.0).2 ≡ false) u
            (session_sound cfg frame mono frames w h).1,
        session_rest cfg frame mono frames w h
            ∙ ap (λ x. zone_references x.1 ++ zone_references (session V false cfg frames x.0).1) u
            ∙ ap
                (λ l.
                  l
                  ++ zone_references
                      (session V false cfg frames (on_resolved V cfg detect evidence w).0).1)
                (zone-on_resolved cfg detect evidence w),
      )

  session_unseen :
      (cfg : Config) (frame mono : V.Image) (frames : List (V.Image × V.Image)) (w : Worker V)
      → (session V false cfg ((frame, mono) ∷ frames) w).2 ≡ false
      → V.is_empty (resolve V cfg frame mono).0 ≡ true
      → ((session V false cfg frames w).2 ≡ false)
        × (zone_references (session V false cfg ((frame, mono) ∷ frames) w).1
            ≡ zone_references (session V false cfg frames w).1)
  unfolding session zone_references
  session_unseen cfg frame mono frames w h e =
      let u = frame_empty cfg frame mono w e in
      (
        subst (λ x. (session V false cfg frames x.0).2 ≡ false) u
            (session_sound cfg frame mono frames w h).1,
        rw u refl,
      )

  session-resized :
      (cfg : Config) (frames : List (V.Image × V.Image)) (w : Worker V) (i : V.Image)
      → Sent i w
      → (session V false cfg frames w).2 ≡ false
      → zone_references (session V false cfg frames w).1
        ≡ resized (V.size i) (detections V cfg frames)
  unfolding session zone_references detections resized
  session-resized cfg [] w i s h = refl
  session-resized cfg ((frame, mono) ∷ frames) w i s h =
      let (detect, evidence) = resolve V cfg frame mono in
      elim (Bool-cases (V.is_empty detect)) [
        | inl e ↦
            let u = session_unseen cfg frame mono frames w h e in
            u.1 ∙ session-resized cfg frames w i s u.0 ∙ rw e refl
        | inr e ↦
            let u = session_seen cfg frame mono frames w h e in
            u.1
            ∙ ap (λ l. (if due w detect then detect ∷ [] else []) ++ l)
                (session-resized cfg frames (on_resolved V cfg detect evidence w).0 detect
                  (on_resolved-Sent cfg detect evidence w) u.0)
            ∙ rw (e, s.settled, s.last)
                (elim (Bool-cases (size_eq (V.size detect) (V.size i))) [
                  | inl q ↦ rw q refl
                  | inr q ↦ rw q refl
                ])
      ]

  -- In a session of a source that does not go on after an exception, and that no frame breaks off, the reference images sent for the zone editor are the
  -- first usable detection image, and then each whose size differs from the usable one before it.
  pub session-renewed :
      (cfg : Config) (frames : List (V.Image × V.Image)) (w : Worker V)
      → w.first_frame ≡ true
      → (session V false cfg frames w).2 ≡ false
      → zone_references (session V false cfg frames w).1 ≡ renewed (detections V cfg frames)
  unfolding session zone_references detections renewed
  session-renewed cfg [] w f h = refl
  session-renewed cfg ((frame, mono) ∷ frames) w f h =
      let (detect, evidence) = resolve V cfg frame mono in
      elim (Bool-cases (V.is_empty detect)) [
        | inl e ↦
            let u = session_unseen cfg frame mono frames w h e in
            u.1 ∙ session-renewed cfg frames w f u.0 ∙ rw e refl
        | inr e ↦
            let u = session_seen cfg frame mono frames w h e in
            u.1
            ∙ ap (λ l. (if due w detect then detect ∷ [] else []) ++ l)
                (session-resized cfg frames (on_resolved V cfg detect evidence w).0 detect
                  (on_resolved-Sent cfg detect evidence w) u.0)
            ∙ rw (e, f) refl
      ]
