-- ===== src/CameraWorker/Status.antt =====
-- The statuses that a camera reports, over its sessions.
use lpr_refactored.Prelude.{
  ℕ, ◌*◌, ◌≡◌, refl, subst, min, Bool, true, false, not, ◌&&◌, ◌||◌, Option, none, some, List, [],
  ◌∷◌, ◌++◌, arith, if◌then◌else◌, Bool-cases, Option-cases, inl, inr,
}
use lpr_refactored.CameraWorker.{
  Vision, Config, Event, Worker, Round, resolve, references, on_resolved, on_frame, session, round,
  supervise, no_source, ran, status, first_frame, raw, forwarded, when_passed,
  have_separate_evidence, gate_of,
}

module _ (V : Vision) where
  -- From `up` to `now`, connected is only told while down; down may be told again.
  pub Tells : Bool → List (Event V) → Bool → Type 0
  Tells up [] now = now ≡ up
  Tells up (status true ∷ l) now = (up ≡ false) × Tells true l now
  Tells up (status false ∷ l) now = Tells false l now
  Tells up (first_frame i c ∷ l) now = Tells up l now
  Tells up (raw i ∷ l) now = Tells up l now
  Tells up (forwarded i e ∷ l) now = Tells up l now

  Tells-then :
      (up mid now : Bool) (l k : List (Event V))
      → Tells up l mid
      → Tells mid k now
      → Tells up (l ++ k) now
  unfolding Tells
  Tells-then up mid now [] k h g = subst (λ b. Tells b k now) h g
  Tells-then up mid now (status true ∷ l) k h g = (h.0, Tells-then true mid now l k h.1 g)
  Tells-then up mid now (status false ∷ l) k h g = Tells-then false mid now l k h g
  Tells-then up mid now (first_frame i c ∷ l) k h g = Tells-then up mid now l k h g
  Tells-then up mid now (raw i ∷ l) k h g = Tells-then up mid now l k h g
  Tells-then up mid now (forwarded i e ∷ l) k h g = Tells-then up mid now l k h g

  -- Events without a status, before others.
  Tells-references :
      (detect evidence : V.Image) (separate up now : Bool) (w : Worker V) (l : List (Event V))
      → Tells up l now
      → Tells up ((references V detect evidence separate w).1 ++ l) now
  unfolding Tells references
  Tells-references detect evidence separate up now w l h = ground (arith, h)

  references_connected :
      (detect evidence : V.Image) (separate : Bool) (w : Worker V)
      → (references V detect evidence separate w).0.connected ≡ w.connected
  unfolding references
  references_connected detect evidence separate w = refl

  Tells-passed :
      (o : Option Bool) (detect evidence : V.Image) (b : Bool)
      → Tells b (when_passed V o detect evidence) b
  unfolding Tells
  Tells-passed none detect evidence b = refl
  Tells-passed (some true) detect evidence b = refl
  Tells-passed (some false) detect evidence b = refl

  Tells-connect :
      (b : Bool) (l : List (Event V))
      → Tells true l true
      → Tells b ((if b then [] else status true ∷ []) ++ l) true
  unfolding Tells
  Tells-connect true l h = h
  Tells-connect false l h = (refl, h)

  on_resolved-Tells :
      (cfg : Config) (detect evidence : V.Image) (w : Worker V)
      → Tells w.connected
          (on_resolved V cfg detect evidence w).1
          (on_resolved V cfg detect evidence w).0.connected
  unfolding on_resolved Tells
  on_resolved-Tells cfg detect evidence w = Tells-connect w.connected _ (
      Tells-references detect evidence (have_separate_evidence V detect evidence) true true w _
        (Tells-passed (gate_of V cfg detect w).passes detect _ true))

  on_frame-Tells :
      (cfg : Config) (frame mono : V.Image) (w : Worker V)
      → Tells w.connected (on_frame V cfg frame mono w).1 (on_frame V cfg frame mono w).0.connected
  unfolding on_frame Tells
  on_frame-Tells cfg frame mono w =
      let (detect, evidence) = resolve V cfg frame mono in
      elim (Bool-cases (V.is_empty detect)) [
        | inl e ↦ rw e refl
        | inr e ↦ rw e (on_resolved-Tells cfg detect evidence w)
      ]

  session-Tells :
      (goes_on : Bool) (cfg : Config) (frames : List (V.Image × V.Image)) (w : Worker V)
      → Tells w.connected
          (session V goes_on cfg frames w).1
          (session V goes_on cfg frames w).0.connected
  unfolding session Tells
  session-Tells goes_on cfg [] w = refl
  session-Tells goes_on cfg ((frame, mono) ∷ frames) w =
      let one = on_frame-Tells cfg frame mono w in
      let rest = session-Tells goes_on cfg frames (on_frame V cfg frame mono w).0 in
      elim (Bool-cases ((on_frame V cfg frame mono w).2 && not goes_on)) [
        | inl e ↦ rw e one
        | inr e ↦ rw e (search (Tells-then, one, rest))
      ]

  round-Tells :
      (cfg : Config) (r : Round V) (backoff : ℕ) (w : Worker V)
      → Tells w.connected (round V cfg r backoff w).1 (round V cfg r backoff w).0.connected
  unfolding round Tells
  round-Tells cfg no_source backoff w = refl
  round-Tells cfg (ran goes_on frames errored stopped) backoff w =
      let start : Worker V = record w { frames_this_session = 0; curr = none; next = none } in
      let s = session-Tells goes_on cfg frames start in
      elim (Bool-cases (stopped || not (errored || (session V goes_on cfg frames start).2))) [
        | inl e ↦ rw e s
        | inr e ↦ rw e (
            Tells-then w.connected (session V goes_on cfg frames start).0.connected false
              (session V goes_on cfg frames start).1 (status false ∷ []) s refl)
      ]

  -- Over all the sessions of a camera, whatever its source delivers and however its sessions end, a
  -- connection is told only while the camera does not count as connected, so never twice without a
  -- loss told between; the state that is kept is that of the last status told.
  pub supervise-Tells :
      (cfg : Config) (rounds : List (Round V)) (backoff : ℕ) (w : Worker V)
      → Tells w.connected
          (supervise V cfg rounds backoff w).1
          (supervise V cfg rounds backoff w).0.connected
  unfolding supervise Tells
  supervise-Tells cfg [] backoff w = refl
  supervise-Tells cfg (r ∷ rs) backoff w =
      let one = round-Tells cfg r backoff w in
      let w' = (round V cfg r backoff w).0 in
      elim (Option-cases (round V cfg r backoff w).2) [
        | inl e ↦ rw e one
        | inr (b, e) ↦ rw e (
            let rest = supervise-Tells cfg rs (min (b * 2) cfg.reconnect_max_ms) w' in
            search (Tells-then, one, rest))
      ]
