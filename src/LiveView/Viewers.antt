-- ===== src/LiveView/Viewers.antt =====
-- The live stream is the union of what its viewers asked for.
use lpr_refactored.Prelude.{
  ℕ, ◌+◌, ◌*◌, ◌≤◌, ◌≡◌, refl, Bool, true, false, ◌||◌, Option, none, some, List, [], ◌∷◌, arith,
  ltb, ◌==◌, Text, lookup, lookup-insert, lookup-erase, text_eq_refl, Option-cases, inl, inr,
}
use lpr_refactored.LiveView.{
  Live, LiveViewService, requested, enable_live, is_live, on_frame, live_at, on_live_frame,
}

-- A request made at a time, for a duration in seconds (0 is without end), covers an instant.
abbrev pub covers : ℕ → ℕ → ℕ → Bool
covers made duration t = duration == 0 || ltb t (made + 1000 * duration)

-- What happens to the stream of one camera, at a time.
pub data Event : Type 0 where
  request : ℕ → ℕ → Event  -- time, duration
  frame : ℕ → Bool → Event  -- time, empty image

abbrev pub time : Event → ℕ
time (request t d) = t
time (frame t b) = t

pub step : Text → Event → LiveViewService → LiveViewService
unfolding enable_live on_frame
step gate (request t d) s = enable_live gate d t s
step gate (frame t b) s = (on_frame gate b t s).0

pub run : Text → List Event → LiveViewService → LiveViewService
unfolding step
run gate [] s = s
run gate (e ∷ es) s = run gate es (step gate e s)

-- Some request among the events covers the instant.
pub wanted : ℕ → List Event → Bool
wanted t [] = false
wanted t (request made d ∷ es) = covers made d t || wanted t es
wanted t (frame u b ∷ es) = wanted t es

-- No event comes after the instant.
abbrev pub Before : ℕ → List Event → Type 0
Before t [] = Unit {0}
Before t (e ∷ es) = (time e ≤ t) × Before t es

requested_live :
    (o : Option Live) (made d t : ℕ)
    → live_at t (some (requested made d o)) ≡ live_at t o || covers made d t
requested_live none made d t = ground arith
requested_live (some l) made d t = ground arith

pub enable_live_lem :
    (gate : Text) (d made t : ℕ) (s : LiveViewService)
    → is_live gate t (enable_live gate d made s) ≡ is_live gate t s || covers made d t
unfolding is_live enable_live
enable_live_lem gate d made t s =
    simp (lookup-insert, text_eq_refl) (requested_live (lookup gate s.live) made d t)

on_frame_lem :
    (gate : Text) (b : Bool) (now t : ℕ) (s : LiveViewService)
    → now ≤ t
    → is_live gate t (on_frame gate b now s).0 ≡ is_live gate t s
unfolding is_live on_frame
on_frame_lem gate true now t s h = refl
on_frame_lem gate false now t s h = elim (Option-cases (lookup gate s.live)) [
  | inl e ↦ rw (e, on_live_frame) (ground arith)
  | inr (l, e) ↦ ground (
    arith,
    e,
    lookup-insert gate gate (record l { counter = l.counter + 1 }) s.live,
    lookup-erase gate gate s.live,
    text_eq_refl gate,
  )
]

-- Whatever requests and frames a camera saw up to an instant, it is live then exactly if it was
-- going to be at the start or if some request covers that instant: a later, shorter request never
-- cuts an earlier one off, a request without end wins, and frames change nothing.
pub is_live-run :
    (gate : Text) (es : List Event) (t : ℕ) (s : LiveViewService)
    → Before t es
    → is_live gate t (run gate es s) ≡ is_live gate t s || wanted t es
unfolding run wanted
is_live-run gate [] t s h = ground arith
is_live-run gate (request made d ∷ es) t s h =
    ground (
      arith,
      is_live-run gate es t (enable_live gate d made s) h.1,
      enable_live_lem gate d made t s,
    )
is_live-run gate (frame now b ∷ es) t s h =
    ground
      (arith, is_live-run gate es t (on_frame gate b now s).0 h.1, on_frame_lem gate b now t s h.0)
