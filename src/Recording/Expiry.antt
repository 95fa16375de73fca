-- ===== src/Recording/Expiry.antt =====
-- A recording with a duration ends on time.
use lpr_refactored.Prelude.{
  ℕ, suc, ◌+◌, ◌≤◌, ◌<◌, ◌≡◌, refl, Bool, true, false, none, some, List, [], ◌∷◌, ◌++◌, arith,
  if◌then◌else◌, ltb, Text, text_eq_refl, lookup, insert, lookup-erase, lookup-insert_self, inl,
  inr, HasUniqueKeys, le→leb, le→ltb_false, lt→ltb, ◌⊎◌, ◌∙◌, surviving, lookup-erase_if, erase_if,
}
use lpr_refactored.Recording.{
  Env, Rec, Recs, Effect, opened, written, completed, Outcome, close_segment, finish, tick, is_over,
  roll_over, ensure_open, open_segment, stamp_and_write, record_frame, on_frame, frame_found,
}

-- The frames that a list of effects wrote.
pub written_count : List Effect → ℕ
written_count [] = 0
written_count (opened g f ∷ es) = written_count es
written_count (written g f ∷ es) = suc (written_count es)
written_count (completed g f ∷ es) = written_count es

written_count-append :
    (xs ys : List Effect) → written_count (xs ++ ys) ≡ written_count xs + written_count ys
unfolding written_count
written_count-append [] ys = omega arith
written_count-append (opened g f ∷ es) ys = written_count-append es ys
written_count-append (written g f ∷ es) ys = omega (arith, written_count-append es ys)
written_count-append (completed g f ∷ es) ys = written_count-append es ys

-- The frames of a gate, at these times.
pub frames : Env → Text → List ℕ → Recs → Outcome
unfolding on_frame
frames env gate [] recs = (recs, [])
frames env gate (t ∷ ts) recs =
    let (recs', es) = on_frame env gate false t recs in
    let (recs'', es') = frames env gate ts recs' in (recs'', es ++ es')

-- How many of the times come before the end.
pub on_time : ℕ → List ℕ → ℕ
on_time end [] = 0
on_time end (t ∷ ts) = if ltb t end then suc (on_time end ts) else on_time end ts

record_frame_keeps :
    (env : Env) (g : Text) (now : ℕ) (r : Rec)
    → ((record_frame env g now r).0.stop_at ≡ r.stop_at)
      × ((record_frame env g now r).0.has_duration ≡ r.has_duration)
unfolding record_frame roll_over ensure_open open_segment close_segment
record_frame_keeps env g now r = ground arith

record_frame_writes :
    (env : Env) (g : Text) (now : ℕ) (r : Rec) → written_count (record_frame env g now r).1 ≤ 1
unfolding record_frame roll_over ensure_open open_segment close_segment stamp_and_write
    written_count
record_frame_writes env g now r = ground arith

frames_absent :
    (env : Env) (g : Text) (ts : List ℕ) (recs : Recs)
    → lookup g recs ≡ none
    → written_count (frames env g ts recs).1 ≡ 0
unfolding frames written_count on_frame
frames_absent env g [] recs e = refl
frames_absent env g (t ∷ ts) recs e = rw (e, frame_found) (frames_absent env g ts recs e)

finish_absent : (g : Text) (r : Rec) (recs : Recs) → lookup g (finish g r recs).0 ≡ none
unfolding finish
finish_absent g r recs = rw (lookup-erase, text_eq_refl)

lt_or_ge : (a b : ℕ) → (a < b) ⊎ (b ≤ a)
lt_or_ge a b = grind arith

tick-erase_if : (now : ℕ) (recs : Recs) → (tick now recs).0 ≡ erase_if (is_over now) recs
unfolding tick erase_if
tick-erase_if now [] = refl
tick-erase_if now ((g, r) ∷ recs) = ground (arith, tick-erase_if now recs)

finish_writes : (g : Text) (r : Rec) (recs : Recs) → written_count (finish g r recs).1 ≡ 0
unfolding finish close_segment written_count
finish_writes g r recs = ground arith

on_frame_late :
    (env : Env) (g : Text) (t : ℕ) (recs : Recs) (r : Rec)
    → lookup g recs ≡ some r
    → r.has_duration ≡ true
    → r.stop_at ≤ t
    → on_frame env g false t recs ≡ finish g r recs
unfolding on_frame
on_frame_late env g t recs r e d h = rw (e, frame_found) (rw (d, le→leb _ _ h))

on_frame_early :
    (env : Env) (g : Text) (t : ℕ) (recs : Recs) (r : Rec)
    → lookup g recs ≡ some r
    → t < r.stop_at
    → on_frame env g false t recs
      ≡ (insert g (record_frame env g t r).0 recs, (record_frame env g t r).1)
unfolding on_frame
on_frame_early env g t recs r e h = rw (e, frame_found) (cond_false _ (ground arith))
  where
    cond_false :
        (b : Bool)
        → b ≡ false
        → (if b
            then finish g r recs
            else (insert g (record_frame env g t r).0 recs, (record_frame env g t r).1))
          ≡ (insert g (record_frame env g t r).0 recs, (record_frame env g t r).1)
    cond_false true h = cc
    cond_false false h = refl

-- A recording with a duration stores at most the frames that come before its end: no frame at or
-- after the end is written, whatever frames follow.
pub frames-on_time :
    (env : Env) (g : Text) (ts : List ℕ) (recs : Recs) (r : Rec)
    → lookup g recs ≡ some r
    → r.has_duration ≡ true
    → written_count (frames env g ts recs).1 ≤ on_time r.stop_at ts
unfolding frames on_time written_count
frames-on_time env g [] recs r e d = omega arith
frames-on_time env g (t ∷ ts) recs r e d = elim (lt_or_ge t r.stop_at) [
  | inr late ↦
      rw (on_frame_late env g t recs r e d late, le→ltb_false _ _ late)
        (omega (
          arith,
          written_count-append (finish g r recs).1 (frames env g ts (finish g r recs).0).1,
          finish_writes g r recs,
          frames_absent env g ts (finish g r recs).0 (finish_absent g r recs),
        ))
  | inl early ↦
      let r' = (record_frame env g t r).0 in
      let keeps = record_frame_keeps env g t r in
      let recs' = insert g r' recs in
      rw (on_frame_early env g t recs r e early, lt→ltb _ _ early)
        (omega (
          arith,
          written_count-append (record_frame env g t r).1 (frames env g ts recs').1,
          record_frame_writes env g t r,
          rw keeps.0 at
              (frames-on_time env g ts recs' r' (lookup-insert_self g r' recs) (keeps.1 ∙ d)),
        ))
]

-- The watchdog's tick removes exactly the recordings that are over: at every gate the map holds
-- afterwards what it held before, unless that had run out.
pub tick_ends :
    (now : ℕ) (g : Text) (recs : Recs)
    → HasUniqueKeys recs
    → lookup g (tick now recs).0 ≡ surviving (is_over now) (lookup g recs)
tick_ends now g recs u = rw (tick-erase_if now recs) (lookup-erase_if (is_over now) g recs u)
