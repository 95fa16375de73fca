-- ===== src/Recording/Completion.antt =====
-- Every segment file that is opened is reported complete once, or is still open.
use lpr_refactored.Prelude.{
  ℕ, ◌+◌, ◌≡◌, refl, Bool, true, false, some, List, [], ◌∷◌, arith, if◌then◌else◌, Text, lookup,
  insert, contains, Bool-cases, Option-cases, inl, inr, lookup_none_of_contains,
}
use lpr_refactored.Recording.{
  Env, Rec, Recs, Outcome, fresh_rec, close_segment, start_recording, finish, stop_recording, tick,
  is_over, record_frame, on_frame, Call, start, stop, frame, ticks, step, run, stop_found,
  frame_found,
}
use lpr_refactored.Recording.Naming.{AllNamed, IsTidy, named_of_lookup, step-IsTidy}
use lpr_refactored.Recording.Segments.{
  Files, opened_count, completed_count, open_count, opened_count-append, completed_count-append,
  open_count-insert, open_count-erase, close_segment_balance, record_frame_balance,
}

module _ (p : Files) where
  -- What the calls opened and what was open is what they completed and what is open.
  abbrev Balanced : Recs → Outcome → Type 0
  Balanced recs o =
      open_count p recs + opened_count p o.1 ≡ open_count p o.0 + completed_count p o.1

  finish_balance :
      (g : Text) (r : Rec) (recs : Recs)
      → IsTidy recs
      → lookup g recs ≡ some r
      → Balanced recs (finish g r recs)
  unfolding finish
  finish_balance g r recs t e = omega (
    arith,
    close_segment_balance p g r (named_of_lookup g r recs t.all_named e),
    rw e at (open_count-erase p g recs t.unique),
  )

  tick_balance : (now : ℕ) (recs : Recs) → AllNamed recs → Balanced recs (tick now recs)
  unfolding tick open_count completed_count opened_count
  tick_balance now [] a = refl
  tick_balance now ((g, r) ∷ recs) a = elim (Bool-cases (is_over now r)) [
    | inl e ↦ rw e (
        omega (
          arith,
          tick_balance now recs a.1,
          close_segment_balance p g r a.0,
          opened_count-append p (close_segment g r).1 (tick now recs).1,
          completed_count-append p (close_segment g r).1 (tick now recs).1,
        ))
    | inr e ↦ rw e (omega (arith, tick_balance now recs a.1))
  ]

  step_balance :
      (env : Env) (c : Call) (recs : Recs) → IsTidy recs → Balanced recs (step env c recs)
  unfolding step start_recording stop_recording on_frame opened_count completed_count fresh_rec
  step_balance env (start g d now stamp) recs t = elim (Bool-cases (contains g recs)) [
    | inl e ↦ rw e (omega arith)
    | inr e ↦ rw e (start_fresh e)
  ]
    where
      start_fresh :
          contains g recs ≡ false → Balanced recs (insert g (fresh_rec env g d now stamp) recs, [])
      start_fresh e = omega (
        arith,
        rw (lookup_none_of_contains g recs e) at
            (open_count-insert p g (fresh_rec env g d now stamp) recs),
      )
  step_balance env (stop g) recs t = elim (Option-cases (lookup g recs)) [
    | inl e ↦ rw (e, stop_found) (omega arith)
    | inr (r, e) ↦ rw (e, stop_found) (finish_balance g r recs t e)
  ]
  step_balance env (frame g true now) recs t = omega arith
  step_balance env (frame g false now) recs t = elim (Option-cases (lookup g recs)) [
    | inl e ↦ rw (e, frame_found) (omega arith)
    | inr (r, e) ↦ rw (e, frame_found) (frame_balance r e (is_over now r))
  ]
    where
      frame_balance :
          (r : Rec)
          → lookup g recs ≡ some r
          → (over : Bool)
          → Balanced recs (
              if over
              then finish g r recs
              else (insert g (record_frame env g now r).0 recs, (record_frame env g now r).1))
      frame_balance r e true = finish_balance g r recs t e
      frame_balance r e false = omega (
        arith,
        rw e at (open_count-insert p g (record_frame env g now r).0 recs),
        record_frame_balance p env g now r (named_of_lookup g r recs t.all_named e),
      )
  step_balance env (ticks now) recs t = tick_balance now recs t.all_named

  run_balance :
      (env : Env) (cs : List Call) (recs : Recs) → IsTidy recs → Balanced recs (run env cs recs)
  unfolding run opened_count completed_count
  run_balance env [] recs t = omega arith
  run_balance env (c ∷ cs) recs t =
      let recs' = (step env c recs).0 in
      omega (
        arith,
        step_balance env c recs t,
        run_balance env cs recs' (step-IsTidy env c recs t),
        opened_count-append p (step env c recs).1 (run env cs recs').1,
        completed_count-append p (step env c recs).1 (run env cs recs').1,
      )

  -- Start, stop, frames and watchdog ticks in any order, over any gates, with any encoders: of any
  -- choice of segment files (by gate and path), as many were opened as were reported complete or
  -- are still open. So a file that was opened is reported once when it is closed, and never
  -- otherwise.
  pub opened_completed :
      (env : Env) (cs : List Call)
      → let (recs, es) = run env cs [] in
        opened_count p es ≡ completed_count p es + open_count p recs
  unfolding open_count
  opened_completed env cs =
      omega (arith, run_balance env cs [] (record { unique = tt; all_named = tt }))
