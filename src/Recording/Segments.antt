-- ===== src/Recording/Segments.antt =====
-- Every segment file that is opened is reported complete once, or is still open.
use lpr_refactored.Prelude.{
  ℕ, ◌+◌, ◌≡◌, refl, Bool, true, false, ◌&&◌, Option, none, some, List, [], ◌∷◌, ◌++◌, arith, Text,
  text_eq, text_eq_iff, lookup, insert, erase, contains, HasUniqueKeys, Bool-cases, inl, inr,
}
use lpr_refactored.Recording.Naming.{named}
use lpr_refactored.Recording.{
  Env, Rec, Recs, Effect, opened, written, completed, is_open, close_segment, roll_over,
  ensure_open, stamp_and_write, record_frame,
}

-- Any choice of files, by gate and path.
abbrev pub Files : Type 0
Files = Text → Text → Bool

abbrev pub one_if : Bool → ℕ
one_if true = 1
one_if false = 0

module _ (p : Files) where
  abbrev pub opened_one : Effect → ℕ
  opened_one (opened g f) = one_if (p g f)
  opened_one (written g f) = 0
  opened_one (completed g f) = 0

  abbrev pub completed_one : Effect → ℕ
  completed_one (opened g f) = 0
  completed_one (written g f) = 0
  completed_one (completed g f) = one_if (p g f)

  unfoldable pub opened_count : List Effect → ℕ
  opened_count [] = 0
  opened_count (e ∷ es) = opened_one e + opened_count es

  unfoldable pub completed_count : List Effect → ℕ
  completed_count [] = 0
  completed_count (e ∷ es) = completed_one e + completed_count es

  -- A recording that has a chosen file open.
  abbrev pub weight : Text → Rec → ℕ
  weight g r = one_if (is_open r.writer && p g r.current_path)

  unfoldable pub open_count : Recs → ℕ
  open_count [] = 0
  open_count ((g, r) ∷ recs) = weight g r + open_count recs

  pub opened_count-append :
      (xs ys : List Effect) → opened_count (xs ++ ys) ≡ opened_count xs + opened_count ys
  unfolding opened_count
  opened_count-append [] ys = omega arith
  opened_count-append (x ∷ xs) ys = omega (arith, opened_count-append xs ys)

  pub completed_count-append :
      (xs ys : List Effect) → completed_count (xs ++ ys) ≡ completed_count xs + completed_count ys
  unfolding completed_count
  completed_count-append [] ys = omega arith
  completed_count-append (x ∷ xs) ys = omega (arith, completed_count-append xs ys)

  abbrev pub weight_at : Text → Option Rec → ℕ
  weight_at g none = 0
  weight_at g (some r) = weight g r

  pub open_count-insert :
      (g : Text) (r : Rec) (recs : Recs)
      → open_count (insert g r recs) + weight_at g (lookup g recs) ≡ open_count recs + weight g r
  unfolding open_count insert lookup
  open_count-insert g r [] = omega arith
  open_count-insert g r ((j, s) ∷ recs) = elim (Bool-cases (text_eq j g)) [
    | inl e ↦ rw (e, (text_eq_iff j g).0 e) (omega arith)
    | inr e ↦ rw e (omega (arith, open_count-insert g r recs))
  ]

  open_count-erase_absent :
      (g : Text) (recs : Recs)
      → contains g recs ≡ false
      → open_count (erase g recs) ≡ open_count recs
  unfolding open_count erase contains
  open_count-erase_absent g [] h = refl
  open_count-erase_absent g ((j, s) ∷ recs) h = ground (arith, open_count-erase_absent g recs)

  pub open_count-erase :
      (g : Text) (recs : Recs)
      → HasUniqueKeys recs
      → open_count (erase g recs) + weight_at g (lookup g recs) ≡ open_count recs
  unfolding open_count erase lookup
  open_count-erase g [] u = omega arith
  open_count-erase g ((j, s) ∷ recs) u = elim (Bool-cases (text_eq j g)) [
    | inl e ↦
        let same : j ≡ g = (text_eq_iff j g).0 e in
        rw (e, same) (omega (arith, open_count-erase_absent g recs (rw same at u.0)))
    | inr e ↦ rw e (omega (arith, open_count-erase g recs u.1))
  ]

  -- One recording: what it opened and had open is what it completed and has open.
  pub close_segment_balance :
      (g : Text) (r : Rec)
      → named r ≡ true
      → (completed_count (close_segment g r).1 ≡ weight g r)
        × (opened_count (close_segment g r).1 ≡ 0)
  unfolding close_segment completed_count opened_count
  close_segment_balance g r h = ground arith

  roll_over_balance :
      (env : Env) (g : Text) (now : ℕ) (r : Rec)
      → named r ≡ true
      → weight g r + opened_count (roll_over env g now r).1
        ≡ weight g (roll_over env g now r).0 + completed_count (roll_over env g now r).1
  unfolding roll_over completed_count opened_count
  roll_over_balance env g now r h = ground arith

  ensure_open_balance :
      (env : Env) (g : Text) (r : Rec)
      → weight g r + opened_count (ensure_open env g r).1
        ≡ weight g (ensure_open env g r).0 + completed_count (ensure_open env g r).1
  unfolding ensure_open completed_count opened_count
  ensure_open_balance env g r = ground arith

  stamp_and_write_counts :
      (g : Text) (r : Rec)
      → (opened_count (stamp_and_write g r) ≡ 0) × (completed_count (stamp_and_write g r) ≡ 0)
  unfolding stamp_and_write completed_count opened_count
  stamp_and_write_counts g r = ground arith

  pub record_frame_balance :
      (env : Env) (g : Text) (now : ℕ) (r : Rec)
      → named r ≡ true
      → weight g r + opened_count (record_frame env g now r).1
        ≡ weight g (record_frame env g now r).0 + completed_count (record_frame env g now r).1
  unfolding record_frame
  record_frame_balance env g now r h =
      let r1 = (roll_over env g now r).0 in
      let opening = (ensure_open env g r1).1 in
      let writing = stamp_and_write g (ensure_open env g r1).0 in
      omega (
        arith,
        opened_count-append (roll_over env g now r).1 (opening ++ writing),
        opened_count-append opening writing,
        completed_count-append (roll_over env g now r).1 (opening ++ writing),
        completed_count-append opening writing,
        stamp_and_write_counts g (ensure_open env g r1).0,
        roll_over_balance env g now r h,
        ensure_open_balance env g r1,
      )
