-- ===== src/Recording/Naming.antt =====
-- What every call keeps of the map: one recording to a gate, and a path for every open segment.
use lpr_refactored.Prelude.{
  ℕ, ◌≡◌, refl, Bool, true, false, not, ◌||◌, some, [], ◌∷◌, ◌++◌, arith, if◌then◌else◌, Text,
  is_empty, codes, to_string, lookup, insert, erase, contains, HasUniqueKeys, HasUniqueKeys-insert,
  Bool-cases, Option-cases, inl, inr, HasUniqueKeys-erase,
}
use lpr_refactored.Recording.{
  Env, Rec, Recs, is_open, segment_path, start_recording, finish, stop_recording, tick, is_over,
  roll_over, ensure_open, record_frame, on_frame, Call, start, stop, frame, ticks, step, stop_found,
  frame_found,
}

-- An open segment has a path; the callback is skipped for one without.
abbrev pub named : Rec → Bool
named r = not (is_open r.writer) || not (is_empty r.current_path)

abbrev pub AllNamed : Recs → Type 0
AllNamed [] = Unit {0}
AllNamed ((g, r) ∷ recs) = (named r ≡ true) × AllNamed recs

pub record IsTidy (recs : Recs) : Type 0 where
  pub unique : HasUniqueKeys recs
  pub all_named : AllNamed recs

append_cons_not_empty : (xs ys : Text) (y : ℕ) → is_empty (xs ++ (y ∷ ys)) ≡ false
append_cons_not_empty [] ys y = refl
append_cons_not_empty (x ∷ xs) ys y = refl

segment_path_not_empty : (env : Env) (r : Rec) → is_empty (segment_path env r) ≡ false
unfolding segment_path
segment_path_not_empty env r =
    append_cons_not_empty r.base_name (codes "seg" ++ (to_string r.segment_index ++ env.extension))
      b'_'

roll_over-named :
    (env : Env) (g : Text) (now : ℕ) (r : Rec)
    → named r ≡ true
    → named (roll_over env g now r).0 ≡ true
unfolding roll_over
roll_over-named env g now r h = ground arith

ensure_open-named :
    (env : Env) (g : Text) (r : Rec) → named r ≡ true → named (ensure_open env g r).0 ≡ true
unfolding ensure_open
ensure_open-named env g r h = ground (arith, segment_path_not_empty env r)

record_frame-named :
    (env : Env) (g : Text) (now : ℕ) (r : Rec)
    → named r ≡ true
    → named (record_frame env g now r).0 ≡ true
unfolding record_frame
record_frame-named env g now r h = ensure_open-named env g _ (roll_over-named env g now r h)

pub named_of_lookup :
    (g : Text) (r : Rec) (recs : Recs) → AllNamed recs → lookup g recs ≡ some r → named r ≡ true
unfolding lookup
named_of_lookup g r [] a e = cc
named_of_lookup g r ((j, s) ∷ recs) a e = ground (arith, named_of_lookup g r recs a.1)

AllNamed-insert :
    (g : Text) (r : Rec) (recs : Recs) → named r ≡ true → AllNamed recs → AllNamed (insert g r recs)
unfolding insert
AllNamed-insert g r [] h a = (h, tt)
AllNamed-insert g r ((j, s) ∷ recs) h a = ground (arith, AllNamed-insert g r recs h a.1)

AllNamed-erase : (g : Text) (recs : Recs) → AllNamed recs → AllNamed (erase g recs)
unfolding erase
AllNamed-erase g [] a = tt
AllNamed-erase g ((j, s) ∷ recs) a = ground (arith, AllNamed-erase g recs a.1)

contains-tick :
    (g : Text) (now : ℕ) (recs : Recs)
    → contains g recs ≡ false
    → contains g (tick now recs).0 ≡ false
unfolding contains tick
contains-tick g now [] h = refl
contains-tick g now ((j, s) ∷ recs) h = ground (arith, contains-tick g now recs)

tick-IsTidy : (now : ℕ) (recs : Recs) → IsTidy recs → IsTidy (tick now recs).0
unfolding tick
tick-IsTidy now [] t = t
tick-IsTidy now ((j, s) ∷ recs) t =
    let ih = tick-IsTidy now recs (record { unique = t.unique.1; all_named = t.all_named.1 }) in
    elim (Bool-cases (is_over now s)) [
      | inl e ↦ rw e ih
      | inr e ↦ rw e (record {
        unique = (contains-tick j now recs t.unique.0, ih.unique);
        all_named = (t.all_named.0, ih.all_named);
      })
    ]

erase-IsTidy : (g : Text) (recs : Recs) → IsTidy recs → IsTidy (erase g recs)
erase-IsTidy g recs t = record {
  unique = HasUniqueKeys-erase g recs t.unique;
  all_named = AllNamed-erase g recs t.all_named;
}

insert-IsTidy :
    (g : Text) (r : Rec) (recs : Recs) → named r ≡ true → IsTidy recs → IsTidy (insert g r recs)
insert-IsTidy g r recs h t = record {
  unique = HasUniqueKeys-insert g r recs t.unique;
  all_named = AllNamed-insert g r recs h t.all_named;
}

pub step-IsTidy : (env : Env) (c : Call) (recs : Recs) → IsTidy recs → IsTidy (step env c recs).0
unfolding step start_recording stop_recording on_frame finish
step-IsTidy env (start g d now stamp) recs t = elim (Bool-cases (contains g recs)) [
  | inl e ↦ rw e t
  | inr e ↦ rw e (insert-IsTidy g _ recs refl t)
]
step-IsTidy env (stop g) recs t = elim (Option-cases (lookup g recs)) [
  | inl e ↦ rw (e, stop_found) t
  | inr (r, e) ↦ rw (e, stop_found) (erase-IsTidy g recs t)
]
step-IsTidy env (frame g true now) recs t = t
step-IsTidy env (frame g false now) recs t = elim (Option-cases (lookup g recs)) [
  | inl e ↦ rw (e, frame_found) t
  | inr (r, e) ↦ rw (e, frame_found) (frame_IsTidy r e (is_over now r))
]
  where
    frame_IsTidy :
        (r : Rec)
        → lookup g recs ≡ some r
        → (over : Bool)
        → IsTidy
            (if over
              then finish g r recs
              else (insert g (record_frame env g now r).0 recs, (record_frame env g now r).1)).0
    frame_IsTidy r e true = erase-IsTidy g recs t
    frame_IsTidy r e false =
        insert-IsTidy g _ recs
          (record_frame-named env g now r (named_of_lookup g r recs t.all_named e)) t
step-IsTidy env (ticks now) recs t = tick-IsTidy now recs t
