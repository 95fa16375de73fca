-- ===== src/LiveView/Skip.antt =====
-- Which share of the frames is forwarded.
use lpr_refactored.Prelude.{
  ℕ, suc, ◌+◌, ◌/◌, ◌%◌, ◌<◌, ◌≡◌, ◌∙◌, ap, Bool, true, false, some, List, [], ◌∷◌, arith, ◌==◌,
  if◌then◌else◌, Text, lookup, lookup-insert_self, length, insert,
}
use lpr_refactored.LiveView.{Live, LiveViewService, is_expired, on_frame, on_live_frame}

-- The number of frames forwarded, of frames that come at these times.
pub forwarded : Text → List ℕ → LiveViewService → ℕ
unfolding on_frame
forwarded gate [] s = 0
forwarded gate (t ∷ ts) s =
    let (s', sent) = on_frame gate false t s in
    let rest = forwarded gate ts s' in if sent then suc rest else rest

-- The stream has not expired at any of the times.
abbrev pub Running : Live → List ℕ → Type 0
Running l [] = Unit {0}
Running l (t ∷ ts) = (is_expired t l ≡ false) × Running l ts

-- A quotient moves on exactly at the multiples.
abbrev bump : Bool → ℕ
bump true = 1
bump false = 0

div-suc : (n c : ℕ) → 0 < n → (c + 1) / n ≡ c / n + bump ((c + 1) % n == 0)
div-suc n c h = grind arith

on_frame_running :
    (gate : Text) (t : ℕ) (s : LiveViewService) (l : Live)
    → lookup gate s.live ≡ some l
    → is_expired t l ≡ false
    → on_frame gate false t s ≡ (
      record s { live = insert gate (record l { counter = l.counter + 1 }) s.live },
      (l.counter + 1) % s.send_every_n == 0,
    )
unfolding on_frame
on_frame_running gate t s l e r = rw (e, on_live_frame) (rw r)

forwarded_step :
    (sent : Bool) (rest q q' k : ℕ)
    → q' ≡ q + bump sent
    → rest + q' ≡ k
    → (if sent then suc rest else rest) + q ≡ k
forwarded_step true rest q q' k h e = omega arith
forwarded_step false rest q q' k h e = omega arith

Running-counter :
    (l : Live) (c : ℕ) (ts : List ℕ) → Running l ts → Running (record l { counter = c }) ts
Running-counter l c [] r = tt
Running-counter l c (t ∷ ts) r = (r.0, Running-counter l c ts r.1)

-- Of the frames that reach a live camera, one in `send_every_n` goes to the sink, wherever the
-- camera's counter stands when they begin.
pub forwarded_share :
    (gate : Text) (ts : List ℕ) (s : LiveViewService) (l : Live)
    → 0 < s.send_every_n
    → lookup gate s.live ≡ some l
    → Running l ts
    → forwarded gate ts s + l.counter / s.send_every_n ≡ (l.counter + length ts) / s.send_every_n
unfolding forwarded
forwarded_share gate [] s l n e r = ground arith
forwarded_share gate (t ∷ ts) s l n e r =
    let l' : Live = record l { counter = l.counter + 1 } in
    let ih =
      forwarded_share gate ts (record s { live = insert gate l' s.live }) l' n
        (lookup-insert_self gate l' s.live) (Running-counter l (l.counter + 1) ts r.1) in
    rw (on_frame_running gate t s l e r.0, forwarded)
      (forwarded_step ((l.counter + 1) % s.send_every_n == 0) _ (l.counter / s.send_every_n) _ _
        (div-suc s.send_every_n l.counter n) (ih ∙ ap (λ k. k / s.send_every_n) (omega arith)))
