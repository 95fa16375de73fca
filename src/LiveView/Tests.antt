-- ===== src/LiveView/Tests.antt =====
-- Two viewers of one camera.
use lpr_refactored.Prelude.{
  ◌+◌, ◌/◌, ◌≡◌, refl, true, false, List, [], ◌∷◌, ◌||◌, arith, Text, codes, lookup, text_eq,
}
use lpr_refactored.LiveView.{LiveViewService, init, is_live}
use lpr_refactored.LiveView.Viewers.{Event, request, frame, run, wanted, is_live-run}
use lpr_refactored.LiveView.Skip.{forwarded, forwarded_share}

abbrev gate : Text
gate = codes "12"

abbrev two_viewers : List Event
two_viewers = request 0 60 ∷ frame 500 false ∷ request 1000 5 ∷ frame 9000 false ∷ []

-- The first viewer's minute is not cut to the second viewer's five seconds.
is_live-run_example :
    is_live gate 30000 (run gate two_viewers (init 2))
    ≡ is_live gate 30000 (init 2) || wanted 30000 two_viewers
is_live-run_example = is_live-run gate two_viewers 30000 (init 2) (omega arith)

abbrev watched : LiveViewService
watched = record {
  send_every_n = 3;
  live = (gate, record { expire_at = 9000; has_expiry = true; counter = 4 }) ∷ [];
}

forwarded_share_example :
    forwarded gate (100 ∷ 200 ∷ 300 ∷ 400 ∷ 500 ∷ []) watched + 4 / 3 ≡ (4 + 5) / 3
unfolding lookup text_eq
forwarded_share_example =
    forwarded_share gate (100 ∷ 200 ∷ 300 ∷ 400 ∷ 500 ∷ []) watched
      (record { expire_at = 9000; has_expiry = true; counter = 4 }) (omega arith) refl
      (refl, (refl, (refl, (refl, (refl, tt)))))
