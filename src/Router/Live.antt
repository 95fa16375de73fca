-- ===== src/Router/Live.antt =====
-- What a live-view command does to the cameras.
use lpr_refactored.Prelude.{
  ℕ, ◌≡◌, ◌≤◌, ap, ◌∙◌, false, ◌||◌, Option, arith, is_empty, Text, text_eq, ℤ, lookup,
  lookup-insert, ◌⊎◌,
}
use lpr_refactored.LiveView.{LiveViewService, requested, enable_live, is_live, live_at}
use lpr_refactored.LiveView.Viewers.{covers, enable_live_lem}
use lpr_refactored.Router.{Json, camera_id_of, live_duration, duration_of, live_view}

module _ (stoi : Text → Option ℤ) where
  live_duration_range :
      (msg : Json)
      → (live_duration stoi msg ≡ 0)
        ⊎ ((2 ≤ live_duration stoi msg) × (live_duration stoi msg ≤ 86400))
  unfolding live_duration duration_of
  live_duration_range msg = ground arith

  enable_other :
      (id g : Text) (d now t : ℕ) (s : LiveViewService)
      → text_eq id g ≡ false
      → is_live g t (enable_live id d now s) ≡ is_live g t s
  unfolding is_live enable_live
  enable_other id g d now t s h =
      ap (live_at t)
        (lookup-insert id g (requested now d (lookup id s.live)) s.live ∙ ground (arith, h))

  -- A live-view command that names a camera makes it live, on top of what it was going to be, from
  -- now on for the command's duration, which is 0 (without end) or from 2 seconds to a day,
  -- whatever the message says; every other camera stays as it was.
  pub live_view-is_live :
      (msg : Json) (now : ℕ) (s : LiveViewService)
      → is_empty (camera_id_of msg) ≡ false
      → ((live_duration stoi msg ≡ 0)
          ⊎ ((2 ≤ live_duration stoi msg) × (live_duration stoi msg ≤ 86400)))
        × ((t : ℕ)
            → is_live (camera_id_of msg) t (live_view stoi msg now s)
              ≡ is_live (camera_id_of msg) t s || covers now (live_duration stoi msg) t)
        × ((g : Text) (t : ℕ)
            → text_eq (camera_id_of msg) g ≡ false
            → is_live g t (live_view stoi msg now s) ≡ is_live g t s)
  unfolding live_view
  live_view-is_live msg now s h = (
    live_duration_range msg,
    λ t. rw h (enable_live_lem (camera_id_of msg) (live_duration stoi msg) now t s),
    λ g t e. rw h (enable_other (camera_id_of msg) g (live_duration stoi msg) now t s e),
  )
