-- ===== src/Router/Tests.antt =====
-- A live-view command with its camera in a nested body.
use lpr_refactored.Prelude.{[], ◌≡◌, refl, Option, none, Text, codes, ℤ, text_eq}
use lpr_refactored.LiveView.{LiveViewService}
use lpr_refactored.Router.{
  Json, text, integer, object, array, nil, item, end, field, find_key_deep, live_duration,
  duration_of,
}

abbrev message : Json
message = object (
    field (codes "type") (text (codes "live")) (
      field (codes "body")
        (array (
          item
            (object (
              field (codes "duration") (integer (ℤ.pos 1))
                (field (codes "gate") (text (codes "in")) end)))
            nil))
        end))

abbrev no_number : Text → Option ℤ
no_number t = none

abbrev service : LiveViewService
service = record { send_every_n = 3; live = [] }

duration_floor : live_duration no_number message ≡ 2
unfolding live_duration duration_of find_key_deep text_eq
duration_floor = refl
