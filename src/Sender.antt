-- ===== src/Sender.antt =====
-- src/net/PlateSender.cpp: the end of the pipeline. Plates come off the queue, repeats within the
-- cooldown are dropped, and the rest are published. Times are system-clock milliseconds; a
-- cooldown of 0 stands for any that is not positive.
pub mod Cooldown
pub mod Spacing
pub mod Count
mod Tests
use lpr_refactored.Prelude.{
  ℕ, suc, ◌+◌, ◌*◌, Bool, true, false, not, ◌&&◌, ◌||◌, Option, none, some, List, [], ◌∷◌, ◌++◌,
  ltb, leb, ◌==◌, if◌then◌else◌, is_empty, Text, codes, ℤ, Dict, lookup, insert, erase_if,
}
use lpr_refactored.Transport.{Transport}
use lpr_refactored.Plates.{normalize_plate_text, is_iranian_structure}

-- cv::Rect.
pub record Rect : Type 0 where
  pub x : ℕ
  pub y : ℕ
  pub width : ℕ
  pub height : ℕ

-- What the message needs of a `PlateItem`. `box` is the bounding rectangle of the plate.
pub record PlateItem : Type 0 where
  pub text : Text
  pub confidence : ℕ
  pub box : Rect
  pub vehicle_box : Rect
  pub track_id : ℤ
  pub direction : ℕ
  pub pass_id : Text
  pub gate : Text
  pub force_send : Bool

-- The members of the document that depend on the item.
pub record Document : Type 0 where
  pub left : ℕ
  pub top : ℕ
  pub right : ℕ
  pub bottom : ℕ
  pub direction : ℕ
  pub plate : Text
  pub nation : Option Text
  pub is_valid : Bool
  pub numeric_track_id : Option ℤ
  pub track_pass_id : Option Text
  pub ocr_accuracy : ℕ
  pub camera_id : Text

-- `validator` is the optional structural test.
pub record Config : Type 0 where
  pub subject : Text
  pub durable : Bool
  pub cooldown_ms : ℕ
  pub validator : Option (Text → Bool)

abbrev valid_by : Option (Text → Bool) → Text → Bool
valid_by none t = true
valid_by (some v) t = v t

pub build_document : Config → PlateItem → Document
build_document cfg p =
    let box = if ltb 0 (p.vehicle_box.width * p.vehicle_box.height) then p.vehicle_box else p.box in
    let plate_text = normalize_plate_text p.text in
    record {
      left = box.x;
      top = box.y;
      right = box.x + box.width;
      bottom = box.y + box.height;
      direction = p.direction;
      plate = plate_text;
      nation = if is_iranian_structure plate_text then some (codes "IR") else none;
      is_valid = valid_by cfg.validator plate_text;
      numeric_track_id = if is_empty p.pass_id then some p.track_id else none;
      track_pass_id = if is_empty p.pass_id then none else some p.pass_id;
      ocr_accuracy = p.confidence;
      camera_id = p.gate;
    }

-- The entries that the prune drops: older than five minutes.
abbrev pub prune_ms : ℕ
prune_ms = 5 * 60 * 1000

abbrev pub is_stale : ℕ → ℕ → Bool
is_stale now last = ltb (last + prune_ms) now

abbrev pub cooldown_key : Text → Text → Text
cooldown_key gate plate = gate ++ (codes ":" ++ plate)

abbrev pub in_cooldown : ℕ → ℕ → Option ℕ → Bool
in_cooldown cooldown now none = false
in_cooldown cooldown now (some last) = ltb now (last + cooldown)

-- `lastSent_` and the verdict.
pub cooldown_passes : ℕ → Text → Text → ℕ → Dict ℕ → Dict ℕ × Bool
cooldown_passes cooldown gate plate now last_sent =
    let kept = erase_if (is_stale now) last_sent in
    let key = cooldown_key gate plate in
    if leb cooldown 0
    then (last_sent, true)
    else if in_cooldown cooldown now (lookup key kept)
    then (kept, false)
    else (insert key now kept, true)

pub record SenderState (T : Type 0) : Type 0 where
  pub last_sent : Dict ℕ
  pub sent : ℕ
  pub transport : T

-- `dump` is the JSON library's text of a document, with the fresh message id and the images.
module _ {T : Type 0} (transport : Transport T) (dump : Document → Text) (cfg : Config) where
  -- The publication of an item that passed.
  pub publish_item : PlateItem → SenderState T → SenderState T
  publish_item item s =
      let payload = dump (build_document cfg item) in
      let (t, queued) =
        if cfg.durable
        then transport.publish_durable cfg.subject payload s.transport
        else transport.publish cfg.subject payload s.transport in
      record s { transport = t; sent = if queued then suc s.sent else s.sent }

  -- One round of `run` on an item, at a time; the flag says whether it came to a publication.
  pub handle : PlateItem → ℕ → SenderState T → SenderState T × Bool
  handle item now s =
      let (last_sent', passes) =
        cooldown_passes cfg.cooldown_ms item.gate item.text now s.last_sent in
      if is_empty item.text
      then (s, false)
      else if item.force_send
      then (publish_item item s, true)
      else if passes
      then (publish_item item (record s { last_sent = last_sent' }), true)
      else (record s { last_sent = last_sent' }, false)

  -- The rounds over the items that the queue hands out, with the time of each.
  pub run : List (PlateItem × ℕ) → SenderState T → SenderState T
  run [] s = s
  run ((item, now) ∷ items) s = run items (handle item now s).0
