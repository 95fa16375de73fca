-- ===== src/LiveView.antt =====
-- src/services/LiveViewService.cpp: which cameras stream live, until when, and which frames are
-- forwarded. Times are steady-clock milliseconds, an argument of each call; a non-positive duration
-- is 0. The frame counter is a long, which no stream brings to overflow.
pub mod Viewers
pub mod Skip
mod Tests
use lpr_refactored.Prelude.{
  ℕ, ◌+◌, ◌*◌, ◌%◌, Bool, true, false, not, ◌&&◌, ◌||◌, Option, none, some, List, [], ◌∷◌, ltb, leb,
  ◌==◌, if◌then◌else◌, Text, Dict, lookup, insert, erase, length,
}

-- The members of `Live`.
pub record Live : Type 0 where
  pub expire_at : ℕ
  pub has_expiry : Bool
  pub counter : ℕ

pub record LiveViewService : Type 0 where
  pub send_every_n : ℕ
  pub live : Dict Live

-- The constructor repairs a configuration below 1.
pub init : ℕ → LiveViewService
init n = record { send_every_n = if ltb n 1 then 1 else n; live = [] }

-- A first request.
abbrev pub opened : ℕ → ℕ → Live
opened now duration = record {
  expire_at = if ltb 0 duration then now + 1000 * duration else 0;
  has_expiry = ltb 0 duration;
  counter = 0;
}

-- A request for a camera that is already live.
abbrev pub extended : ℕ → ℕ → Live → Live
extended now duration l =
    let new_expiry = now + 1000 * duration in
    if leb duration 0
    then record l { has_expiry = false }
    else if l.has_expiry && ltb l.expire_at new_expiry
    then record l { expire_at = new_expiry }
    else l

abbrev pub requested : ℕ → ℕ → Option Live → Live
requested now duration none = opened now duration
requested now duration (some l) = extended now duration l

unfoldable pub enable_live : Text → ℕ → ℕ → LiveViewService → LiveViewService
enable_live gate duration now s = record s {
  live = insert gate (requested now duration (lookup gate s.live)) s.live;
}

pub disable_live : Text → LiveViewService → LiveViewService
disable_live gate s = record s { live = erase gate s.live }

abbrev pub is_expired : ℕ → Live → Bool
is_expired now l = l.has_expiry && leb l.expire_at now

abbrev pub live_at : ℕ → Option Live → Bool
live_at now none = false
live_at now (some l) = not (is_expired now l)

unfoldable pub is_live : Text → ℕ → LiveViewService → Bool
is_live gate now s = live_at now (lookup gate s.live)

pub live_count : LiveViewService → ℕ
live_count s = length s.live

-- The flag says whether the frame goes to the sink.
on_live_frame : Text → ℕ → Option Live → LiveViewService → LiveViewService × Bool
on_live_frame gate now none s = (s, false)
on_live_frame gate now (some l) s =
    if is_expired now l then (record s { live = erase gate s.live }, false) else (
      record s { live = insert gate (record l { counter = l.counter + 1 }) s.live },
      (l.counter + 1) % s.send_every_n == 0,
    )

pub on_frame : Text → Bool → ℕ → LiveViewService → LiveViewService × Bool
unfolding on_live_frame
on_frame gate image_empty now s =
    if image_empty then (s, false) else on_live_frame gate now (lookup gate s.live) s
