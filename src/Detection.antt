-- ===== src/Detection.antt =====
-- src/manager/DetectionWorker.cpp: what becomes of the plates of a frame. `process` feeds the
-- direction estimator, and then announces, holds, corrects or drops each read by the pass that its
-- gate is in; `passIdFor` keeps the pass ids. `jaro` stands for jaroWinklerDistance. The recogniser,
-- the plate processor and the observers are parameters: a frame comes with what they returned. The
-- drawing of the preview and of the evidence image is left out. Times are milliseconds from 0.
pub mod Legal
pub mod Parts
pub mod Held
pub mod Protocol
pub mod Worker
mod Tests
use lpr_refactored.Prelude.{
  ℕ, ◌+◌, ◌-◌, ◌*◌, Bool, true, false, not, ◌&&◌, ◌||◌, Option, none, some, List, [], ◌∷◌, ◌++◌,
  ltb, leb, ◌==◌, if◌then◌else◌, is_empty, Text, ℤ,
}
use lpr_refactored.Floats.{Float, le}
use lpr_refactored.Sender.{PlateItem, Rect}
use lpr_refactored.Direction.{Trend, unknown, approaching, receding}

-- `pending` is `pendingItem` while `pendingEarly` is set; a last direction of -1 is `none`.
pub record PassState : Type 0 where
  pub pass_id : Text
  pub text : Text
  pub last_seen_ms : ℕ
  pub last_interval : ℕ
  pub emitted_early : Bool
  pub last_sent_dir : Option ℕ
  pub pending : Option PlateItem
  pub pending_since : ℕ

abbrev pub new_pass : PassState
new_pass = record {
  pass_id = [];
  text = [];
  last_seen_ms = 0;
  last_interval = 0;
  emitted_early = false;
  last_sent_dir = none;
  pending = none;
  pending_since = 0;
}

-- 0 unknown, 1 approaching, 2 receding.
abbrev pub physical_direction : Trend → ℕ
physical_direction unknown = 0
physical_direction approaching = 1
physical_direction receding = 2

abbrev pub was_sent : ℕ → Option ℕ → Bool
was_sent d none = false
was_sent d (some e) = d == e

abbrev pub is_some {ℓ} : {A : Type ℓ} → Option A → Bool
is_some none = false
is_some (some a) = true

-- `emitPlate` of an item that is there, with its direction set.
abbrev pub release : ℕ → Option PlateItem → List PlateItem
release d none = []
release d (some h) = record h { direction = d } ∷ []

abbrev pub text_of : Option PlateItem → Text
text_of none = []
text_of (some h) = h.text

abbrev no_rect : Rect
no_rect = record { x = 0; y = 0; width = 0; height = 0 }

module _ (F : Float) where
  open F use {Num, lt}

  -- `hold` is `direction.announceHoldSightings`, 0 for none.
  pub record Config : Type 0 where
    pub direction_enable : Bool
    pub hold : ℕ
    pub pass_gap_ms : ℕ
    pub pass_plate_similarity : Num

  -- One read: its text, what the processor made of it, the UUID drawn for a new pass, the time, and
  -- what the direction estimator says of the gate.
  pub record Read : Type 0 where
    pub text : Text
    pub kept : Option PlateItem
    pub uuid : Text
    pub now : ℕ
    pub phys : ℕ
    pub sightings : ℕ

  module _ (jaro : Text → Text → Num) (cfg : Config) where
    -- The texts are both there and differ clearly.
    abbrev pub differ : Text → Text → Bool
    differ s t = not (is_empty s) && (not (is_empty t) && lt (jaro s t) cfg.pass_plate_similarity)

    abbrev pub gap_ends : ℕ → PassState → Bool
    gap_ends now st =
        ltb (st.last_seen_ms + 4 * cfg.pass_gap_ms) now
        || (ltb 0 st.last_interval && ltb (st.last_seen_ms + 3 * st.last_interval) now)

    -- A read at this time and with this text starts a new pass.
    abbrev pub starts_pass : ℕ → Text → PassState → Bool
    starts_pass now text st = is_empty st.pass_id || (gap_ends now st || differ st.text text)

    -- `passIdFor`, on the pass of the gate.
    pub pass_for : ℕ → Text → Text → PassState → PassState
    pass_for now text uuid st =
        let seen : PassState = record st {
          text = if is_empty text then st.text else text;
          last_seen_ms = now;
        } in
        if starts_pass now text st
        then record seen {
          pass_id = uuid;
          emitted_early = false;
          last_sent_dir = none;
          last_interval = 0;
        }
        else record seen { last_interval = now - st.last_seen_ms }

    -- The same vehicle, as far as the texts tell.
    abbrev pub same_pass : Text → PassState → Bool
    same_pass text st =
        is_empty st.text || (is_empty text || le F cfg.pass_plate_similarity (jaro st.text text))

    abbrev pub hold_over : Read → PassState → Bool
    hold_over r st = not (r.phys == 0) || leb (st.pending_since + cfg.hold) r.sightings

    -- The correction that a dropped read gives rise to.
    abbrev pub correction : Text → Read → PassState → PlateItem
    correction gate r st = record {
      text = if is_empty r.text then st.text else r.text;
      confidence = 0;
      box = no_rect;
      vehicle_box = no_rect;
      track_id = ℤ.negsuc 0;
      direction = r.phys;
      pass_id = st.pass_id;
      gate = gate;
      force_send = true;
    }

    -- The direction has settled on another value than was last sent.
    abbrev pub changed : Read → PassState → Bool
    changed r st = not (r.phys == 0) && not (was_sent r.phys st.last_sent_dir)

    -- A read that the processor dropped.
    pub on_dropped : Text → Read → PassState → PassState × List PlateItem
    on_dropped gate r st =
        let same = same_pass r.text st in
        if not cfg.direction_enable
        then (st, [])
        else if is_some st.pending && same
        then (if hold_over r st
            then (
              record st {
                last_seen_ms = r.now;
                emitted_early = true;
                last_sent_dir = some r.phys;
                pending = none;
              },
              release r.phys st.pending,
            )
            else (st, []))
        else if is_some st.pending
        then (record st { pending = none }, release 0 st.pending)
        else if st.emitted_early && (same && (not (is_empty st.pass_id) && changed r st))
        then (
          record st { last_seen_ms = r.now; last_sent_dir = some r.phys },
          correction gate r st ∷ [],
        )
        else (st, [])

    -- A read that was kept, once its pass is known and no other vehicle's plate is held.
    pub announce : Read → PlateItem → PassState → PassState × List PlateItem
    announce r out st =
        let hold = if cfg.direction_enable then cfg.hold else 0 in
        if not st.emitted_early
        then (if ltb 0 hold && r.phys == 0
            then (
              record st {
                pending = some out;
                pending_since =
                    if is_some st.pending
                    then st.pending_since
                    else (if cfg.direction_enable then r.sightings else 0);
              },
              [],
            )
            else (
              record st { emitted_early = true; last_sent_dir = some r.phys; pending = none },
              record out { direction = r.phys } ∷ [],
            ))
        else if changed r st
        then (
          record st { last_sent_dir = some r.phys },
          record out { direction = r.phys; force_send = true } ∷ [],
        )
        else (st, [])

    -- The held plate is another vehicle's, and leaves before this one is announced.
    pub flush : PlateItem → PassState → PassState × List PlateItem
    flush out st =
        if is_some st.pending && differ (text_of st.pending) out.text
        then (record st { pending = none }, release 0 st.pending)
        else (st, [])

    -- A read that was kept.
    pub on_kept : Read → PlateItem → PassState → PassState × List PlateItem
    unfolding pass_for announce flush
    on_kept r p st0 =
        let st = pass_for r.now p.text r.uuid st0 in
        let out : PlateItem = record p { pass_id = st.pass_id; force_send = false } in
        let (st1, flushed) = flush out st in
        let (st2, sent) = announce r out st1 in (st2, flushed ++ sent)

    on_processed : Text → Read → Option PlateItem → PassState → PassState × List PlateItem
    unfolding on_dropped on_kept
    on_processed gate r none st = on_dropped gate r st
    on_processed gate r (some p) st = on_kept r p st

    -- One round of the loop over the reads, on the pass of the gate.
    pub on_read : Text → Read → PassState → PassState × List PlateItem
    unfolding on_processed
    on_read gate r st = on_processed gate r r.kept st
