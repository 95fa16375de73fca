-- ===== src/Supervisor/Lifecycle.antt =====
-- A camera connected, dropped and connected again.
use lpr_refactored.Prelude.{
  ℕ, ◌+◌, ◌-◌, ◌^◌, min, Bool, true, false, not, ◌&&◌, ◌||◌, Option, none, some, List, [], ◌∷◌, ltb,
  leb, if◌then◌else◌, is_empty, Text, codes, text_eq, Dict, lookup, insert, erase,
}
use lpr_refactored.Floats.{Float}
use lpr_refactored.Commands.{ExposureUnit}
use lpr_refactored.Supervisor.Maps.{
  Device, Override, Profile, Setting, Supervisor, Worker, ceiling, exposure_setting, gain_setting,
  make_exposure_strategy, manual_hold, override_or_none, role_of,
}

abbrev pub max_shift : ℕ
max_shift = 12

abbrev pub backoff_cap_sec : ℕ
backoff_cap_sec = 180

abbrev pub stable_reset_sec : ℕ
stable_reset_sec = 30

abbrev pub jumbo_fallback_shift : ℕ
jumbo_fallback_shift = 3

-- One second, doubled for each attempt, up to the cap.
unfoldable pub backoff_seconds : ℕ → ℕ
backoff_seconds attempts =
    let v = 2 ^ min attempts max_shift in if ltb backoff_cap_sec v then backoff_cap_sec else v

abbrev pub or_zero : Option ℕ → ℕ
or_zero none = 0
or_zero (some n) = n

-- What is reported of a camera, by its code.
pub data Fault : Type 0 where
  open_conflict : Fault
  not_found : Fault
  open_failed : Fault
  configure_failed : Fault
  reconnected : Fault

-- What an attempt at a device meets: the exceptions and refusals in their order, or a camera that
-- opens and is configured, with the snapshot of its nodes when one could be taken.
pub data Attempt : Type 0 where
  create_throws : Attempt
  no_device : Attempt
  does_not_open : Attempt
  configure_throws : Option Text → Attempt
  configured : Option Text → Attempt

abbrev pub is_some {ℓ} : {A : Type ℓ} → Option A → Bool
is_some none = false
is_some (some a) = true

-- A connection of so many seconds, when there was one, was stable.
abbrev pub was_stable : ℕ → Option ℕ → Bool
was_stable now none = false
was_stable now (some t) = leb stable_reset_sec (now - t)

abbrev pub is_pinned : Option ℕ → Bool
is_pinned none = false
is_pinned (some n) = ltb 0 n && leb n 1500

abbrev pub escalated : ℕ → ℕ
escalated n = min (n + 1) max_shift

abbrev pub is_running : Option Worker → Bool
is_running none = false
is_running (some w) = w.running

abbrev pub is_stopped : Option Worker → Bool
is_stopped none = true
is_stopped (some w) = w.stop

abbrev pub not_running : Text → Option Worker → Dict Worker → Dict Worker
not_running serial none ws = ws
not_running serial (some w) ws = insert serial (record w { running = false }) ws

module _ (F : Float) where
  open F use {Num}

  abbrev pub set_exposure_of : Num → Option (Num × ExposureUnit) → Option (Setting F)
  set_exposure_of cap none = none
  set_exposure_of cap (some (v, u)) = some (exposure_setting F cap v u)

  abbrev pub set_gain_of : Option (Num × ExposureUnit) → Option (Setting F)
  set_gain_of none = none
  set_gain_of (some (v, u)) = some (gain_setting F v u)

  abbrev pub is_held : Override F → Bool
  is_held m = is_some m.exposure || is_some m.gain

  -- The device of a new connection, with the override applied that is in force.
  abbrev pub overridden : Profile F → Override F → Device F
  overridden p m = record {
    exposure = set_exposure_of (ceiling F p.max_exposure_us) m.exposure;
    gain = set_gain_of m.gain;
  }

  abbrev pub with_snapshot : Text → Option Text → Supervisor F → Supervisor F
  with_snapshot serial none s = s
  with_snapshot serial (some b) s = record s { baseline = insert serial b s.baseline }

  -- A camera that is open and configured goes into the maps of the context.
  unfoldable pub publish : Text → ℕ → Option Text → Profile F → Supervisor F → Supervisor F
  unfolding make_exposure_strategy
  publish serial now snapshot p s0 =
      let s = with_snapshot serial snapshot s0 in
      let m = override_or_none F (lookup serial s.manual) in
      record s {
        devices = insert serial (overridden p m) s.devices;
        exposure =
            insert serial (if is_held m then manual_hold else make_exposure_strategy F p)
              s.exposure;
        sync_role = insert serial (role_of F p) s.sync_role;
        connected_at = insert serial now s.connected_at;
      }

  unfoldable pub attempted :
      Text → ℕ → Profile F → Attempt → Supervisor F → Supervisor F × Bool × List Fault
  unfolding publish
  attempted serial now p create_throws s = (s, false, open_conflict ∷ [])
  attempted serial now p no_device s = (s, false, not_found ∷ [])
  attempted serial now p does_not_open s = (s, false, open_failed ∷ [])
  attempted serial now p (configure_throws snapshot) s =
      (with_snapshot serial snapshot s, false, configure_failed ∷ [])
  attempted serial now p (configured snapshot) s =
      (publish serial now snapshot p s, true, reconnected ∷ [])

  unfoldable pub with_profile :
      Text → ℕ → Option (Profile F) → Attempt → Supervisor F → Supervisor F × Bool × List Fault
  unfolding attempted
  with_profile serial now none a s = (s, false, [])
  with_profile serial now (some p) a s = attempted serial now p a s

  -- `openConfigureStore`: the state, whether the camera is connected, and what is reported.
  unfoldable pub open_configure_store :
      Text → ℕ → Attempt → Supervisor F → Supervisor F × Bool × List Fault
  unfolding with_profile
  open_configure_store serial now a s =
      let r = with_profile serial now (lookup serial s.profiles) a s in
      if is_empty serial || text_eq serial (codes "-1") then (s, false, []) else r

  -- The capture thread takes a faulty camera out of the context.
  unfoldable pub remove_device : Text → Supervisor F → Supervisor F
  remove_device serial s = record s {
    devices = erase serial s.devices;
    exposure = erase serial s.exposure;
    sync_role = erase serial s.sync_role;
  }

  -- What is remembered of a drop: a stable camera starts again from no attempts; another one backs
  -- off further, and falls back to small packets when it keeps dropping.
  unfoldable pub note_drop : Text → ℕ → ℕ → Supervisor F → Supervisor F
  note_drop serial now packet_size s =
      let a = escalated (or_zero (lookup serial s.attempts)) in
      let falls_back =
        leb jumbo_fallback_shift a
        && (ltb 1500 packet_size && not (is_pinned (lookup serial s.packet_override))) in
      let stable = was_stable now (lookup serial s.connected_at) in
      record s {
        connected_at = erase serial s.connected_at;
        attempts = insert serial (if stable then 0 else a) s.attempts;
        packet_override =
            if stable
            then s.packet_override
            else if falls_back
            then insert serial 1500 s.packet_override
            else s.packet_override;
      }

  -- `startReconnect`, where a thread can be made or not.
  unfoldable pub start_reconnect : Bool → Text → Supervisor F → Supervisor F
  start_reconnect spawns serial s = if is_running (lookup serial s.workers) then s else record s {
    workers = insert serial (record { stop = false; running = spawns }) s.workers;
  }

  unfoldable pub handle_fault : Bool → Text → ℕ → ℕ → Supervisor F → Supervisor F
  unfolding start_reconnect note_drop remove_device
  handle_fault spawns serial now packet_size s =
      start_reconnect spawns serial (note_drop serial now packet_size (remove_device serial s))

  -- The steps of `reconnectLoop`.
  unfoldable pub should_stop : Text → Supervisor F → Bool
  should_stop serial s = is_stopped (lookup serial s.workers)

  unfoldable pub is_back : Text → Supervisor F → Bool
  is_back serial s = is_some (lookup serial s.devices)

  unfoldable pub note_failure : Text → Supervisor F → Supervisor F
  note_failure serial s = record s {
    attempts = insert serial (escalated (or_zero (lookup serial s.attempts))) s.attempts;
  }

  -- The end of a worker's thread.
  unfoldable pub end_worker : Text → Supervisor F → Supervisor F
  end_worker serial s = record s {
    workers = not_running serial (lookup serial s.workers) s.workers;
  }

  unfoldable pub clear_packet_overrides : Supervisor F → Supervisor F
  clear_packet_overrides s = record s { packet_override = [] }

  -- `stopAll`, without the joins.
  unfoldable pub stop_all : Supervisor F → Supervisor F
  stop_all s = record s { workers = [] }
