-- ===== src/Supervisor/Frame.antt =====
-- What happens to one camera leaves the others as they are.
use lpr_refactored.Prelude.{
  ℕ, ◌≡◌, refl, ◌∙◌, Bool, false, ◌||◌, Option, none, some, is_empty, Text, codes, text_eq, lookup,
  insert, erase, lookup-insert_other, lookup-erase_other, inl, inr, Bool-cases,
}
use lpr_refactored.Floats.{Float}
use lpr_refactored.Supervisor.Maps.{
  Supervisor, Device, Override, Profile, Setting, Strategy, manual_hold, set_manual_exposure,
  set_manual_gain, revert_to_settings, with_exposure, with_gain, reverted, restored,
  make_exposure_strategy, add_profile,
}
use lpr_refactored.Supervisor.Lifecycle.{
  Attempt, create_throws, no_device, does_not_open, configure_throws, configured, handle_fault,
  open_configure_store, with_profile, attempted, publish, with_snapshot, start_reconnect,
  remove_device, note_drop, is_running, note_failure, end_worker, clear_packet_overrides, stop_all,
}
use lpr_refactored.Supervisor.Manual.{
  Event, profile_added, exposure_set, gain_set, settings_reverted, fault_handled, attempt_made,
  attempt_failed, worker_ended, overrides_cleared, all_stopped, apply,
}

module _ (F : Float) (serial : Text) where
  open F use {Num}

  -- What the supervisor has of a camera.
  pub record IsSame (s t : Supervisor F) : Type 0 where
    pub manual : lookup serial t.manual ≡ lookup serial s.manual
    pub device : lookup serial t.devices ≡ lookup serial s.devices
    pub exposure : lookup serial t.exposure ≡ lookup serial s.exposure

  IsSame-refl : {s : Supervisor F} → IsSame s s
  IsSame-refl = record { manual = refl; device = refl; exposure = refl }

  module _ (k : Text) (other : text_eq k serial ≡ false) where
    -- Entries of another camera.
    stored-IsSame :
        (d : Device F) (e : Strategy) (s : Supervisor F)
        → IsSame s (record s { devices = insert k d s.devices; exposure = insert k e s.exposure })
    stored-IsSame d e s = record {
      manual = refl;
      device = lookup-insert_other k serial d s.devices other;
      exposure = lookup-insert_other k serial e s.exposure other;
    }

    with_exposure-IsSame :
        (x : Setting F) (m : Override F) (o : Option (Device F)) (s : Supervisor F)
        → IsSame s (with_exposure F k x o (record s { manual = insert k m s.manual }))
    with_exposure-IsSame x m none s = record {
      manual = lookup-insert_other k serial m s.manual other;
      device = refl;
      exposure = refl;
    }
    with_exposure-IsSame x m (some d) s =
        let i = stored-IsSame (record d { exposure = some x }) manual_hold s in
        record {
          manual = lookup-insert_other k serial m s.manual other;
          device = i.device;
          exposure = i.exposure;
        }

    with_gain-IsSame :
        (x : Setting F) (m : Override F) (o : Option (Device F)) (s : Supervisor F)
        → IsSame s (with_gain F k x o (record s { manual = insert k m s.manual }))
    with_gain-IsSame x m none s = record {
      manual = lookup-insert_other k serial m s.manual other;
      device = refl;
      exposure = refl;
    }
    with_gain-IsSame x m (some d) s =
        let i = stored-IsSame (record d { gain = some x }) manual_hold s in
        record {
          manual = lookup-insert_other k serial m s.manual other;
          device = i.device;
          exposure = i.exposure;
        }

    reverted-IsSame :
        (p : Option (Profile F)) (o : Option (Device F)) (s : Supervisor F)
        → IsSame s (reverted F k p o (record s { manual = erase k s.manual }))
    unfolding reverted
    reverted-IsSame (some p) (some d) s =
        let i = stored-IsSame (restored F (lookup k s.baseline) d) (make_exposure_strategy F p) s in
        record {
          manual = lookup-erase_other k serial s.manual other;
          device = i.device;
          exposure = i.exposure;
        }
    reverted-IsSame (some p) none s = record {
      manual = lookup-erase_other k serial s.manual other;
      device = refl;
      exposure = refl;
    }
    reverted-IsSame none o s = record {
      manual = lookup-erase_other k serial s.manual other;
      device = refl;
      exposure = refl;
    }

    start_reconnect-IsSame :
        (spawns : Bool) (s t : Supervisor F) → IsSame s t → IsSame s (start_reconnect F spawns k t)
    unfolding start_reconnect
    start_reconnect-IsSame spawns s t i = elim (Bool-cases (is_running (lookup k t.workers))) [
      | inl e ↦ rw e i
      | inr e ↦ rw e (record { manual = i.manual; device = i.device; exposure = i.exposure })
    ]

    fault_handled-IsSame :
        (spawns : Bool) (now n : ℕ) (s : Supervisor F) → IsSame s (handle_fault F spawns k now n s)
    unfolding handle_fault remove_device note_drop
    fault_handled-IsSame spawns now n s = start_reconnect-IsSame spawns s _ (record {
      manual = refl;
      device = lookup-erase_other k serial s.devices other;
      exposure = lookup-erase_other k serial s.exposure other;
    })

    with_snapshot-IsSame : (b : Option Text) (s : Supervisor F) → IsSame s (with_snapshot F k b s)
    with_snapshot-IsSame none s = IsSame-refl
    with_snapshot-IsSame (some b) s = record { manual = refl; device = refl; exposure = refl }

    publish-IsSame :
        (now : ℕ) (b : Option Text) (p : Profile F) (s : Supervisor F)
        → IsSame s (publish F k now b p s)
    unfolding publish
    publish-IsSame now b p s =
        let i = with_snapshot-IsSame b s in
        record {
          manual = i.manual;
          device = lookup-insert_other k serial _ _ other ∙ i.device;
          exposure = lookup-insert_other k serial _ _ other ∙ i.exposure;
        }

    attempted-IsSame :
        (now : ℕ) (p : Option (Profile F)) (a : Attempt) (s : Supervisor F)
        → IsSame s (with_profile F k now p a s).0
    unfolding attempted with_profile
    attempted-IsSame now none a s = IsSame-refl
    attempted-IsSame now (some p) create_throws s = IsSame-refl
    attempted-IsSame now (some p) no_device s = IsSame-refl
    attempted-IsSame now (some p) does_not_open s = IsSame-refl
    attempted-IsSame now (some p) (configure_throws b) s = with_snapshot-IsSame b s
    attempted-IsSame now (some p) (configured b) s = publish-IsSame now b p s

    attempt_made-IsSame :
        (now : ℕ) (a : Attempt) (s : Supervisor F) → IsSame s (open_configure_store F k now a s).0
    unfolding open_configure_store
    attempt_made-IsSame now a s = elim (Bool-cases (is_empty k || text_eq k (codes "-1"))) [
      | inl e ↦ rw e IsSame-refl
      | inr e ↦ rw e (attempted-IsSame now (lookup k s.profiles) a s)
    ]

  -- The camera that an event is about, where it writes to its device or its override.
  abbrev pub is_about : Event F → Bool
  is_about (exposure_set k v u) = text_eq k serial
  is_about (gain_set k v u) = text_eq k serial
  is_about (settings_reverted k) = text_eq k serial
  is_about (fault_handled k spawns now n) = text_eq k serial
  is_about (attempt_made k now a) = text_eq k serial
  is_about e = false

  pub apply-IsSame : (e : Event F) (s : Supervisor F) → is_about e ≡ false → IsSame s (apply F e s)
  unfolding apply set_manual_exposure set_manual_gain revert_to_settings add_profile note_failure
      end_worker clear_packet_overrides stop_all
  apply-IsSame (profile_added k p) s h = record { manual = refl; device = refl; exposure = refl }
  apply-IsSame (exposure_set k v u) s h = with_exposure-IsSame k h _ _ (lookup k s.devices) s
  apply-IsSame (gain_set k v u) s h = with_gain-IsSame k h _ _ (lookup k s.devices) s
  apply-IsSame (settings_reverted k) s h =
      reverted-IsSame k h (lookup k s.profiles) (lookup k s.devices) s
  apply-IsSame (fault_handled k spawns now n) s h = fault_handled-IsSame k h spawns now n s
  apply-IsSame (attempt_made k now a) s h = attempt_made-IsSame k h now a s
  apply-IsSame (attempt_failed k) s h = record { manual = refl; device = refl; exposure = refl }
  apply-IsSame (worker_ended k) s h = record { manual = refl; device = refl; exposure = refl }
  apply-IsSame overrides_cleared s h = record { manual = refl; device = refl; exposure = refl }
  apply-IsSame all_stopped s h = record { manual = refl; device = refl; exposure = refl }
