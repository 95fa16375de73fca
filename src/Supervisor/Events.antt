-- ===== src/Supervisor/Events.antt =====
-- How each operation of the supervisor keeps what an operator has set of its camera.
use lpr_refactored.Prelude.{
  ℕ, ◌≡◌, refl, sym, ap, subst, ◌∙◌, Bool, ◌||◌, Option, none, some, if◌then◌else◌, is_empty, Text,
  codes, text_eq, lookup, insert, erase, lookup-erase_self, lookup-insert_self, inl, inr,
  Bool-cases,
}
use lpr_refactored.Floats.{Float}
use lpr_refactored.Commands.{ExposureUnit}
use lpr_refactored.Supervisor.Maps.{
  Supervisor, Device, Override, Profile, Setting, Strategy, manual_hold, set_manual_exposure,
  set_manual_gain, revert_to_settings, exposure_setting, override_or_none, with_exposure, with_gain,
  reverted, gain_setting, make_exposure_strategy, ceiling, cap_of,
}
use lpr_refactored.Supervisor.Lifecycle.{
  Attempt, create_throws, no_device, does_not_open, configure_throws, configured, handle_fault,
  open_configure_store, with_profile, attempted, publish, with_snapshot, is_running,
  start_reconnect, remove_device, note_drop, overridden, is_held, set_exposure_of,
}
use lpr_refactored.Supervisor.Manual.{IsHeld}

module _ (F : Float) (serial : Text) where
  open F use {Num}

  -- What the supervisor has of a camera.
  pub record Inv (w : Option (Num × ExposureUnit)) (s : Supervisor F) : Type 0 where
    pub kept : (override_or_none F (lookup serial s.manual)).exposure ≡ w
    pub held : IsHeld F w (lookup serial s.devices) (lookup serial s.exposure)

  IsHeld-none : (w : Option (Num × ExposureUnit)) (e : Option Strategy) → IsHeld F w none e
  unfolding IsHeld
  IsHeld-none none e = tt
  IsHeld-none (some (v, u)) e = tt

  -- The gain of the device is another value, and the device is held.
  IsHeld-gain :
      (x : Setting F) (w : Option (Num × ExposureUnit)) (d : Device F) (e : Option Strategy)
      → IsHeld F w (some d) e
      → IsHeld F w (some (record d { gain = some x })) (some manual_hold)
  unfolding IsHeld
  IsHeld-gain x none d e h = tt
  IsHeld-gain x (some (v, u)) d e h = (h.0, refl)

  overridden-IsHeld :
      (p : Profile F) (m : Override F) (w : Option (Num × ExposureUnit))
      → m.exposure ≡ w
      → IsHeld F w
          (some (overridden F p m))
          (some (if is_held F m then manual_hold else make_exposure_strategy F p))
  unfolding IsHeld
  overridden-IsHeld p m none e = tt
  overridden-IsHeld p m (some (v, u)) e = (
    record {
      cap = ceiling F p.max_exposure_us;
      written = ap (set_exposure_of F (ceiling F p.max_exposure_us)) e;
    },
    rw e refl,
  )

  stored-Inv :
      (m : Override F) (w : Option (Num × ExposureUnit)) (s : Supervisor F)
      → m.exposure ≡ w
      → IsHeld F w (lookup serial s.devices) (lookup serial s.exposure)
      → Inv w (record s { manual = insert serial m s.manual })
  stored-Inv m w s e h = record {
    kept = ap (λ o. (override_or_none F o).exposure) (lookup-insert_self serial m s.manual) ∙ e;
    held = h;
  }

  -- A device and its strategy go into the maps.
  device-Inv :
      (d : Device F) (e : Strategy) (w : Option (Num × ExposureUnit)) (s : Supervisor F)
      → (override_or_none F (lookup serial s.manual)).exposure ≡ w
      → IsHeld F w (some d) (some e)
      → Inv w
          (record s { devices = insert serial d s.devices; exposure = insert serial e s.exposure })
  device-Inv d e w s k h = record {
    kept = k;
    held = rw (lookup-insert_self serial d s.devices, lookup-insert_self serial e s.exposure) h;
  }

  with_gain-Inv :
      (x : Setting F) (w : Option (Num × ExposureUnit)) (o : Option (Device F)) (s : Supervisor F)
      → lookup serial s.devices ≡ o
      → Inv w s
      → Inv w (with_gain F serial x o s)
  with_gain-Inv x w none s e i = i
  with_gain-Inv x w (some d) s e i =
      device-Inv (record d { gain = some x }) manual_hold w s i.kept
        (IsHeld-gain x w d (lookup serial s.exposure) (rw e at i.held))

  pub gain_set-Inv :
      (v : Num) (u : ExposureUnit) (w : Option (Num × ExposureUnit)) (s : Supervisor F)
      → Inv w s
      → Inv w (set_manual_gain F serial v u s)
  unfolding set_manual_gain
  gain_set-Inv v u w s i =
      let m = override_or_none F (lookup serial s.manual) in
      with_gain-Inv (gain_setting F v u) w (lookup serial s.devices) _ refl
        (stored-Inv (record m { gain = some (v, u) }) w s i.kept i.held)

  with_exposure-Inv :
      (v cap : Num) (u : ExposureUnit) (m : Override F) (o : Option (Device F)) (s : Supervisor F)
      → lookup serial s.devices ≡ o
      → m.exposure ≡ some (v, u)
      → Inv (some (v, u)) (
          with_exposure F serial
            (exposure_setting F cap v u)
            o
            (record s { manual = insert serial m s.manual }))
  unfolding IsHeld
  with_exposure-Inv v cap u m none s e h =
      stored-Inv m (some (v, u)) s h
        (subst (λ d. IsHeld F (some (v, u)) d (lookup serial s.exposure)) (sym e) tt)
  with_exposure-Inv v cap u m (some d) s e h =
      device-Inv (record d { exposure = some (exposure_setting F cap v u) }) manual_hold
        (some (v, u)) _
        (ap (λ o. (override_or_none F o).exposure) (lookup-insert_self serial m s.manual) ∙ h)
        (record { cap = cap; written = refl }, refl)

  pub exposure_set-Inv :
      (v : Num) (u : ExposureUnit) (s : Supervisor F)
      → Inv (some (v, u)) (set_manual_exposure F serial v u s)
  unfolding set_manual_exposure
  exposure_set-Inv v u s =
      let m = override_or_none F (lookup serial s.manual) in
      with_exposure-Inv v (cap_of F (lookup serial s.profiles)) u
        (record m { exposure = some (v, u) }) (lookup serial s.devices) s refl refl

  reverted_manual :
      (p : Option (Profile F)) (d : Option (Device F)) (s : Supervisor F)
      → (reverted F serial p d s).manual ≡ s.manual
  unfolding reverted
  reverted_manual (some p) (some d) s = refl
  reverted_manual (some p) none s = refl
  reverted_manual none d s = refl

  pub reverted-Inv : (s : Supervisor F) → Inv none (revert_to_settings F serial s)
  unfolding revert_to_settings IsHeld
  reverted-Inv s = record {
    kept =
        ap (λ m. (override_or_none F (lookup serial m)).exposure)
          (reverted_manual (lookup serial s.profiles) (lookup serial s.devices) _)
        ∙ ap (λ o. (override_or_none F o).exposure) (lookup-erase_self serial s.manual);
    held = tt;
  }

  start_reconnect-Inv :
      (spawns : Bool) (w : Option (Num × ExposureUnit)) (s : Supervisor F)
      → Inv w s
      → Inv w (start_reconnect F spawns serial s)
  unfolding start_reconnect
  start_reconnect-Inv spawns w s i = elim (Bool-cases (is_running (lookup serial s.workers))) [
    | inl e ↦ rw e i
    | inr e ↦ rw e (record { kept = i.kept; held = i.held })
  ]

  pub fault_handled-Inv :
      (spawns : Bool) (now n : ℕ) (w : Option (Num × ExposureUnit)) (s : Supervisor F)
      → Inv w s
      → Inv w (handle_fault F spawns serial now n s)
  unfolding handle_fault remove_device note_drop
  fault_handled-Inv spawns now n w s i = start_reconnect-Inv spawns w _ (record {
    kept = i.kept;
    held =
        subst (λ d. IsHeld F w d (lookup serial (erase serial s.exposure)))
          (sym (lookup-erase_self serial s.devices))
          (IsHeld-none w (lookup serial (erase serial s.exposure)));
  })

  with_snapshot-Inv :
      (b : Option Text) (w : Option (Num × ExposureUnit)) (s : Supervisor F)
      → Inv w s
      → Inv w (with_snapshot F serial b s)
  with_snapshot-Inv none w s i = i
  with_snapshot-Inv (some b) w s i = record { kept = i.kept; held = i.held }

  publish-Inv :
      (now : ℕ) (b : Option Text) (p : Profile F) (w : Option (Num × ExposureUnit))
      (s : Supervisor F)
      → Inv w s
      → Inv w (publish F serial now b p s)
  unfolding publish
  publish-Inv now b p w s i =
      let t = with_snapshot F serial b s in
      let j = with_snapshot-Inv b w s i in
      let m = override_or_none F (lookup serial t.manual) in
      let k =
        device-Inv (overridden F p m)
          (if is_held F m then manual_hold else make_exposure_strategy F p) w t j.kept
          (overridden-IsHeld p m w j.kept) in
      record { kept = k.kept; held = k.held }

  attempted-Inv :
      (now : ℕ) (p : Profile F) (a : Attempt) (w : Option (Num × ExposureUnit)) (s : Supervisor F)
      → Inv w s
      → Inv w (attempted F serial now p a s).0
  unfolding attempted
  attempted-Inv now p create_throws w s i = i
  attempted-Inv now p no_device w s i = i
  attempted-Inv now p does_not_open w s i = i
  attempted-Inv now p (configure_throws b) w s i = with_snapshot-Inv b w s i
  attempted-Inv now p (configured b) w s i = publish-Inv now b p w s i

  with_profile-Inv :
      (now : ℕ) (o : Option (Profile F)) (a : Attempt) (w : Option (Num × ExposureUnit))
      (s : Supervisor F)
      → Inv w s
      → Inv w (with_profile F serial now o a s).0
  unfolding with_profile
  with_profile-Inv now none a w s i = i
  with_profile-Inv now (some p) a w s i = attempted-Inv now p a w s i

  pub attempt_made-Inv :
      (now : ℕ) (a : Attempt) (w : Option (Num × ExposureUnit)) (s : Supervisor F)
      → Inv w s
      → Inv w (open_configure_store F serial now a s).0
  unfolding open_configure_store
  attempt_made-Inv now a w s i =
      elim (Bool-cases (is_empty serial || text_eq serial (codes "-1"))) [
        | inl e ↦ rw e i
        | inr e ↦ rw e (with_profile-Inv now (lookup serial s.profiles) a w s i)
      ]
