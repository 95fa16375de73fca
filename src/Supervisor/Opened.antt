-- ===== src/Supervisor/Opened.antt =====
-- What an attempt at a device leaves of the supervisor's maps.
use lpr_refactored.Prelude.{
  ℕ, ◌≡◌, ap, true, Option, none, some, arith, Text, lookup, lookup-insert_self,
}
use lpr_refactored.Floats.{Float}
use lpr_refactored.Supervisor.Maps.{Supervisor, Profile}
use lpr_refactored.Supervisor.Lifecycle.{
  Attempt, create_throws, no_device, does_not_open, configure_throws, configured,
  open_configure_store, publish, is_back, is_some, with_profile, attempted,
}

module _ (F : Float) (serial : Text) where
  pub opened_workers :
      (now : ℕ) (a : Attempt) (s : Supervisor F)
      → (open_configure_store F serial now a s).0.workers ≡ s.workers
  unfolding open_configure_store with_profile attempted publish
  opened_workers now a s = ground arith

  publish_back :
      (now : ℕ) (b : Option Text) (p : Profile F) (s : Supervisor F)
      → is_back F serial (publish F serial now b p s) ≡ true
  unfolding publish is_back
  publish_back now b p s = ap is_some (lookup-insert_self serial _ _)

  attempted_back :
      (now : ℕ) (p : Profile F) (a : Attempt) (s : Supervisor F)
      → (attempted F serial now p a s).1 ≡ true
      → is_back F serial (attempted F serial now p a s).0 ≡ true
  unfolding attempted
  attempted_back now p create_throws s h = absurd (cc)
  attempted_back now p no_device s h = absurd (cc)
  attempted_back now p does_not_open s h = absurd (cc)
  attempted_back now p (configure_throws b) s h = absurd (cc)
  attempted_back now p (configured b) s h = publish_back now b p s

  profiled_back :
      (now : ℕ) (o : Option (Profile F)) (a : Attempt) (s : Supervisor F)
      → (with_profile F serial now o a s).1 ≡ true
      → is_back F serial (with_profile F serial now o a s).0 ≡ true
  unfolding with_profile
  profiled_back now none a s h = absurd (cc)
  profiled_back now (some p) a s h = attempted_back now p a s h

  pub opened_back :
      (now : ℕ) (a : Attempt) (s : Supervisor F)
      → (open_configure_store F serial now a s).1 ≡ true
      → is_back F serial (open_configure_store F serial now a s).0 ≡ true
  unfolding open_configure_store
  opened_back now a s h = ground (arith, profiled_back now (lookup serial s.profiles) a s)
