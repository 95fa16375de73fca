-- ===== src/DualCapture.antt =====
-- src/capture/DualCaptureSource.cpp: the main and the mono stream of one gate, paired. Frames come
-- with the steady-clock time in milliseconds, where 0 stands for a stream that never gave one; an
-- empty image is `none`. The streams themselves, their errors and the threads are parameters: a
-- call here is what one of their callbacks does.
pub mod Failover
mod Tests
use lpr_refactored.Prelude.{
  ℕ, zero, suc, ◌+◌, ◌*◌, min, Bool, true, false, not, ◌&&◌, ◌||◌, Option, none, some, ltb, ◌==◌,
  if◌then◌else◌,
}

module _ {ℓ} (A : Type ℓ) where
  pub record DualCaptureSource : Type ℓ where
    pub latest_main : Option A
    pub latest_mono : Option A
    pub last_main : ℕ
    pub last_mono : ℕ
    pub have_main : Bool
    pub have_mono : Bool

  pub init : DualCaptureSource
  init = record {
    latest_main = none;
    latest_mono = none;
    last_main = 0;
    last_mono = 0;
    have_main = false;
    have_mono = false;
  }

abbrev pub stale_ms : ℕ
stale_ms = 3000

pub fresh : ℕ → ℕ → Bool
fresh now t = if t == 0 then false else ltb now (t + stale_ms)

abbrev is_none {ℓ} : {A : Type ℓ} → Option A → Bool
is_none none = true
is_none (some a) = false

module _ {ℓ} {A : Type ℓ} where
  pub is_live : ℕ → DualCaptureSource A → Bool
  unfolding fresh
  is_live now s = (s.have_main && fresh now s.last_main) || (s.have_mono && fresh now s.last_mono)

  -- The pair of images that is emitted, if any.
  pub emit_pair : Bool → ℕ → DualCaptureSource A → Option (Option A × Option A)
  unfolding fresh
  emit_pair trigger_is_main now s =
      let main_fresh = s.have_main && fresh now s.last_main in
      let mono_fresh = s.have_mono && fresh now s.last_mono in
      let main_img = if main_fresh then s.latest_main else none in
      let mono_img = if mono_fresh then s.latest_mono else none in
      if not trigger_is_main && main_fresh
      then none
      else if is_none main_img && is_none mono_img
      then none
      else some (main_img, mono_img)

  pub on_main_frame :
      Option A → ℕ → DualCaptureSource A → DualCaptureSource A × Option (Option A × Option A)
  unfolding emit_pair
  on_main_frame none now s = (s, none)
  on_main_frame (some f) now s =
      let s' = record s { latest_main = some f; last_main = now; have_main = true } in
      (s', emit_pair true now s')

  pub on_mono_frame :
      Option A → ℕ → DualCaptureSource A → DualCaptureSource A × Option (Option A × Option A)
  unfolding emit_pair
  on_mono_frame none now s = (s, none)
  on_mono_frame (some f) now s =
      let s' = record s { latest_mono = some f; last_mono = now; have_mono = true } in
      (s', emit_pair false now s')

  -- The mono stream's `run` has returned.
  pub mono_down : DualCaptureSource A → DualCaptureSource A
  mono_down s = record s { have_mono = false }

  -- The main stream's `run` has returned; the flag says whether the mono stream carries on, and
  -- otherwise the error goes up.
  pub main_down : ℕ → DualCaptureSource A → DualCaptureSource A × Bool
  unfolding fresh
  main_down now s = (record s { have_main = false }, s.have_mono && fresh now s.last_mono)

-- The wait before the next attempt, after so many.
pub backoff : ℕ → ℕ
backoff zero = 500
backoff (suc n) = min (backoff n * 2) 8000
