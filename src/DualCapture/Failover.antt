-- ===== src/DualCapture/Failover.antt =====
-- Which stream drives, and how soon a dead one is tried again.
use lpr_refactored.Prelude.{
  ℕ, zero, suc, ◌+◌, ◌*◌, ◌^◌, ◌≡◌, ◌<◌, ◌≤◌, min, true, ◌&&◌, none, some, arith, if◌then◌else◌,
}
use lpr_refactored.DualCapture.{
  DualCaptureSource, fresh, emit_pair, on_main_frame, on_mono_frame, main_down, is_live, backoff,
}

module _ {ℓ} {A : Type ℓ} where
  -- At a time above 0, a frame of the main stream is always emitted, with the mono image where that stream is fresh. A
  -- frame of the mono stream is emitted, alone, exactly when the main stream is not fresh; it is never held back once the main stream is down or has given no
  -- frame for three seconds. After either frame the source is live.
  pub frame_emits :
      (f : A) (now : ℕ) (s : DualCaptureSource A)
      → 0 < now
      → ((on_main_frame (some f) now s).1
          ≡ some (some f, if s.have_mono && fresh now s.last_mono then s.latest_mono else none))
        × ((on_mono_frame (some f) now s).1
            ≡ (if s.have_main && fresh now s.last_main then none else some (none, some f)))
        × ((on_mono_frame (some f) now (main_down now s).0).1 ≡ some (none, some f))
        × (s.last_main + 3000 ≤ now → (on_mono_frame (some f) now s).1 ≡ some (none, some f))
        × (is_live now (on_main_frame (some f) now s).0 ≡ true)
        × (is_live now (on_mono_frame (some f) now s).0 ≡ true)
  unfolding on_main_frame on_mono_frame emit_pair fresh main_down is_live
  frame_emits f now s h =
      (ground arith, ground arith, ground arith, λ k. ground arith, ground arith, ground arith)

pow_suc : (n : ℕ) → 2 ^ suc n ≡ 2 ^ n * 2
pow_suc n = grind arith

-- The waits double from half a second on, up to eight seconds.
pub backoff_lem : (n : ℕ) → backoff n ≡ min (500 * 2 ^ n) 8000
unfolding backoff
backoff_lem zero = ground arith
backoff_lem (suc n) = ground (arith, backoff_lem n, pow_suc n)
