-- ===== src/DualCapture/Tests.antt =====
-- A gate whose main stream gave a frame a while ago.
use lpr_refactored.Prelude.{ℕ, ◌≡◌, true, false, none, some, arith}
use lpr_refactored.DualCapture.{DualCaptureSource, on_mono_frame}
use lpr_refactored.DualCapture.Failover.{frame_emits}

abbrev gate : DualCaptureSource ℕ
gate = record {
  latest_main = some 7;
  latest_mono = none;
  last_main = 1000;
  last_mono = 0;
  have_main = true;
  have_mono = false;
}

frame_emits_example : (on_mono_frame (some 8) 4500 gate).1 ≡ some (none, some 8)
frame_emits_example = (frame_emits 8 4500 gate (omega arith)).3 (omega arith)
