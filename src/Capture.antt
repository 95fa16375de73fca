-- ===== src/Capture.antt =====
-- src/basler/CapturePipeline.cpp: which grabs of the Basler loop count as a fault of their camera,
-- and how the frames of a round are paired. The rate adaptation of the same loop is in GigE.Rate; the
-- exposure, the commands and the pace of the loop are left out.
pub mod Faults
mod Tests
use lpr_refactored.Prelude.{
  ℕ, suc, Bool, true, false, not, ◌&&◌, ◌||◌, Option, none, some, List, [], ◌∷◌, leb, if◌then◌else◌,
  Text, Dict, lookup, insert, erase,
}

-- CameraDevice::GrabStatus.
pub data GrabStatus : Type 0 where
  ok : GrabStatus
  timeout : GrabStatus
  bad_frame : GrabStatus
  device_error : GrabStatus

abbrev pub fail_threshold : ℕ
fail_threshold = 3

abbrev pub is_ok : GrabStatus → Bool
is_ok ok = true
is_ok s = false

abbrev pub is_device_error : GrabStatus → Bool
is_device_error device_error = true
is_device_error s = false

abbrev pub count_of : Option ℕ → ℕ
count_of none = 0
count_of (some n) = n

-- A grab of a camera: the consecutive failures, and whether it is a fault.
pub grab : Text → GrabStatus → Dict ℕ → Dict ℕ × Bool
grab serial status consecutive_fails =
    let fails = suc (count_of (lookup serial consecutive_fails)) in
    if is_ok status
    then (erase serial consecutive_fails, false)
    else if is_device_error status || leb fail_threshold fails
    then (erase serial consecutive_fails, true)
    else (insert serial fails consecutive_fails, false)

-- What is delivered of the frames of a round, each with whether it is in colour.
pub data Delivery {ℓ} (Image : Type ℓ) : Type ℓ where
  frame_pair : Image → Image → Delivery Image
  incomplete_pair : Image → Delivery Image
  no_frames : Delivery Image

-- `deliver`, to a sink that is there: mono first when exactly one of two is mono.
pub deliver {ℓ} : {Image : Type ℓ} → ℕ → List (Image × Bool) → Delivery Image
deliver expected_count [] = no_frames
deliver expected_count ((a, color) ∷ []) =
    if leb expected_count 1 then frame_pair a a else incomplete_pair a
deliver expected_count ((a, color_a) ∷ (b, color_b) ∷ []) =
    if color_a && not color_b then frame_pair b a else frame_pair a b
deliver expected_count (a ∷ b ∷ c ∷ frames) = no_frames
