-- ===== src/Supervisor/Tests.antt =====
-- One camera, with natural numbers for the doubles.
use lpr_refactored.Prelude.{
  ℕ, ◌-◌, ◌/◌, ◌≡◌, refl, true, false, none, List, [], ◌∷◌, Text, text_eq, codes, lookup, insert,
  erase, arith, if◌then◌else◌, ◌+◌, ◌==◌,
}
use lpr_refactored.Floats.{naturals}
use lpr_refactored.Commands.{absolute}
use lpr_refactored.Supervisor.Maps.{Supervisor, Profile, host_auto, free_run_role}
use lpr_refactored.Supervisor.Lifecycle.{
  Attempt, no_device, configured, open_configure_store, is_back, should_stop, end_worker, note_drop,
  remove_device, start_reconnect,
}
use lpr_refactored.Supervisor.Manual.{Event, exposure_set, fault_handled, attempt_made}
use lpr_refactored.Supervisor.Reconnect.{
  Threads, absent, drop, start, check, look, wake, connect, finish, Reach, here, next, IsConnected,
  IsLost, is_sought,
}
use lpr_refactored.Supervisor.Sought.{Reach-sought}
use lpr_refactored.Commands.Aoi.{Axis, Fits}
use lpr_refactored.Supervisor.Roi.{Crop, apply_roi, IsReady, apply_roi-Fits}
use lpr_refactored.Supervisor.Backoff.{reconnect_loop, Ends, IsOpenable, reconnect_loop-Ends}

abbrev serial : Text
serial = codes "42"

abbrev camera_profile : Profile naturals
camera_profile = record {
  trigger_on = false;
  free_run = true;
  camera_native_auto = false;
  fixed_exposure = false;
  auto_exposure = true;
  max_exposure_us = 2000;
}

-- The camera has a profile and was never connected.
abbrev known : Supervisor naturals
known = record {
  profiles = (serial, camera_profile) ∷ [];
  baseline = [];
  manual = [];
  workers = [];
  attempts = [];
  connected_at = [];
  packet_override = [];
  devices = [];
  exposure = [];
  sync_role = [];
}

abbrev at_work : Supervisor naturals
at_work = record known { workers = (serial, record { stop = false; running = true }) ∷ [] }

abbrev connected_camera : Supervisor naturals
connected_camera = record known {
  devices = (serial, record { exposure = none; gain = none }) ∷ [];
  exposure = (serial, host_auto) ∷ [];
  sync_role = (serial, free_run_role) ∷ [];
  connected_at = (serial, 100) ∷ [];
}

abbrev idle_threads : Threads naturals serial
idle_threads = record {
  state = connected_camera;
  phase = absent;
  dropping = false;
  missed = false;
  failed = false;
  stopped = false;
}

at_work-IsOpenable : IsOpenable naturals serial at_work
unfolding text_eq lookup should_stop
at_work-IsOpenable = record {
  serial_given = refl;
  profile = camera_profile;
  has_profile = refl;
  going = refl;
}

-- Two attempts find no camera, and the third opens it.
abbrev third_time : ℕ → Attempt
third_time i = if i == 2 then configured none else no_device

reconnect_loop-Ends_example :
    Ends naturals serial 3 (reconnect_loop naturals serial 5 third_time (λ i. 100 + i) 0 at_work)
reconnect_loop-Ends_example =
    reconnect_loop-Ends naturals serial third_time (λ i. 100 + i) 2 0 5 none at_work
      at_work-IsOpenable refl (omega arith)

idle_threads-IsConnected : IsConnected naturals serial idle_threads
unfolding is_back text_eq lookup
idle_threads-IsConnected = record { back = refl; idle = refl; workers = refl }

-- A drop, up to the start of the worker.
abbrev one_drop : Threads naturals serial
one_drop = record idle_threads {
  state = note_drop naturals serial 110 9000 (remove_device naturals serial connected_camera);
  dropping = true;
}

Reach-one_drop : Reach naturals serial idle_threads one_drop
unfolding is_back text_eq lookup
Reach-one_drop = next here (drop idle_threads 110 9000 refl refl)

Reach-sought_example : is_sought naturals serial one_drop ≡ true
Reach-sought_example =
    Reach-sought naturals serial Reach-one_drop idle_threads-IsConnected refl refl refl

-- An exposure is set, the camera drops, and it connects again.
abbrev events : List (Event naturals)
events =
    attempt_made serial 120 (configured none)
    ∷ fault_handled serial true 110 9000
    ∷ exposure_set serial 900 absolute
    ∷ attempt_made serial 100 (configured none)
    ∷ []

-- A camera that drops while the worker that has opened it is on its way out stays lost.
record LostTrace : Type 0 where
  threads : Threads naturals serial
  reached : Reach naturals serial idle_threads threads
  lost : IsLost naturals serial threads

drop_while_ending : LostTrace
unfolding is_back text_eq lookup should_stop open_configure_store note_drop remove_device
    start_reconnect insert erase end_worker
drop_while_ending = record {
  threads = _;
  reached =
      let dropped = next here (drop idle_threads 110 9000 refl refl) in
      let sought = next dropped (start _ true refl) in
      let checked = next sought (check _ refl) in
      let looked = next checked (look _ refl) in
      let woken = next looked (wake _ refl) in
      let opened = next woken (connect _ 120 (configured none) refl refl) in
      let again = next opened (drop _ 121 9000 refl refl) in
      let met = next again (start _ true refl) in next met (finish _ refl);
  lost = record { gone = refl; idle = refl; dropping = refl };
}

-- A camera that drops when no thread can be created stays lost.
thread_refused : LostTrace
unfolding is_back text_eq lookup note_drop remove_device start_reconnect insert erase
thread_refused = record {
  threads = _;
  reached =
      let dropped = next here (drop idle_threads 110 9000 refl refl) in
      next dropped (start _ false refl);
  lost = record { gone = refl; idle = refl; dropping = refl };
}

-- An axis of a sensor of 1936 pixels, and a crop of its middle half in percents, as the tests' doubles
-- are whole.
abbrev sensor_axis : Axis
sensor_axis = record {
  size = 1920;
  offset = 0;
  size_min = 64;
  size_inc = 32;
  size_max = λ o. 1936 - o;
  offset_min = 0;
  offset_inc = 4;
  size_writable = true;
  offset_writable = true;
}

abbrev crop : Crop naturals (λ n. n / 100)
crop = record { start = 25; length = 50 }

sensor_axis-IsReady : IsReady naturals (λ n. n / 100) sensor_axis
sensor_axis-IsReady = record {
  offset_writable = refl;
  size_writable = refl;
  sound = record {
    zero_min = refl;
    sizes = omega arith;
    fits = record { low = omega arith; offset_low = omega arith; inside = omega arith };
  };
}

apply_roi-Fits_example :
    Fits (apply_roi naturals (λ n. n / 100) crop crop (sensor_axis, sensor_axis)).0
    × Fits (apply_roi naturals (λ n. n / 100) crop crop (sensor_axis, sensor_axis)).1
apply_roi-Fits_example =
    apply_roi-Fits naturals (λ n. n / 100) crop crop sensor_axis sensor_axis sensor_axis-IsReady
      sensor_axis-IsReady
