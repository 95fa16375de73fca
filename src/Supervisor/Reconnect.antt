-- ===== src/Supervisor/Reconnect.antt =====
-- The capture thread, which drops a camera, and the worker that connects it again, as the critical
-- sections of the two in any order.
use lpr_refactored.Prelude.{
  ℕ, ◌≡◌, ap, Bool, true, false, not, ◌||◌, arith, if◌then◌else◌, Text, lookup,
}
use lpr_refactored.Floats.{Float}
use lpr_refactored.Supervisor.Maps.{Supervisor}
use lpr_refactored.Supervisor.Lifecycle.{
  Attempt, open_configure_store, remove_device, note_drop, start_reconnect, should_stop, is_back,
  note_failure, end_worker, stop_all, is_running,
}

-- Where the worker of the camera is: not there, at the test for a stop, at the test for the device,
-- asleep, opening the camera, or on its way out.
pub data Phase : Type 0 where
  absent : Phase
  checking : Phase
  looking : Phase
  waiting : Phase
  opening : Phase
  ending : Phase

-- The worker will look at the camera again, or is about to open it.
abbrev pub is_seeking : Phase → Bool
is_seeking checking = true
is_seeking looking = true
is_seeking waiting = true
is_seeking opening = true
is_seeking p = false

abbrev pub is_ending : Phase → Bool
is_ending ending = true
is_ending p = false

module _ (F : Float) (serial : Text) where
  -- `dropping` holds between the removal of the device and the start of a worker; `missed` remembers
  -- that such a start met a worker on its way out, `failed` that the thread of a worker was not
  -- created or that an exception ended it, and `stopped` that the supervisor was stopped.
  pub record Threads : Type 0 where
    pub state : Supervisor F
    pub phase : Phase
    pub dropping : Bool
    pub missed : Bool
    pub failed : Bool
    pub stopped : Bool

  -- Whether the thread is created is decided by the system.
  abbrev pub started : Bool → Threads → Threads
  unfolding start_reconnect
  started spawns t =
      if is_running (lookup serial t.state.workers)
      then record t { dropping = false; missed = t.missed || is_ending t.phase }
      else record t {
        state = start_reconnect F spawns serial t.state;
        phase = if spawns then checking else t.phase;
        dropping = false;
        failed = t.failed || not spawns;
      }

  pub data Step : Threads → Threads → Type 0 where
    -- The capture thread.
    drop :
        (t : Threads) (now packet_size : ℕ)
        → is_back F serial t.state ≡ true
        → t.dropping ≡ false
        → Step t (record t {
          state = note_drop F serial now packet_size (remove_device F serial t.state);
          dropping = true;
        })
    start : (t : Threads) (spawns : Bool) → t.dropping ≡ true → Step t (started spawns t)
    -- The worker.
    check :
        (t : Threads)
        → t.phase ≡ checking
        → Step t (record t { phase = if should_stop F serial t.state then ending else looking })
    look :
        (t : Threads)
        → t.phase ≡ looking
        → Step t (record t { phase = if is_back F serial t.state then ending else waiting })
    wake :
        (t : Threads)
        → t.phase ≡ waiting
        → Step t (record t { phase = if should_stop F serial t.state then ending else opening })
    connect :
        (t : Threads) (now : ℕ) (a : Attempt)
        → t.phase ≡ opening
        → (open_configure_store F serial now a t.state).1 ≡ true
        → Step t
            (record t { state = (open_configure_store F serial now a t.state).0; phase = ending })
    fail :
        (t : Threads) (now : ℕ) (a : Attempt)
        → t.phase ≡ opening
        → (open_configure_store F serial now a t.state).1 ≡ false
        → Step t (record t {
          state = note_failure F serial (open_configure_store F serial now a t.state).0;
          phase = checking;
        })
    -- An exception leaves the loop, and is caught at the end of the thread.
    die :
        (t : Threads)
        → is_seeking t.phase ≡ true
        → Step t (record t { phase = ending; failed = true })
    finish :
        (t : Threads)
        → t.phase ≡ ending
        → Step t (record t { state = end_worker F serial t.state; phase = absent })
    -- Another thread stops the supervisor.
    halt : (t : Threads) → Step t (record t { state = stop_all F t.state; stopped = true })

  pub data Reach (s : Threads) : Threads → Type 0 where
    here : Reach s s
    next : {t u : Threads} → Reach s t → Step t u → Reach s u

  -- The camera is there, or its drop is under way, or a worker seeks it.
  abbrev pub is_sought : Threads → Bool
  is_sought t = is_back F serial t.state || (t.dropping || is_seeking t.phase)

  -- The camera is connected and no worker is there.
  pub record IsConnected (t : Threads) : Type 0 where
    pub back : is_back F serial t.state ≡ true
    pub idle : t.phase ≡ absent
    pub workers : is_running (lookup serial t.state.workers) ≡ false

  -- The camera is gone, and no worker is there: nothing but a stop of the supervisor can follow.
  pub record IsLost (t : Threads) : Type 0 where
    pub gone : is_back F serial t.state ≡ false
    pub idle : t.phase ≡ absent
    pub dropping : t.dropping ≡ false

  pub Step-IsLost : {t u : Threads} → Step t u → IsLost t → IsLost u
  unfolding stop_all is_back
  Step-IsLost (halt t) l = record { gone = l.gone; idle = l.idle; dropping = l.dropping }
  Step-IsLost (drop t now n b d) l = let g = l.gone in absurd (cc)
  Step-IsLost (start t b d) l = let g = l.dropping in absurd (cc)
  Step-IsLost (check t p) l = let g = l.idle in absurd (cc)
  Step-IsLost (look t p) l = let g = l.idle in absurd (cc)
  Step-IsLost (wake t p) l = let g = l.idle in absurd (cc)
  Step-IsLost (connect t now a p h) l = let g = l.idle in absurd (cc)
  Step-IsLost (fail t now a p h) l = let g = l.idle in absurd (cc)
  Step-IsLost (die t p) l = ground (arith, ap is_seeking l.idle, p)
  Step-IsLost (finish t p) l = let g = l.idle in absurd (cc)
