-- ===== src/Recording.antt =====
-- src/services/RecordingService.cpp: which gates record, into which segment files, and when a
-- recording ends. The state is the map `recs_`; what the calls do outside it is a list of effects.
-- Times are steady-clock milliseconds, an argument of each call.
pub mod Prune
pub mod Naming
pub mod Segments
pub mod Completion
pub mod Expiry
mod Tests
use lpr_refactored.Prelude.{
  ℕ, zero, suc, ◌+◌, ◌-◌, ◌*◌, ◌/◌, ◌≡◌, Bool, true, false, not, ◌&&◌, ◌||◌, Option, none, some,
  List, [], ◌∷◌, ◌++◌, ltb, leb, if◌then◌else◌, length, is_empty, Text, codes, to_string, Dict,
  lookup, insert, erase, contains,
}

-- Which writer of a recording is open: the H.264 one, the OpenCV fallback, or none.
pub data Writer : Type 0 where
  none_open h264 fallback : Writer

-- The members of `Rec`.
pub record Rec : Type 0 where
  pub writer : Writer
  pub base_name : Text
  pub current_path : Text
  pub segment_index : ℕ
  pub segment_start : ℕ
  pub stop_at : ℕ
  pub has_duration : Bool

pub data Effect : Type 0 where
  opened : Text → Text → Effect  -- gate, path: a writer opened the file
  written : Text → Text → Effect  -- gate, path: a frame went to the file
  completed : Text → Text → Effect  -- gate, path: the segment callback

-- The configuration, and the encoders, which are not this code: whether each opens a given file.
pub record Env : Type 0 where
  pub segment_seconds : ℕ
  pub base_dir : Text
  pub extension : Text
  pub h264_opens : Text → Bool
  pub writer_opens : ℕ → Text → Bool  -- the number of the attempt

abbrev pub Recs : Type 0
Recs = Dict Rec

abbrev pub Outcome : Type 0
Outcome = Recs × List Effect

abbrev pub is_open : Writer → Bool
is_open none_open = false
is_open h264 = true
is_open fallback = true

abbrev slash : Text
slash = codes "/"

pub close_segment : Text → Rec → Rec × List Effect
close_segment gate r = (
  record r { writer = none_open; current_path = [] },
  if is_open r.writer && not (is_empty r.current_path)
      then completed gate r.current_path ∷ []
      else [],
)

-- `closeSegment` and `recs_.erase` of a recording that is there.
pub finish : Text → Rec → Recs → Outcome
unfolding close_segment
finish gate r recs = (erase gate recs, (close_segment gate r).1)

stop_found : Text → Option Rec → Recs → Outcome
unfolding finish
stop_found gate none recs = (recs, [])
stop_found gate (some r) recs = finish gate r recs

pub stop_recording : Text → Recs → Outcome
unfolding stop_found
stop_recording gate recs = stop_found gate (lookup gate recs) recs

pub is_recording : Text → Recs → Bool
is_recording gate recs = contains gate recs

pub active_count : Recs → ℕ
active_count recs = length recs

abbrev pub is_over : ℕ → Rec → Bool
is_over now r = r.has_duration && leb r.stop_at now

-- `closeExpiredLocked`, which `tick` runs under the lock.
pub tick : ℕ → Recs → Outcome
unfolding close_segment
tick now [] = ([], [])
tick now ((gate, r) ∷ recs) =
    let (recs', es) = tick now recs in
    if is_over now r then (recs', (close_segment gate r).1 ++ es) else ((gate, r) ∷ recs', es)

-- The frame itself goes to whichever writer is open.
pub stamp_and_write : Text → Rec → List Effect
stamp_and_write gate r = if is_open r.writer then written gate r.current_path ∷ [] else []

-- What the destructor does to the recordings that are still there.
pub close_all : Recs → List Effect
unfolding close_segment
close_all [] = []
close_all ((gate, r) ∷ recs) = (close_segment gate r).1 ++ close_all recs

module _ (env : Env) where
  -- `stamp` is `nowStamp()`.
  pub make_base_name : Text → Text → Text
  make_base_name gate stamp =
      env.base_dir
      ++ (slash
          ++ (gate
              ++ (slash ++ (stamp ++ (slash ++ (codes "CAM_" ++ (gate ++ (codes "_" ++ stamp))))))))

  pub segment_path : Rec → Text
  segment_path r = r.base_name ++ (codes "_seg" ++ (to_string r.segment_index ++ env.extension))

  -- The three attempts of the OpenCV chain, first to open wins.
  pub first_attempt : Text → Writer
  first_attempt path =
      if env.writer_opens 0 path || (env.writer_opens 1 path || env.writer_opens 2 path)
      then fallback
      else none_open

  pub open_segment : Text → Rec → Rec × List Effect
  unfolding first_attempt segment_path
  open_segment gate r =
      let path = segment_path r in
      let w = if env.h264_opens path then h264 else first_attempt path in
      (
        record r { current_path = path; writer = w },
        if is_open w then opened gate path ∷ [] else [],
      )

  -- The `Rec` of a new recording.
  pub fresh_rec : Text → ℕ → ℕ → Text → Rec
  unfolding make_base_name
  fresh_rec gate duration now stamp = record {
    writer = none_open;
    base_name = make_base_name gate stamp;
    current_path = [];
    segment_index = 0;
    segment_start = now;
    stop_at = if ltb 0 duration then now + 1000 * duration else 0;
    has_duration = ltb 0 duration;
  }

  pub start_recording : Text → ℕ → ℕ → Text → Recs → Recs × Bool
  unfolding fresh_rec
  start_recording gate duration now stamp recs =
      if contains gate recs
      then (recs, false)
      else (insert gate (fresh_rec gate duration now stamp) recs, true)

  -- The rollover to the next segment.
  pub roll_over : Text → ℕ → Rec → Rec × List Effect
  unfolding close_segment
  roll_over gate now r =
      if leb env.segment_seconds ((now - r.segment_start) / 1000)
      then (let (r', es) = close_segment gate r in
          (record r' { segment_index = r'.segment_index + 1; segment_start = now }, es))
      else (r, [])

  pub ensure_open : Text → Rec → Rec × List Effect
  unfolding open_segment
  ensure_open gate r = if is_open r.writer then (r, []) else open_segment gate r

  pub record_frame : Text → ℕ → Rec → Rec × List Effect
  unfolding roll_over ensure_open stamp_and_write
  record_frame gate now r =
      let (r1, closing) = roll_over gate now r in
      let (r2, opening) = ensure_open gate r1 in
      (r2, closing ++ (opening ++ stamp_and_write gate r2))

  frame_found : Text → ℕ → Option Rec → Recs → Outcome
  unfolding finish record_frame
  frame_found gate now none recs = (recs, [])
  frame_found gate now (some r) recs =
      if is_over now r
      then finish gate r recs
      else (let (r', es) = record_frame gate now r in (insert gate r' recs, es))

  pub on_frame : Text → Bool → ℕ → Recs → Outcome
  unfolding frame_found
  on_frame gate image_empty now recs =
      if image_empty then (recs, []) else frame_found gate now (lookup gate recs) recs

-- The calls of the router, the frame observer and the watchdog.
pub data Call : Type 0 where
  start : Text → ℕ → ℕ → Text → Call  -- gate, duration, now, stamp
  stop : Text → Call
  frame : Text → Bool → ℕ → Call  -- gate, empty image, now
  ticks : ℕ → Call

module _ (env : Env) where
  pub step : Call → Recs → Outcome
  unfolding start_recording stop_recording on_frame tick
  step (start gate duration now stamp) recs =
      ((start_recording env gate duration now stamp recs).0, [])
  step (stop gate) recs = stop_recording gate recs
  step (frame gate image_empty now) recs = on_frame env gate image_empty now recs
  step (ticks now) recs = tick now recs

  -- The recordings after the calls, and all that the calls did.
  pub run : List Call → Recs → Outcome
  unfolding step
  run [] recs = (recs, [])
  run (c ∷ cs) recs =
      let (recs', es) = step c recs in let (recs'', es') = run cs recs' in (recs'', es ++ es')
