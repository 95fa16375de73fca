-- ===== src/CameraWorker.antt =====
-- src/manager/CameraWorker.cpp: one camera's capture, as a state that its source's callbacks and
-- its supervisor change. Images and the functions of OpenCV on them are parameters; an image that
-- is empty is one that `is_empty` holds of, and `same_data` is the comparison of their data. An
-- exception of a frame's callback either ends the session, or is caught by the source, which goes on
-- with its next frame (`goes_on`), as the Basler and the paired sources do. The threads, the
-- locks, and the forwarding of commands to the source are left out.
pub mod Images
pub mod Status
pub mod Motion
pub mod References
mod Tests
use lpr_refactored.Prelude.{
  ℕ, ◌+◌, ◌*◌, min, Bool, true, false, not, ◌&&◌, ◌||◌, Option, none, some, List, [], ◌∷◌, ◌++◌,
  ltb, leb, ◌==◌, if◌then◌else◌, Text,
}

-- cv::Size.
pub record Size : Type 0 where
  pub width : ℕ
  pub height : ℕ

abbrev pub size_eq : Size → Size → Bool
size_eq a b = (a.width == b.width) && (a.height == b.height)

-- What the code uses of OpenCV. `region` is the part of an image inside the configured region, and
-- the whole image without one; `differences` is absdiff of two images, which throws when their sizes
-- differ; `settled` stands for meanStdDev with the deviation at most `minDeviation`.
pub record Vision : Type 1 where
  pub Image : Type 0
  pub no_image : Image
  pub is_empty : Image → Bool
  pub size : Image → Size
  pub same_data : Image → Image → Bool
  pub region : Image → Image
  pub gray : Image → Image
  pub absdiff : Image → Image → Option Image
  pub bitwise_and : Image → Image → Image
  pub threshold_erode : Image → Image
  pub settled : Image → Bool
  pub mean_positive : Image → Bool
  pub rows : Image → List (List ℕ)

-- `MotionConfig`, whose changed pixels needed are not negative.
pub record Config : Type 0 where
  pub enable_motion_gate : Bool
  pub min_changed_pixels : ℕ
  pub reconnect_base_ms : ℕ
  pub reconnect_max_ms : ℕ
  pub detect_on_secondary : Bool
  pub detect_on_color : Bool

-- The length and every second of a list, from its first.
abbrev pub evens {ℓ} : {A : Type ℓ} → List A → List A
evens [] = []
evens (a ∷ []) = a ∷ []
evens (a ∷ b ∷ l) = a ∷ evens l

-- The pixels of a row that are 255, of every second column.
abbrev pub count_255 : List ℕ → ℕ
count_255 [] = 0
count_255 (p ∷ l) = let rest = count_255 l in if p == 255 then rest + 1 else rest

abbrev pub count_rows : List (List ℕ) → ℕ
count_rows [] = 0
count_rows (r ∷ l) = count_255 (evens r) + count_rows l

module _ (V : Vision) where
  open V use {
    Image, no_image, size, same_data, region, gray, absdiff, bitwise_and, threshold_erode, settled,
    mean_positive, rows,
  }

  -- What the worker tells the others: the camera's status, a reference image and whether it is the
  -- colour variant, the image of the live view, and a frame for detection with its evidence.
  pub data Event : Type 0 where
    status : Bool → Event
    first_frame : Image → Bool → Event
    raw : Image → Event
    forwarded : Image → Image → Event

  -- `prev` is a temporary of the gate. Of `curr` and `next`, `none` is the empty image.
  pub record Worker : Type 0 where
    pub connected : Bool
    pub first_frame : Bool
    pub first_color_frame : Bool
    pub last_crud_size : Size
    pub last_color_crud_size : Size
    pub curr : Option Image
    pub next : Option Image
    pub frames_this_session : ℕ

  abbrev pub or_else : Image → Image → Image
  or_else a b = if V.is_empty a then b else a

  -- The image that plates are looked for in, and the evidence.
  pub resolve : Config → Image → Image → Image × Image
  resolve cfg frame mono =
      let detect = if cfg.detect_on_secondary then or_else mono frame else or_else frame mono in
      let evidence = if cfg.detect_on_secondary then or_else frame mono else or_else mono frame in
      (if cfg.detect_on_color && not (V.is_empty evidence) then evidence else detect, evidence)

  abbrev pub have_separate_evidence : Image → Image → Bool
  have_separate_evidence detect evidence =
      not (V.is_empty evidence) && not (same_data evidence detect)

  -- `countChangedPixels`, its -1 as `none`.
  pub count_changed_pixels : Image → Option ℕ
  count_changed_pixels motion =
      if settled motion
      then (if mean_positive motion then none else some 0)
      else some (count_rows (evens (rows motion)))

  abbrev pub reaches : ℕ → Option ℕ → Bool
  reaches n none = false
  reaches n (some c) = leb n c

  -- The motion image of three images, when the differences can be taken.
  abbrev pub motion_of : Image → Image → Image → Option Image
  motion_of prev curr next = elim (absdiff prev curr) [
    | none ↦ none
    | some d1 ↦ elim (absdiff next curr) [
      | none ↦ none
      | some d2 ↦ some (threshold_erode (bitwise_and d1 d2))
    ]
  ]

  -- The motion gate: the images kept, and whether the frame is forwarded, or `none` when it throws.
  pub record Gate : Type 0 where
    pub curr : Option Image
    pub next : Option Image
    pub passes : Option Bool

  abbrev pub judged : ℕ → Option Image → Option Bool
  judged n none = none
  judged n (some motion) = some (reaches n (count_changed_pixels motion))

  pub motion_gate : ℕ → Image → Option Image → Option Image → Gate
  motion_gate n img none next = record { curr = some img; next = next; passes = some false }
  motion_gate n img (some curr) none = record {
    curr = some curr;
    next = some img;
    passes = some false;
  }
  motion_gate n img (some curr) (some next) = record {
    curr = some next;
    next = some img;
    passes = judged n (motion_of curr next img);
  }

  abbrev pub when_passed : Option Bool → Image → Image → List Event
  when_passed (some true) detect evidence = forwarded detect evidence ∷ []
  when_passed o detect evidence = []

  abbrev pub is_none : Option Bool → Bool
  is_none none = true
  is_none (some b) = false

  -- The reference images of a frame, and what is remembered of them.
  pub references : Image → Image → Bool → Worker → Worker × List Event
  references detect evidence separate w =
      let first = w.first_frame || not (size_eq (size detect) w.last_crud_size) in
      let color_changed = separate && not (size_eq (size evidence) w.last_color_crud_size) in
      let color = (w.first_color_frame || color_changed) && separate in
      (
        record w {
          first_frame = false;
          last_crud_size = size detect;
          first_color_frame = if color then false else w.first_color_frame;
          last_color_crud_size = if color_changed then size evidence else w.last_color_crud_size;
        },
        (if first then Event.first_frame detect false ∷ [] else [])
            ++ (if color then Event.first_frame evidence true ∷ [] else []),
      )

  abbrev pub gate_of : Config → Image → Worker → Gate
  unfolding motion_gate
  gate_of cfg detect w =
      if cfg.enable_motion_gate
      then motion_gate cfg.min_changed_pixels (gray (region detect)) w.curr w.next
      else record { curr = w.curr; next = w.next; passes = some true }

  -- `onFrame`, once the images are resolved: the state, what it tells, and whether it throws.
  pub on_resolved : Config → Image → Image → Worker → Worker × List Event × Bool
  unfolding references
  on_resolved cfg detect evidence w =
      let separate = have_separate_evidence detect evidence in
      let (w1, sent) = references detect evidence separate w in
      let gate = gate_of cfg detect w in
      (
        record w1 {
          frames_this_session = w.frames_this_session + 1;
          connected = true;
          curr = gate.curr;
          next = gate.next;
        },
        (if w.connected then [] else status true ∷ [])
            ++ (sent
                ++ (raw (if separate then evidence else detect)
                    ∷ when_passed gate.passes detect (if separate then evidence else no_image))),
        is_none gate.passes,
      )

  -- `onFrame`, with its return when there is no image.
  pub on_frame : Config → Image → Image → Worker → Worker × List Event × Bool
  unfolding resolve on_resolved
  on_frame cfg frame mono w =
      let (detect, evidence) = resolve cfg frame mono in
      let seen = on_resolved cfg detect evidence w in
      if V.is_empty detect then (w, [], false) else seen

  -- The frames of a session, up to one that throws, or all where the source goes on.
  pub session : Bool → Config → List (Image × Image) → Worker → Worker × List Event × Bool
  unfolding on_frame
  session goes_on cfg [] w = (w, [], false)
  session goes_on cfg ((frame, mono) ∷ frames) w =
      let (w1, sent, thrown) = on_frame cfg frame mono w in
      let (w2, more, later) = session goes_on cfg frames w1 in
      if thrown && not goes_on then (w1, sent, true) else (w2, sent ++ more, later)

  -- What a round of the supervisor meets: no source, or a source that goes on after an exception or
  -- does not, with its frames, whether it reported an error, and whether the worker was stopped by
  -- then.
  pub data Round : Type 0 where
    no_source : Round
    ran : Bool → List (Image × Image) → Bool → Bool → Round

  -- A round: the worker, what it tells, and the time to wait before the next, `none` for no next.
  pub round : Config → Round → ℕ → Worker → Worker × List Event × Option ℕ
  unfolding session
  round cfg no_source backoff w = (w, [], some backoff)
  round cfg (ran goes_on frames errored stopped) backoff w0 =
      let (w, sent, thrown) =
        session goes_on cfg frames
          (record w0 { frames_this_session = 0; curr = none; next = none }) in
      if stopped || not (errored || thrown) then (w, sent, none) else (
        record w { connected = false; first_frame = true; first_color_frame = true },
        sent ++ status false ∷ [],
        some (if ltb 0 w.frames_this_session then cfg.reconnect_base_ms else backoff),
      )

  -- `supervise`: what is told, and the waits.
  abbrev pub waited :
      Option ℕ
      → (ℕ → Worker × List Event × List ℕ)
      → Worker × List Event
      → Worker × List Event × List ℕ
  waited none rest (w, sent) = (w, sent, [])
  waited (some b) rest (w, sent) = let (w', more, waits) = rest b in (w', sent ++ more, b ∷ waits)

  pub supervise : Config → List Round → ℕ → Worker → Worker × List Event × List ℕ
  unfolding round
  supervise cfg [] backoff w = (w, [], [])
  supervise cfg (r ∷ rs) backoff w =
      let (w1, sent, wait) = round cfg r backoff w in
      waited wait (λ b. supervise cfg rs (min (b * 2) cfg.reconnect_max_ms) w1) (w1, sent)
