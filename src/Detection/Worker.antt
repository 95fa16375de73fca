-- ===== src/Detection/Worker.antt =====
-- `DetectionWorker::process` over the map of passes: the largest plate feeds the direction
-- estimator, then every read of the frame takes its turn on the pass of the frame's gate.
pub mod Gates
pub mod Others
use lpr_refactored.Prelude.{
  map, ℕ, ◌+◌, ◌*◌, Bool, true, false, not, ◌&&◌, Option, none, some, List, [], ◌∷◌, ◌++◌, ltb,
  if◌then◌else◌, is_empty, length, Text, Dict, lookup, insert, erase_if,
}
use lpr_refactored.Floats.{Float}
use lpr_refactored.Sender.{PlateItem}
use lpr_refactored.Direction.{Trend, unknown}
use lpr_refactored.Direction
use lpr_refactored.Detection.{
  PassState, new_pass, physical_direction, Config, Read, on_read, on_dropped,
}

abbrev pub pass_or_new : Option PassState → PassState
pass_or_new none = new_pass
pass_or_new (some st) = st

-- Not seen for five minutes.
abbrev pub is_stale : ℕ → PassState → Bool
is_stale now st = ltb (st.last_seen_ms + 5 * 60 * 1000) now

module _ (F : Float) where
  open F use {Num, lt, ratio}

  -- A plate of a frame: its text, its size (the root of the box's area) and vertical centre, and
  -- what the processor makes of it.
  pub record Result : Type 0 where
    pub text : Text
    pub size : Num
    pub y : Num
    pub kept : Option PlateItem
    pub uuid : Text

  pub record Frame : Type 0 where
    pub image_empty : Bool
    pub gate : Text
    pub now : ℕ
    pub results : List Result

  pub record DetectionWorker : Type 0 where
    pub passes : Dict PassState
    pub tracks : Dict (Direction.Track F)
    pub frames_processed : ℕ
    pub plates_emitted : ℕ

  -- The loop for the largest plate with a text, from the best so far and its size.
  pub largest : List Result → Option Result → Num → Option Result
  largest [] best sz = best
  largest (r ∷ rs) best sz =
      let better = not (is_empty r.text) && lt sz r.size in
      largest rs (if better then some r else best) (if better then r.size else sz)

  abbrev feed :
      Direction.Config F
      → Text
      → ℕ
      → Option Result
      → Dict (Direction.Track F)
      → Dict (Direction.Track F)
  feed dcfg gate now none tracks = tracks
  feed dcfg gate now (some b) tracks = (Direction.update F dcfg gate b.size b.y now tracks).0

  -- `dir_.sightingCount` of a track.
  abbrev count_of : Option (Direction.Track F) → ℕ
  count_of none = 0
  count_of (some t) = length t.sizes

  pub sighting_count : Text → Dict (Direction.Track F) → ℕ
  sighting_count gate tracks = count_of (lookup gate tracks)

  module _ (jaro : Text → Text → Num) (cfg : Config F) where
    -- The read that a result is, by what the estimator says of the gate.
    abbrev pub read_of : ℕ → ℕ → ℕ → Result → Read F
    read_of now phys sightings r = record {
      text = r.text;
      kept = r.kept;
      uuid = r.uuid;
      now = now;
      phys = phys;
      sightings = sightings;
    }

    -- The maps before a read: `passIdFor` prunes, and only a kept read comes to it.
    abbrev pub pruned : ℕ → Option PlateItem → Dict PassState → Dict PassState
    pruned now none passes = passes
    pruned now (some p) passes = erase_if (is_stale now) passes

    abbrev pub dropped_unseen : Option PlateItem → Bool
    dropped_unseen none = not cfg.direction_enable
    dropped_unseen (some p) = false

    pub process_read : Text → Read F → Dict PassState → Dict PassState × List PlateItem
    unfolding on_read
    process_read gate r passes0 =
        let passes = pruned r.now r.kept passes0 in
        let (st, sent) = on_read F jaro cfg gate r (pass_or_new (lookup gate passes)) in
        if dropped_unseen r.kept then (passes0, []) else (insert gate st passes, sent)

    pub process_reads : Text → List (Read F) → Dict PassState → Dict PassState × List PlateItem
    unfolding process_read
    process_reads gate [] passes = (passes, [])
    process_reads gate (r ∷ rs) passes =
        let (passes1, xs) = process_read gate r passes in
        let (passes2, ys) = process_reads gate rs passes1 in (passes2, xs ++ ys)

    -- What goes to the sink.
    pub process : Direction.Config F → Frame → DetectionWorker → DetectionWorker × List PlateItem
    unfolding largest sighting_count process_reads
    process dcfg f w0 =
        let w : DetectionWorker = record w0 { frames_processed = w0.frames_processed + 1 } in
        let tracks =
          if cfg.direction_enable
          then feed dcfg f.gate f.now (largest f.results none (ratio 0 1)) w.tracks
          else w.tracks in
        let phys =
          if cfg.direction_enable
          then physical_direction (Direction.current F dcfg f.gate tracks)
          else 0 in
        let (passes, sent) =
          process_reads f.gate (map (read_of f.now phys (sighting_count f.gate tracks)) f.results)
            w.passes in
        if f.image_empty then (w, []) else (
          record w {
            passes = passes;
            tracks = tracks;
            plates_emitted = w.plates_emitted + length sent;
          },
          sent,
        )
