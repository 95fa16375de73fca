-- ===== src/Recording/Tests.antt =====
-- Two gates that record, the first for a minute.
use lpr_refactored.Prelude.{◌+◌, ◌≡◌, true, false, List, [], ◌∷◌, codes}
use lpr_refactored.Recording.{Env, Rec, Recs, none_open, Call, start, frame, ticks, run}
use lpr_refactored.Recording.Segments.{Files, opened_count, completed_count, open_count}
use lpr_refactored.Recording.Completion.{opened_completed}

abbrev env : Env
env = record {
  segment_seconds = 10;
  base_dir = codes "rec";
  extension = codes ".mp4";
  h264_opens = λ p. true;
  writer_opens = λ n p. true;
}

abbrev calls : List Call
calls =
    start (codes "1") 60 0 (codes "s")
    ∷ frame (codes "1") false 100
    ∷ frame (codes "1") false 20000
    ∷ start (codes "2") 0 21000 (codes "t")
    ∷ frame (codes "2") false 22000
    ∷ ticks 60000
    ∷ []

abbrev every_file : Files
every_file g f = true

opened_completed_example :
    let (recs, es) = run env calls [] in
    opened_count every_file es ≡ completed_count every_file es + open_count every_file recs
opened_completed_example = opened_completed every_file env calls

abbrev minute : Rec
minute = record {
  writer = none_open;
  base_name = codes "m";
  current_path = [];
  segment_index = 0;
  segment_start = 0;
  stop_at = 60000;
  has_duration = true;
}

abbrev one : Recs
one = (codes "1", minute) ∷ []
