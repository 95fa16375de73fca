-- ===== src/PlateProcessor.antt =====
-- src/process/PlateProcessor.cpp: the reads of a passing car are clustered, vote for one text by
-- weight, and are emitted. `jaro` stands for jaroWinklerDistance (a copy of a published library),
-- `validator` for the optional structural test; a fresh UUID is an argument of each call. Times are
-- milliseconds from 0, and a configured time that is not positive is 0.
pub mod Vote
pub mod First
pub mod Genuine
pub mod Join
pub mod Resend
pub mod Vehicle
mod Tests
use lpr_refactored.Prelude.{
  ℕ, suc, ◌+◌, Bool, true, false, not, ◌&&◌, ◌||◌, Option, none, some, List, [], ◌∷◌, ◌++◌, ltb,
  leb, if◌then◌else◌, is_empty, length, ◌==◌, Text, codes, text_eq, to_string, starts_with, ℤ,
  is_nonneg, pos_part, Dict, lookup, insert, erase_if,
}
use lpr_refactored.Floats.{Float, le, fmax}
use lpr_refactored.Plates.{plate_similar}

module _ (F : Float) where
  open F use {Num, lt, add, sub, mul, ratio}

  -- What the processor reads and writes of a `PlateResult`; `area` is that of the plate's box.
  pub record PlateResult : Type 0 where
    pub text : Text
    pub confidence : Num
    pub area : ℕ
    pub track_id : ℤ
    pub timestamp : ℕ
    pub gate : Text
    pub pass_id : Text

  pub record Config : Type 0 where
    pub validator : Option (Text → Bool)
    pub similarity_threshold : Num
    pub min_confidence : Num
    pub track_ttl_ms : ℕ
    pub pass_gap_ms : ℕ
    pub max_plate_char_diffs : ℕ

  abbrev pub zero_sample : PlateResult
  zero_sample = record {
    text = [];
    confidence = ratio 0 1;
    area = 0;
    track_id = ℤ.negsuc 0;
    timestamp = 0;
    gate = [];
    pass_id = [];
  }

  pub record Track : Type 0 where
    pub reads : List (Text × Num)  -- oldest first
    pub consensus : Text
    pub last_sent : Text
    pub sent : Bool
    pub last_update_ms : ℕ
    pub best : PlateResult
    pub best_size : Num
    pub pass_id : Text

  -- A track that `tracks_[key]` has just made.
  abbrev pub new_track : Track
  new_track = record {
    reads = [];
    consensus = [];
    last_sent = [];
    sent = false;
    last_update_ms = 0;
    best = zero_sample;
    best_size = ratio 0 1;
    pass_id = [];
  }

  pub record PlateProcessor : Type 0 where
    pub tracks : Dict Track
    pub untracked_counter : ℕ

  pub init : PlateProcessor
  init = record { tracks = []; untracked_counter = 0 }

  abbrev weight_or_zero : Option Num → Num
  weight_or_zero none = ratio 0 1
  weight_or_zero (some w) = w

  -- `for (r : reads) weight[r.first] += r.second;`
  pub tally : List (Text × Num) → Dict Num → Dict Num
  tally [] weight = weight
  tally ((t, w) ∷ reads) weight =
      tally reads (insert t (add (weight_or_zero (lookup t weight)) w) weight)

  -- The loop for the heaviest, over the table in its order of iteration.
  pub heaviest : Dict Num → Text × Num → Text × Num
  heaviest [] best = best
  heaviest ((t, w) ∷ weight) best = heaviest weight (if lt best.1 w then (t, w) else best)

  abbrev pub minus_one : Num
  minus_one = sub (ratio 0 1) (ratio 1 1)

  pub weighted_consensus : List (Text × Num) → Text
  unfolding tally heaviest
  weighted_consensus reads = (heaviest (tally reads []) ([], minus_one)).0

  module _ (jaro : Text → Text → Num) (cfg : Config) where
    -- The cluster's last read is too old for the plate to be of the same pass.
    abbrev pub other_pass : ℕ → Track → Bool
    other_pass now tr =
        ltb 0 cfg.pass_gap_ms
        && (ltb 0 now && (ltb 0 tr.last_update_ms && ltb (tr.last_update_ms + cfg.pass_gap_ms) now))

    abbrev pub qualifies : Text → Track → Bool
    qualifies text tr =
        le F cfg.similarity_threshold (jaro text tr.consensus)
        || plate_similar text tr.consensus cfg.max_plate_char_diffs

    -- The loop over the clusters, from the best so far: its key (empty for none) and similarity.
    pub best_cluster : Text → Text → ℕ → Dict Track → Text × Num → Text × Num
    best_cluster prefix text now [] best = best
    best_cluster prefix text now ((k, tr) ∷ tracks) best =
        let s = jaro text tr.consensus in
        best_cluster prefix text now tracks (
          if not (starts_with prefix k) || other_pass now tr
          then best
          else if qualifies text tr && lt best.1 s
          then (k, s)
          else best)

    abbrev pub gate_prefix : Text → Text
    gate_prefix gate = codes "g:" ++ (gate ++ codes "#")

    abbrev pub track_key : ℤ → Text
    track_key id = codes "t:" ++ to_string (pos_part id)

    pub resolve_key : PlateResult → ℕ → PlateProcessor → Text × PlateProcessor
    unfolding best_cluster
    resolve_key p now s =
        let prefix = gate_prefix p.gate in
        let best = (best_cluster prefix p.text now s.tracks ([], minus_one)).0 in
        if is_nonneg p.track_id
        then (track_key p.track_id, s)
        else if not (is_empty best)
        then (best, s)
        else (
          prefix ++ to_string s.untracked_counter,
          record s { untracked_counter = suc s.untracked_counter },
        )

    abbrev pub is_stale : ℕ → Track → Bool
    is_stale now tr = ltb 0 tr.last_update_ms && ltb (tr.last_update_ms + cfg.track_ttl_ms) now

    pub evict_stale : ℕ → PlateProcessor → PlateProcessor
    evict_stale now s =
        if leb cfg.track_ttl_ms 0 || leb now 0
        then s
        else record s { tracks = erase_if (is_stale now) s.tracks }

    abbrev pub track_or_new : Option Track → Track
    track_or_new none = new_track
    track_or_new (some tr) = tr

    abbrev pub valid_by : Option (Text → Bool) → Text → Bool
    valid_by none t = true
    valid_by (some v) t = v t

    -- The three guards at the top.
    abbrev pub accepted : PlateResult → Bool
    accepted p =
        not (is_empty p.text)
        && (not (lt p.confidence cfg.min_confidence) && valid_by cfg.validator p.text)

    abbrev pub is_outlier : PlateResult → Track → Bool
    is_outlier p tr =
        not (is_nonneg p.track_id)
        && (not (is_empty tr.reads)
            && (lt (jaro p.text tr.consensus) cfg.similarity_threshold
                && not (plate_similar p.text tr.consensus cfg.max_plate_char_diffs)))

    -- The read joins the track, and the vote is taken again.
    pub add_read : PlateResult → Text → Track → Track
    unfolding weighted_consensus
    add_read p uuid tr =
        let sz = fmax F (ratio 1 1) (ratio p.area 1) in
        let reads = tr.reads ++ (p.text, mul p.confidence sz) ∷ [] in
        let larger = (length reads == 1) || lt tr.best_size sz in
        record tr {
          reads = reads;
          last_update_ms = p.timestamp;
          best = if larger then p else tr.best;
          best_size = if larger then sz else tr.best_size;
          pass_id = if is_empty tr.pass_id then uuid else tr.pass_id;
          consensus = weighted_consensus reads;
        }

    abbrev pub already_sent : Track → Bool
    already_sent tr = tr.sent && text_eq tr.consensus tr.last_sent

    abbrev pub mark_sent : Track → Track
    mark_sent tr = record tr { sent = true; last_sent = tr.consensus }

    -- The plate that leaves.
    abbrev pub emission : PlateResult → Track → PlateResult
    emission p tr = record tr.best {
      text = if is_empty tr.consensus then tr.best.text else tr.consensus;
      track_id = p.track_id;
      pass_id = tr.pass_id;
      gate = p.gate;
    }

    -- The track after a read, and what is emitted.
    pub vote : PlateResult → Text → Track → Track × Option PlateResult
    unfolding add_read
    vote p uuid tr0 =
        let tr = add_read p uuid tr0 in
        if already_sent tr then (tr, none) else (mark_sent tr, some (emission p tr))

    pub process : PlateResult → Text → PlateProcessor → PlateProcessor × Option PlateResult
    unfolding evict_stale resolve_key vote
    process p uuid s0 =
        let (key, s) = resolve_key p p.timestamp (evict_stale p.timestamp s0) in
        let tr0 = track_or_new (lookup key s.tracks) in
        let (tr, out) = vote p uuid tr0 in
        if not (accepted p)
        then (s0, none)
        else if is_outlier p tr0
        then (s, none)
        else (record s { tracks = insert key tr s.tracks }, out)

    abbrev pub emitted : Option PlateResult → List PlateResult → List PlateResult
    emitted none rest = rest
    emitted (some o) rest = o ∷ rest

    -- The plates of the detection worker, each with the UUID drawn for it; what is emitted, in order.
    pub process_all : List (PlateResult × Text) → PlateProcessor → List PlateResult
    unfolding process
    process_all [] s = []
    process_all ((p, uuid) ∷ ps) s =
        let (s', out) = process p uuid s in emitted out (process_all ps s')
