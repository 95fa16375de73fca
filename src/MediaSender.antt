-- ===== src/MediaSender.antt =====
-- src/net/MediaSender.cpp: the upload of a finished recording in numbered chunks. The file comes as
-- its bytes, `none` when it does not open; base64_encode and the identifiers are parameters, and a
-- message is given by its fields. The other messages, which only encode an image, are left out.
pub mod Chunks
mod Tests
use lpr_refactored.Prelude.{
  ℕ, zero, suc, ◌+◌, ◌-◌, ◌*◌, ◌/◌, max, Bool, true, false, ◌||◌, Option, none, some, List, [], ◌∷◌,
  ◌++◌, ltb, leb, ◌==◌, if◌then◌else◌, is_empty, length, take, drop, Text, codes,
}

-- What the upload uses of `Config`; a configured chunk is not negative.
pub record Config : Type 0 where
  pub upload_recordings : Bool
  pub recording_upload_chunk : ℕ
  pub recording_upload_subject_prefix : Text

pub record Chunk : Type 0 where
  pub subject : Text
  pub upload_id : Text
  pub camera_id : Text
  pub title : Text
  pub video_address : Text
  pub ext : Text
  pub seq : ℕ
  pub total : ℕ
  pub final : Bool
  pub data_b64 : Text

-- '/' and '\', and '.'.
abbrev pub is_separator : ℕ → Bool
is_separator c = (c == 47) || (c == 92)

abbrev pub is_dot : ℕ → Bool
is_dot c = c == 46

-- What follows the last character that passes the test, if any does.
unfoldable pub after_last : (ℕ → Bool) → Text → Option Text
after_last p [] = none
after_last p (c ∷ s) =
    let later = after_last p s in
    elim later [ some t ↦ some t | none ↦ if p c then some s else none ]

abbrev pub text_or : Text → Option Text → Text
text_or d none = d
text_or d (some t) = t

pub base_name : Text → Text
unfolding after_last
base_name path = text_or path (after_last is_separator path)

abbrev nonempty_or : Text → Text → Text
nonempty_or d [] = d
nonempty_or d (c ∷ s) = c ∷ s

pub extension : Text → Text
unfolding after_last
extension base = nonempty_or (codes "mp4") (text_or [] (after_last is_dot base))

-- The number of chunks of `c` bytes that `n` bytes take.
pub chunks : ℕ → ℕ → ℕ
chunks c n = (n + c - 1) / c

module _ (base64_encode : List ℕ → Text) where
  -- The loop of reads: the number of chunks left, the number of the next, and the bytes left. A read
  -- that comes short ends the file.
  pub send_chunks : (ℕ → List ℕ → Chunk) → ℕ → ℕ → ℕ → List ℕ → List Chunk
  send_chunks message c zero seq bytes = []
  send_chunks message c (suc k) seq bytes =
      let got = take c bytes in
      let rest = send_chunks message c k (suc seq) (drop c bytes) in
      if is_empty got then [] else message seq got ∷ (if ltb (length bytes) c then [] else rest)

  -- The message of a chunk.
  abbrev pub chunk_message : Config → Text → Text → Text → ℕ → ℕ → List ℕ → Chunk
  unfolding base_name extension
  chunk_message cfg gate path upload_id total seq got = record {
    subject = cfg.recording_upload_subject_prefix ++ gate;
    upload_id = upload_id;
    camera_id = gate;
    title = base_name path;
    video_address = path;
    ext = extension (base_name path);
    seq = seq;
    total = total;
    final = leb total (seq + 1);
    data_b64 = base64_encode got;
  }

  abbrev pub chunk_size : Config → ℕ
  chunk_size cfg = max (64 * 1024) cfg.recording_upload_chunk

  -- `uploadRecording` of a file that is open.
  abbrev pub send_file : Config → Text → Text → Text → List ℕ → List Chunk
  unfolding send_chunks chunk_message chunks
  send_file cfg gate path upload_id bytes =
      let total = chunks (chunk_size cfg) (length bytes) in
      if is_empty bytes
      then []
      else send_chunks (chunk_message cfg gate path upload_id total) (chunk_size cfg) total 0 bytes

  pub upload_recording : Config → Text → Text → Text → Option (List ℕ) → List Chunk
  unfolding send_file
  upload_recording cfg gate path upload_id none = []
  upload_recording cfg gate path upload_id (some bytes) =
      if cfg.upload_recordings then send_file cfg gate path upload_id bytes else []
