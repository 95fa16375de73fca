-- ===== src/MediaSender/Tests.antt =====
-- A short recording, and names of files.
use lpr_refactored.Prelude.{ℕ, ◌≡◌, refl, true, some, List, [], ◌∷◌, Text, codes}
use lpr_refactored.MediaSender.{Config, chunks, chunk_size, upload_recording, base_name, extension}
use lpr_refactored.MediaSender.Chunks.{Arrives, upload_recording-Arrives}

abbrev config : Config
config = record {
  upload_recordings = true;
  recording_upload_chunk = 100;
  recording_upload_subject_prefix = codes "up.";
}

abbrev plain : List ℕ → Text
plain l = l

name_of_segment : base_name (codes "/rec/7/a.b.ts") ≡ codes "a.b.ts"
unfolding base_name
name_of_segment = refl

extension_of_segment : extension (codes "a.b.ts") ≡ codes "ts"
unfolding extension
extension_of_segment = refl

extension_missing : extension (codes "segment") ≡ codes "mp4"
unfolding extension
extension_missing = refl

upload_recording-Arrives_example :
    Arrives plain (1 ∷ 2 ∷ 3 ∷ []) 0 (chunks (chunk_size plain config) 3) (
      upload_recording plain config
        (codes "7")
        (codes "/rec/7/a.mp4")
        (codes "u")
        (some (1 ∷ 2 ∷ 3 ∷ [])))
upload_recording-Arrives_example =
    upload_recording-Arrives plain plain (λ l. refl) config (codes "7") (codes "/rec/7/a.mp4")
      (codes "u") (1 ∷ 2 ∷ 3 ∷ []) refl
