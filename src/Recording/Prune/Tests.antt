-- ===== src/Recording/Prune/Tests.antt =====
-- A retention pass over four files, one of them open.
use lpr_refactored.Prelude.{ℕ, ◌≡◌, refl, true, some, List, [], ◌∷◌, Text, codes, text_eq}
use lpr_refactored.Recording.Prune.{Entry, Item, FileSystem, Config, prune}
use lpr_refactored.Recording.Prune.Safety.{IsSafe, prune-IsSafe}
use lpr_refactored.Recording.Prune.Budget.{sum}

abbrev video : Text → ℕ → ℕ → Entry
video name size mtime = record {
  path = name;
  regular = true;
  extension = codes ".mp4";
  file_size = some size;
  last_write = some mtime;
}

abbrev disk : FileSystem
disk = record {
  listing =
      video (codes "a") 40 900
      ∷ video (codes "b") 50 300
      ∷ video (codes "c") 60 600
      ∷ video (codes "d") 70 100
      ∷ [];
  equivalent = text_eq;
  removes = λ p. true;
  available = λ n. some 1000;
  directories = codes "old" ∷ codes "older" ∷ [];
  removes_directory = text_eq (codes "older");
}

abbrev settings : Config
settings = record {
  extension = codes ".mp4";
  retention = 0;
  max_total_bytes = 100;
  min_free_bytes = 0;
}

open_segments : List Text
open_segments = codes "d" ∷ []

-- The oldest file is open and stays; of the others the oldest goes.
pruned_total : sum (prune disk settings open_segments 1000).items ≡ 100
unfolding prune sum open_segments text_eq
pruned_total = refl

prune-IsSafe_example : IsSafe disk settings open_segments 1000
prune-IsSafe_example = prune-IsSafe disk settings open_segments 1000

abbrev unsorted : List Item
unsorted =
    record { path = codes "a"; size = 40; mtime = 900 }
    ∷ record { path = codes "b"; size = 50; mtime = 300 }
    ∷ []
