-- ===== src/Settings/Count.antt =====
-- How many devices the settings name.
use lpr_refactored.Prelude.{
  ℕ, ◌+◌, ◌≡◌, ◌≢◌, Option, none, some, List, [], ◌∷◌, Text, codes, to_string, Dict, lookup,
}
use lpr_refactored.Floats.{Float}
use lpr_refactored.Settings.{Library, Settings, Body, Camera, text_at}

module _ (F : Float) (L : Library F) where
  -- The name of a mono camera, where it is a text that is not empty.
  abbrev pub named : Option Text → ℕ
  named none = 0
  named (some []) = 0
  named (some (c ∷ cs)) = 1

  -- Each camera, and the mono camera that it names.
  abbrev pub total : Dict (Camera F L) → ℕ
  total [] = 0
  total ((k, c) ∷ m) =
      1 + (named (text_at F L (lookup (codes "MonoCameraAddress") c.values)) + total m)

  abbrev pub IsOther : Option ℕ → Option ℕ → Type 0
  IsOther (some i) (some j) = i ≢ j
  IsOther i j = Unit

  abbrev pub AllOther : Option ℕ → List (Body F L) → Type 0
  AllOther i [] = Unit
  AllOther i (b ∷ bs) = IsOther i b.camera_id × AllOther i bs

  -- No id twice.
  abbrev pub AreDistinct : List (Body F L) → Type 0
  AreDistinct [] = Unit
  AreDistinct (b ∷ bs) = AllOther b.camera_id bs × AreDistinct bs

  abbrev IsNew : Option ℕ → Dict (Camera F L) → Type 0
  IsNew none m = Unit
  IsNew (some i) m = lookup (to_string i) m ≡ none

  abbrev AllNew : List (Body F L) → Dict (Camera F L) → Type 0
  AllNew [] m = Unit
  AllNew (b ∷ bs) m = IsNew b.camera_id m × AllNew bs m

  -- The count is right, and the cameras to come are new.
  record Counts (bs : List (Body F L)) (s : Settings F L) : Type 0 where
    new : AllNew bs s.cameras
    count : s.num_cam ≡ total s.cameras
