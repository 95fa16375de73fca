-- ===== src/CameraManager/Reapply.antt =====
-- Settings that did not change, applied again.
use lpr_refactored.Prelude.{
  ℕ, ◌≡◌, refl, sym, ap, ◌∙◌, Bool, true, not, ◌&&◌, ◌||◌, Option, some, List, [], ◌∷◌, map, arith,
  Text, to_string, All,
}
use lpr_refactored.CameraManager.{
  Settings, MotionConfig, params_of, has_mono, is_basler, on_rgb, build_camera, build_from_settings,
  reapply_camera, reapply_camera_settings,
}

module _ (S : Settings) (stoi : Text → Option ℕ) (def : MotionConfig S) where
  -- The switch to colour is off, or the camera is a Basler pair.
  abbrev pub IsFitting : ℕ → Type 0
  IsFitting id =
      (not (on_rgb S id) || (is_basler S (params_of S def id) && has_mono S (params_of S def id)))
      ≡ true

  fits_color :
      (rgb basler mono : Bool)
      → (not rgb || (basler && mono)) ≡ true
      → (basler && (mono && rgb)) ≡ rgb
  fits_color rgb basler mono h = ground (arith, h)

  camera_same :
      (id : ℕ)
      → stoi (to_string id) ≡ some id
      → IsFitting id
      → reapply_camera S stoi def (build_camera S def id) ≡ build_camera S def id
  unfolding reapply_camera build_camera
  camera_same id s f = rw s (
      ap
        (λ b. record (build_camera S def id) {
          cfg = record (build_camera S def id).cfg { detect_on_color = b };
        })
        (sym (
          fits_color (on_rgb S id) (is_basler S (params_of S def id))
            (has_mono S (params_of S def id)) f)))

  -- Settings that did not change, applied again with the defaults that the cameras were built with,
  -- leave every camera as it was built, provided that the switch to colour is on for Basler pairs
  -- only, and that std::stoi reads the ids back.
  pub reapply-build :
      All (λ id. stoi (to_string id) ≡ some id) S.camera_ids
      → All IsFitting S.camera_ids
      → reapply_camera_settings S stoi def (build_from_settings S def) ≡ build_from_settings S def
  unfolding reapply_camera_settings build_from_settings
  reapply-build s f = go S.camera_ids s f
    where
      go :
          (ids : List ℕ)
          → All (λ id. stoi (to_string id) ≡ some id) ids
          → All IsFitting ids
          → map (reapply_camera S stoi def) (map (build_camera S def) ids)
            ≡ map (build_camera S def) ids
      go [] s f = refl
      go (id ∷ ids) s f =
          ap (λ c. c ∷ map (reapply_camera S stoi def) (map (build_camera S def) ids))
            (camera_same id s.0 f.0)
          ∙ ap (λ l. build_camera S def id ∷ l) (go ids s.1 f.1)
