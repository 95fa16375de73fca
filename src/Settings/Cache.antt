-- ===== src/Settings/Cache.antt =====
-- The polygons that are asked for, against the settings.
use lpr_refactored.Prelude.{
  ℕ, ◌≡◌, refl, sym, ap, ◌∙◌, true, Option, none, some, List, [], ◌∷◌, arith, ltb, length, map,
  Text, text_eq, text_eq_iff, to_string, lookup, insert, lookup-insert, Bool-cases, inl, inr,
  both_branches,
}
use lpr_refactored.Floats.{Float}
use lpr_refactored.Settings.{
  Point, Library, Settings, Body, polygon, get_camera_points, points_cached, make_pts_key, load_all,
  load_cameras, load_camera, load, Camera, scaled, points_of,
}
use lpr_refactored.Settings.Polygon.{sanitize_polygon-long}
use lpr_refactored.Settings.Keys.{make_pts_key_injective}

module _ (F : Float) (L : Library F) where
  -- What the settings say of a camera's polygon.
  abbrev pub asked : ℕ → ℕ → ℕ → Settings F L → List Point
  asked id width height s = polygon F L width height (lookup (to_string id) s.cameras)

  -- The cache holds what the settings say.
  record IsFresh (s : Settings F L) : Type 0 where
    fresh :
        (id width height : ℕ) (ps : List Point)
        → lookup (make_pts_key id width height) s.points_cache ≡ some ps
        → ps ≡ asked id width height s

  -- Polygons asked for, one after the other.
  pub asks : List (ℕ × ℕ × ℕ) → Settings F L → Settings F L
  asks [] s = s
  asks ((id, w, h) ∷ qs) s = asks qs (get_camera_points F L id w h s).0

  points_cached-same :
      (key : Text) (o : Option (List Point)) (poly : List Point) (s : Settings F L)
      → (points_cached F L key o poly s).0.cameras ≡ s.cameras
  points_cached-same key o poly s = ground arith

  stored-IsFresh :
      (id w h : ℕ) (s : Settings F L)
      → IsFresh s
      → IsFresh
          (record s { points_cache = insert (make_pts_key id w h) (asked id w h s) s.points_cache })
  stored-IsFresh id w h s i = record {
    fresh = λ j v k ps e.
        let l =
          lookup-insert (make_pts_key id w h) (make_pts_key j v k) (asked id w h s)
            s.points_cache in
        elim (Bool-cases (text_eq (make_pts_key id w h) (make_pts_key j v k))) [
          | inl t ↦
              let same = make_pts_key_injective id w h j v k ((text_eq_iff _ _).0 t) in
              let found : some (asked id w h s) ≡ some ps = sym (rw t at l) ∙ e in
              let ps_asked : asked id w h s ≡ ps = cc in
              sym ps_asked
              ∙ ap (λ i. asked i w h s) same.0
              ∙ ap (λ w. asked j w h s) same.1
              ∙ ap (λ h. asked j v h s) same.2
          | inr t ↦ i.fresh j v k ps (sym (rw t at l) ∙ e)
        ];
  }

  loaded_camera :
      (id : Option ℕ) (c : Camera F L) (s : Settings F L)
      → (load_camera F L id c s).points_cache ≡ s.points_cache
  loaded_camera none c s = refl
  loaded_camera (some id) c s = refl

  nothing_cached : (key : Text) (ps : List Point) → lookup key [] ≡ some ps → ⊥
  unfolding lookup
  nothing_cached key ps e = absurd (cc)

  -- Loading clears the cache.
  loaded_cache :
      (bs : List (Body F L)) (s : Settings F L)
      → (load_cameras F L bs s).points_cache ≡ s.points_cache
  unfolding load_cameras
  loaded_cache [] s = refl
  loaded_cache (b ∷ bs) s = loaded_cache bs _ ∙ loaded_camera b.camera_id (load F L b) s

  loaded-IsFresh : (bs : List (Body F L)) (s : Settings F L) → IsFresh (load_all F L bs s)
  unfolding load_all lookup
  loaded-IsFresh bs s = record {
    fresh = λ id w h ps e.
        let empty = loaded_cache bs (record s { cameras = []; num_cam = 0; points_cache = [] }) in
        absurd (
          nothing_cached (make_pts_key id w h) ps
            (ap (lookup (make_pts_key id w h)) (sym empty) ∙ e));
  }

  cached-IsFresh :
      (id w h : ℕ) (o : Option (List Point)) (s : Settings F L)
      → IsFresh s
      → IsFresh (points_cached F L (make_pts_key id w h) o (asked id w h s) s).0
  cached-IsFresh id w h (some ps) s i = i
  cached-IsFresh id w h none s i =
      both_branches (λ (r : Settings F L × List Point). IsFresh r.0)
        (ltb (length (asked id w h s)) 3) {x = (s, [])} i (stored-IsFresh id w h s i)

  ask-IsFresh :
      (id w h : ℕ) (s : Settings F L) → IsFresh s → IsFresh (get_camera_points F L id w h s).0
  unfolding get_camera_points
  ask-IsFresh id w h s i = cached-IsFresh id w h (lookup (make_pts_key id w h) s.points_cache) s i

  asks-IsFresh : (qs : List (ℕ × ℕ × ℕ)) (s : Settings F L) → IsFresh s → IsFresh (asks qs s)
  unfolding asks
  asks-IsFresh [] s i = i
  asks-IsFresh ((id, w, h) ∷ qs) s i = asks-IsFresh qs _ (ask-IsFresh id w h s i)

  ask-cameras :
      (id w h : ℕ) (s : Settings F L) → (get_camera_points F L id w h s).0.cameras ≡ s.cameras
  unfolding get_camera_points
  ask-cameras id w h s = points_cached-same _ (lookup (make_pts_key id w h) s.points_cache) _ s

  asks-cameras : (qs : List (ℕ × ℕ × ℕ)) (s : Settings F L) → (asks qs s).cameras ≡ s.cameras
  unfolding asks
  asks-cameras [] s = refl
  asks-cameras ((id, w, h) ∷ qs) s = asks-cameras qs _ ∙ ask-cameras id w h s

  -- A polygon of less than three points is none.
  asked-short :
      (id w h : ℕ) (s : Settings F L) → ltb (length (asked id w h s)) 3 ≡ true → asked id w h s ≡ []
  unfolding polygon
  asked-short id w h s e =
      elim (sanitize_polygon-long L.is_negative
        (map (scaled F L w h) (points_of F L (lookup (to_string id) s.cameras)))) [
          | inl n ↦ n
          | inr l ↦ absurd (ground (arith, l, e))
        ]

  cached-asked :
      (id w h : ℕ) (o : Option (List Point)) (s : Settings F L)
      → lookup (make_pts_key id w h) s.points_cache ≡ o
      → IsFresh s
      → (points_cached F L (make_pts_key id w h) o (asked id w h s) s).1 ≡ asked id w h s
  cached-asked id w h (some ps) s e i = i.fresh id w h ps e
  cached-asked id w h none s e i = elim (Bool-cases (ltb (length (asked id w h s)) 3)) [
    | inl c ↦ rw c (sym (asked-short id w h s c))
    | inr c ↦ rw c refl
  ]

  -- After the settings were loaded, and while only polygons are asked for, in any order, of any
  -- cameras and sizes: the polygon of a camera is the one that its settings give for the size,
  -- cleaned, whether it comes from the cache or not.
  pub get_camera_points-asked :
      (bs : List (Body F L)) (s : Settings F L) (qs : List (ℕ × ℕ × ℕ)) (id w h : ℕ)
      → (get_camera_points F L id w h (asks qs (load_all F L bs s))).1
        ≡ asked id w h (load_all F L bs s)
  unfolding get_camera_points
  get_camera_points-asked bs s qs id w h =
      let t = asks qs (load_all F L bs s) in
      cached-asked id w h (lookup (make_pts_key id w h) t.points_cache) t refl
        (asks-IsFresh qs _ (loaded-IsFresh bs s))
      ∙ ap (λ cs. polygon F L w h (lookup (to_string id) cs)) (asks-cameras qs (load_all F L bs s))
