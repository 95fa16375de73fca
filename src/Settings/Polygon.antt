-- ===== src/Settings/Polygon.antt =====
-- What sanitizePolygon lets through.
use lpr_refactored.Prelude.{
  ℕ, ◌≡◌, ◌≤◌, refl, ap, ◌∙◌, Bool, true, false, not, ◌&&◌, List, [], ◌∷◌, ◌++◌, arith, ltb, length,
  length-append, ◌⊎◌, inl, inr, both_branches, Bool-cases,
}
use lpr_refactored.Settings.{
  Point, same_pt, last_or, without_last, unique_from, unique, opened, reversed, sanitize_polygon,
}

abbrev differs_from : Point → List Point → Bool
differs_from p [] = true
differs_from p (q ∷ ps) = not (same_pt p q)

-- No two neighbours are the same point.
abbrev pub is_spread : List Point → Bool
is_spread [] = true
is_spread (p ∷ ps) = differs_from p ps && is_spread ps

same_pt_sym : (p q : Point) → same_pt p q ≡ same_pt q p
same_pt_sym p q = ground arith

-- The first point stays the first.
unique_from-differs_from :
    (a p : Point) (ps : List Point) → differs_from a (unique_from p ps) ≡ not (same_pt a p)
unfolding unique_from
unique_from-differs_from a p [] = refl
unique_from-differs_from a p (q ∷ ps) = ground (arith, unique_from-differs_from a p ps)

unique_from-is_spread : (p : Point) (ps : List Point) → is_spread (unique_from p ps) ≡ true
unfolding unique_from
unique_from-is_spread p [] = refl
unique_from-is_spread p (q ∷ ps) =
    ground (
      arith,
      unique_from-is_spread p ps,
      unique_from-is_spread q ps,
      unique_from-differs_from p q ps,
    )

unique-is_spread : (ps : List Point) → is_spread (unique ps) ≡ true
unfolding unique
unique-is_spread [] = refl
unique-is_spread (p ∷ ps) = unique_from-is_spread p ps

length-reversed : (ps : List Point) → length (reversed ps) ≡ length ps
length-reversed [] = refl
length-reversed (p ∷ ps) = ground (arith, length-append (reversed ps) (p ∷ []), length-reversed ps)

-- One more point after the last one.
is_spread-after :
    (ps : List Point) (q r : Point)
    → is_spread (ps ++ q ∷ []) ≡ true
    → same_pt q r ≡ false
    → is_spread ((ps ++ q ∷ []) ++ r ∷ []) ≡ true
is_spread-after [] q r h k = ground (arith, k)
is_spread-after (a ∷ []) q r h k = ground (arith, h, k)
is_spread-after (a ∷ b ∷ ps) q r h k = ground (arith, h, is_spread-after (b ∷ ps) q r)

is_spread-reversed : (ps : List Point) → is_spread ps ≡ true → is_spread (reversed ps) ≡ true
is_spread-reversed [] h = refl
is_spread-reversed (p ∷ []) h = refl
is_spread-reversed (p ∷ q ∷ ps) h =
    is_spread-after (reversed ps) q p (is_spread-reversed (q ∷ ps) (ground (arith, h)))
      (same_pt_sym q p ∙ ground (arith, h))

ltb_false→le : (a b : ℕ) → ltb a b ≡ false → b ≤ a
ltb_false→le a b h = ground arith

pub sanitize_polygon-long :
    (is_negative : List Point → Bool) (pts : List Point)
    → (sanitize_polygon is_negative pts ≡ []) ⊎ (3 ≤ length (sanitize_polygon is_negative pts))
unfolding sanitize_polygon
sanitize_polygon-long is_negative pts =
    let poly = unique (opened pts) in
    both_branches (λ (r : List Point). (r ≡ []) ⊎ (3 ≤ length r)) (ltb (length pts) 3) (inl refl)
      (elim (Bool-cases (ltb (length poly) 3)) [
        | inl e ↦ rw e (inl refl)
        | inr e ↦ rw e (
            inr (
              both_branches (λ (r : List Point). 3 ≤ length r) (is_negative poly)
                (omega (arith, length-reversed poly, ltb_false→le (length poly) 3 e))
                (ltb_false→le (length poly) 3 e)))
      ])

abbrev pub first_or : Point → List Point → Point
first_or d [] = d
first_or d (p ∷ ps) = p

last_or-append : (d p : Point) (ps : List Point) → last_or d (ps ++ p ∷ []) ≡ p
last_or-append d p [] = refl
last_or-append d p (q ∷ ps) = last_or-append q p ps

first_or-append : (d p : Point) (ps : List Point) → first_or d (ps ++ p ∷ []) ≡ first_or p ps
first_or-append d p [] = refl
first_or-append d p (q ∷ ps) = refl

pub first_or-reversed : (d : Point) (ps : List Point) → first_or d (reversed ps) ≡ last_or d ps
first_or-reversed d [] = refl
first_or-reversed d (p ∷ ps) = first_or-append d p (reversed ps) ∙ first_or-reversed p ps

pub last_or-reversed : (d : Point) (ps : List Point) → last_or d (reversed ps) ≡ first_or d ps
last_or-reversed d [] = refl
last_or-reversed d (p ∷ ps) = last_or-append d p (reversed ps)

same_pt→≡ : (p q : Point) → same_pt p q ≡ true → p ≡ q
same_pt→≡ (a, b) (c, d) h =
    ap (λ x. (x, b)) (fst_of a b c d h) ∙ ap (λ y. (c, y)) (snd_of a b c d h)
  where
    fst_of : (a b c d : ℕ) → same_pt (a, b) (c, d) ≡ true → a ≡ c
    fst_of a b c d h = ground (arith, h)

    snd_of : (a b c d : ℕ) → same_pt (a, b) (c, d) ≡ true → b ≡ d
    snd_of a b c d h = ground (arith, h)

first_or-unique_from : (d p : Point) (ps : List Point) → first_or d (unique_from p ps) ≡ p
unfolding unique_from
first_or-unique_from d p [] = refl
first_or-unique_from d p (q ∷ ps) = elim (Bool-cases (same_pt p q)) [
  | inl e ↦ rw e (first_or-unique_from d p ps)
  | inr e ↦ rw e refl
]

last_or-unique_from : (d p : Point) (ps : List Point) → last_or d (unique_from p ps) ≡ last_or p ps
unfolding unique_from
last_or-unique_from d p [] = refl
last_or-unique_from d p (q ∷ ps) = elim (Bool-cases (same_pt p q)) [
  | inl e ↦ rw e (last_or-unique_from d p ps ∙ ap (λ x. last_or x ps) (same_pt→≡ p q e))
  | inr e ↦ rw e (last_or-unique_from p q ps)
]

-- The last two points are not the same.
abbrev pub ends_once : List Point → Bool
ends_once [] = false
ends_once (p ∷ []) = false
ends_once (p ∷ q ∷ []) = not (same_pt p q)
ends_once (p ∷ q ∷ r ∷ ps) = ends_once (q ∷ r ∷ ps)

ends_once_lem :
    (p q : Point) (ps : List Point)
    → ends_once (p ∷ q ∷ ps) ≡ not (same_pt (last_or p (without_last (q ∷ ps))) (last_or q ps))
ends_once_lem p q [] = refl
ends_once_lem p q (r ∷ ps) = ends_once_lem q r ps

-- The first point and the last one are the same.
abbrev pub is_closed : List Point → Bool
is_closed ps = same_pt (first_or (0, 0) ps) (last_or (0, 0) ps)

three_same : (a b c : Point) → same_pt a b ≡ true → (not (same_pt c b) && same_pt a c) ≡ false
three_same a b c h = ground (arith, h)

opened-is_closed : (pts : List Point) → (ends_once pts && is_closed (opened pts)) ≡ false
opened-is_closed [] = refl
opened-is_closed (p ∷ []) = refl
opened-is_closed (p ∷ q ∷ ps) = elim (Bool-cases (same_pt p (last_or q ps))) [
  | inl e ↦
      rw (e, ends_once_lem p q ps)
        (three_same p (last_or q ps) (last_or p (without_last (q ∷ ps))) e)
  | inr e ↦ rw e (ground arith)
]

unique-is_closed : (ps : List Point) → is_closed (unique ps) ≡ is_closed ps
unfolding unique
unique-is_closed [] = refl
unique-is_closed (p ∷ ps) =
    rw (first_or-unique_from (0, 0) p ps, last_or-unique_from (0, 0) p ps) refl

reversed-is_closed : (ps : List Point) → is_closed (reversed ps) ≡ is_closed ps
reversed-is_closed ps =
    ap (λ x. same_pt x (last_or (0, 0) (reversed ps))) (first_or-reversed (0, 0) ps)
    ∙ ap (λ x. same_pt (last_or (0, 0) ps) x) (last_or-reversed (0, 0) ps)
    ∙ same_pt_sym (last_or (0, 0) ps) (first_or (0, 0) ps)

poly-open : (pts : List Point) → (ends_once pts && is_closed (unique (opened pts))) ≡ false
poly-open pts = ap (λ b. ends_once pts && b) (unique-is_closed (opened pts)) ∙ opened-is_closed pts

-- At least three points, no two neighbours the same, in a direction that is not negative; and the
-- first not the same as the last, unless the polygon it is made from ends twice with the same point.
pub record IsPolygon (is_negative : List Point → Bool) (pts ps : List Point) : Type 0 where
  pub long : 3 ≤ length ps
  pub spread : is_spread ps ≡ true
  pub direction : is_negative ps ≡ false
  pub open_end : (ends_once pts && is_closed ps) ≡ false

-- A polygon comes out empty, or with at least three points, no two neighbours of which are the
-- same, in a direction that is not negative, and open: its first point and its last differ, unless
-- the last two points given are the same. The sign of the area turns with the order of the points.
pub sanitize_polygon-IsPolygon :
    (is_negative : List Point → Bool) (pts : List Point)
    → ((ps : List Point) → is_negative ps ≡ true → is_negative (reversed ps) ≡ false)
    → (sanitize_polygon is_negative pts ≡ [])
      ⊎ IsPolygon is_negative pts (sanitize_polygon is_negative pts)
unfolding sanitize_polygon
sanitize_polygon-IsPolygon is_negative pts turns =
    let poly = unique (opened pts) in
    both_branches (λ r. (r ≡ []) ⊎ IsPolygon is_negative pts r) (ltb (length pts) 3) (inl refl)
      (elim (Bool-cases (ltb (length poly) 3)) [
        | inl e ↦ rw e (inl refl)
        | inr e ↦ elim (Bool-cases (is_negative poly)) [
          | inl n ↦
              rw (e, n)
                (inr (record {
                  long = omega (arith, length-reversed poly, ltb_false→le (length poly) 3 e);
                  spread = is_spread-reversed poly (unique-is_spread (opened pts));
                  direction = turns poly n;
                  open_end = ap (λ b. ends_once pts && b) (reversed-is_closed poly) ∙ poly-open pts;
                }))
          | inr n ↦
              rw (e, n)
                (inr (record {
                  long = ltb_false→le (length poly) 3 e;
                  spread = unique-is_spread (opened pts);
                  direction = n;
                  open_end = poly-open pts;
                }))
        ]
      ])
