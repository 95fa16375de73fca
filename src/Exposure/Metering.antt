-- ===== src/Exposure/Metering.antt =====
-- src/basler/ExposureStrategies.cpp, meteredBrightness, and src/basler/ExposureCalibrator.cpp,
-- meteredIntensity: the level of brightness that a given number of pixels do not exceed, by a
-- histogram. The pixels are the bytes of the grey image; its region and its scaling are left out.
use lpr_refactored.Prelude.{
  ℕ, zero, suc, ◌+◌, ◌-◌, ◌/◌, ◌≡◌, ◌≤◌, ◌<◌, refl, sym, ap, ◌∙◌, Bool, true, false, List, [], ◌∷◌,
  arith, leb, ◌==◌, if◌then◌else◌, length, All, Bool-cases, inl, inr, ◌⊎◌,
}

-- `hist[v]`.
pub hist : List ℕ → ℕ → ℕ
hist [] v = 0
hist (p ∷ l) v = let rest = hist l v in if p == v then rest + 1 else rest

-- The loop over the levels from `v`, of which `n` are left.
pub scan : List ℕ → ℕ → ℕ → ℕ → ℕ → ℕ
unfolding hist
scan pixels target zero v acc = v
scan pixels target (suc n) v acc =
    let acc' = acc + hist pixels v in
    let later = scan pixels target n (suc v) acc' in if leb target acc' then v else later

abbrev pub is_empty_image : List ℕ → Bool
is_empty_image [] = true
is_empty_image (p ∷ l) = false

pub metered : List ℕ → ℕ → ℕ
unfolding scan
metered pixels target = let v = scan pixels target 256 0 0 in if is_empty_image pixels then 0 else v

-- The pixels that are below a level.
pub below : ℕ → List ℕ → ℕ
below v [] = 0
below v (p ∷ l) = let rest = below v l in if leb (suc p) v then rest + 1 else rest

below-zero : (l : List ℕ) → below 0 l ≡ 0
unfolding below
below-zero [] = refl
below-zero (p ∷ l) = ground (arith, below-zero l)

below-suc : (v : ℕ) (l : List ℕ) → below (suc v) l ≡ below v l + hist l v
unfolding below hist
below-suc v [] = refl
below-suc v (p ∷ l) = ground (arith, below-suc v l)

below-all : (v : ℕ) (l : List ℕ) → All (λ p. p < v) l → below v l ≡ length l
unfolding below
below-all v [] h = refl
below-all v (p ∷ l) h = ground (arith, h.0, below-all v l h.1)

-- The level is reached at `v` and not before.
pub record Meters (pixels : List ℕ) (target v : ℕ) : Type 0 where
  pub byte : v < 256
  pub reached : target ≤ below (suc v) pixels
  pub least : (u : ℕ) → u < v → below (suc u) pixels < target

scan-Meters :
    (pixels : List ℕ) (target n v acc : ℕ)
    → n + v ≡ 256
    → acc ≡ below v pixels
    → target ≤ below 256 pixels
    → ((u : ℕ) → u < v → below (suc u) pixels < target)
    → Meters pixels target (scan pixels target n v acc)
unfolding scan
scan-Meters pixels target zero v acc e a t h = absurd (omega (arith, h 255 (omega (arith, e)), t))
scan-Meters pixels target (suc n) v acc e a t h =
    let a' : acc + hist pixels v ≡ below (suc v) pixels = omega (arith, a, below-suc v pixels) in
    elim (Bool-cases (leb target (acc + hist pixels v))) [
      | inl r ↦
          rw r (record { byte = omega (arith, e); reached = ground (arith, r, a'); least = h })
      | inr r ↦ rw r (
          scan-Meters pixels target n (suc v) (acc + hist pixels v) (omega (arith, e)) a' t
            (earlier r a'))
    ]
  where
    earlier :
        leb target (acc + hist pixels v) ≡ false
        → acc + hist pixels v ≡ below (suc v) pixels
        → (u : ℕ) → u < suc v
        → below (suc u) pixels < target
    earlier r a' u l = elim (Bool-cases (u == v)) [
      | inl q ↦
          let q' : u ≡ v = ground (arith, q) in
          lpr_refactored.Prelude.subst (λ x. below (suc x) pixels < target) (sym q')
            (ground (arith, r, a'))
      | inr q ↦ h u (ground (arith, q, l))
    ]

-- The level that the metering returns for an image of bytes with at least one pixel is a byte; at
-- least the target number of pixels, which is not above their number, are not above it, and for
-- every lower level fewer than the target are not above that one.
pub metered-Meters :
    (pixels : List ℕ) (target : ℕ)
    → 0 < length pixels
    → All (λ p. p < 256) pixels
    → target ≤ length pixels
    → Meters pixels target (metered pixels target)
unfolding metered
metered-Meters [] target z b t = absurd (omega (arith, z))
metered-Meters (p ∷ l) target z b t =
    scan-Meters (p ∷ l) target 256 0 0 refl (sym (below-zero (p ∷ l)))
      (omega (arith, t, below-all 256 (p ∷ l) b)) (λ u h. absurd (omega (arith, h)))
