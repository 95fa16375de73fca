-- ===== src/Capture/Faults.antt =====
-- The faults of each camera, by its own grabs.
use lpr_refactored.Prelude.{
  ℕ, zero, suc, ◌≡◌, refl, sym, ap, subst, ◌∙◌, Bool, true, false, ◌||◌, List, [], ◌∷◌, arith, leb,
  if◌then◌else◌, Text, text_eq, Dict, lookup, lookup-insert, lookup-erase, text_eq_refl,
  text_eq_iff, Bool-cases, inl, inr, le→leb,
}
use lpr_refactored.Capture.{GrabStatus, is_ok, is_device_error, fail_threshold, count_of, grab}

-- The grabs of all cameras, each with whether it is a fault.
unfoldable pub grabs : List (Text × GrabStatus) → Dict ℕ → List (Text × Bool)
unfolding grab
grabs [] d = []
grabs ((s, st) ∷ l) d = let (d', fault) = grab s st d in (s, fault) ∷ grabs l d'

-- The entries of one camera.
unfoldable pub of_camera : {A : Type 0} → Text → List (Text × A) → List A
of_camera s [] = []
of_camera s ((t, a) ∷ l) = let rest = of_camera s l in if text_eq t s then a ∷ rest else rest

-- One camera by itself: a device error is a fault, and so is the third failure in a row after the
-- last success or fault.
pub watch : ℕ → List GrabStatus → List Bool
watch n [] = []
watch n (GrabStatus.ok ∷ l) = false ∷ watch 0 l
watch n (GrabStatus.device_error ∷ l) = true ∷ watch 0 l
watch zero (st ∷ l) = false ∷ watch 1 l
watch (suc zero) (st ∷ l) = false ∷ watch 2 l
watch (suc (suc n)) (st ∷ l) = true ∷ watch 0 l

-- The count after a grab.
abbrev after : GrabStatus → ℕ → ℕ
after st n =
    if is_ok st then 0 else (if is_device_error st || leb fail_threshold (suc n) then 0 else suc n)

abbrev faulty : GrabStatus → ℕ → Bool
faulty st n = if is_ok st then false else (is_device_error st || leb fail_threshold (suc n))

watch-step :
    (n : ℕ) (st : GrabStatus) (l : List GrabStatus)
    → watch n (st ∷ l) ≡ faulty st n ∷ watch (after st n) l
unfolding watch
watch-step n GrabStatus.ok l = refl
watch-step n GrabStatus.device_error l = refl
watch-step zero GrabStatus.timeout l = refl
watch-step (suc zero) GrabStatus.timeout l = refl
watch-step (suc (suc n)) GrabStatus.timeout l =
    rw (le→leb fail_threshold (suc (suc (suc n))) (omega arith)) refl
watch-step zero GrabStatus.bad_frame l = refl
watch-step (suc zero) GrabStatus.bad_frame l = refl
watch-step (suc (suc n)) GrabStatus.bad_frame l =
    rw (le→leb fail_threshold (suc (suc (suc n))) (omega arith)) refl

grab-faulty :
    (s : Text) (st : GrabStatus) (d : Dict ℕ) → (grab s st d).1 ≡ faulty st (count_of (lookup s d))
unfolding grab
grab-faulty s st d = ground arith

grab-after :
    (s : Text) (st : GrabStatus) (d : Dict ℕ)
    → count_of (lookup s (grab s st d).0) ≡ after st (count_of (lookup s d))
unfolding grab
grab-after s st d =
    ground
      (arith, lookup-erase s s d, text_eq_refl s, lookup-insert s s (suc (count_of (lookup s d))) d)

grab-other :
    (s t : Text) (st : GrabStatus) (d : Dict ℕ)
    → text_eq s t ≡ false
    → lookup t (grab s st d).0 ≡ lookup t d
unfolding grab
grab-other s t st d e =
    ground (arith, e, lookup-erase s t d, lookup-insert s t (suc (count_of (lookup s d))) d)

-- Whatever the order in which the cameras are grabbed, the faults of a camera are those that its own
-- grabs give: each device error, and each third failure in a row, counted from its last success or
-- fault; the grabs of the others do not count.
pub grabs-watch :
    (s : Text) (l : List (Text × GrabStatus)) (d : Dict ℕ)
    → of_camera s (grabs l d) ≡ watch (count_of (lookup s d)) (of_camera s l)
unfolding grabs of_camera watch
grabs-watch s [] d = refl
grabs-watch s ((t, st) ∷ l) d = elim (Bool-cases (text_eq t s)) [
  | inr e ↦ rw e (
      grabs-watch s l (grab t st d).0
      ∙ ap (λ o. watch (count_of o) (of_camera s l)) (grab-other t s st d e))
  | inl e ↦
      let same : t ≡ s = (text_eq_iff t s).0 e in
      rw e (
        subst
          (λ u.
            (grab u st d).1 ∷ of_camera s (grabs l (grab u st d).0)
            ≡ watch (count_of (lookup s d)) (st ∷ of_camera s l))
          (sym same)
          (ap (λ b. b ∷ of_camera s (grabs l (grab s st d).0)) (grab-faulty s st d)
            ∙ ap (λ x. faulty st (count_of (lookup s d)) ∷ x)
                (grabs-watch s l (grab s st d).0
                  ∙ ap (λ n. watch n (of_camera s l)) (grab-after s st d))
            ∙ sym (watch-step (count_of (lookup s d)) st (of_camera s l))))
]
