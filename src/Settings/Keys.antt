-- ===== src/Settings/Keys.antt =====
-- A decimal number and the key of a polygon can be read back.
use lpr_refactored.Prelude.{
  ℕ, zero, suc, ◌+◌, ◌-◌, ◌*◌, ◌/◌, ◌%◌, ◌≡◌, ◌≤◌, ◌<◌, refl, sym, ap, subst, ◌∙◌, [], ◌∷◌, ◌++◌,
  arith, ltb, All, All-append, Text, to_string, digits_fuel, Bool-cases, ltb→lt, false, inl, inr,
}
use lpr_refactored.Settings.{make_pts_key}

ltb_false→le : (a b : ℕ) → ltb a b ≡ false → b ≤ a
ltb_false→le a b h = ground arith

-- The number that digits stand for, after the number of the digits before.
abbrev value_from : ℕ → Text → ℕ
value_from a [] = a
value_from a (c ∷ cs) = value_from (a * 10 + (c - 48)) cs

value_from-append : (a : ℕ) (s t : Text) → value_from a (s ++ t) ≡ value_from (value_from a s) t
value_from-append a [] t = refl
value_from-append a (c ∷ s) t = value_from-append (a * 10 + (c - 48)) s t

value_from-digits_fuel : (f n : ℕ) → n < f → value_from 0 (digits_fuel f n) ≡ n
unfolding digits_fuel
value_from-digits_fuel zero n h = absurd (omega (arith, h))
value_from-digits_fuel (suc f) n h = elim (Bool-cases (ltb n 10)) [
  | inl e ↦ rw e (omega arith)
  | inr e ↦
      rw
        (
          e,
          value_from-append 0 (digits_fuel f (n / 10)) ((48 + n % 10) ∷ []),
          value_from-digits_fuel f (n / 10) (omega (arith, h, ltb_false→le n 10 e)),
        )
        (omega arith)
]

pub to_string_injective : (m n : ℕ) → to_string m ≡ to_string n → m ≡ n
unfolding to_string
to_string_injective m n e =
    sym (value_from-digits_fuel (suc m) m (omega arith))
    ∙ ap (value_from 0) e
    ∙ value_from-digits_fuel (suc n) n (omega arith)

abbrev IsDigit : ℕ → Type 0
IsDigit c = (48 ≤ c) × (c ≤ 57)

digits_fuel-IsDigit : (f n : ℕ) → All IsDigit (digits_fuel f n)
unfolding digits_fuel
digits_fuel-IsDigit zero n = tt
digits_fuel-IsDigit (suc f) n = elim (Bool-cases (ltb n 10)) [
  | inl e ↦ rw e ((omega arith, omega (arith, ltb→lt n 10 e)), tt)
  | inr e ↦ rw e (
      All-append IsDigit (digits_fuel f (n / 10)) ((48 + n % 10) ∷ [])
        (digits_fuel-IsDigit f (n / 10)) ((omega arith, omega arith), tt))
]

to_string-IsDigit : (n : ℕ) → All IsDigit (to_string n)
unfolding to_string
to_string-IsDigit n = digits_fuel-IsDigit (suc n) n

-- Digits end at the first other character.
split_at :
    (c : ℕ) (s t r q : Text)
    → ¬ (IsDigit c)
    → All IsDigit s
    → All IsDigit t
    → s ++ c ∷ r ≡ t ++ c ∷ q
    → (s ≡ t) × (r ≡ q)
split_at c [] [] r q n h k e = (refl, cc)
split_at c [] (d ∷ t) r q n h k e = let same : d ≡ c = cc in absurd (n (subst IsDigit same k.0))
split_at c (a ∷ s) [] r q n h k e = let same : a ≡ c = cc in absurd (n (subst IsDigit same h.0))
split_at c (a ∷ s) (d ∷ t) r q n h k e =
    let head : a ≡ d = cc in
    let rest : s ++ c ∷ r ≡ t ++ c ∷ q = cc in
    let both = split_at c s t r q n h.1 k.1 rest in (cc, both.1)

-- The key of a polygon tells its camera and its size.
pub make_pts_key_injective :
    (i w h j v k : ℕ) → make_pts_key i w h ≡ make_pts_key j v k → (i ≡ j) × (w ≡ v) × (h ≡ k)
unfolding make_pts_key
make_pts_key_injective i w h j v k e =
    let first =
      split_at 95 (to_string i) (to_string j) _ _ (λ d. omega (arith, d.1)) (to_string-IsDigit i)
        (to_string-IsDigit j) e in
    let second =
      split_at 120 (to_string w) (to_string v) _ _ (λ d. omega (arith, d.1)) (to_string-IsDigit w)
        (to_string-IsDigit v) first.1 in
    (
      to_string_injective i j first.0,
      to_string_injective w v second.0,
      to_string_injective h k second.1,
    )
