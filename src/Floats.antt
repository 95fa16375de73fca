-- ===== src/Floats.antt =====
-- The doubles of the program, as an interface: the operations that the code uses, and the laws of
-- their order away from NaN. Nothing is assumed of rounding.
use lpr_refactored.Prelude.{
  ℕ, ◌+◌, ◌-◌, ◌*◌, ◌/◌, ◌≡◌, Bool, true, false, not, if◌then◌else◌, ltb, arith,
}

pub record Float : Type 1 where
  pub Num : Type 0
  pub lt : Num → Num → Bool
  pub add : Num → Num → Num
  pub sub : Num → Num → Num
  pub mul : Num → Num → Num
  pub div : Num → Num → Num
  pub ratio : ℕ → ℕ → Num  -- a literal or a conversion, as a quotient of integers
  pub lt_irrefl : (a : Num) → lt a a ≡ false
  pub lt_asymm : (a b : Num) → lt a b ≡ true → lt b a ≡ false
  pub not_lt_trans : (a b c : Num) → lt b a ≡ false → lt c b ≡ false → lt c a ≡ false

module _ (F : Float) where
  open F use {Num, lt, sub}

  -- a <= b, for numbers that are no NaN.
  abbrev pub le : Num → Num → Bool
  le a b = not (lt b a)

  -- std::max and std::min.
  abbrev pub fmax : Num → Num → Num
  fmax a b = if lt a b then b else a

  abbrev pub fmin : Num → Num → Num
  fmin a b = if lt b a then b else a

  -- std::fabs
  abbrev pub fabs : Num → Num
  fabs a = if lt a (F.ratio 0 1) then sub (F.ratio 0 1) a else a

-- The laws hold of the natural numbers, which serve where a test needs numbers that compute.
pub ltb_irrefl : (a : ℕ) → ltb a a ≡ false
ltb_irrefl a = ground arith

pub ltb_asymm : (a b : ℕ) → ltb a b ≡ true → ltb b a ≡ false
ltb_asymm a b h = ground arith

pub not_ltb_trans : (a b c : ℕ) → ltb b a ≡ false → ltb c b ≡ false → ltb c a ≡ false
not_ltb_trans a b c h k = ground arith

abbrev pub naturals : Float
naturals = record {
  Num = ℕ;
  lt = ltb;
  add = ◌+◌;
  sub = ◌-◌;
  mul = ◌*◌;
  div = ◌/◌;
  ratio = ◌/◌;
  lt_irrefl = ltb_irrefl;
  lt_asymm = ltb_asymm;
  not_lt_trans = not_ltb_trans;
}

-- The signs of doubles that are no NaN: sums and products of numbers that are not negative are not
-- negative, nor is a conversion of an unsigned integer; -1 is below 0.
module _ (F : Float) where
  open F use {Num, lt, add, sub, mul, ratio}

  pub record IsSigned : Type 0 where
    pub minus_one_lt : lt (sub (ratio 0 1) (ratio 1 1)) (ratio 0 1) ≡ true
    pub add_nonneg :
        (a b : Num)
        → lt a (ratio 0 1) ≡ false
        → lt b (ratio 0 1) ≡ false
        → lt (add a b) (ratio 0 1) ≡ false
    pub mul_nonneg :
        (a b : Num)
        → lt a (ratio 0 1) ≡ false
        → lt b (ratio 0 1) ≡ false
        → lt (mul a b) (ratio 0 1) ≡ false
    pub ratio_nonneg : (n : ℕ) → lt (ratio n 1) (ratio 0 1) ≡ false

pub lt_of_lt_of_not_lt :
    (F : Float) (a b c : F.Num) → F.lt a b ≡ true → F.lt c b ≡ false → F.lt a c ≡ true
lt_of_lt_of_not_lt F a b c h k = ground (arith, F.not_lt_trans b c a)

-- The integers from -1 on, each by its successor: numbers that compute, with a sign.
abbrev pub shifted : Float
shifted = record {
  Num = ℕ;
  lt = ltb;
  add = λ a b. a + b - 1;
  sub = λ a b. a + 1 - b;
  mul = λ a b. (a - 1) * (b - 1) + 1;
  div = λ a b. (a - 1) / (b - 1) + 1;
  ratio = λ a b. a / b + 1;
  lt_irrefl = ltb_irrefl;
  lt_asymm = ltb_asymm;
  not_lt_trans = not_ltb_trans;
}

pub shifted-IsSigned : IsSigned shifted
shifted-IsSigned = record {
  minus_one_lt = ground arith;
  add_nonneg = λ a b h k. ground arith;
  mul_nonneg = λ a b h k. ground arith;
  ratio_nonneg = λ n. ground arith;
}
