-- ===== src/PlateProcessor/Vote.antt =====
-- The weighted vote.
use lpr_refactored.Prelude.{
  ◌≡◌, refl, ap, subst, Bool, true, false, ◌||◌, some, List, [], ◌∷◌, arith, if◌then◌else◌, Text,
  text_eq, text_eq_iff, text_eq_refl, Dict, lookup, insert, lookup-insert, HasUniqueKeys,
  HasUniqueKeys-insert, lookup_none_of_contains, ◌⊎◌, inl, inr, All,
}
use lpr_refactored.Floats.{Float, IsSigned, lt_of_lt_of_not_lt}
use lpr_refactored.PlateProcessor.{weight_or_zero, tally, heaviest, minus_one, weighted_consensus}

-- Some read has the text.
unfoldable pub mentions {ℓ} : {A : Type ℓ} → Text → List (Text × A) → Bool
mentions t [] = false
mentions t ((u, w) ∷ reads) = text_eq u t || mentions t reads

module _ (F : Float) where
  open F use {Num, lt, add, ratio}

  -- The weights of the reads with the text, summed from the oldest on.
  pub total : Text → List (Text × Num) → Num → Num
  total t [] sum = sum
  total t ((u, w) ∷ reads) sum = total t reads (if text_eq u t then add sum w else sum)

  -- A weight that is not negative.
  abbrev pub IsWeight : Text × Num → Type 0
  IsWeight r = lt r.1 (ratio 0 1) ≡ false

  heaviest_floor : (d : Dict Num) (b : Text × Num) → lt (heaviest F d b).1 b.1 ≡ false
  unfolding heaviest
  heaviest_floor [] b = F.lt_irrefl b.1
  heaviest_floor ((t, w) ∷ d) b = ground (
    arith,
    heaviest_floor d (t, w),
    heaviest_floor d b,
    F.lt_asymm b.1 w,
    F.not_lt_trans b.1 w (heaviest F d (t, w)).1,
  )

  heaviest_max :
      (d : Dict Num) (b : Text × Num) (t : Text) (v : Num)
      → lookup t d ≡ some v
      → lt (heaviest F d b).1 v ≡ false
  unfolding heaviest lookup
  heaviest_max [] b t v h = cc
  heaviest_max ((u, w) ∷ d) b t v h = ground (
    arith,
    heaviest_max d (u, w) t v,
    heaviest_max d b t v,
    heaviest_floor d (u, w),
    heaviest_floor d b,
    F.not_lt_trans w b.1 (heaviest F d b).1,
  )

  heaviest_found :
      (d : Dict Num) (b : Text × Num)
      → HasUniqueKeys d
      → (heaviest F d b ≡ b) ⊎ (lookup (heaviest F d b).0 d ≡ some (heaviest F d b).1)
  unfolding heaviest lookup
  heaviest_found [] b u = inl refl
  heaviest_found ((t, w) ∷ d) b u = ground (
    arith,
    heaviest_found d (t, w) u.1,
    heaviest_found d b u.1,
    text_eq_refl t,
    text_eq_iff t (heaviest F d (t, w)).0,
    text_eq_iff t (heaviest F d b).0,
    lookup_none_of_contains t d u.0,
  )

  tally-HasUniqueKeys :
      (reads : List (Text × Num)) (d : Dict Num) → HasUniqueKeys d → HasUniqueKeys (tally F reads d)
  unfolding tally
  tally-HasUniqueKeys [] d u = u
  tally-HasUniqueKeys ((t, w) ∷ reads) d u =
      tally-HasUniqueKeys reads _
        (HasUniqueKeys-insert t (add (weight_or_zero F (lookup t d)) w) d u)

  total_absent :
      (reads : List (Text × Num)) (t : Text) (sum : Num)
      → mentions t reads ≡ false
      → total t reads sum ≡ sum
  unfolding total mentions
  total_absent [] t sum h = refl
  total_absent ((u, w) ∷ reads) t sum h = ground (arith, total_absent reads t sum)

  lookup-tally :
      (reads : List (Text × Num)) (d : Dict Num) (t : Text)
      → lookup t (tally F reads d) ≡ (
          if mentions t reads
          then some (total t reads (weight_or_zero F (lookup t d)))
          else lookup t d)
  unfolding tally mentions total
  lookup-tally [] d t = refl
  lookup-tally ((u, w) ∷ reads) d t = ground (
    arith,
    lookup-tally reads (insert u (add (weight_or_zero F (lookup u d)) w) d) t,
    lookup-insert u t (add (weight_or_zero F (lookup u d)) w) d,
    text_eq_iff u t,
    total_absent reads t (add (weight_or_zero F (lookup t d)) w),
    ap (λ k. lookup k d),
  )

  total_nonneg :
      IsSigned F
      → (reads : List (Text × Num)) (t : Text) (sum : Num) → All IsWeight reads
      → lt sum (ratio 0 1) ≡ false
      → lt (total t reads sum) (ratio 0 1) ≡ false
  unfolding total
  total_nonneg S [] t sum h k = k
  total_nonneg S ((u, w) ∷ reads) t sum h k = ground (
    arith,
    total_nonneg S reads t (add sum w) h.1,
    total_nonneg S reads t sum h.1 k,
    S.add_nonneg sum w k h.0,
  )

  mentions_first : (r : Text × Num) (reads : List (Text × Num)) → mentions r.0 (r ∷ reads) ≡ true
  unfolding mentions
  mentions_first r reads = ground (arith, text_eq_refl r.0)

  -- The winner of the table, wherever the table has an entry.
  elected :
      IsSigned F
      → (reads : List (Text × Num)) (t : Text) → All IsWeight reads
      → mentions t reads ≡ true
      → (b : Text × Num) → heaviest F (tally F reads []) ([], minus_one F) ≡ b
      → (b ≡ ([], minus_one F)) ⊎ (lookup b.0 (tally F reads []) ≡ some b.1)
      → (mentions b.0 reads ≡ true)
        × ((u : Text)
            → mentions u reads ≡ true
            → lt (total b.0 reads (ratio 0 1)) (total u reads (ratio 0 1)) ≡ false)
  unfolding lookup
  elected S reads t h m b e f =
      let best_max : (u : Text)
          → mentions u reads ≡ true
          → lt b.1 (total u reads (ratio 0 1)) ≡ false =
        λ u k.
          subst (λ c. lt c.1 (total u reads (ratio 0 1)) ≡ false) e
            (heaviest_max (tally F reads []) ([], minus_one F) u _
              (ground (arith, lookup-tally reads [] u))) in
      elim f [
        | inl o ↦ absurd (
            ground (
              arith,
              best_max t m,
              lt_of_lt_of_not_lt F (minus_one F) (ratio 0 1) (total t reads (ratio 0 1))
                  S.minus_one_lt (total_nonneg S reads t (ratio 0 1) h (S.ratio_nonneg 0)),
            ))
        | inr o ↦ (
          ground (arith, lookup-tally reads [] b.0),
          λ u k. ground (arith, lookup-tally reads [] b.0, best_max u k),
        )
      ]

  -- Of reads whose weights are not negative, the vote elects a text that some read has, and no text
  -- of a read has a larger sum of weights: the text is always one that a frame produced.
  pub weighted_consensus_lem :
      IsSigned F
      → (r : Text × Num) (reads : List (Text × Num)) → All IsWeight (r ∷ reads)
      → (mentions (weighted_consensus F (r ∷ reads)) (r ∷ reads) ≡ true)
        × ((t : Text)
            → mentions t (r ∷ reads) ≡ true
            → lt
                (total (weighted_consensus F (r ∷ reads)) (r ∷ reads) (ratio 0 1))
                (total t (r ∷ reads) (ratio 0 1))
              ≡ false)
  unfolding weighted_consensus
  weighted_consensus_lem S r reads h =
      elected S (r ∷ reads) r.0 h (mentions_first r reads)
        (heaviest F (tally F (r ∷ reads) []) ([], minus_one F)) refl
        (heaviest_found (tally F (r ∷ reads) []) ([], minus_one F)
          (tally-HasUniqueKeys (r ∷ reads) [] tt))
