-- ===== src/Prelude/Dicts.antt =====
-- std::map and std::unordered_map with text keys, as association lists; the list's order stands
-- for the order of iteration.
use mathlib.Core.Path.{◌≡◌, refl, subst}
use mathlib.Core.Logic.{inl, inr}
use mathlib.Core.Bool.{Bool, false, ◌||◌}
use mathlib.Core.List.{List, [], ◌∷◌}
use mathlib.Core.Option.{Option, none, some}
use native.Mathlib.Omega.{arith}
use lpr_refactored.Prelude.Bools.{if◌then◌else◌, Bool-cases}
use lpr_refactored.Prelude.Lists.{All}
use lpr_refactored.Prelude.Texts.{Text, text_eq, text_eq_iff, text_eq_refl}

abbrev pub Dict {ℓ} : Type ℓ → Type ℓ
Dict V = List (Text × V)

module _ {ℓ} {V : Type ℓ} where
  unfoldable pub lookup : Text → Dict V → Option V
  lookup k [] = none
  lookup k ((j, v) ∷ m) = if text_eq j k then some v else lookup k m

  -- `m[k] = v`, or `emplace` where the key is known to be absent.
  unfoldable pub insert : Text → V → Dict V → Dict V
  insert k v [] = (k, v) ∷ []
  insert k v ((j, w) ∷ m) = if text_eq j k then (j, v) ∷ m else (j, w) ∷ insert k v m

  unfoldable pub erase : Text → Dict V → Dict V
  erase k [] = []
  erase k ((j, v) ∷ m) = if text_eq j k then erase k m else (j, v) ∷ erase k m

  -- `for (it = begin; it != end;) if (drop(it)) it = erase(it); else ++it;`
  unfoldable pub erase_if : (V → Bool) → Dict V → Dict V
  erase_if p [] = []
  erase_if p ((j, v) ∷ m) = if p v then erase_if p m else (j, v) ∷ erase_if p m

  unfoldable pub contains : Text → Dict V → Bool
  contains k [] = false
  contains k ((j, v) ∷ m) = text_eq j k || contains k m

  pub lookup-insert :
      (k j : Text) (v : V) (m : Dict V)
      → lookup j (insert k v m) ≡ (if text_eq k j then some v else lookup j m)
  unfolding lookup insert
  lookup-insert k j v [] = refl
  lookup-insert k j v ((i, w) ∷ m) =
      ground (arith, text_eq_iff k j, text_eq_iff i k, text_eq_iff i j, lookup-insert k j v m)

  pub lookup-insert_self : (k : Text) (v : V) (m : Dict V) → lookup k (insert k v m) ≡ some v
  lookup-insert_self k v m = simp (lookup-insert, text_eq_refl)

  pub lookup-erase :
      (k j : Text) (m : Dict V) → lookup j (erase k m) ≡ (if text_eq k j then none else lookup j m)
  unfolding lookup erase
  lookup-erase k j [] = ground arith
  lookup-erase k j ((i, w) ∷ m) =
      ground (arith, text_eq_iff k j, text_eq_iff i k, text_eq_iff i j, lookup-erase k j m)

  pub lookup-erase_self : (k : Text) (m : Dict V) → lookup k (erase k m) ≡ none
  lookup-erase_self k m = simp (lookup-erase, text_eq_refl)

  pub lookup-insert_other :
      (k j : Text) (v : V) (m : Dict V) → text_eq k j ≡ false → lookup j (insert k v m) ≡ lookup j m
  lookup-insert_other k j v m h = simp (lookup-insert, h)

  pub lookup-erase_other :
      (k j : Text) (m : Dict V) → text_eq k j ≡ false → lookup j (erase k m) ≡ lookup j m
  lookup-erase_other k j m h = simp (lookup-erase, h)

  pub contains-false_of_lookup : (k : Text) (m : Dict V) → lookup k m ≡ none → contains k m ≡ false
  unfolding lookup contains
  contains-false_of_lookup k [] h = refl
  contains-false_of_lookup k ((j, v) ∷ m) h = ground (arith, contains-false_of_lookup k m)

-- The keys, each once.
abbrev pub Absent {ℓ} : {V : Type ℓ} → Text → Dict V → Type 0
Absent k m = contains k m ≡ false

abbrev pub HasUniqueKeys {ℓ} : {V : Type ℓ} → Dict V → Type 0
HasUniqueKeys [] = Unit
HasUniqueKeys ((k, v) ∷ m) = Absent k m × HasUniqueKeys m

pub contains-insert {ℓ} :
    {V : Type ℓ} (k j : Text) (v : V) (m : Dict V)
    → contains j (insert k v m) ≡ (text_eq k j || contains j m)
unfolding contains insert
contains-insert k j v [] = ground arith
contains-insert k j v ((i, w) ∷ m) =
    ground (arith, text_eq_iff k j, text_eq_iff i k, text_eq_iff i j, contains-insert k j v m)

pub contains-erase_if {ℓ} :
    {V : Type ℓ} (p : V → Bool) (j : Text) (m : Dict V)
    → contains j m ≡ false
    → contains j (erase_if p m) ≡ false
unfolding contains erase_if
contains-erase_if p j [] h = refl
contains-erase_if p j ((i, w) ∷ m) h = ground (arith, contains-erase_if p j m)

pub lookup_none_of_contains {ℓ} :
    {V : Type ℓ} (k : Text) (m : Dict V) → contains k m ≡ false → lookup k m ≡ none
unfolding lookup contains
lookup_none_of_contains k [] h = refl
lookup_none_of_contains k ((j, v) ∷ m) h = ground (arith, lookup_none_of_contains k m)

-- What a prune leaves of the entry at a key.
abbrev pub surviving {ℓ} : {V : Type ℓ} → (V → Bool) → Option V → Option V
surviving p none = none
surviving p (some v) = if p v then none else some v

pub lookup-erase_if {ℓ} :
    {V : Type ℓ} (p : V → Bool) (k : Text) (m : Dict V)
    → HasUniqueKeys m
    → lookup k (erase_if p m) ≡ surviving p (lookup k m)
unfolding lookup erase_if
lookup-erase_if p k [] u = refl
lookup-erase_if p k ((j, v) ∷ m) u = ground (
  arith,
  text_eq_iff j k,
  lookup-erase_if p k m u.1,
  lookup_none_of_contains j (erase_if p m),
  contains-erase_if p j m u.0,
)

pub HasUniqueKeys-erase_if {ℓ} :
    {V : Type ℓ} (p : V → Bool) (m : Dict V) → HasUniqueKeys m → HasUniqueKeys (erase_if p m)
unfolding erase_if
HasUniqueKeys-erase_if p [] u = tt
HasUniqueKeys-erase_if p ((j, v) ∷ m) u =
    ground (arith, HasUniqueKeys-erase_if p m u.1, contains-erase_if p j m u.0)

pub HasUniqueKeys-insert {ℓ} :
    {V : Type ℓ} (k : Text) (v : V) (m : Dict V) → HasUniqueKeys m → HasUniqueKeys (insert k v m)
unfolding insert contains
HasUniqueKeys-insert k v [] u = (refl, tt)
HasUniqueKeys-insert k v ((j, w) ∷ m) u = ground (
  arith,
  contains-insert k j v m,
  text_eq_iff j k,
  text_eq_iff k j,
  HasUniqueKeys-insert k v m u.1,
)

pub contains-erase {ℓ} :
    {V : Type ℓ} (k j : Text) (m : Dict V) → contains j m ≡ false → contains j (erase k m) ≡ false
unfolding contains erase
contains-erase k j [] h = refl
contains-erase k j ((i, w) ∷ m) h = ground (arith, contains-erase k j m)

pub HasUniqueKeys-erase {ℓ} :
    {V : Type ℓ} (k : Text) (m : Dict V) → HasUniqueKeys m → HasUniqueKeys (erase k m)
unfolding erase
HasUniqueKeys-erase k [] u = tt
HasUniqueKeys-erase k ((j, v) ∷ m) u =
    ground (arith, HasUniqueKeys-erase k m u.1, contains-erase k j m u.0)

-- A predicate of the values.
pub All-insert {ℓ κ} :
    {V : Type ℓ} (P : V → Type κ) (k : Text) (v : V) (m : Dict V)
    → P v
    → All (λ e. P e.1) m
    → All (λ e. P e.1) (insert k v m)
unfolding insert
All-insert P k v [] p h = (p, tt)
All-insert P k v ((j, w) ∷ m) p h = elim (Bool-cases (text_eq j k)) [
  | inl e ↦ rw e (p, h.1)
  | inr e ↦ rw e (h.0, All-insert P k v m p h.1)
]

pub All-erase_if {ℓ κ} :
    {V : Type ℓ} (P : V → Type κ) (q : V → Bool) (m : Dict V)
    → All (λ e. P e.1) m
    → All (λ e. P e.1) (erase_if q m)
unfolding erase_if
All-erase_if P q [] h = tt
All-erase_if P q ((j, w) ∷ m) h = elim (Bool-cases (q w)) [
  | inl e ↦ rw e (All-erase_if P q m h.1)
  | inr e ↦ rw e (h.0, All-erase_if P q m h.1)
]

pub All-lookup {ℓ κ} :
    {V : Type ℓ} (P : V → Type κ) (k : Text) (v : V) (m : Dict V)
    → All (λ e. P e.1) m
    → lookup k m ≡ some v
    → P v
unfolding lookup
All-lookup P k v [] h e = cc
All-lookup P k v ((j, w) ∷ m) h e = elim (Bool-cases (text_eq j k)) [
  | inl t ↦ subst P (ground arith) h.0
  | inr t ↦ All-lookup P k v m h.1 (ground arith)
]
