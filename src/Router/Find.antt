-- ===== src/Router/Find.antt =====
-- What the deep search finds.
use lpr_refactored.Prelude.{
  ◌≡◌, refl, Option, none, some, List, [], ◌∷◌, ◌++◌, arith, if◌then◌else◌, Text, text_eq,
}
use lpr_refactored.Router.{
  Json, Items, Fields, null, boolean, integer, real, text, array, object, nil, item, end, field,
  get_field, or_else, find_key_deep, find_in_items, find_in_fields,
}

-- The values of an object's own entries with the key.
unfoldable pub own : Text → Fields → List Json
own k end = []
own k (field j v fs) = if text_eq j k then v ∷ own k fs else own k fs

-- Every value that stands under the key, at any depth: an object's own before those inside it.
unfoldable mutual
  unfolding own

  pub values : Text → Json → List Json
  values k null = []
  values k (boolean b) = []
  values k (integer z) = []
  values k (real z) = []
  values k (text t) = []
  values k (array xs) = values_in_items k xs
  values k (object fs) = own k fs ++ values_in_fields k fs

  pub values_in_items : Text → Items → List Json
  values_in_items k nil = []
  values_in_items k (item v xs) = values k v ++ values_in_items k xs

  pub values_in_fields : Text → Fields → List Json
  values_in_fields k end = []
  values_in_fields k (field j v fs) = values k v ++ values_in_fields k fs

abbrev pub first : List Json → Option Json
first [] = none
first (v ∷ vs) = some v

first-append :
    (xs ys : List Json) (a b : Option Json)
    → a ≡ first xs
    → b ≡ first ys
    → or_else a b ≡ first (xs ++ ys)
first-append [] ys a b h k = ground (arith, h, k)
first-append (x ∷ xs) ys a b h k = ground (arith, h)

get_field-own : (k : Text) (fs : Fields) → get_field k fs ≡ first (own k fs)
unfolding get_field own
get_field-own k end = refl
get_field-own k (field j v fs) = ground (arith, get_field-own k fs)

mutual
  unfolding find_key_deep values

  find-values : (k : Text) (j : Json) → find_key_deep k j ≡ first (values k j)
  find-values k null = refl
  find-values k (boolean b) = refl
  find-values k (integer z) = refl
  find-values k (real z) = refl
  find-values k (text t) = refl
  find-values k (array xs) = find_items-values k xs
  find-values k (object fs) =
      first-append (own k fs) _ (get_field k fs) _ (get_field-own k fs) (find_fields-values k fs)

  find_items-values : (k : Text) (xs : Items) → find_in_items k xs ≡ first (values_in_items k xs)
  find_items-values k nil = refl
  find_items-values k (item v xs) =
      first-append (values k v) _ (find_key_deep k v) _ (find-values k v) (find_items-values k xs)

  find_fields-values :
      (k : Text) (fs : Fields) → find_in_fields k fs ≡ first (values_in_fields k fs)
  find_fields-values k end = refl
  find_fields-values k (field j v fs) =
      first-append (values k v) _ (find_key_deep k v) _ (find-values k v) (find_fields-values k fs)

-- The search returns the first of all the values that stand under the key anywhere in the message,
-- an object's own entry before those nested in it, and nothing exactly when there is no such value.
pub find_key_deep-values : (k : Text) (j : Json) → find_key_deep k j ≡ first (values k j)
find_key_deep-values k j = find-values k j
