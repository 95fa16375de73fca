-- ===== src/Recording/Prune/Oldest.antt =====
-- The order of deletion of the size-cap pass.
use lpr_refactored.Prelude.{
  ℕ, ◌≤◌, ◌<◌, ◌≡◌, Bool, true, false, List, [], ◌∷◌, ◌++◌, arith, ltb, leb, Bool-cases, inl, inr,
  leb→le,
}
use lpr_refactored.Recording.Prune.{
  Item, FileSystem, remove_if, insert_item, sort_items, cap_pass, try_remove,
}
use lpr_refactored.Recording.Prune.Budget.{Removes, remove_if_mtime, remove_if_empties}

-- The pass over the sorted items.
abbrev pub From : ℕ → List Item → Type 0
From m [] = Unit {0}
From m (it ∷ items) = (m ≤ it.mtime) × From m items

abbrev pub Sorted : List Item → Type 0
Sorted [] = Unit {0}
Sorted (it ∷ items) = From it.mtime items × Sorted items

From-mono : (m n : ℕ) (items : List Item) → m ≤ n → From n items → From m items
From-mono m n [] h f = tt
From-mono m n (it ∷ items) h f = (omega arith, From-mono m n items h f.1)

From-insert_item :
    (m : ℕ) (it : Item) (items : List Item)
    → m ≤ it.mtime
    → From m items
    → From m (insert_item it items)
unfolding insert_item
From-insert_item m it [] h f = (h, tt)
From-insert_item m it (x ∷ xs) h f = ground (arith, From-insert_item m it xs h f.1)

insert_item-Sorted : (it : Item) (items : List Item) → Sorted items → Sorted (insert_item it items)
unfolding insert_item
insert_item-Sorted it [] s = (tt, tt)
insert_item-Sorted it (x ∷ xs) s = elim (Bool-cases (leb it.mtime x.mtime)) [
  | inl e ↦ rw e ((leb→le _ _ e, From-mono it.mtime x.mtime xs (leb→le _ _ e) s.0), s)
  | inr e ↦ rw e (From-insert_item x.mtime it xs (ground arith) s.0, insert_item-Sorted it xs s.1)
]

pub sort_items-Sorted : (items : List Item) → Sorted (sort_items items)
unfolding sort_items
sort_items-Sorted [] = tt
sort_items-Sorted (it ∷ items) = insert_item-Sorted it (sort_items items) (sort_items-Sorted items)

-- What is still there, of an item list, is not older than a time.
abbrev pub LeftFrom : ℕ → List Item → Type 0
LeftFrom m [] = Unit {0}
LeftFrom m (it ∷ items) = (0 < it.size → m ≤ it.mtime) × LeftFrom m items

abbrev pub OldestFirst : List Item → List Item → Type 0
OldestFirst [] kept = Unit {0}
OldestFirst (d ∷ deleted) kept = LeftFrom d.mtime kept × OldestFirst deleted kept

From-LeftFrom : (m : ℕ) (items : List Item) → From m items → LeftFrom m items
From-LeftFrom m [] f = tt
From-LeftFrom m (it ∷ items) f = (λ _. f.0, From-LeftFrom m items f.1)

cap_pass-LeftFrom :
    (fs : FileSystem) (cap m : ℕ) (items : List Item) (total : ℕ)
    → From m items
    → LeftFrom m (cap_pass fs cap items total).items
unfolding cap_pass
cap_pass-LeftFrom fs cap m [] total f = tt
cap_pass-LeftFrom fs cap m (it ∷ items) total f = elim (Bool-cases (leb total cap)) [
  | inl e ↦ rw e (From-LeftFrom m (it ∷ items) f)
  | inr e ↦
      let step = remove_if fs (ltb 0 it.size) it total in
      rw e (
        (λ _. omega (arith, remove_if_mtime fs (ltb 0 it.size) it total, f.0)),
        cap_pass-LeftFrom fs cap m items step.1 f.1,
      )
]

OldestFirst-cons :
    (deleted : List Item) (it : Item) (kept : List Item)
    → it.size ≡ 0
    → OldestFirst deleted kept
    → OldestFirst deleted (it ∷ kept)
OldestFirst-cons [] it kept h o = tt
OldestFirst-cons (d ∷ deleted) it kept h o =
    (((λ p. absurd (omega arith)), o.0), OldestFirst-cons deleted it kept h o.1)

OldestFirst-append :
    (xs ys kept : List Item)
    → OldestFirst xs kept
    → OldestFirst ys kept
    → OldestFirst (xs ++ ys) kept
OldestFirst-append [] ys kept o p = p
OldestFirst-append (x ∷ xs) ys kept o p = (o.0, OldestFirst-append xs ys kept o.1 p)

remove_if-OldestFirst :
    (fs : FileSystem) (test : Bool) (it : Item) (total : ℕ) (kept : List Item)
    → LeftFrom it.mtime kept
    → OldestFirst (remove_if fs test it total).2 kept
unfolding remove_if try_remove
remove_if-OldestFirst fs true it total kept l = ground arith
remove_if-OldestFirst fs false it total kept l = tt

oldest_first :
    (fs : FileSystem) (cap : ℕ) (items : List Item) (total : ℕ)
    → Removes fs
    → Sorted items
    → OldestFirst (cap_pass fs cap items total).deleted (cap_pass fs cap items total).items
unfolding cap_pass
oldest_first fs cap [] total r s = tt
oldest_first fs cap (it ∷ items) total r s = elim (Bool-cases (leb total cap)) [
  | inl e ↦ rw e tt
  | inr e ↦
      let step = remove_if fs (ltb 0 it.size) it total in
      let rest = cap_pass fs cap items step.1 in
      let empty = remove_if_empties fs it total (r it.path) in
      rw e (
        OldestFirst-cons (step.2 ++ rest.deleted) step.0 rest.items empty (
          OldestFirst-append step.2 rest.deleted rest.items
            (remove_if-OldestFirst fs (ltb 0 it.size) it total rest.items
              (cap_pass-LeftFrom fs cap it.mtime items step.1 s.0))
            (oldest_first fs cap items step.1 r s.1)))
]

-- The size-cap pass over sorted files, with removals that succeed, deletes oldest first: no file
-- that it deletes is newer than one that it leaves (an empty file aside).
pub cap_pass-OldestFirst :
    (fs : FileSystem) (cap : ℕ) (items : List Item) (total : ℕ)
    → Removes fs
    → let p = cap_pass fs cap (sort_items items) total in OldestFirst p.deleted p.items
cap_pass-OldestFirst fs cap items total r =
    oldest_first fs cap (sort_items items) total r (sort_items-Sorted items)
