-- ===== src/Recording/Prune/Budget.antt =====
-- What a retention pass reaches.
use native.Mathlib.Nat.{le_trans}
use lpr_refactored.Prelude.{
  ℕ, ◌+◌, ◌-◌, ◌≤◌, ◌<◌, ◌≡◌, refl, Bool, true, false, ◌&&◌, List, [], ◌∷◌, arith, if◌then◌else◌,
  Text, ltb, leb, Bool-cases, Option-cases, inl, inr, leb→le, lt→ltb, ◌∙◌, sym,
}
use lpr_refactored.Recording.Prune.{
  Entry, Item, FileSystem, Config, collect, remove_if, age_pass, insert_item, sort_items, cap_pass,
  floor_pass, prune, enough, add_candidate, candidate, count_gone, try_remove, idle,
}

unfoldable pub sum : List Item → ℕ
sum [] = 0
sum (it ∷ items) = it.size + sum items

-- Every removal succeeds.
abbrev pub Removes : FileSystem → Type 0
Removes fs = (p : Text) → fs.removes p ≡ true

remove_if_sizes :
    (fs : FileSystem) (test : Bool) (it : Item) (total : ℕ)
    → fs.removes it.path ≡ true
    → it.size ≤ total
    → let (it', total', gone) = remove_if fs test it total in
      (it'.size ≡ (if test then 0 else it.size))
      × (total' + it.size ≡ total + it'.size)
      × (it'.mtime ≡ it.mtime)
unfolding remove_if
remove_if_sizes fs test it total r h = ground arith

pub remove_if_mtime :
    (fs : FileSystem) (test : Bool) (it : Item) (total : ℕ)
    → (remove_if fs test it total).0.mtime ≡ it.mtime
unfolding remove_if try_remove
remove_if_mtime fs test it total = ground arith

pub remove_if_empties :
    (fs : FileSystem) (it : Item) (total : ℕ)
    → fs.removes it.path ≡ true
    → (remove_if fs (ltb 0 it.size) it total).0.size ≡ 0
unfolding remove_if try_remove
remove_if_empties fs it total r = ground arith

cap_pass_total :
    (fs : FileSystem) (cap : ℕ) (items : List Item) (total : ℕ)
    → Removes fs
    → total ≡ sum items
    → sum (cap_pass fs cap items total).items ≤ cap
unfolding cap_pass sum
cap_pass_total fs cap [] total r h = omega arith
cap_pass_total fs cap (it ∷ items) total r h = elim (Bool-cases (leb total cap)) [
  | inl e ↦ rw e (omega (arith, leb→le total cap e))
  | inr e ↦
      let test = ltb 0 it.size in
      let one = remove_if_sizes fs test it total (r it.path) (omega arith) in
      let ih = cap_pass_total fs cap items (remove_if fs test it total).1 r in
      rw e (ground (arith, one, ih))
]

age_pass_total :
    (fs : FileSystem) (cutoff base : ℕ) (items : List Item) (total : ℕ)
    → Removes fs
    → total ≡ base + sum items
    → (age_pass fs cutoff items total).total ≡ base + sum (age_pass fs cutoff items total).items
unfolding age_pass sum
age_pass_total fs cutoff base [] total r h = omega arith
age_pass_total fs cutoff base (it ∷ items) total r h =
    let test = ltb 0 it.size && ltb it.mtime cutoff in
    let step = remove_if fs test it total in
    let one = remove_if_sizes fs test it total (r it.path) (omega arith) in
    let ih = age_pass_total fs cutoff (base + step.0.size) items step.1 r (omega (arith, one.1)) in
    omega (arith, ih)

floor_pass_total :
    (fs : FileSystem) (min n : ℕ) (items : List Item) (total : ℕ)
    → Removes fs
    → sum (floor_pass fs min n items total).items ≤ sum items
unfolding floor_pass sum remove_if try_remove
floor_pass_total fs min n [] total r = omega arith
floor_pass_total fs min n (it ∷ items) total r = elim (Bool-cases (enough (fs.available n) min)) [
  | inl e ↦ rw e (omega arith)
  | inr e ↦
      let step = remove_if fs (ltb 0 it.size) it total in
      rw e (ground (arith, floor_pass_total fs min (n + count_gone step.2) items step.1 r))
]

sum-insert_item : (it : Item) (items : List Item) → sum (insert_item it items) ≡ it.size + sum items
unfolding insert_item sum
sum-insert_item it [] = omega arith
sum-insert_item it (x ∷ xs) = elim (Bool-cases (leb it.mtime x.mtime)) [
  | inl e ↦ rw e (omega arith)
  | inr e ↦ rw e (omega (arith, sum-insert_item it xs))
]

sum-sort_items : (items : List Item) → sum (sort_items items) ≡ sum items
unfolding sort_items sum
sum-sort_items [] = refl
sum-sort_items (it ∷ items) =
    omega (arith, sum-insert_item it (sort_items items), sum-sort_items items)

collect_total :
    (fs : FileSystem) (cfg : Config) (active : List Text) (es : List Entry)
    → (collect fs cfg active es).1 ≡ sum (collect fs cfg active es).0
unfolding collect sum
collect_total fs cfg active [] = refl
collect_total fs cfg active (e ∷ es) = elim (Option-cases (candidate fs cfg active e)) [
  | inl h ↦ rw (h, add_candidate) (collect_total fs cfg active es)
  | inr (it, h) ↦ rw (h, add_candidate) (omega (arith, collect_total fs cfg active es))
]

age_or_idle :
    (test : Bool) (fs : FileSystem) (cutoff : ℕ) (items : List Item) (total : ℕ)
    → Removes fs
    → total ≡ sum items
    → let p = (if test then age_pass fs cutoff items total else idle items total) in
      p.total ≡ sum p.items
age_or_idle true fs cutoff items total r h =
    omega (arith, age_pass_total fs cutoff 0 items total r (omega arith))
age_or_idle false fs cutoff items total r h = h

floor_or_idle :
    (test : Bool) (fs : FileSystem) (min n : ℕ) (items : List Item) (total : ℕ)
    → Removes fs
    → sum (if test then floor_pass fs min n items total else idle items total).items ≤ sum items
floor_or_idle true fs min n items total r = floor_pass_total fs min n items total r
floor_or_idle false fs min n items total r = omega arith

-- With a size cap set and removals that succeed, the files of ours that a pass leaves, other than
-- the open segments, take up no more than the cap, whatever the other settings and the disk are.
pub prune_under_cap :
    (fs : FileSystem) (cfg : Config) (active : List Text) (now : ℕ)
    → 0 < cfg.max_total_bytes
    → Removes fs
    → sum (prune fs cfg active now).items ≤ cfg.max_total_bytes
unfolding prune
prune_under_cap fs cfg active now h r =
    let items = (collect fs cfg active fs.listing).0 in
    let total = (collect fs cfg active fs.listing).1 in
    let aged =
      age_or_idle (ltb 0 cfg.retention) fs (now - cfg.retention) items total r
        (collect_total fs cfg active fs.listing) in
    rw (lt→ltb _ _ h) (
      le_trans (floor_or_idle (ltb 0 cfg.min_free_bytes) fs cfg.min_free_bytes _ _ _ r)
        (cap_pass_total fs cfg.max_total_bytes _ _ r (aged ∙ sym (sum-sort_items _))))
