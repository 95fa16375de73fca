-- ===== src/Recording/Prune.antt =====
-- `RecordingService::pruneOldRecordings` (src/services/RecordingService.cpp): which segment files
-- and directories the retention pass deletes. The file system is a listing, the set of open segments, whether each
-- removal succeeds, what free space it reports after so many removals, and the directories.
pub mod Safety
pub mod Budget
pub mod Oldest
mod Tests
use lpr_refactored.Prelude.{
  ℕ, ◌+◌, ◌-◌, ◌≡◌, Bool, true, false, not, ◌&&◌, ◌||◌, Option, none, some, List, [], ◌∷◌, ◌++◌,
  ltb, leb, length, if◌then◌else◌, Text, text_eq, is_empty,
}

-- An entry of the recursive directory listing. A size or a time that cannot be read is `none`.
pub record Entry : Type 0 where
  pub path : Text
  pub regular : Bool
  pub extension : Text
  pub file_size : Option ℕ
  pub last_write : Option ℕ

pub record Item : Type 0 where
  pub path : Text
  pub size : ℕ
  pub mtime : ℕ

pub record FileSystem : Type 0 where
  pub listing : List Entry
  pub equivalent : Text → Text → Bool
  pub removes : Text → Bool
  pub available : ℕ → Option ℕ  -- after so many removals
  pub directories : List Text  -- listed once the files are gone
  pub removes_directory : Text → Bool

pub record Config : Type 0 where
  pub extension : Text
  pub retention : ℕ  -- 0 is off
  pub max_total_bytes : ℕ  -- 0 is off
  pub min_free_bytes : ℕ  -- 0 is off

-- The variables of the passes, and with the directories removed.
pub record Pass : Type 0 where
  pub items : List Item
  pub total : ℕ
  pub deleted : List Item

pub record Pruned : Type 0 where
  pub items : List Item
  pub total : ℕ
  pub deleted : List Item
  pub directories : List Text

pub is_active : FileSystem → List Text → Text → Bool
is_active fs [] p = false
is_active fs (a ∷ active) p = fs.equivalent p a || is_active fs active p

abbrev pub readable : Text → Option ℕ → Option ℕ → Option Item
readable p none mt = none
readable p (some sz) none = none
readable p (some sz) (some mt) = some (record { path = p; size = sz; mtime = mt })

-- The loop's `continue`s: only files of ours that are not open for writing.
pub candidate : FileSystem → Config → List Text → Entry → Option Item
unfolding is_active
candidate fs cfg active e =
    if not e.regular
    then none
    else if not (text_eq e.extension cfg.extension)
    then none
    else if is_active fs active e.path
    then none
    else readable e.path e.file_size e.last_write

abbrev pub add_candidate : Option Item → List Item × ℕ → List Item × ℕ
add_candidate none acc = acc
add_candidate (some it) acc = (it ∷ acc.0, it.size + acc.1)

-- The items in the listing's order, and the sum of their sizes.
pub collect : FileSystem → Config → List Text → List Entry → List Item × ℕ
unfolding candidate
collect fs cfg active [] = ([], 0)
collect fs cfg active (e ∷ es) =
    add_candidate (candidate fs cfg active e) (collect fs cfg active es)

-- `tryRemove`: the item in hand, the total, and what was deleted. A deleted item has size 0.
pub try_remove : FileSystem → Item → ℕ → Item × ℕ × List Item
try_remove fs it total =
    if fs.removes it.path
    then (record it { size = 0 }, total - it.size, it ∷ [])
    else (it, total, [])

-- The removal under a pass's test of the item.
pub remove_if : FileSystem → Bool → Item → ℕ → Item × ℕ × List Item
unfolding try_remove
remove_if fs test it total = if test then try_remove fs it total else (it, total, [])

-- 1) AGE.
pub age_pass : FileSystem → ℕ → List Item → ℕ → Pass
unfolding remove_if
age_pass fs cutoff [] total = record { items = []; total = total; deleted = [] }
age_pass fs cutoff (it ∷ items) total =
    let (it', total', gone) = remove_if fs (ltb 0 it.size && ltb it.mtime cutoff) it total in
    let rest = age_pass fs cutoff items total' in
    record { items = it' ∷ rest.items; total = rest.total; deleted = gone ++ rest.deleted }

-- The ordering by modification time, oldest first.
pub insert_item : Item → List Item → List Item
insert_item it [] = it ∷ []
insert_item it (x ∷ xs) = if leb it.mtime x.mtime then it ∷ x ∷ xs else x ∷ insert_item it xs

pub sort_items : List Item → List Item
unfolding insert_item
sort_items [] = []
sort_items (it ∷ items) = insert_item it (sort_items items)

-- 2) SIZE CAP.
pub cap_pass : FileSystem → ℕ → List Item → ℕ → Pass
unfolding remove_if
cap_pass fs cap [] total = record { items = []; total = total; deleted = [] }
cap_pass fs cap (it ∷ items) total =
    let (it', total', gone) = remove_if fs (ltb 0 it.size) it total in
    let rest = cap_pass fs cap items total' in
    if leb total cap
    then record { items = it ∷ items; total = total; deleted = [] }
    else record { items = it' ∷ rest.items; total = rest.total; deleted = gone ++ rest.deleted }

abbrev pub enough : Option ℕ → ℕ → Bool
enough none min = true
enough (some free) min = leb min free

abbrev pub count_gone : List Item → ℕ
count_gone [] = 0
count_gone (it ∷ items) = 1 + count_gone items

-- 3) FREE-SPACE FLOOR: `n` files were deleted so far.
pub floor_pass : FileSystem → ℕ → ℕ → List Item → ℕ → Pass
unfolding remove_if
floor_pass fs min n [] total = record { items = []; total = total; deleted = [] }
floor_pass fs min n (it ∷ items) total =
    let (it', total', gone) = remove_if fs (ltb 0 it.size) it total in
    let rest = floor_pass fs min (n + count_gone gone) items total' in
    if enough (fs.available n) min
    then record { items = it ∷ items; total = total; deleted = [] }
    else record { items = it' ∷ rest.items; total = rest.total; deleted = gone ++ rest.deleted }

abbrev pub idle : List Item → ℕ → Pass
idle items total = record { items = items; total = total; deleted = [] }

-- 4) The directories, the longest path first, each removed when that succeeds.
pub insert_longest : Text → List Text → List Text
insert_longest d [] = d ∷ []
insert_longest d (x ∷ xs) =
    if ltb (length d) (length x) then x ∷ insert_longest d xs else d ∷ x ∷ xs

pub longest_first : List Text → List Text
unfolding insert_longest
longest_first [] = []
longest_first (d ∷ ds) = insert_longest d (longest_first ds)

pub remove_directories : FileSystem → List Text → List Text
remove_directories fs [] = []
remove_directories fs (d ∷ ds) =
    let rest = remove_directories fs ds in if fs.removes_directory d then d ∷ rest else rest

-- The three passes, and the directories once something was deleted; `now` and `retention` are in the units of the modification times, and a cutoff
-- before the epoch keeps everything.
pub prune : FileSystem → Config → List Text → ℕ → Pruned
unfolding collect age_pass sort_items cap_pass floor_pass longest_first remove_directories
prune fs cfg active now =
    let (items, total) = collect fs cfg active fs.listing in
    let aged =
      if ltb 0 cfg.retention
      then age_pass fs (now - cfg.retention) items total
      else idle items total in
    let sorted = sort_items aged.items in
    let capped =
      if ltb 0 cfg.max_total_bytes
      then cap_pass fs cfg.max_total_bytes sorted aged.total
      else idle sorted aged.total in
    let floored =
      if ltb 0 cfg.min_free_bytes
      then floor_pass fs cfg.min_free_bytes (count_gone aged.deleted + count_gone capped.deleted)
          capped.items capped.total
      else idle capped.items capped.total in
    let deleted = aged.deleted ++ (capped.deleted ++ floored.deleted) in
    record {
      items = floored.items;
      total = floored.total;
      deleted = deleted;
      directories =
          if ltb 0 (count_gone deleted)
          then remove_directories fs (longest_first fs.directories)
          else [];
    }
