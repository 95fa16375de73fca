-- ===== src/Recording/Prune/Safety.antt =====
-- What a retention pass may delete.
use lpr_refactored.Prelude.{
  ℕ, ◌+◌, ◌≡◌, Bool, true, false, some, List, [], ◌∷◌, ◌++◌, arith, if◌then◌else◌, Text, ltb,
  Bool-cases, Option-cases, inl, inr, ◌-◌, ◌&&◌, ◌⊎◌, leb, text_eq_iff, refl, ap, ◌∙◌, length,
}
use lpr_refactored.Recording.Prune.{
  Entry, Item, FileSystem, Config, Pass, is_active, candidate, collect, remove_if, idle, enough,
  add_candidate, age_pass, insert_item, sort_items, cap_pass, floor_pass, prune, count_gone,
  insert_longest, longest_first, remove_directories,
}

-- The listing has a regular file of our extension at the path.
abbrev pub Listed : Config → Text → List Entry → Type 0
Listed cfg p [] = ⊥
Listed cfg p (e ∷ es) =
    ((e.path ≡ p) × (e.regular ≡ true) × (e.extension ≡ cfg.extension)) ⊎ Listed cfg p es

module _ {ℓ} (P : Text → Type ℓ) where
  abbrev pub AllPaths : List Item → Type ℓ
  AllPaths [] = Unit
  AllPaths (it ∷ items) = P it.path × AllPaths items

  AllPaths-append : (xs ys : List Item) → AllPaths xs → AllPaths ys → AllPaths (xs ++ ys)
  AllPaths-append [] ys h k = k
  AllPaths-append (x ∷ xs) ys h k = (h.0, AllPaths-append xs ys h.1 k)

  insert_item-AllPaths :
      (it : Item) (items : List Item) → P it.path → AllPaths items → AllPaths (insert_item it items)
  unfolding insert_item
  insert_item-AllPaths it [] h k = (h, tt)
  insert_item-AllPaths it (x ∷ xs) h k = ground (arith, insert_item-AllPaths it xs h k.1)

  sort_items-AllPaths : (items : List Item) → AllPaths items → AllPaths (sort_items items)
  unfolding sort_items
  sort_items-AllPaths [] h = tt
  sort_items-AllPaths (it ∷ items) h =
      insert_item-AllPaths it (sort_items items) h.0 (sort_items-AllPaths items h.1)

  -- A pass keeps the items' paths, and deletes only items of its list.
  record Within (p : Pass) : Type ℓ where
    kept : AllPaths p.items
    gone : AllPaths p.deleted

  remove_if-AllPaths :
      (fs : FileSystem) (test : Bool) (it : Item) (total : ℕ)
      → P it.path
      → P (remove_if fs test it total).0.path × AllPaths (remove_if fs test it total).2
  unfolding remove_if
  remove_if-AllPaths fs test it total h = ground arith

  age_pass-Within :
      (fs : FileSystem) (cutoff : ℕ) (items : List Item) (total : ℕ)
      → AllPaths items
      → Within (age_pass fs cutoff items total)
  unfolding age_pass
  age_pass-Within fs cutoff [] total h = record { kept = tt; gone = tt }
  age_pass-Within fs cutoff (it ∷ items) total h =
      let test = ltb 0 it.size && ltb it.mtime cutoff in
      let one = remove_if-AllPaths fs test it total h.0 in
      let ih = age_pass-Within fs cutoff items (remove_if fs test it total).1 h.1 in
      record { kept = (one.0, ih.kept); gone = AllPaths-append _ _ one.1 ih.gone }

  cap_pass-Within :
      (fs : FileSystem) (cap : ℕ) (items : List Item) (total : ℕ)
      → AllPaths items
      → Within (cap_pass fs cap items total)
  unfolding cap_pass
  cap_pass-Within fs cap [] total h = record { kept = tt; gone = tt }
  cap_pass-Within fs cap (it ∷ items) total h = elim (Bool-cases (leb total cap)) [
    | inl e ↦ rw e (record { kept = h; gone = tt })
    | inr e ↦
        let one = remove_if-AllPaths fs (ltb 0 it.size) it total h.0 in
        let ih = cap_pass-Within fs cap items (remove_if fs (ltb 0 it.size) it total).1 h.1 in
        rw e (record { kept = (one.0, ih.kept); gone = AllPaths-append _ _ one.1 ih.gone })
  ]

  floor_pass-Within :
      (fs : FileSystem) (min n : ℕ) (items : List Item) (total : ℕ)
      → AllPaths items
      → Within (floor_pass fs min n items total)
  unfolding floor_pass
  floor_pass-Within fs min n [] total h = record { kept = tt; gone = tt }
  floor_pass-Within fs min n (it ∷ items) total h =
      elim (Bool-cases (enough (fs.available n) min)) [
        | inl e ↦ rw e (record { kept = h; gone = tt })
        | inr e ↦
            let step = remove_if fs (ltb 0 it.size) it total in
            let one = remove_if-AllPaths fs (ltb 0 it.size) it total h.0 in
            let ih = floor_pass-Within fs min (n + count_gone step.2) items step.1 h.1 in
            rw e (record { kept = (one.0, ih.kept); gone = AllPaths-append _ _ one.1 ih.gone })
      ]

  pass_or_idle-Within :
      (test : Bool) (p : Pass) (items : List Item) (total : ℕ)
      → AllPaths items
      → Within p
      → Within (if test then p else idle items total)
  pass_or_idle-Within true p items total h w = w
  pass_or_idle-Within false p items total h w = record { kept = h; gone = tt }

  -- Whatever holds of the path of every item collected holds of every item deleted.
  prune-AllPaths :
      (fs : FileSystem) (cfg : Config) (active : List Text) (now : ℕ)
      → AllPaths (collect fs cfg active fs.listing).0
      → AllPaths (prune fs cfg active now).deleted
  unfolding prune
  prune-AllPaths fs cfg active now h =
      let items = (collect fs cfg active fs.listing).0 in
      let total = (collect fs cfg active fs.listing).1 in
      let aged =
        pass_or_idle-Within (ltb 0 cfg.retention) (age_pass fs (now - cfg.retention) items total)
          items total h (age_pass-Within fs (now - cfg.retention) items total h) in
      let sorted = sort_items-AllPaths _ aged.kept in
      let capped =
        pass_or_idle-Within (ltb 0 cfg.max_total_bytes) _ _ _ sorted
          (cap_pass-Within fs cfg.max_total_bytes _ _ sorted) in
      let floored =
        pass_or_idle-Within (ltb 0 cfg.min_free_bytes) _ _ _ capped.kept
          (floor_pass-Within fs cfg.min_free_bytes _ _ _ capped.kept) in
      AllPaths-append _ _ aged.gone (AllPaths-append _ _ capped.gone floored.gone)

AllPaths-mono {ℓ κ} :
    (P : Text → Type ℓ) (Q : Text → Type κ) (items : List Item)
    → ((p : Text) → P p → Q p)
    → AllPaths P items
    → AllPaths Q items
AllPaths-mono P Q [] f h = tt
AllPaths-mono P Q (it ∷ items) f h = (f it.path h.0, AllPaths-mono P Q items f h.1)

-- A file that the pass may delete: a regular file of our extension in the listing, and no segment
-- that is open for writing.
abbrev pub IsPrunable : FileSystem → Config → List Text → List Entry → Text → Type 0
IsPrunable fs cfg active es p = (is_active fs active p ≡ false) × Listed cfg p es

candidate-some :
    (fs : FileSystem) (cfg : Config) (active : List Text) (e : Entry) (it : Item)
    → candidate fs cfg active e ≡ some it
    → (is_active fs active it.path ≡ false)
      × (e.path ≡ it.path)
      × (e.regular ≡ true)
      × (e.extension ≡ cfg.extension)
unfolding candidate
candidate-some fs cfg active e it h = ground (arith, text_eq_iff e.extension cfg.extension)

collect-AllPaths :
    (fs : FileSystem) (cfg : Config) (active : List Text) (es : List Entry)
    → AllPaths (IsPrunable fs cfg active es) (collect fs cfg active es).0
unfolding collect
collect-AllPaths fs cfg active [] = tt
collect-AllPaths fs cfg active (e ∷ es) =
    let rest =
      AllPaths-mono (IsPrunable fs cfg active es) (IsPrunable fs cfg active (e ∷ es)) _
        (λ p h. (h.0, inr h.1)) (collect-AllPaths fs cfg active es) in
    elim (Option-cases (candidate fs cfg active e)) [
      | inl h ↦ rw (h, add_candidate) rest
      | inr (it, h) ↦
          let c = candidate-some fs cfg active e it h in
          rw (h, add_candidate) ((c.0, inl (c.1, c.2, c.3)), rest)
    ]

-- The directory is listed.
abbrev pub Has : Text → List Text → Type 0
Has d [] = ⊥
Has d (x ∷ xs) = (d ≡ x) ⊎ Has d xs

Has-if :
    (d : Text) (b : Bool) (xs ys : List Text)
    → Has d (if b then xs else ys)
    → ((b ≡ true) × Has d xs) ⊎ Has d ys
Has-if d true xs ys h = inl (refl, h)
Has-if d false xs ys h = inr h

Has-insert_longest :
    (d e : Text) (ds : List Text) → Has d (insert_longest e ds) → (d ≡ e) ⊎ Has d ds
unfolding insert_longest
Has-insert_longest d e [] h = h
Has-insert_longest d e (x ∷ xs) h =
    elim (Has-if d (ltb (length e) (length x)) (x ∷ insert_longest e xs) (e ∷ x ∷ xs) h) [
      | inl (c, inl k) ↦ inr (inl k)
      | inl (c, inr k) ↦ elim (Has-insert_longest d e xs k) [ inl m ↦ inl m | inr m ↦ inr (inr m) ]
      | inr k ↦ k
    ]

Has-longest_first : (d : Text) (ds : List Text) → Has d (longest_first ds) → Has d ds
unfolding longest_first
Has-longest_first d [] h = h
Has-longest_first d (e ∷ ds) h = elim (Has-insert_longest d e (longest_first ds) h) [
  | inl k ↦ inl k
  | inr k ↦ inr (Has-longest_first d ds k)
]

-- A directory that was removed is listed, and its removal succeeded.
Has-remove_directories :
    (fs : FileSystem) (d : Text) (ds : List Text)
    → Has d (remove_directories fs ds)
    → Has d ds × (fs.removes_directory d ≡ true)
unfolding remove_directories
Has-remove_directories fs d [] h = absurd h
Has-remove_directories fs d (e ∷ ds) h =
    let rest = remove_directories fs ds in
    elim (Has-if d (fs.removes_directory e) (e ∷ rest) rest h) [
      | inl (c, inl k) ↦ (inl k, ap fs.removes_directory k ∙ c)
      | inl (c, inr k) ↦ let m = Has-remove_directories fs d ds k in (inr m.0, m.1)
      | inr k ↦ let m = Has-remove_directories fs d ds k in (inr m.0, m.1)
    ]

-- What a retention pass may do.
pub record IsSafe (fs : FileSystem) (cfg : Config) (active : List Text) (now : ℕ) : Type 0 where
  pub files : AllPaths (IsPrunable fs cfg active fs.listing) (prune fs cfg active now).deleted
  pub directories :
      (d : Text)
      → Has d (prune fs cfg active now).directories
      → Has d fs.directories × (fs.removes_directory d ≡ true)
  pub untouched :
      (prune fs cfg active now).deleted ≡ [] → (prune fs cfg active now).directories ≡ []

-- A retention pass, whatever its settings and however removals and the disk behave, deletes no files
-- but regular ones of the recordings' extension that its listing has, and never one that is the same
-- file as a segment open for writing; it removes no directories but those that are listed then and
-- let themselves be removed, and none when no file was deleted.
pub prune-IsSafe :
    (fs : FileSystem) (cfg : Config) (active : List Text) (now : ℕ) → IsSafe fs cfg active now
unfolding prune
prune-IsSafe fs cfg active now = record {
  files =
      prune-AllPaths (IsPrunable fs cfg active fs.listing) fs cfg active now
        (collect-AllPaths fs cfg active fs.listing);
  directories = λ d h.
      elim (Has-if d _ (remove_directories fs (longest_first fs.directories)) [] h) [
        | inl (c, k) ↦
            let m = Has-remove_directories fs d (longest_first fs.directories) k in
            (Has-longest_first d fs.directories m.0, m.1)
        | inr k ↦ absurd k
      ];
  untouched = λ e. rw e refl;
}
