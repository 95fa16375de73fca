-- ===== src/Sender/Cooldown.antt =====
-- Which repeats the cooldown drops.
use lpr_refactored.Prelude.{
  ℕ, ◌+◌, ◌<◌, ◌≡◌, refl, Bool, true, false, not, Option, none, some, leb, arith, min,
  if◌then◌else◌, Text, text_eq, Dict, lookup, lookup-insert, lookup-insert_self, erase_if,
  lookup-erase_if, HasUniqueKeys, surviving, HasUniqueKeys-insert, HasUniqueKeys-erase_if, ◌⊎◌,
}
use lpr_refactored.Sender.{cooldown_passes, cooldown_key, in_cooldown, is_stale, prune_ms}

-- The instant from which a plate last sent then passes again: the end of the cooldown, or the
-- prune of its entry where that comes first.
abbrev pub window : ℕ → ℕ
window cooldown = min cooldown (prune_ms + 1)

abbrev pub may_send : ℕ → ℕ → Option ℕ → Bool
may_send cooldown now none = true
may_send cooldown now (some last) = leb (last + window cooldown) now

window_test :
    (c now : ℕ) (o : Option ℕ)
    → not (in_cooldown c now (surviving (is_stale now) o)) ≡ may_send c now o
window_test c now none = refl
window_test c now (some last) = ground arith

-- With a cooldown set, a plate passes exactly if its gate and text were not sent before or were
-- last sent at least a window ago, where the window is the cooldown but never more than five
-- minutes and a millisecond; and it is then, and only then, noted as sent now.
pub cooldown_passes_lem :
    (c : ℕ) (gate plate : Text) (now : ℕ) (m : Dict ℕ)
    → 0 < c
    → HasUniqueKeys m
    → let (m', passes) = cooldown_passes c gate plate now m in
      let key = cooldown_key gate plate in
      (passes ≡ may_send c now (lookup key m))
      × (lookup key m' ≡ (if may_send c now (lookup key m) then some now else lookup key m))
unfolding cooldown_passes
cooldown_passes_lem c gate plate now m h u =
    let key = cooldown_key gate plate in
    let kept = erase_if (is_stale now) m in
    ground (
      arith,
      window_test c now (lookup key m),
      lookup-erase_if (is_stale now) key m u,
      lookup-insert_self key now kept,
    )

-- The entry of another plate is at most pruned.
pub cooldown_passes_other :
    (c : ℕ) (gate plate : Text) (now : ℕ) (m : Dict ℕ) (k : Text)
    → HasUniqueKeys m
    → text_eq (cooldown_key gate plate) k ≡ false
    → let m' = (cooldown_passes c gate plate now m).0 in
      (lookup k m' ≡ lookup k m) ⊎ (lookup k m' ≡ surviving (is_stale now) (lookup k m))
unfolding cooldown_passes
cooldown_passes_other c gate plate now m k u ne =
    let key = cooldown_key gate plate in
    let kept = erase_if (is_stale now) m in
    ground (arith, lookup-erase_if (is_stale now) k m u, lookup-insert key k now kept)

pub cooldown_passes-HasUniqueKeys :
    (c : ℕ) (gate plate : Text) (now : ℕ) (m : Dict ℕ)
    → HasUniqueKeys m
    → HasUniqueKeys (cooldown_passes c gate plate now m).0
unfolding cooldown_passes
cooldown_passes-HasUniqueKeys c gate plate now m u =
    let kept = erase_if (is_stale now) m in
    let unique = HasUniqueKeys-erase_if (is_stale now) m u in
    ground (arith, unique, HasUniqueKeys-insert (cooldown_key gate plate) now kept unique)
