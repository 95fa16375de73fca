-- ===== src/Sender/Spacing.antt =====
-- How often one plate of one gate is published.
use native.Mathlib.Nat.{le_trans, le_refl}
use lpr_refactored.Prelude.{
  ℕ, ◌≤◌, ◌<◌, ◌≡◌, refl, Bool, true, false, not, ◌&&◌, Option, none, some, List, [], ◌∷◌, arith,
  if◌then◌else◌, Text, text_eq, text_eq_iff, Dict, lookup, HasUniqueKeys, surviving, Bool-cases,
  inl, inr, ◌⊎◌,
}
use lpr_refactored.Transport.{Transport}
use lpr_refactored.Sender.{
  PlateItem, Document, Config, SenderState, cooldown_passes, cooldown_key, is_stale, publish_item,
  handle,
}
use lpr_refactored.Sender.Cooldown.{
  may_send, cooldown_passes_lem, cooldown_passes_other, cooldown_passes-HasUniqueKeys,
}

-- Times that do not go back, from a time on.
abbrev pub Monotone : ℕ → List (PlateItem × ℕ) → Type 0
Monotone t [] = Unit {0}
Monotone t ((item, now) ∷ items) = (t ≤ now) × Monotone now items

-- Each time comes a window after the one before it, the first after `last`.
abbrev pub Spaced : ℕ → Option ℕ → List ℕ → Type 0
Spaced c last [] = Unit {0}
Spaced c last (t ∷ ts) = (may_send c t last ≡ true) × Spaced c (some t) ts

-- Whatever the table allows at a time, now or later, the last publication allows.
abbrev Allows : ℕ → ℕ → Option ℕ → Option ℕ → Type 0
Allows c now table last = (t : ℕ) → now ≤ t → may_send c t table ≡ true → may_send c t last ≡ true

Allows-stale :
    (c now : ℕ) (table last : Option ℕ)
    → Allows c now table last
    → Allows c now (surviving (is_stale now) table) last
Allows-stale c now none last a = a
Allows-stale c now (some l) last a = λ t h e. a t h (stale_allows t h e)
  where
    stale_allows :
        (t : ℕ)
        → now ≤ t
        → may_send c t (surviving (is_stale now) (some l)) ≡ true
        → may_send c t (some l) ≡ true
    stale_allows t h e = ground arith

Allows-later :
    (c start now : ℕ) (table last : Option ℕ)
    → start ≤ now
    → Allows c start table last
    → Allows c now table last
Allows-later c start now table last h a = λ t k e. a t (le_trans h k) e

-- One request of the table: it passes, and the last publication allowed it, or it does not count.
abbrev Outcome : ℕ → ℕ → Bool → Option ℕ → Option ℕ → Type 0
Outcome c now counted table last =
    ((counted ≡ true) × (may_send c now last ≡ true) × (table ≡ some now))
    ⊎ ((counted ≡ false) × Allows c now table last)

request_outcome :
    (c : ℕ) (gate plate : Text) (now : ℕ) (m : Dict ℕ) (k : Text) (last : Option ℕ)
    → 0 < c
    → HasUniqueKeys m
    → Allows c now (lookup k m) last
    → let (m', passes) = cooldown_passes c gate plate now m in
      Outcome c now (passes && text_eq (cooldown_key gate plate) k) (lookup k m') last
request_outcome c gate plate now m k last h u a =
    elim (Bool-cases (text_eq (cooldown_key gate plate) k)) [
      | inl e ↦
          rw e
            (same_key (rw ((text_eq_iff _ k).0 e) at (cooldown_passes_lem c gate plate now m h u)))
      | inr e ↦ rw e (inr (and_false _, other_key (cooldown_passes_other c gate plate now m k u e)))
    ]
  where
    and_false : (b : Bool) → (b && false) ≡ false
    and_false true = refl
    and_false false = refl

    m' : Dict ℕ
    m' = (cooldown_passes c gate plate now m).0

    passes : Bool
    passes = (cooldown_passes c gate plate now m).1

    other_key :
        (lookup k m' ≡ lookup k m) ⊎ (lookup k m' ≡ surviving (is_stale now) (lookup k m))
        → Allows c now (lookup k m') last
    other_key (inl e) = rw e a
    other_key (inr e) = rw e (Allows-stale c now (lookup k m) last a)

    same_key :
        (passes ≡ may_send c now (lookup k m))
          × (lookup k m' ≡ (if may_send c now (lookup k m) then some now else lookup k m))
        → Outcome c now (passes && true) (lookup k m') last
    same_key e = elim (Bool-cases (may_send c now (lookup k m))) [
      | inl y ↦ inl (ground (arith, e, y), a now (le_refl now) y, ground (arith, e, y))
      | inr n ↦ inr (ground (arith, e, n), rw (e.1, n) a)
    ]

module _ {T : Type 0} (transport : Transport T) (dump : Document → Text) (cfg : Config) where
  -- The times at which unforced items of this gate and text come to a publication.
  pub sends_of : Text → List (PlateItem × ℕ) → SenderState T → List ℕ
  unfolding handle
  sends_of k [] s = []
  sends_of k ((item, now) ∷ items) s =
      let (s', published) = handle transport dump cfg item now s in
      let rest = sends_of k items s' in
      if (published && not item.force_send) && text_eq (cooldown_key item.gate item.text) k
      then now ∷ rest
      else rest

  handle_cases :
      (item : PlateItem) (now : ℕ) (s : SenderState T)
      → let (s', published) = handle transport dump cfg item now s in
        let (m, passes) = cooldown_passes cfg.cooldown_ms item.gate item.text now s.last_sent in
        ((s'.last_sent ≡ s.last_sent) × ((published && not item.force_send) ≡ false))
        ⊎ ((s'.last_sent ≡ m) × ((published && not item.force_send) ≡ passes))
  unfolding handle publish_item
  handle_cases item now s = ground arith

  -- One item, as the table and the count of publications see it.
  handle_outcome :
      (k : Text) (item : PlateItem) (now : ℕ) (s : SenderState T) (last : Option ℕ)
      → 0 < cfg.cooldown_ms
      → HasUniqueKeys s.last_sent
      → Allows cfg.cooldown_ms now (lookup k s.last_sent) last
      → let (s', published) = handle transport dump cfg item now s in
        HasUniqueKeys s'.last_sent
        × Outcome cfg.cooldown_ms now
            ((published && not item.force_send) && text_eq (cooldown_key item.gate item.text) k)
            (lookup k s'.last_sent)
            last
  handle_outcome k item now s last h u a = elim (handle_cases item now s) [
    | inl (same, nb) ↦ rw (same, nb) (u, inr (refl, a))
    | inr (m, b) ↦
        rw (m, b)
          (
            cooldown_passes-HasUniqueKeys cfg.cooldown_ms item.gate item.text now s.last_sent u,
            request_outcome cfg.cooldown_ms item.gate item.text now s.last_sent k last h u a,
          )
  ]

  Spaced-sends_of :
      (k : Text) (items : List (PlateItem × ℕ)) (s : SenderState T) (start : ℕ) (last : Option ℕ)
      → 0 < cfg.cooldown_ms
      → HasUniqueKeys s.last_sent
      → Allows cfg.cooldown_ms start (lookup k s.last_sent) last
      → Monotone start items
      → Spaced cfg.cooldown_ms last (sends_of k items s)
  unfolding sends_of
  Spaced-sends_of k [] s start last h u a mono = tt
  Spaced-sends_of k ((item, now) ∷ items) s start last h u a mono =
      let s' = (handle transport dump cfg item now s).0 in
      let out =
        handle_outcome k item now s last h u
          (Allows-later cfg.cooldown_ms start now (lookup k s.last_sent) last mono.0 a) in
      elim out.1 [
        | inl (counted, allowed, noted) ↦ rw counted (
          allowed,
          Spaced-sends_of k items s' now (some now) h out.0 (rw noted (λ t k e. e)) mono.1,
        )
        | inr (skipped, a') ↦ rw skipped (Spaced-sends_of k items s' now last h out.0 a' mono.1)
      ]

  -- With a cooldown set and a clock that does not go back, two publications of the same gate and
  -- text, other than forced corrections, are always a window apart, whatever else is sent between
  -- them: the cooldown, or five minutes and a millisecond if that is less.
  pub sends-Spaced :
      (k : Text) (items : List (PlateItem × ℕ)) (t : T)
      → 0 < cfg.cooldown_ms
      → Monotone 0 items
      → Spaced cfg.cooldown_ms none
          (sends_of k items (record { last_sent = []; sent = 0; transport = t }))
  unfolding lookup
  sends-Spaced k items t h mono =
      Spaced-sends_of k items (record { last_sent = []; sent = 0; transport = t }) 0 none h tt
        (λ t k e. refl) mono
