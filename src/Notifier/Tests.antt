-- ===== src/Notifier/Tests.antt =====
-- Reports of two cameras over the in-memory transport.
use lpr_refactored.Prelude.{◌≡◌, refl, Bool, true, false, List, [], ◌∷◌, ◌++◌, Text, codes, lookup}
use lpr_refactored.Transport.{InMemoryTransport, in_memory}
use lpr_refactored.Notifier.{Notifier, notify_all}
use lpr_refactored.Notifier.Changes.{changes, messages, notify_all-changes}

abbrev as_text : Text → Bool → Text
as_text c true = c ++ codes " up"
as_text c false = c ++ codes " down"

abbrev reports : List (Text × Bool)
reports = (codes "1", true) ∷ (codes "2", true) ∷ (codes "1", true) ∷ (codes "1", false) ∷ []

abbrev fresh : Notifier
fresh = record { only_on_change = true; last = [] }

abbrev nothing : InMemoryTransport
nothing = record { messages = []; subs = [] }

notify_all-changes_example :
    (notify_all in_memory (codes "s") as_text reports (fresh, nothing)).1.messages
    ≡ messages in_memory (codes "s") as_text (changes (λ c. lookup c []) reports)
notify_all-changes_example =
    notify_all-changes in_memory (codes "s") as_text reports fresh nothing accepted refl
  where
    accepted : (p : Text) (t : InMemoryTransport) → (in_memory.publish (codes "s") p t).1 ≡ true
    accepted p t = unfold package.lpr_refactored.Transport.publish in refl
