-- ===== src/Notifier.antt =====
-- src/net/CameraStatusNotifier.cpp: camera connection changes, published over a transport.
-- `build_message` stands for the JSON text with its fresh message id, built by the JSON library.
pub mod Changes
mod Tests
use lpr_refactored.Prelude.{
  Bool, true, false, not, ◌&&◌, ◌||◌, Option, none, some, List, [], ◌∷◌, ◌++◌, if◌then◌else◌, Text,
  Dict, lookup, insert,
}
use lpr_refactored.Transport.{Transport}

pub record Notifier : Type 0 where
  pub only_on_change : Bool
  pub last : Dict Bool

abbrev pub same_bool : Bool → Bool → Bool
same_bool true b = b
same_bool false b = not b

-- `it != end && it->second == connected`
abbrev pub known_as : Bool → Option Bool → Bool
known_as connected none = false
known_as connected (some b) = same_bool b connected

module _ {T : Type 0} (transport : Transport T) (subject : Text)
    (build_message : Text → Bool → Text) where
  unfoldable pub notify : Text → Bool → Notifier × T → Notifier × T
  notify camera connected (n, t) =
      if n.only_on_change && known_as connected (lookup camera n.last) then (n, t) else (
        if n.only_on_change then record n { last = insert camera connected n.last } else n,
        (transport.publish subject (build_message camera connected) t).0,
      )

  -- The reports of the camera workers, in the order in which the lock admits them.
  unfoldable pub notify_all : List (Text × Bool) → Notifier × T → Notifier × T
  notify_all [] s = s
  notify_all ((camera, connected) ∷ reports) s = notify_all reports (notify camera connected s)
