-- ===== src/Transport.antt =====
-- include/lpr/net/IMessageTransport.h: the seam to the message broker, as a record of operations
-- with the law that its clients rely on; include/lpr/net/InMemoryTransport.h: the implementation
-- that records what is published.
mod Tests
use lpr_refactored.Prelude.{
  ℕ, suc, ◌+◌, ◌≡◌, refl, Bool, true, false, List, [], ◌∷◌, ◌++◌, map, Text, text_eq, if◌then◌else◌,
  length, length-append, arith,
}

pub record Message : Type 0 where
  pub subject : Text
  pub payload : Text
  pub durable : Bool

-- The messages that a transport took, oldest first. A publication that it refuses (it returns
-- false) leaves no message; one that it takes leaves that message, after the others.
abbrev pub taken : Bool → Message → List Message
taken true m = m ∷ []
taken false m = []

pub record Transport (T : Type 0) : Type 0 where
  pub publish : Text → Text → T → T × Bool
  pub publish_durable : Text → Text → T → T × Bool
  pub log : T → List Message
  pub log-publish :
      (s p : Text) (t : T)
      → log (publish s p t).0
        ≡ log t ++ taken (publish s p t).1 (record { subject = s; payload = p; durable = false })
  pub log-publish_durable :
      (s p : Text) (t : T)
      → log (publish_durable s p t).0
        ≡ log t
          ++ taken (publish_durable s p t).1 (record { subject = s; payload = p; durable = true })

-- A subscription holds a handler, here by its number.
pub record Sub : Type 0 where
  pub subject : Text
  pub handler : ℕ

pub record InMemoryTransport : Type 0 where
  pub messages : List Message
  pub subs : List Sub

pub empty : InMemoryTransport
empty = record { messages = []; subs = [] }

unfoldable pub publish : Text → Text → InMemoryTransport → InMemoryTransport × Bool
publish s p t = (
  record t { messages = t.messages ++ record { subject = s; payload = p; durable = false } ∷ [] },
  true,
)

unfoldable pub publish_durable : Text → Text → InMemoryTransport → InMemoryTransport × Bool
publish_durable s p t = (
  record t { messages = t.messages ++ record { subject = s; payload = p; durable = true } ∷ [] },
  true,
)

pub connected : InMemoryTransport → Bool
connected t = true

pub subscribe : Text → ℕ → InMemoryTransport → InMemoryTransport × Bool
subscribe s h t = (record t { subs = t.subs ++ record { subject = s; handler = h } ∷ [] }, true)

-- The handlers of the subscriptions to a subject, in their order.
handlers_of : Text → List Sub → List ℕ
handlers_of s [] = []
handlers_of s (sub ∷ subs) =
    let rest = handlers_of s subs in if text_eq sub.subject s then sub.handler ∷ rest else rest

-- The calls of handlers that a delivery makes: handler, subject, payload.
pub deliver : Text → Text → InMemoryTransport → List (ℕ × Text × Text)
unfolding handlers_of
deliver s p t = map (λ h. (h, s, p)) (handlers_of s t.subs)

pub count : InMemoryTransport → ℕ
count t = length t.messages

pub clear : InMemoryTransport → InMemoryTransport
clear t = record t { messages = [] }

pub log-publish_lem :
    (s p : Text) (t : InMemoryTransport)
    → (publish s p t).0.messages
      ≡ t.messages ++ taken (publish s p t).1 (record { subject = s; payload = p; durable = false })
unfolding publish
log-publish_lem s p t = refl

pub log-publish_durable_lem :
    (s p : Text) (t : InMemoryTransport)
    → (publish_durable s p t).0.messages
      ≡ t.messages
        ++ taken (publish_durable s p t).1 (record { subject = s; payload = p; durable = true })
unfolding publish_durable
log-publish_durable_lem s p t = refl

-- The in-memory transport keeps the law.
abbrev pub in_memory : Transport InMemoryTransport
in_memory = record {
  publish = publish;
  publish_durable = publish_durable;
  log = λ t. t.messages;
  log-publish = log-publish_lem;
  log-publish_durable = log-publish_durable_lem;
}
