-- ===== src/Notifier/Changes.antt =====
-- Exactly the changes are published.
use lpr_refactored.Prelude.{
  ◌≡◌, sym, ap, ◌∙◌, Bool, true, false, Option, none, some, List, [], ◌∷◌, ◌++◌, append-nil,
  append_assoc, arith, if◌then◌else◌, Text, lookup, insert, text_eq, lookup-insert, Bool-cases, inl,
  inr, ◌⊎◌, text_eq_iff,
}
use mathlib.Core.Path.{fun_ext}
use lpr_refactored.Transport.{Transport, Message}
use lpr_refactored.Notifier.{Notifier, notify, notify_all, known_as}

-- The reports that say something new of their camera, read off the reports alone. `known` is what
-- is known before each.
pub changes : (Text → Option Bool) → List (Text × Bool) → List (Text × Bool)
changes known [] = []
changes known ((c, b) ∷ reports) =
    let rest = changes (λ d. if text_eq c d then some b else known d) reports in
    if known_as b (known c) then rest else (c, b) ∷ rest

-- A report that is taken for known changes nothing of what is known.
known_unchanged :
    (c : Text) (b : Bool) (known : Text → Option Bool)
    → known_as b (known c) ≡ true
    → (λ d. if text_eq c d then some b else known d) ≡ known
known_unchanged c b known h = fun_ext (λ d. pointwise d (Bool-cases (text_eq c d)))
  where
    same : (o : Option Bool) (b : Bool) → known_as b o ≡ true → some b ≡ o
    same none b h = cc
    same (some x) b h = ground arith

    pointwise :
        (d : Text)
        → (text_eq c d ≡ true) ⊎ (text_eq c d ≡ false)
        → (if text_eq c d then some b else known d) ≡ known d
    pointwise d (inl e) = rw e (same (known c) b h ∙ ap known ((text_eq_iff c d).0 e))
    pointwise d (inr e) = rw e

changes_known :
    (c : Text) (b : Bool) (known : Text → Option Bool) (reports : List (Text × Bool))
    → known_as b (known c) ≡ true
    → changes known ((c, b) ∷ reports) ≡ changes known reports
unfolding changes
changes_known c b known reports e = rw (known_unchanged c b known e, e)

changes_new :
    (c : Text) (b : Bool) (known : Text → Option Bool) (reports : List (Text × Bool))
    → known_as b (known c) ≡ false
    → changes known ((c, b) ∷ reports)
      ≡ (c, b) ∷ changes (λ d. if text_eq c d then some b else known d) reports
unfolding changes
changes_new c b known reports e = rw e

module _ {T : Type 0} (transport : Transport T) (subject : Text)
    (build_message : Text → Bool → Text) where
  -- The messages of a list of reports.
  pub messages : List (Text × Bool) → List Message
  messages [] = []
  messages ((c, b) ∷ reports) =
      record { subject = subject; payload = build_message c b; durable = false } ∷ messages reports

  abbrev pub Accepts : Type 0
  Accepts = (p : Text) (t : T) → (transport.publish subject p t).1 ≡ true

  notify_known :
      (c : Text) (b : Bool) (n : Notifier) (t : T)
      → n.only_on_change ≡ true
      → known_as b (lookup c n.last) ≡ true
      → notify transport subject build_message c b (n, t) ≡ (n, t)
  unfolding notify
  notify_known c b n t h e = ground (arith, h, e)

  notify_new :
      (c : Text) (b : Bool) (n : Notifier) (t : T)
      → n.only_on_change ≡ true
      → known_as b (lookup c n.last) ≡ false
      → notify transport subject build_message c b (n, t) ≡ (
        record n { last = insert c b n.last },
        (transport.publish subject (build_message c b) t).0,
      )
  unfolding notify
  notify_new c b n t h e = ground (arith, h, e)

  log_new :
      (p : Text) (t : T) (rest : List Message)
      → Accepts
      → transport.log (transport.publish subject p t).0 ++ rest
        ≡ transport.log t ++ (record { subject = subject; payload = p; durable = false } ∷ rest)
  log_new p t rest ok =
      rw (transport.log-publish subject p t, ok p t) (append_assoc (transport.log t) _ rest)

  -- Over a transport that takes what it is given, a notifier that is to report only changes
  -- publishes one message for each report that differs from what the camera was last reported as,
  -- or that is the camera's first, in order, and nothing else.
  pub notify_all-changes :
      (reports : List (Text × Bool)) (n : Notifier) (t : T)
      → Accepts
      → n.only_on_change ≡ true
      → transport.log (notify_all transport subject build_message reports (n, t)).1
        ≡ transport.log t ++ messages (changes (λ c. lookup c n.last) reports)
  unfolding notify_all changes messages
  notify_all-changes [] n t ok h = sym (append-nil _)
  notify_all-changes ((c, b) ∷ reports) n t ok h =
      elim (Bool-cases (known_as b (lookup c n.last))) [
        | inl e ↦
            ap (λ s. transport.log (notify_all transport subject build_message reports s).1)
              (notify_known c b n t h e)
            ∙ notify_all-changes reports n t ok h
            ∙ ap (λ l. transport.log t ++ messages l)
                (sym (changes_known c b (λ d. lookup d n.last) reports e))
        | inr e ↦
            let t' = (transport.publish subject (build_message c b) t).0 in
            let n' = record n { last = insert c b n.last } in
            ap (λ s. transport.log (notify_all transport subject build_message reports s).1)
              (notify_new c b n t h e)
            ∙ notify_all-changes reports n' t' ok h
            ∙ ap (λ k. transport.log t' ++ messages (changes k reports))
                (fun_ext (λ d. lookup-insert c d b n.last))
            ∙ log_new (build_message c b) t _ ok
            ∙ ap (λ l. transport.log t ++ messages l)
                (sym (changes_new c b (λ d. lookup d n.last) reports e))
      ]
