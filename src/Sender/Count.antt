-- ===== src/Sender/Count.antt =====
-- The count of plates sent against the transport's log.
use lpr_refactored.Prelude.{
  ℕ, suc, ◌+◌, ◌≡◌, refl, Bool, true, false, List, [], ◌∷◌, ◌++◌, arith, if◌then◌else◌, length,
  length-append, Text, Bool-cases, inl, inr,
}
use lpr_refactored.Transport.{Transport, Message, taken}
use lpr_refactored.Sender.{
  PlateItem, Document, Config, SenderState, build_document, cooldown_passes, publish_item, handle,
  run,
}

length-taken :
    (b : Bool) (m : Message) (log : List Message) (n : ℕ)
    → length (log ++ taken b m) + n ≡ length log + (if b then suc n else n)
length-taken true m log n = omega (arith, length-append log (m ∷ []))
length-taken false m log n = omega (arith, length-append log [])

module _ {T : Type 0} (transport : Transport T) (dump : Document → Text) (cfg : Config) where
  -- The messages in the transport and the count, moving together.
  abbrev Together : SenderState T → SenderState T → Type 0
  Together s s' =
      length (transport.log s'.transport) + s.sent ≡ length (transport.log s.transport) + s'.sent

  publish_item-Together :
      (item : PlateItem) (s : SenderState T) → Together s (publish_item transport dump cfg item s)
  unfolding publish_item build_document
  publish_item-Together item s =
      let payload = dump (build_document cfg item) in
      elim (Bool-cases cfg.durable) [
        | inl d ↦
            rw (d, transport.log-publish_durable cfg.subject payload s.transport)
              (length-taken _ _ (transport.log s.transport) s.sent)
        | inr d ↦
            rw (d, transport.log-publish cfg.subject payload s.transport)
              (length-taken _ _ (transport.log s.transport) s.sent)
      ]

  handle-Together :
      (item : PlateItem) (now : ℕ) (s : SenderState T)
      → Together s (handle transport dump cfg item now s).0
  unfolding handle
  handle-Together item now s =
      let m = (cooldown_passes cfg.cooldown_ms item.gate item.text now s.last_sent).0 in
      ground (
        arith,
        publish_item-Together item s,
        publish_item-Together item (record s { last_sent = m }),
      )

  -- The counter of sent plates goes up by exactly the number of messages that the transport took
  -- from this sender: a plate that the transport refuses is not counted, and none is counted twice.
  pub run-count :
      (items : List (PlateItem × ℕ)) (s : SenderState T)
      → let s' = run transport dump cfg items s in
        length (transport.log s'.transport) + s.sent ≡ length (transport.log s.transport) + s'.sent
  unfolding run
  run-count [] s = refl
  run-count ((item, now) ∷ items) s =
      omega (
        arith,
        handle-Together item now s,
        run-count items (handle transport dump cfg item now s).0,
      )
