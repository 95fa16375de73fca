-- ===== src/Queue/Shutdown.antt =====
-- When a consumer waits, and what it gets once the queue is closed.
use lpr_refactored.Prelude.{
  ℕ, zero, suc, ◌≡◌, ◌↔◌, refl, Bool, true, false, none, some, List, [], ◌∷◌, arith, length,
}
use lpr_refactored.Queue.{BlockingQueue, pop, close}

module _ {ℓ} {A : Type ℓ} where
  -- `pop` waits exactly while the queue is open and empty, and returns nullopt exactly when it is
  -- closed and empty.
  pub pop_cases :
      (q : BlockingQueue A)
      → ((pop q ≡ none) ↔ ((q.closed ≡ false) × (q.queue ≡ [])))
        × ((pop q ≡ some (none, q)) ↔ ((q.closed ≡ true) × (q.queue ≡ [])))
  unfolding pop
  pop_cases q = ((λ e. ground arith, λ h. ground arith), (λ e. ground arith, λ h. ground arith))

  -- The consumer loop: pops until nullopt, for at most so many rounds.
  pub drain : ℕ → BlockingQueue A → List A × Bool
  unfolding pop
  drain zero q = ([], false)
  drain (suc n) q = elim (pop q) [
    | none ↦ ([], false)
    | some (none, q') ↦ ([], true)
    | some (some x, q') ↦ (x ∷ (drain n q').0, (drain n q').1)
  ]

  drain_all :
      (xs : List A) (q : BlockingQueue A)
      → q.queue ≡ xs
      → q.closed ≡ true
      → drain (suc (length xs)) q ≡ (xs, true)
  unfolding drain
  drain_all [] q h c = ground arith
  drain_all (x ∷ xs) q h c = ground (arith, drain_all xs (record q { queue = xs }) refl c)

  -- After `close`, a consumer that pops in a loop is never left waiting: it gets every item still
  -- queued, oldest first, and then nullopt, in one call more than there are items.
  pub drain-close : (q : BlockingQueue A) → drain (suc (length q.queue)) (close q) ≡ (q.queue, true)
  unfolding close
  drain-close q = drain_all q.queue (close q) refl refl
