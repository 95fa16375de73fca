-- ===== src/Queue/Order.antt =====
-- The order in which items leave the queue.
use lpr_refactored.Prelude.{
  ◌≡◌, refl, sym, ap, ◌∙◌, Option, none, some, List, [], ◌∷◌, ◌++◌, append-nil, append_assoc, arith,
  if◌then◌else◌, take,
}
use lpr_refactored.Queue.{
  BlockingQueue, Call, pushes, pushes_blocking, pops, pops_for, tries_pop, clears, closes, push,
  push_blocking, pop, pop_for, try_pop, step, run,
}

module _ {ℓ} {A : Type ℓ} where
  -- The item that a dequeue hands to its caller.
  abbrev pub delivered : Option A → List A
  delivered none = []
  delivered (some x) = x ∷ []

  abbrev popped : Option (Option A × BlockingQueue A) → List A
  popped none = []
  popped (some (x, q)) = delivered x

  -- What a call puts in.
  pub entered : Call A → BlockingQueue A → List A
  unfolding push_blocking
  entered (pushes x) q = x ∷ []
  entered (pushes_blocking x) q = elim (push_blocking x q) [
    | none ↦ []
    | some _ ↦ if q.closed then [] else x ∷ []
  ]
  entered pops q = []
  entered pops_for q = []
  entered tries_pop q = []
  entered clears q = []
  entered closes q = []

  -- What a call takes out: the item it returns, the oldest where `push` says that it dropped one,
  -- and all of them for `clear`.
  pub left : Call A → BlockingQueue A → List A
  unfolding push pop pop_for try_pop
  left (pushes x) q = if (push x q).1 then [] else take 1 q.queue
  left (pushes_blocking x) q = []
  left pops q = popped (pop q)
  left pops_for q = delivered (pop_for q).0
  left tries_pop q = delivered (try_pop q).0
  left clears q = q.queue
  left closes q = []

  pub all_entered : List (Call A) → BlockingQueue A → List A
  unfolding entered
  all_entered [] q = []
  all_entered (c ∷ cs) q = entered c q ++ all_entered cs (step c q)

  pub all_left : List (Call A) → BlockingQueue A → List A
  unfolding left
  all_left [] q = []
  all_left (c ∷ cs) q = left c q ++ all_left cs (step c q)

  push_balance :
      (x : A) (q : BlockingQueue A) (xs : List A)
      → q.queue ≡ xs
      → left (pushes x) q ++ (step (pushes x) q).queue ≡ xs ++ x ∷ []
  unfolding left step
  push_balance x q [] h = ground arith
  push_balance x q (y ∷ ys) h = ground arith

  step_balance :
      (c : Call A) (q : BlockingQueue A) → left c q ++ (step c q).queue ≡ q.queue ++ entered c q
  unfolding left step entered
  step_balance (pushes x) q = push_balance x q q.queue refl
  step_balance (pushes_blocking x) q = ground (arith, append-nil q.queue)
  step_balance pops q = ground (arith, append-nil q.queue)
  step_balance pops_for q = ground (arith, append-nil q.queue)
  step_balance tries_pop q = ground (arith, append-nil q.queue)
  step_balance clears q = refl
  step_balance closes q = sym (append-nil q.queue)

  -- Whatever the calls of the threads are, the items that left the queue (returned to a consumer,
  -- dropped as the oldest by `push`, or cleared), followed by those that it still holds, are those
  -- that it held at the start followed by those that entered, in this order: nothing is lost
  -- otherwise, doubled or overtaken.
  pub run_order :
      (cs : List (Call A)) (q : BlockingQueue A)
      → all_left cs q ++ (run cs q).queue ≡ q.queue ++ all_entered cs q
  unfolding run all_left all_entered
  run_order [] q = sym (append-nil q.queue)
  run_order (c ∷ cs) q =
      append_assoc (left c q) (all_left cs (step c q)) _
      ∙ ap (◌++◌ (left c q)) (run_order cs (step c q))
      ∙ sym (append_assoc (left c q) (step c q).queue _)
      ∙ ap (λ l. l ++ all_entered cs (step c q)) (step_balance c q)
      ∙ append_assoc q.queue (entered c q) _
