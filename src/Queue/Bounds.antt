-- ===== src/Queue/Bounds.antt =====
-- The capacity of a bounded queue.
use lpr_refactored.Prelude.{
  ℕ, ◌≤◌, ◌<◌, ◌≡◌, refl, ◌∙◌, List, [], ◌∷◌, arith, length, length-append, length-drop, drop,
}
use lpr_refactored.Queue.{
  BlockingQueue, Call, pushes, pushes_blocking, pops, pops_for, tries_pop, clears, closes, init,
  step, run,
}

-- Nothing past the capacity, for a bounded queue.
pub record IsBounded {ℓ} {A : Type ℓ} (q : BlockingQueue A) : Type 0 where
  pub bounded : 0 < q.max_size
  pub within : length q.queue ≤ q.max_size

module _ {ℓ} {A : Type ℓ} where
  step-max_size : (c : Call A) (q : BlockingQueue A) → (step c q).max_size ≡ q.max_size
  unfolding step
  step-max_size (pushes x) q = refl
  step-max_size (pushes_blocking x) q = ground arith
  step-max_size pops q = ground arith
  step-max_size pops_for q = ground arith
  step-max_size tries_pop q = ground arith
  step-max_size clears q = refl
  step-max_size closes q = refl

  step-within :
      (c : Call A) (q : BlockingQueue A) → IsBounded q → length (step c q).queue ≤ q.max_size
  unfolding step
  step-within (pushes x) q h = ground (
    arith,
    length-append q.queue (x ∷ []),
    length-append (drop 1 q.queue) (x ∷ []),
    length-drop 1 q.queue,
  )
  step-within (pushes_blocking x) q h = ground (arith, length-append q.queue (x ∷ []))
  step-within pops q h = ground arith
  step-within pops_for q h = ground arith
  step-within tries_pop q h = ground arith
  step-within clears q h = ground arith
  step-within closes q h = ground arith

  step-IsBounded : (c : Call A) (q : BlockingQueue A) → IsBounded q → IsBounded (step c q)
  step-IsBounded c q h = record {
    bounded = omega (arith, step-max_size c q);
    within = omega (arith, step-max_size c q, step-within c q h);
  }

  run-IsBounded :
      (cs : List (Call A)) (q : BlockingQueue A)
      → IsBounded q
      → IsBounded (run cs q) × ((run cs q).max_size ≡ q.max_size)
  unfolding run
  run-IsBounded [] q h = (h, refl)
  run-IsBounded (c ∷ cs) q h =
      let ih = run-IsBounded cs (step c q) (step-IsBounded c q h) in
      (ih.0, ih.1 ∙ step-max_size c q)

  -- In a queue made with a capacity above 0, no sequence of calls of its threads ever stores more
  -- items than the capacity, which itself never changes.
  pub run_within :
      (max : ℕ) (cs : List (Call A))
      → 0 < max
      → (length (run cs (init max)).queue ≤ max) × ((run cs (init max)).max_size ≡ max)
  unfolding init
  run_within max cs h =
      let r = run-IsBounded cs (init max) (record { bounded = h; within = omega arith }) in
      (omega (arith, r.0.within, r.1), r.1)
