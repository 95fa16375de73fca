-- ===== src/Queue.antt =====
-- include/lpr/util/BlockingQueue.h: the thread-safe queue between the capture, detection and
-- sending threads. Every method holds the mutex, so a run of the threads is a sequence of calls;
-- a wait on a condition variable is a call that is `none` (still waiting) until its predicate holds.
pub mod Bounds
pub mod Order
pub mod Shutdown
mod Tests
use lpr_refactored.Prelude.{
  ℕ, Bool, true, false, not, ◌&&◌, ◌||◌, Option, none, some, List, [], ◌∷◌, ◌++◌, ltb, leb,
  if◌then◌else◌, length, is_empty, drop, take,
}

pub record BlockingQueue {ℓ} (A : Type ℓ) : Type ℓ where
  pub queue : List A  -- oldest first
  pub max_size : ℕ  -- 0 means unbounded
  pub closed : Bool

module _ {ℓ} {A : Type ℓ} where
  pub init : ℕ → BlockingQueue A
  init max = record { queue = []; max_size = max; closed = false }

  -- The flag is false when the oldest item was dropped to make room.
  pub push : A → BlockingQueue A → BlockingQueue A × Bool
  push x q =
      let dropped = ltb 0 q.max_size && leb q.max_size (length q.queue) in
      let kept = if dropped then drop 1 q.queue else q.queue in
      (record q { queue = kept ++ x ∷ [] }, not dropped)

  -- The predicate that the producer waits for.
  abbrev pub has_room : BlockingQueue A → Bool
  has_room q = q.closed || ltb (length q.queue) q.max_size

  pub push_blocking : A → BlockingQueue A → Option (BlockingQueue A)
  push_blocking x q =
      if ltb 0 q.max_size && not (has_room q)
      then none
      else if q.closed
      then some q
      else some (record q { queue = q.queue ++ x ∷ [] })

  -- `queue_.front()` and `queue_.pop_front()`, or nullopt on the empty queue.
  take_front : List A → BlockingQueue A → Option A × BlockingQueue A
  take_front [] q = (none, q)
  take_front (x ∷ rest) q = (some x, record q { queue = rest })

  abbrev pub can_pop : BlockingQueue A → Bool
  can_pop q = not (is_empty q.queue) || q.closed

  pub pop : BlockingQueue A → Option (Option A × BlockingQueue A)
  unfolding take_front
  pop q = if can_pop q then some (take_front q.queue q) else none

  -- The state is the one in which the wait ended, by its predicate or by the timeout.
  pub pop_for : BlockingQueue A → Option A × BlockingQueue A
  unfolding take_front
  pop_for q = if can_pop q then take_front q.queue q else (none, q)

  pub try_pop : BlockingQueue A → Option A × BlockingQueue A
  unfolding take_front
  try_pop q = take_front q.queue q

  pub size : BlockingQueue A → ℕ
  size q = length q.queue

  pub empty : BlockingQueue A → Bool
  empty q = is_empty q.queue

  pub clear : BlockingQueue A → BlockingQueue A
  clear q = record q { queue = [] }

  pub close : BlockingQueue A → BlockingQueue A
  close q = record q { closed = true }

  pub is_closed : BlockingQueue A → Bool
  is_closed q = q.closed

-- The calls of the threads.
pub data Call {ℓ} (A : Type ℓ) : Type ℓ where
  pushes : A → Call A
  pushes_blocking : A → Call A
  pops : Call A
  pops_for : Call A
  tries_pop : Call A
  clears : Call A
  closes : Call A

module _ {ℓ} {A : Type ℓ} where
  -- A call whose wait is not over leaves the queue as it is.
  abbrev pub or_wait : Option (BlockingQueue A) → BlockingQueue A → BlockingQueue A
  or_wait none q = q
  or_wait (some q') q = q'

  abbrev pub state_of : Option (Option A × BlockingQueue A) → Option (BlockingQueue A)
  state_of none = none
  state_of (some (x, q)) = some q

  pub step : Call A → BlockingQueue A → BlockingQueue A
  unfolding push push_blocking pop pop_for try_pop clear close
  step (pushes x) q = (push x q).0
  step (pushes_blocking x) q = or_wait (push_blocking x q) q
  step pops q = or_wait (state_of (pop q)) q
  step pops_for q = (pop_for q).1
  step tries_pop q = (try_pop q).1
  step clears q = clear q
  step closes q = close q

  pub run : List (Call A) → BlockingQueue A → BlockingQueue A
  unfolding step
  run [] q = q
  run (c ∷ cs) q = run cs (step c q)
