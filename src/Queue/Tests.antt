-- ===== src/Queue/Tests.antt =====
-- A bounded queue of three frames, and a run of its threads.
use lpr_refactored.Prelude.{ℕ, ◌≡◌, refl, true, false, List, [], ◌∷◌, ◌++◌}
use lpr_refactored.Queue.{
  BlockingQueue, Call, pushes, pushes_blocking, pops, closes, init, push, close, run,
}
use lpr_refactored.Queue.Order.{run_order, all_left, all_entered}
use lpr_refactored.Queue.Shutdown.{drain, drain-close}

abbrev frames : List (Call ℕ)
frames =
    pushes 1 ∷ pushes 2 ∷ pushes 3 ∷ pops ∷ pushes 4 ∷ pushes 5 ∷ pushes_blocking 6 ∷ closes ∷ []

abbrev three : BlockingQueue ℕ
three = record { queue = 7 ∷ 8 ∷ 9 ∷ []; max_size = 3; closed = false }

drops_oldest : push 10 three ≡ (record three { queue = 8 ∷ 9 ∷ 10 ∷ [] }, false)
unfolding push
drops_oldest = refl

frames-run : (run frames (init 3)).queue ≡ 3 ∷ 4 ∷ 5 ∷ []
unfolding run init
frames-run = refl

run_order_example :
    all_left frames three ++ (run frames three).queue ≡ 7 ∷ 8 ∷ 9 ∷ [] ++ all_entered frames three
run_order_example = run_order frames three

drain-close_example : drain 4 (close three) ≡ (7 ∷ 8 ∷ 9 ∷ [], true)
drain-close_example = drain-close three
