-- ===== src/Commands/Queue.antt =====
-- The queue of commands: pushed from any thread, drained by the one that captures.
use lpr_refactored.Prelude.{
  ◌≡◌, refl, sym, ap, subst, ◌∙◌, Option, none, some, List, [], ◌∷◌, ◌++◌, append-nil, append_assoc,
}

module _ {ℓ κ} {A : Type ℓ} {Device : Type κ} (execute : A → Device → Device) where
  -- The calls; a push of nothing is the push of a null pointer.
  pub data Call : Type ℓ where
    push : Option A → Call
    drain : Call

  -- The queue, the commands executed so far, oldest first, and the cameras. A command that throws
  -- has changed what it had changed by then; the exception is logged.
  pub record State : Type (ℓ ⊔ κ) where
    pub queue : List A
    pub executed : List A
    pub device : Device

  pub run_all : List A → Device → Device
  run_all [] d = d
  run_all (c ∷ cs) d = run_all cs (execute c d)

  pub step : Call → State → State
  unfolding run_all
  step (push none) s = s
  step (push (some c)) s = record s { queue = s.queue ++ c ∷ [] }
  step drain s = record {
    queue = [];
    executed = s.executed ++ s.queue;
    device = run_all s.queue s.device;
  }

  unfoldable pub steps : List Call → State → State
  unfolding step
  steps [] s = s
  steps (c ∷ cs) s = steps cs (step c s)

  pub pushed : List Call → List A
  pushed [] = []
  pushed (push none ∷ cs) = pushed cs
  pushed (push (some c) ∷ cs) = c ∷ pushed cs
  pushed (drain ∷ cs) = pushed cs

  run_all-append : (l k : List A) (d : Device) → run_all (l ++ k) d ≡ run_all k (run_all l d)
  unfolding run_all
  run_all-append [] k d = refl
  run_all-append (c ∷ l) k d = run_all-append l k (execute c d)

  -- From a start on the device d0.
  record Runs (d0 : Device) (all : List A) (s : State) : Type (ℓ ⊔ κ) where
    pub fifo : s.executed ++ s.queue ≡ all
    pub applied : s.device ≡ run_all s.executed d0

  step-Runs :
      (d0 : Device) (c : Call) (all : List A) (s : State)
      → Runs d0 all s
      → Runs d0 (all ++ pushed (c ∷ [])) (step c s)
  unfolding step pushed run_all
  step-Runs d0 (push none) all s r = record {
    fifo = r.fifo ∙ sym (append-nil all);
    applied = r.applied;
  }
  step-Runs d0 (push (some c)) all s r = record {
    fifo = sym (append_assoc s.executed s.queue (c ∷ [])) ∙ ap (λ l. l ++ c ∷ []) r.fifo;
    applied = r.applied;
  }
  step-Runs d0 drain all s r = record {
    fifo = append-nil (s.executed ++ s.queue) ∙ r.fifo ∙ sym (append-nil all);
    applied = ap (run_all s.queue) r.applied ∙ sym (run_all-append s.executed s.queue d0);
  }

  steps-Runs :
      (d0 : Device) (cs : List Call) (all : List A) (s : State)
      → Runs d0 all s
      → Runs d0 (all ++ pushed cs) (steps cs s)
  unfolding steps pushed
  steps-Runs d0 [] all s r = subst (λ l. Runs d0 l s) (sym (append-nil all)) r
  steps-Runs d0 (push none ∷ cs) all s r = steps-Runs d0 cs all s r
  steps-Runs d0 (push (some c) ∷ cs) all s r =
      subst (λ l. Runs d0 l (steps cs (step (push (some c)) s)))
        (append_assoc all (c ∷ []) (pushed cs))
        (steps-Runs d0 cs (all ++ c ∷ []) (step (push (some c)) s)
          (step-Runs d0 (push (some c)) all s r))
  steps-Runs d0 (drain ∷ cs) all s r =
      steps-Runs d0 cs all (step drain s)
        (subst (λ l. Runs d0 l (step drain s)) (append-nil all) (step-Runs d0 drain all s r))

  abbrev pub idle : Device → State
  idle d = record { queue = []; executed = []; device = d }

  -- From an empty queue, whatever the order of pushes and drains, the commands executed and then
  -- those that wait are the ones pushed, each once and in the order of the pushes, and the cameras
  -- are as these executions left them; a drain leaves none waiting.
  pub steps-executed :
      (d0 : Device) (cs : List Call)
      → let s = steps cs (idle d0) in
        (s.executed ++ s.queue ≡ pushed cs)
        × ((s.device ≡ run_all s.executed d0) × ((step drain s).executed ≡ pushed cs))
  unfolding step run_all
  steps-executed d0 cs =
      let r = steps-Runs d0 cs [] (idle d0) (record { fifo = refl; applied = refl }) in
      (r.fifo, (r.applied, r.fifo))
