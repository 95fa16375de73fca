-- ===== src/Supervisor/Sought.antt =====
-- A camera that has dropped is sought until it is back.
use lpr_refactored.Prelude.{
  ℕ, ◌≡◌, refl, sym, ap, ◌∙◌, Bool, true, false, not, ◌||◌, Option, none, some, arith,
  if◌then◌else◌, Text, Dict, lookup, insert, lookup-insert_self, inl, inr, Bool-cases,
}
use lpr_refactored.Floats.{Float}
use lpr_refactored.Supervisor.Maps.{Worker}
use lpr_refactored.Supervisor.Lifecycle.{
  Attempt, open_configure_store, remove_device, note_drop, start_reconnect, should_stop, is_back,
  note_failure, end_worker, stop_all, is_running, is_stopped, not_running,
}
use lpr_refactored.Supervisor.Reconnect.{
  Phase, absent, checking, looking, waiting, opening, ending, is_seeking, Threads, started, Step,
  drop, start, check, look, wake, connect, fail, die, finish, halt, Reach, here, next, is_sought,
  IsConnected,
}
use lpr_refactored.Supervisor.Opened.{opened_back, opened_workers}

module _ (F : Float) (serial : Text) where
  abbrev is_present : Phase → Bool
  is_present absent = false
  is_present p = true

  seeks_present : (p : Phase) → is_seeking p ≡ true → is_present p ≡ true
  seeks_present absent h = cc
  seeks_present checking h = refl
  seeks_present looking h = refl
  seeks_present waiting h = refl
  seeks_present opening h = refl
  seeks_present ending h = refl

  -- While the supervisor is not stopped.
  record Inv (t : Threads F serial) : Type 0 where
    runs : t.stopped ≡ false → is_running (lookup serial t.state.workers) ≡ is_present t.phase
    goes : t.stopped ≡ false → is_present t.phase ≡ true → should_stop F serial t.state ≡ false
    sought : t.stopped ≡ false → t.missed ≡ false → t.failed ≡ false → is_sought F serial t ≡ true

  anew-Inv :
      (b : Bool) (t : Threads F serial)
      → Inv t
      → is_running (lookup serial t.state.workers) ≡ false
      → Inv (record t {
        state = record t.state {
          workers = insert serial (record { stop = false; running = b }) t.state.workers;
        };
        phase = if b then checking else t.phase;
        dropping = false;
        failed = t.failed || not b;
      })
  unfolding should_stop
  anew-Inv true t i e = record {
    runs = λ s.
        ap is_running
          (lookup-insert_self serial (record { stop = false; running = true }) t.state.workers);
    goes = λ s p.
        ap is_stopped
          (lookup-insert_self serial (record { stop = false; running = true }) t.state.workers);
    sought = λ s m f. ground arith;
  }
  anew-Inv false t i e =
      let idle : (s : t.stopped ≡ false) → is_present t.phase ≡ false = λ s. sym (i.runs s) ∙ e in
      record {
        runs = λ s.
            ap is_running
              (lookup-insert_self serial (record { stop = false; running = false }) t.state.workers)
            ∙ sym (idle s);
        goes = λ s p. let n = idle s in absurd (cc);
        sought = λ s m f. ground (arith, f);
      }

  -- The last part, where the others are as before.
  started-Inv : (b : Bool) (t : Threads F serial) → Inv t → Inv (started F serial b t)
  unfolding start_reconnect should_stop
  started-Inv b t i = elim (Bool-cases (is_running (lookup serial t.state.workers))) [
    | inl e ↦ rw e (record {
      runs = λ s. ground (arith, i.runs s, e);
      goes = i.goes;
      sought = λ s m f. ground (arith, i.runs s, e);
    })
    | inr e ↦ rw e (anew-Inv b t i e)
  ]

  -- The worker moves, and the maps stay.
  moved-Inv :
      (t : Threads F serial) (b : Bool) (p q : Phase)
      → t.phase ≡ p
      → is_present p ≡ true
      → (b ≡ true → t.stopped ≡ false → is_back F serial t.state ≡ true)
      → is_present q ≡ true
      → is_seeking q ≡ true
      → Inv t
      → Inv (record t { phase = if b then ending else q })
  moved-Inv t true p q e l h m k i = record {
    runs = λ s. i.runs s ∙ ap is_present e ∙ l;
    goes = λ s r. i.goes s (ap is_present e ∙ l);
    sought = λ s r f. ground (arith, h refl s);
  }
  moved-Inv t false p q e l h m k i = record {
    runs = λ s. i.runs s ∙ ap is_present e ∙ l ∙ sym m;
    goes = λ s r. i.goes s (ap is_present e ∙ l);
    sought = λ s r f. ground (arith, k);
  }

  -- A worker that is not stopped goes on.
  goes_on :
      (t : Threads F serial) (p : Phase)
      → t.phase ≡ p
      → is_present p ≡ true
      → Inv t
      → should_stop F serial t.state ≡ true
      → t.stopped ≡ false
      → is_back F serial t.state ≡ true
  goes_on t p e l i h s = let g = i.goes s (ap is_present e ∙ l) in absurd (cc)

  failed-Inv :
      (t : Threads F serial) (now : ℕ) (a : Attempt)
      → t.phase ≡ opening
      → Inv t
      → Inv (record t {
        state = note_failure F serial (open_configure_store F serial now a t.state).0;
        phase = checking;
      })
  unfolding note_failure should_stop
  failed-Inv t now a p i =
      let w = opened_workers F serial now a t.state in
      record {
        runs = λ s. ground (arith, i.runs s, p, w);
        goes = λ s r. ground (arith, i.goes s, p, w);
        sought = λ s m f. ground arith;
      }

  ended_runs :
      (o : Option Worker) (ws : Dict Worker)
      → lookup serial ws ≡ o
      → is_running (lookup serial (not_running serial o ws)) ≡ false
  ended_runs none ws e = ap is_running e
  ended_runs (some w) ws e =
      ap is_running (lookup-insert_self serial (record w { running = false }) ws)

  Step-Inv : {t u : Threads F serial} → Step F serial t u → Inv t → Inv u
  unfolding note_drop remove_device end_worker stop_all should_stop is_back
  Step-Inv (drop t now n b d) i = record {
    runs = i.runs;
    goes = i.goes;
    sought = λ s m f. ground arith;
  }
  Step-Inv (start t b d) i = started-Inv b t i
  Step-Inv (check t p) i =
      moved-Inv t (should_stop F serial t.state) checking looking p refl
        (goes_on t checking p refl i) refl refl i
  Step-Inv (look t p) i =
      moved-Inv t (is_back F serial t.state) looking waiting p refl (λ b s. b) refl refl i
  Step-Inv (wake t p) i =
      moved-Inv t (should_stop F serial t.state) waiting opening p refl (goes_on t waiting p refl i)
        refl refl i
  Step-Inv (connect t now a p h) i =
      let w = opened_workers F serial now a t.state in
      record {
        runs = λ s. ground (arith, i.runs s, p, w);
        goes = λ s r. ground (arith, i.goes s, p, w);
        sought = λ s m f. ground (arith, opened_back F serial now a t.state h);
      }
  Step-Inv (fail t now a p h) i = failed-Inv t now a p i
  Step-Inv (die t p) i = record {
    runs = λ s. i.runs s ∙ seeks_present t.phase p;
    goes = λ s r. i.goes s (seeks_present t.phase p);
    sought = λ s m f. absurd (cc);
  }
  Step-Inv (finish t p) i = record {
    runs = λ s. ended_runs (lookup serial t.state.workers) t.state.workers refl;
    goes = λ s r. absurd (cc);
    sought = λ s m f. ground (arith, i.sought s m f, p);
  }
  Step-Inv (halt t) i = record {
    runs = λ s. absurd (cc);
    goes = λ s. absurd (cc);
    sought = λ s. absurd (cc);
  }

  Reach-Inv : {s t : Threads F serial} → Reach F serial s t → Inv s → Inv t
  Reach-Inv here i = i
  Reach-Inv (next r st) i = Step-Inv st (Reach-Inv r i)

  -- From a connected camera, whatever the order in which the capture thread and the worker run,
  -- whatever the attempts meet and however often the camera drops, and until the supervisor is
  -- stopped: the camera is there, or its drop is under way, or a worker is on its way to open it,
  -- unless some start of a worker met one that was ending, or the thread of a worker was not created
  -- or was ended by an exception.
  pub Reach-sought :
      {s t : Threads F serial}
      → Reach F serial s t
      → IsConnected F serial s
      → t.stopped ≡ false
      → t.missed ≡ false
      → t.failed ≡ false
      → is_sought F serial t ≡ true
  Reach-sought {s} r c =
      (Reach-Inv r (record {
        runs = λ n. c.workers ∙ sym (ap is_present c.idle);
        goes = λ n p. absurd (idle c p);
        sought = λ n m f. ground (arith, c.back);
      })).sought
    where
      idle : (c : IsConnected F serial s) → is_present s.phase ≡ true → ⊥
      idle c p = let e = c.idle in ground arith
