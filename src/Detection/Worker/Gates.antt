-- ===== src/Detection/Worker/Gates.antt =====
-- The map of passes against the machine of one gate.
use lpr_refactored.Prelude.{
  ℕ, ◌+◌, ◌*◌, ◌≡◌, ◌≤◌, refl, sym, ap, subst, ◌∙◌, true, false, Option, none, some, List, [], ◌∷◌,
  ◌++◌, arith, Text, Dict, lookup, insert, Bool-cases, Option-cases, ◌⊎◌, inl, inr, All,
  HasUniqueKeys, HasUniqueKeys-insert, HasUniqueKeys-erase_if, lookup-erase_if, lookup-insert_self,
  surviving,
}
use lpr_refactored.Floats.{Float}
use lpr_refactored.Sender.{PlateItem}
use lpr_refactored.Detection.{
  PassState, new_pass, is_some, Config, Read, pass_for, on_dropped, announce, flush, on_kept,
  on_processed, on_read,
}
use lpr_refactored.Detection.Protocol.{run}
use lpr_refactored.Detection.Worker.{
  pass_or_new, is_stale, pruned, dropped_unseen, process_read, process_reads,
}

-- The pass of the gate is recent, or new.
abbrev pub IsRecent : ℕ → PassState → Type 0
IsRecent now st = (now ≤ st.last_seen_ms + 5 * 60 * 1000) ⊎ (st ≡ new_pass)

module _ (F : Float) (jaro : Text → Text → F.Num) (cfg : Config F) where
  dropped_seen :
      (gate : Text) (r : Read F) (st : PassState)
      → ((on_dropped F jaro cfg gate r st).0 ≡ st)
        ⊎ (((on_dropped F jaro cfg gate r st).0.last_seen_ms ≡ r.now)
            ⊎ (((on_dropped F jaro cfg gate r st).0.last_seen_ms ≡ st.last_seen_ms)
                × (is_some st.pending ≡ true)))
  unfolding on_dropped
  dropped_seen gate r st = ground arith

  flush_seen :
      (out : PlateItem) (st : PassState)
      → (flush F jaro cfg out st).0.last_seen_ms ≡ st.last_seen_ms
  unfolding flush
  flush_seen out st = ground arith

  announce_seen :
      (r : Read F) (out : PlateItem) (st : PassState)
      → (announce F jaro cfg r out st).0.last_seen_ms ≡ st.last_seen_ms
  unfolding announce
  announce_seen r out st = ground arith

  pass_for_seen :
      (now : ℕ) (text uuid : Text) (st : PassState)
      → (pass_for F jaro cfg now text uuid st).last_seen_ms ≡ now
  unfolding pass_for
  pass_for_seen now text uuid st = ground arith

  kept_seen :
      (r : Read F) (p : PlateItem) (st : PassState)
      → (on_kept F jaro cfg r p st).0.last_seen_ms ≡ r.now
  unfolding on_kept
  kept_seen r p st =
      let st' = pass_for F jaro cfg r.now p.text r.uuid st in
      let out : PlateItem = record p { pass_id = st'.pass_id; force_send = false } in
      announce_seen r out (flush F jaro cfg out st').0
      ∙ flush_seen out st'
      ∙ pass_for_seen r.now p.text r.uuid st

  on_read-IsRecent :
      (gate : Text) (r : Read F) (st : PassState)
      → IsRecent r.now st
      → IsRecent r.now (on_read F jaro cfg gate r st).0
  unfolding on_read on_processed
  on_read-IsRecent gate r st h = elim (Option-cases r.kept) [
    | inr (p, k) ↦ rw (k, on_processed) (inl (omega (arith, kept_seen r p st)))
    | inl k ↦
        rw (k, on_processed)
          (elim (dropped_seen gate r st) [
            | inl e ↦ subst (IsRecent r.now) (sym e) h
            | inr (inl e) ↦ inl (omega (arith, e))
            | inr (inr (e, s)) ↦ elim h [
              | inl l ↦ inl (omega (arith, e, l))
              | inr n ↦ absurd (ground (arith, ap (λ (x : PassState). is_some x.pending) n, s))
            ]
          ])
  ]

  survives :
      (now : ℕ) (st : PassState)
      → IsRecent now st
      → pass_or_new (surviving (is_stale now) (some st)) ≡ st
  survives now st (inl h) = ground arith
  survives now st (inr e) = elim (Bool-cases (is_stale now st)) [
    | inl s ↦ rw s (sym e)
    | inr s ↦ rw s refl
  ]

  -- A prune leaves a recent pass alone.
  pass_of-pruned :
      (gate : Text) (now : ℕ) (k : Option PlateItem) (passes : Dict PassState)
      → HasUniqueKeys passes
      → IsRecent now (pass_or_new (lookup gate passes))
      → pass_or_new (lookup gate (pruned F jaro cfg now k passes))
        ≡ pass_or_new (lookup gate passes)
  pass_of-pruned gate now none passes u h = refl
  pass_of-pruned gate now (some p) passes u h = elim (Option-cases (lookup gate passes)) [
    | inl e ↦
        ap pass_or_new
          (lookup-erase_if (is_stale now) gate passes u ∙ ap (surviving (is_stale now)) e ∙ sym e)
    | inr (st, e) ↦
        ap pass_or_new
          (lookup-erase_if (is_stale now) gate passes u ∙ ap (surviving (is_stale now)) e)
        ∙ survives now st (subst (λ o. IsRecent now (pass_or_new o)) e h)
        ∙ ap pass_or_new (sym e)
  ]

  pub pruned-HasUniqueKeys :
      (now : ℕ) (k : Option PlateItem) (passes : Dict PassState)
      → HasUniqueKeys passes
      → HasUniqueKeys (pruned F jaro cfg now k passes)
  pruned-HasUniqueKeys now none passes u = u
  pruned-HasUniqueKeys now (some p) passes u = HasUniqueKeys-erase_if (is_stale now) passes u

  dropped_disabled :
      (gate : Text) (r : Read F) (st : PassState)
      → cfg.direction_enable ≡ false
      → on_dropped F jaro cfg gate r st ≡ (st, [])
  unfolding on_dropped
  dropped_disabled gate r st e = rw e refl

  read_unseen :
      (gate : Text) (r : Read F) (st : PassState) (k : Option PlateItem)
      → dropped_unseen F jaro cfg k ≡ true
      → on_processed F jaro cfg gate r k st ≡ (st, [])
  unfolding on_processed
  read_unseen gate r st none e = dropped_disabled gate r st (ground arith)
  read_unseen gate r st (some p) e = cc

  -- A read on the map is the read on the pass of its gate.
  pub record Refines (gate : Text) (result : Dict PassState × List PlateItem)
      (spec : PassState × List PlateItem) : Type 0 where
    pub unique : HasUniqueKeys result.0
    pub pass : pass_or_new (lookup gate result.0) ≡ spec.0
    pub sent : result.1 ≡ spec.1

  inserted-Refines :
      (gate : Text) (r : Read F) (passes : Dict PassState) (st : PassState)
      → HasUniqueKeys passes
      → pass_or_new (lookup gate passes) ≡ st
      → Refines gate
          (
            insert gate (on_read F jaro cfg gate r (pass_or_new (lookup gate passes))).0 passes,
            (on_read F jaro cfg gate r (pass_or_new (lookup gate passes))).1,
          )
          (on_read F jaro cfg gate r st)
  inserted-Refines gate r passes st u e = record {
    unique = HasUniqueKeys-insert gate _ passes u;
    pass =
        ap pass_or_new (lookup-insert_self gate _ passes)
        ∙ ap (λ x. (on_read F jaro cfg gate r x).0) e;
    sent = ap (λ x. (on_read F jaro cfg gate r x).1) e;
  }

  process_read-Refines :
      (gate : Text) (r : Read F) (passes : Dict PassState)
      → HasUniqueKeys passes
      → IsRecent r.now (pass_or_new (lookup gate passes))
      → Refines gate
          (process_read F jaro cfg gate r passes)
          (on_read F jaro cfg gate r (pass_or_new (lookup gate passes)))
  unfolding process_read on_read
  process_read-Refines gate r passes u h =
      let go =
        inserted-Refines gate r (pruned F jaro cfg r.now r.kept passes)
          (pass_or_new (lookup gate passes)) (pruned-HasUniqueKeys r.now r.kept passes u)
          (pass_of-pruned gate r.now r.kept passes u h) in
      elim (Bool-cases (dropped_unseen F jaro cfg r.kept)) [
        | inr e ↦ rw e go
        | inl e ↦ rw e (record {
          unique = u;
          pass =
              sym (ap (λ x. x.0) (read_unseen gate r (pass_or_new (lookup gate passes)) r.kept e));
          sent =
              sym (ap (λ x. x.1) (read_unseen gate r (pass_or_new (lookup gate passes)) r.kept e));
        })
      ]

  -- The reads of a frame, which share its time, do on the map of passes exactly what the machine of
  -- one gate does on the pass of the frame's gate: the same messages, and the same pass after them,
  -- an absent one being a new pass. The pass was seen in the last five minutes, or is new, and the
  -- map holds each gate once, as it does after the frame too.
  pub process_reads-Refines :
      (gate : Text) (now : ℕ) (rs : List (Read F)) (passes : Dict PassState)
      → All (λ r. r.now ≡ now) rs
      → HasUniqueKeys passes
      → IsRecent now (pass_or_new (lookup gate passes))
      → Refines gate
          (process_reads F jaro cfg gate rs passes)
          (run F jaro cfg gate rs (pass_or_new (lookup gate passes)))
  unfolding process_reads run
  process_reads-Refines gate now [] passes t u h = record { unique = u; pass = refl; sent = refl }
  process_reads-Refines gate now (r ∷ rs) passes t u h =
      let st = pass_or_new (lookup gate passes) in
      let h' = subst (λ n. IsRecent n st) (sym t.0) h in
      let a = process_read-Refines gate r passes u h' in
      let recent : IsRecent now
          (pass_or_new (lookup gate (process_read F jaro cfg gate r passes).0)) =
        subst
          (λ n. IsRecent n (pass_or_new (lookup gate (process_read F jaro cfg gate r passes).0)))
          t.0 (subst (IsRecent r.now) (sym a.pass) (on_read-IsRecent gate r st h')) in
      let b =
        process_reads-Refines gate now rs (process_read F jaro cfg gate r passes).0 t.1 a.unique
          recent in
      record {
        unique = b.unique;
        pass = b.pass ∙ ap (λ x. (run F jaro cfg gate rs x).0) a.pass;
        sent =
            ap
              (λ x.
                x ++ (process_reads F jaro cfg gate rs (process_read F jaro cfg gate r passes).0).1)
              a.sent
            ∙ ap (λ y. (on_read F jaro cfg gate r st).1 ++ y)
                (b.sent ∙ ap (λ x. (run F jaro cfg gate rs x).1) a.pass);
      }
