-- ===== src/Detection/Parts.antt =====
-- What a read that is dropped, a change of the plate, and an announcement do to a pass.
use lpr_refactored.Prelude.{
  ℕ, ◌≡◌, refl, sym, ap, subst, ◌∙◌, true, false, ◌&&◌, Option, none, some, List, [], ◌∷◌, arith,
  ltb, ◌==◌, if◌then◌else◌, Text, Bool-cases, Option-cases, ◌⊎◌, inl, inr,
}
use lpr_refactored.Floats.{Float}
use lpr_refactored.Sender.{PlateItem}
use lpr_refactored.Detection.{
  PassState, is_some, Config, Read, differ, changed, correction, on_dropped, announce, flush,
}
use lpr_refactored.Detection.Legal.{
  Before, plain, After, holds, announces, corrects, Round, some_inj, InPass, Keeps, Keeps-round,
  Keeps-stays, Keeps-quiet, Keeps-release, Keeps-let_go,
}

module _ (F : Float) (jaro : Text → Text → F.Num) (cfg : Config F) where
  -- Where nothing is held, a dropped read changes nothing, or corrects the direction.
  dropped_idle :
      (gate : Text) (r : Read F) (st : PassState)
      → st.pending ≡ none
      → (on_dropped F jaro cfg gate r st ≡ (st, []))
        ⊎ ((st.emitted_early ≡ true)
            × (changed F jaro cfg r st ≡ true)
            × (on_dropped F jaro cfg gate r st ≡ (
              record st { last_seen_ms = r.now; last_sent_dir = some r.phys },
              correction F jaro cfg gate r st ∷ [],
            )))
  unfolding on_dropped
  dropped_idle gate r st e = ground (arith, e)

  dropped_waiting :
      (gate : Text) (r : Read F) (st : PassState) (h : PlateItem)
      → st.pending ≡ some h
      → (on_dropped F jaro cfg gate r st ≡ (st, []))
        ⊎ ((on_dropped F jaro cfg gate r st ≡ (
          record st {
            last_seen_ms = r.now;
            emitted_early = true;
            last_sent_dir = some r.phys;
            pending = none;
          },
          record h { direction = r.phys } ∷ [],
        ))
            ⊎ (on_dropped F jaro cfg gate r st
                ≡ (record st { pending = none }, record h { direction = 0 } ∷ [])))
  unfolding on_dropped
  dropped_waiting gate r st h e = ground (arith, e)

  Keeps-correct :
      (pass : Text) (k : Option PlateItem) (r : Read F) (st : PassState) (x : PlateItem) (now : ℕ)
      → InPass pass st
      → st.emitted_early ≡ true
      → changed F jaro cfg r st ≡ true
      → x.force_send ≡ true
      → x.direction ≡ r.phys
      → x.pass_id ≡ pass
      → Keeps pass
          (After pass k r.phys)
          st
          (record st { last_seen_ms = now; last_sent_dir = some r.phys }, x ∷ [])
  Keeps-correct pass k r st x now i e c f d q = record {
    inside = record {
      same = i.same;
      waiting = i.waiting;
      held_pass = i.held_pass;
      held_plain = i.held_plain;
    };
    legal = corrects x e f d (ground (arith, c)) (ground (arith, c));
    ids = (q, tt);
  }

  -- A read whose first part does nothing, or whose second part does.
  pub second_part :
      (pass : Text) (k : Option PlateItem) (d : ℕ) (st : PassState) (r : PassState × List PlateItem)
      → InPass pass st
      → Keeps pass (After pass k d) st r
      → Keeps pass (Round pass k d) st r
  second_part pass k d st (st2, ys) i g =
      Keeps-round pass k d st st st2 [] ys (Keeps-stays pass st i) g

  pub on_dropped-Keeps :
      (pass gate : Text) (k : Option PlateItem) (r : Read F) (st : PassState)
      → InPass pass st
      → Keeps pass (Round pass k r.phys) st (on_dropped F jaro cfg gate r st)
  on_dropped-Keeps pass gate k r st i =
      let R = Keeps pass (Round pass k r.phys) st in
      let nothing = second_part pass k r.phys st (st, []) i (Keeps-quiet pass k r.phys st i) in
      elim (Option-cases st.pending) [
        | inl e ↦ elim (dropped_idle gate r st e) [
          | inl n ↦ subst R (sym n) nothing
          | inr (b, c, n) ↦ subst R (sym n) (
              second_part pass k r.phys st _ i (
                Keeps-correct pass k r st (correction F jaro cfg gate r st) r.now i b c refl refl
                  i.same))
        ]
        | inr (h, e) ↦ elim (dropped_waiting gate r st h e) [
          | inl n ↦ subst R (sym n) nothing
          | inr (inl n) ↦
              subst R (sym n)
                (second_part pass k r.phys st _ i (Keeps-release pass k r.phys st h r.now i e))
          | inr (inr n) ↦
              let go = Keeps-let_go pass st h i e in
              subst R (sym n) (
                Keeps-round pass k r.phys st (record st { pending = none }) _ _ [] go
                  (Keeps-quiet pass k r.phys _ go.inside))
        ]
      ]

  flush_cases :
      (out : PlateItem) (st : PassState)
      → (flush F jaro cfg out st ≡ (st, []))
        ⊎ ((h : PlateItem) × (st.pending ≡ some h)
            × (flush F jaro cfg out st
                ≡ (record st { pending = none }, record h { direction = 0 } ∷ [])))
  unfolding flush
  flush_cases out st = elim (Option-cases st.pending) [
    | inl e ↦ inl (ground (arith, e))
    | inr (h, e) ↦ elim (Bool-cases (differ F jaro cfg h.text out.text)) [
      | inl d ↦ inr (h, e, ground (arith, e, d))
      | inr d ↦ inl (ground (arith, e, d))
    ]
  ]

  pub flush-Keeps :
      (pass : Text) (out : PlateItem) (st : PassState)
      → InPass pass st
      → Keeps pass Before st (flush F jaro cfg out st)
  flush-Keeps pass out st i = elim (flush_cases out st) [
    | inl n ↦ subst (Keeps pass Before st) (sym n) (Keeps-stays pass st i)
    | inr (h, e, n) ↦ subst (Keeps pass Before st) (sym n) (Keeps-let_go pass st h i e)
  ]

  announce_cases :
      (r : Read F) (out : PlateItem) (st : PassState)
      → ((st.emitted_early ≡ false)
          × (((r.phys ≡ 0)
                × ((since : ℕ) × (announce F jaro cfg r out st
                      ≡ (record st { pending = some out; pending_since = since }, []))))
              ⊎ (announce F jaro cfg r out st ≡ (
                record st { emitted_early = true; last_sent_dir = some r.phys; pending = none },
                record out { direction = r.phys } ∷ [],
              ))))
        ⊎ ((st.emitted_early ≡ true)
            × ((announce F jaro cfg r out st ≡ (st, []))
                ⊎ ((changed F jaro cfg r st ≡ true)
                    × (announce F jaro cfg r out st ≡ (
                      record st { last_sent_dir = some r.phys },
                      record out { direction = r.phys; force_send = true } ∷ [],
                    )))))
  unfolding announce
  announce_cases r out st = elim (Bool-cases st.emitted_early) [
    | inr e ↦ inl (
      e,
      elim (Bool-cases (ltb 0 (if cfg.direction_enable then cfg.hold else 0) && r.phys == 0)) [
        | inl w ↦ inl (
          ground (arith, w),
          (
            if is_some st.pending
                then st.pending_since
                else (if cfg.direction_enable then r.sightings else 0),
            ground (arith, e, w),
          ),
        )
        | inr w ↦ inr (ground (arith, e, w))
      ],
    )
    | inl e ↦ inr (
      e,
      elim (Bool-cases (changed F jaro cfg r st)) [
        | inl c ↦ inr (c, ground (arith, e, c))
        | inr c ↦ inl (ground (arith, e, c))
      ],
    )
  ]

  Keeps-hold :
      (pass : Text) (k : Option PlateItem) (d : ℕ) (st : PassState) (p out : PlateItem) (since : ℕ)
      → InPass pass st
      → st.emitted_early ≡ false
      → k ≡ some p
      → out ≡ plain pass p
      → d ≡ 0
      → Keeps pass (After pass k d) st (record st { pending = some out; pending_since = since }, [])
  Keeps-hold pass k d st p out since i e q o z = record {
    inside = record {
      same = i.same;
      waiting = λ k. e;
      held_pass = λ g k. ap (λ (x : PlateItem). x.pass_id) (some_inj k ∙ o);
      held_plain = λ g k. ap (λ (x : PlateItem). x.force_send) (some_inj k ∙ o);
    };
    legal = holds p out q o e z;
    ids = tt;
  }

  Keeps-announce :
      (pass : Text) (k : Option PlateItem) (d : ℕ) (st : PassState) (p out : PlateItem)
      → InPass pass st
      → st.emitted_early ≡ false
      → k ≡ some p
      → out ≡ plain pass p
      → Keeps pass (After pass k d) st (
        record st { emitted_early = true; last_sent_dir = some d; pending = none },
        record out { direction = d } ∷ [],
      )
  Keeps-announce pass k d st p out i e q o = record {
    inside = record {
      same = i.same;
      waiting = λ k. cc;
      held_pass = λ g k. cc;
      held_plain = λ g k. cc;
    };
    legal = announces p out q o e;
    ids = (ap (λ (x : PlateItem). x.pass_id) o, tt);
  }

  pub announce-Keeps :
      (pass : Text) (k : Option PlateItem) (r : Read F) (p out : PlateItem) (st : PassState)
      → InPass pass st
      → k ≡ some p
      → out ≡ plain pass p
      → Keeps pass (After pass k r.phys) st (announce F jaro cfg r out st)
  announce-Keeps pass k r p out st i q o =
      let R = Keeps pass (After pass k r.phys) st in
      elim (announce_cases r out st) [
        | inl (e, inl (z, (since, n))) ↦
            subst R (sym n) (Keeps-hold pass k r.phys st p out since i e q o z)
        | inl (e, inr n) ↦ subst R (sym n) (Keeps-announce pass k r.phys st p out i e q o)
        | inr (e, inl n) ↦ subst R (sym n) (Keeps-quiet pass k r.phys st i)
        | inr (e, inr (c, n)) ↦ subst R (sym n) (
            Keeps-correct pass k r st (record out { direction = r.phys; force_send = true })
              st.last_seen_ms i e c refl refl (ap (λ (x : PlateItem). x.pass_id) o))
      ]
