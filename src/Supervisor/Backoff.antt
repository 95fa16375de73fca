-- ===== src/Supervisor/Backoff.antt =====
-- The loop of a reconnect worker that nobody stops.
use lpr_refactored.Prelude.{
  ℕ, zero, suc, ◌+◌, ◌^◌, ◌≡◌, ◌≤◌, ◌<◌, refl, ap, ◌∙◌, min, true, false, ◌||◌, Option, none, some,
  List, [], ◌∷◌, arith, ltb, if◌then◌else◌, is_empty, length, All, Text, codes, text_eq, lookup,
  Bool-cases, inl, inr,
}
use native.Mathlib.Nat.{one-le-pow}
use lpr_refactored.Floats.{Float}
use lpr_refactored.Supervisor.Maps.{Supervisor, Profile}
use lpr_refactored.Supervisor.Lifecycle.{
  Attempt, configured, open_configure_store, publish, should_stop, is_back, note_failure,
  backoff_seconds, max_shift, backoff_cap_sec, or_zero, with_profile, attempted, is_stopped,
}
use lpr_refactored.Supervisor.Opened.{opened_back, opened_workers}

-- A wait is at least a second and at most the cap.
abbrev pub IsWait : ℕ → Type 0
IsWait w = (1 ≤ w) × (w ≤ 180)

capped-IsWait : (v : ℕ) → 1 ≤ v → IsWait (if ltb backoff_cap_sec v then backoff_cap_sec else v)
capped-IsWait v h = ground (arith, h)

backoff_seconds-IsWait : (n : ℕ) → IsWait (backoff_seconds n)
unfolding backoff_seconds
backoff_seconds-IsWait n =
    capped-IsWait (2 ^ min n max_shift) (one-le-pow (min n max_shift) 2 (omega arith))

module _ (F : Float) (serial : Text) where
  abbrev after_wait {ℓ} : {A : Type ℓ} → ℕ → Option (A × List ℕ) → Option (A × List ℕ)
  after_wait w none = none
  after_wait w (some (s, ws)) = some (s, w ∷ ws)

  -- `reconnectLoop`, with what each attempt meets and its time by the number of the attempt: the
  -- state and the waits, or `none` when the fuel runs out.
  pub reconnect_loop :
      ℕ → (ℕ → Attempt) → (ℕ → ℕ) → ℕ → Supervisor F → Option (Supervisor F × List ℕ)
  unfolding open_configure_store note_failure should_stop is_back
  reconnect_loop zero meets now i s = none
  reconnect_loop (suc fuel) meets now i s =
      let w = backoff_seconds (or_zero (lookup serial s.attempts)) in
      let opened = open_configure_store F serial (now i) (meets i) s in
      let rest = reconnect_loop fuel meets now (suc i) (note_failure F serial opened.0) in
      if should_stop F serial s || is_back F serial s
      then some (s, [])
      else if opened.1
      then some (opened.0, w ∷ [])
      else after_wait w rest

  -- The camera can be opened: it has a serial and a profile, and its worker is not stopped.
  pub record IsOpenable (s : Supervisor F) : Type 0 where
    pub serial_given : (is_empty serial || text_eq serial (codes "-1")) ≡ false
    pub profile : Profile F
    pub has_profile : lookup serial s.profiles ≡ some profile
    pub going : should_stop F serial s ≡ false

  opened_true :
      (now : ℕ) (b : Option Text) (s : Supervisor F)
      → IsOpenable s
      → (open_configure_store F serial now (configured b) s).1 ≡ true
  unfolding open_configure_store with_profile attempted
  opened_true now b s o = rw (o.serial_given, o.has_profile) refl

  opened_profiles :
      (now : ℕ) (a : Attempt) (s : Supervisor F)
      → (open_configure_store F serial now a s).0.profiles ≡ s.profiles
  unfolding open_configure_store with_profile attempted publish
  opened_profiles now a s = ground arith

  failed-IsOpenable :
      (now : ℕ) (a : Attempt) (s : Supervisor F)
      → IsOpenable s
      → IsOpenable (note_failure F serial (open_configure_store F serial now a s).0)
  unfolding note_failure should_stop
  failed-IsOpenable now a s o = record {
    serial_given = o.serial_given;
    profile = o.profile;
    has_profile = ap (lookup serial) (opened_profiles now a s) ∙ o.has_profile;
    going = ap (λ ws. is_stopped (lookup serial ws)) (opened_workers F serial now a s) ∙ o.going;
  }

  -- The loop has ended, with the camera connected, after at most so many waits.
  pub record Ends (n : ℕ) (r : Option (Supervisor F × List ℕ)) : Type 0 where
    pub state : Supervisor F
    pub waits : List ℕ
    pub ended : r ≡ some (state, waits)
    pub back : is_back F serial state ≡ true
    pub few : length waits ≤ n
    pub bounded : All IsWait waits

  Ends-here : (n : ℕ) (s : Supervisor F) → is_back F serial s ≡ true → Ends n (some (s, []))
  Ends-here n s b = record {
    state = s;
    waits = [];
    ended = refl;
    back = b;
    few = omega arith;
    bounded = tt;
  }

  Ends-wait :
      (n w : ℕ) (r : Option (Supervisor F × List ℕ))
      → IsWait w
      → Ends n r
      → Ends (suc n) (after_wait w r)
  Ends-wait n w r h e = record {
    state = e.state;
    waits = w ∷ e.waits;
    ended = ap (after_wait w) e.ended;
    back = e.back;
    few = omega (arith, e.few);
    bounded = (h, e.bounded);
  }

  Ends-connected :
      (n w : ℕ) (s : Supervisor F)
      → IsWait w
      → is_back F serial s ≡ true
      → Ends (suc n) (some (s, w ∷ []))
  Ends-connected n w s h b = record {
    state = s;
    waits = w ∷ [];
    ended = refl;
    back = b;
    few = omega arith;
    bounded = (h, tt);
  }

  -- The loop of a worker that is not stopped ends, with the camera connected, by the attempt that
  -- meets a camera which opens and can be configured, whatever the attempts before it met; it has
  -- then waited at most once for each attempt, from one second up to the cap each time. The camera
  -- has a serial and a profile.
  pub reconnect_loop-Ends :
      (meets : ℕ → Attempt) (now : ℕ → ℕ) (n i fuel : ℕ) (b : Option Text) (s : Supervisor F)
      → IsOpenable s
      → meets (i + n) ≡ configured b
      → n < fuel
      → Ends (suc n) (reconnect_loop fuel meets now i s)
  unfolding reconnect_loop
  reconnect_loop-Ends meets now n i zero b s o m h = absurd (omega (arith, h))
  reconnect_loop-Ends meets now zero i (suc fuel) b s o m h =
      let c : (open_configure_store F serial (now i) (meets i) s).1 ≡ true =
        ap (λ a. (open_configure_store F serial (now i) a s).1) (ap meets (omega arith) ∙ m)
        ∙ opened_true (now i) b s o in
      elim (Bool-cases (is_back F serial s)) [
        | inl e ↦ rw (o.going, e) (Ends-here 1 s e)
        | inr e ↦
            rw (o.going, e, c)
              (Ends-connected 0 _ _ (backoff_seconds-IsWait _)
                (opened_back F serial (now i) (meets i) s c))
      ]
  reconnect_loop-Ends meets now (suc n) i (suc fuel) b s o m h =
      let f = failed-IsOpenable (now i) (meets i) s o in
      let rest =
        reconnect_loop-Ends meets now n (suc i) fuel b _ f (ap meets (omega arith) ∙ m)
          (omega (arith, h)) in
      elim (Bool-cases (is_back F serial s)) [
        | inl e ↦ rw (o.going, e) (Ends-here (suc (suc n)) s e)
        | inr e ↦ elim (Bool-cases (open_configure_store F serial (now i) (meets i) s).1) [
          | inl c ↦
              rw (o.going, e, c)
                (Ends-connected (suc n) _ _ (backoff_seconds-IsWait _)
                  (opened_back F serial (now i) (meets i) s c))
          | inr c ↦ rw (o.going, e, c) (Ends-wait (suc n) _ _ (backoff_seconds-IsWait _) rest)
        ]
      ]
