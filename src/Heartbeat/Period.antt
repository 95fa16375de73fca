-- ===== src/Heartbeat/Period.antt =====
-- How often each message is sent.
use lpr_refactored.Prelude.{
  ℕ, zero, suc, ◌+◌, ◌*◌, ◌≡◌, ◌≤◌, ◌<◌, refl, List, [], ◌∷◌, ◌++◌, arith, leb, if◌then◌else◌,
}
use lpr_refactored.Heartbeat.{
  Config, Sent, heartbeat, resources, Timers, start, advance, round, rounds,
}

unfoldable pub count_heartbeats : List Sent → ℕ
count_heartbeats [] = 0
count_heartbeats (heartbeat ∷ es) = suc (count_heartbeats es)
count_heartbeats (resources ∷ es) = count_heartbeats es

count-append :
    (xs ys : List Sent) → count_heartbeats (xs ++ ys) ≡ count_heartbeats xs + count_heartbeats ys
unfolding count_heartbeats
count-append [] ys = ground arith
count-append (heartbeat ∷ xs) ys = ground (arith, count-append xs ys)
count-append (resources ∷ xs) ys = ground (arith, count-append xs ys)

-- The firings of one timer.
firings : ℕ → ℕ → ℕ → ℕ
firings interval zero since = 0
firings interval (suc n) since =
    let rest = firings interval n (advance interval since) in
    if leb interval since then suc rest else rest

round_count :
    (cfg : Config) (t : Timers)
    → count_heartbeats (round cfg t).1 ≡ (if leb cfg.interval_ms t.since_heartbeat then 1 else 0)
unfolding round count_heartbeats
round_count cfg t = ground arith

rounds-firings :
    (cfg : Config) (n : ℕ) (t : Timers)
    → count_heartbeats (rounds cfg n t) ≡ firings cfg.interval_ms n t.since_heartbeat
unfolding rounds firings count_heartbeats
rounds-firings cfg zero t = refl
rounds-firings cfg (suc n) t = ground (
  arith,
  count-append (round cfg t).1 (rounds cfg n (round cfg t).0),
  round_count cfg t,
  rounds-firings cfg n (round cfg t).0,
)

mul_suc : (c k : ℕ) → suc c * k ≡ c * k + k
mul_suc c k = grind arith

firings_most : (interval n since : ℕ) → firings interval n since * interval ≤ since + n * 50
unfolding firings
firings_most interval zero since = omega arith
firings_most interval (suc n) since = ground (
  arith,
  firings_most interval n (advance interval since),
  mul_suc (firings interval n (advance interval since)) interval,
)

firings_least :
    (interval n since : ℕ)
    → 0 < interval
    → since < interval + 50
    → since + n * 50 < suc (firings interval n since) * (interval + 50)
unfolding firings
firings_least interval zero since p h = omega arith
firings_least interval (suc n) since p h = ground (
  arith,
  firings_least interval n (advance interval since) p,
  mul_suc (suc (firings interval n (advance interval since))) (interval + 50),
)

-- With a positive period, the heartbeats sent in so many rounds of 50 ms, times the period, are at
-- most the elapsed time and one period; and one heartbeat more, times the period and a round, is
-- above that time. So they come at the configured rate up to the loop's resolution, whatever the
-- period of the resource figures is.
pub rounds_heartbeats :
    (cfg : Config) (n : ℕ)
    → 0 < cfg.interval_ms
    → (count_heartbeats (rounds cfg n (start cfg)) * cfg.interval_ms ≤ cfg.interval_ms + n * 50)
      × (cfg.interval_ms + n * 50
          < suc (count_heartbeats (rounds cfg n (start cfg))) * (cfg.interval_ms + 50))
unfolding start
rounds_heartbeats cfg n p = rw (rounds-firings cfg n (start cfg)) (
  firings_most cfg.interval_ms n cfg.interval_ms,
  firings_least cfg.interval_ms n cfg.interval_ms p (omega arith),
)
