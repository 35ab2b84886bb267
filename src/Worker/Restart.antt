-- ===== src/Worker/Restart.antt =====
-- When superviseTor makes RunWorkers rebuild an instance from scratch.
use tor_rotating_http_proxy.Prelude.{
  ℕ, suc, ◌+◌, ◌≤◌, ◌<◌, ◌≡◌, refl, true, false, ◌&&◌, none, some, List, [], ◌∷◌, ◌++◌, max, arith,
  if◌then◌else◌, All, All-mono, length, Bool-cases, inl, inr,
}
use tor_rotating_http_proxy.Errors.{used_ip, serve_failures, errors_is}
use tor_rotating_http_proxy.Worker.{
  Policy, Round, supervise, needs_fresh_restart, fresh_restart_error, next_backoff,
}

-- The control connection's own errors carry none of the sentinels that ask for a rebuild.
abbrev pub Plain : Round → Type 0
Plain r = needs_fresh_restart r.newnym ≡ false

-- The longest run of used-IP results, `s` of them before the first round.
unfoldable pub longest_run : ℕ → List Round → ℕ
longest_run s [] = s
longest_run s (r ∷ rest) =
    max s (longest_run (if errors_is r.result used_ip then suc s else 0) rest)

-- A round that neither ends nor interrupts the loop.
pub record IsSmooth (r : Round) : Type 0 where
  pub running : r.ctx_done ≡ false
  pub connected : r.ctrl_done ≡ false
  pub waited : r.paused ≡ true
  pub renewed : r.newnym ≡ none

le-longest_run : (s : ℕ) (rs : List Round) → s ≤ longest_run s rs
unfolding longest_run
le-longest_run s [] = omega arith
le-longest_run s (r ∷ rest) = omega arith

-- With more than zero retries allowed, where no error of SIGNAL NEWNYM asks for a rebuild, and
-- whatever the rounds return: superviseTor asks for a rebuild only in unique mode, and only after a
-- run of used-IP results that reaches the limit.
pub supervise_rebuilds_for_used_ips :
    (cfg : Policy) (streak backoff : ℕ) (rounds : List Round)
    → 0 < cfg.max_used_ip_retries
    → All Plain rounds
    → needs_fresh_restart (supervise cfg streak backoff rounds).1 ≡ true
    → (cfg.unique_ip ≡ true) × (cfg.max_used_ip_retries ≤ longest_run streak rounds)
unfolding supervise needs_fresh_restart longest_run
supervise_rebuilds_for_used_ips cfg streak backoff [] pos plain h = ground arith
supervise_rebuilds_for_used_ips cfg streak backoff (r ∷ rest) pos plain h = ground (
  arith,
  plain,
  le-longest_run (suc streak) rest,
  supervise_rebuilds_for_used_ips cfg
      (if cfg.unique_ip && errors_is r.result used_ip then suc streak else 0)
      (next_backoff backoff r.result) rest pos plain.1,
)

longest_run-none :
    (rs : List Round) → All (λ r. errors_is r.result used_ip ≡ false) rs → longest_run 0 rs ≡ 0
unfolding longest_run
longest_run-none [] h = refl
longest_run-none (r ∷ rest) h = rw h.0 (omega (arith, longest_run-none rest h.1))

-- A circuit that keeps failing to serve never gets its instance rebuilt: with more than zero
-- used-IP retries allowed, where cycle returns errServeFailures in every round and no error of
-- SIGNAL NEWNYM asks for a rebuild, superviseTor's error is none of those on which RunWorkers resets
-- the instance, however long the rounds go on.
pub serve_failures_never_rebuild :
    (cfg : Policy) (backoff : ℕ) (rounds : List Round)
    → 0 < cfg.max_used_ip_retries
    → All Plain rounds
    → All
        (λ r. (errors_is r.result serve_failures ≡ true) × (errors_is r.result used_ip ≡ false))
        rounds
    → needs_fresh_restart (supervise cfg 0 backoff rounds).1 ≡ false
serve_failures_never_rebuild cfg backoff rounds pos plain h =
    elim (Bool-cases (needs_fresh_restart (supervise cfg 0 backoff rounds).1)) [
      | inl e ↦ absurd (
          omega (
            arith,
            (supervise_rebuilds_for_used_ips cfg 0 backoff rounds pos plain e).1,
            longest_run-none rounds (All-mono (λ r k. k.1) rounds h),
          ))
      | inr e ↦ e
    ]

-- In unique mode the limit is kept: from a streak below it, where rounds that do not end the loop
-- otherwise all return used-IP results and fill the streak up to it, superviseTor asks for the
-- rebuild at the last of them, whatever the later rounds would have been.
pub supervise_rebuilds_at_limit :
    (cfg : Policy) (streak backoff : ℕ) (rounds later : List Round)
    → cfg.unique_ip ≡ true
    → 0 < length rounds
    → streak < cfg.max_used_ip_retries
    → streak + length rounds ≡ cfg.max_used_ip_retries
    → All IsSmooth rounds
    → All (λ r. errors_is r.result used_ip ≡ true) rounds
    → (supervise cfg streak backoff (rounds ++ later)).1 ≡ some fresh_restart_error
unfolding supervise
supervise_rebuilds_at_limit cfg streak backoff [] later u n below full smooth used =
    absurd (omega arith)
supervise_rebuilds_at_limit cfg streak backoff (r ∷ []) later u n below full smooth used =
    ground (arith, u, smooth.0.running, smooth.0.connected, used.0, full)
supervise_rebuilds_at_limit cfg streak backoff (r ∷ q ∷ rest) later u n below full smooth used =
    ground (
      arith,
      u,
      smooth.0.running,
      smooth.0.connected,
      smooth.0.waited,
      smooth.0.renewed,
      used.0,
      full,
      supervise_rebuilds_at_limit cfg (suc streak) (next_backoff backoff r.result) (q ∷ rest) later
          u (omega arith) (omega (arith, full)) (omega (arith, full)) smooth.1 used.1,
    )
