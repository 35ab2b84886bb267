-- ===== src/Worker/Backoff.antt =====
-- How long a worker pauses, and how it ends.
use native.Mathlib.Decide.{dec_le}
use native.Mathlib.Nat.{pow-suc}
use tor_rotating_http_proxy.Prelude.{
  ℕ, zero, suc, ◌*◌, ◌^◌, ◌≤◌, ◌<◌, ◌≡◌, refl, true, false, none, some, List, [], ◌∷◌, min, arith,
  All, length, get_elem?,
}
use tor_rotating_http_proxy.Pool.Types.{stopped}
use tor_rotating_http_proxy.Worker.{
  Policy, Round, Attempt, Action, reports, pauses, resets, supervise, run_worker,
  needs_fresh_restart, longer, next_backoff, should_restart_for_used_ip,
}

-- A pause lasts from 10 to 60 seconds.
abbrev Paced : Action → Type 0
Paced (reports st err) = Unit
Paced (pauses n) = (10 ≤ n) × (n ≤ 60)
Paced resets = Unit

-- From a back-off of 10 to 60 seconds, and whatever the rounds bring, every pause between circuits
-- lasts from 10 to 60 seconds.
supervise_paces :
    (cfg : Policy) (streak backoff : ℕ) (rounds : List Round)
    → 10 ≤ backoff
    → backoff ≤ 60
    → All Paced (supervise cfg streak backoff rounds).0
unfolding supervise
supervise_paces cfg streak backoff [] lo hi = tt
supervise_paces cfg streak backoff (r ∷ rest) lo hi = ground (
  arith,
  supervise_paces cfg (should_restart_for_used_ip cfg streak r.result).0
      (next_backoff backoff r.result) rest,
)

-- From a back-off of 10 to 60 seconds, and whatever the attempts bring, every pause between restarts
-- lasts from 10 to 60 seconds.
run_worker_paces :
    (backoff : ℕ) (attempts : List Attempt)
    → 10 ≤ backoff
    → backoff ≤ 60
    → All Paced (run_worker backoff attempts)
unfolding run_worker
run_worker_paces backoff [] lo hi = omega arith
run_worker_paces backoff (a ∷ rest) lo hi =
    ground (arith, run_worker_paces 10 rest, run_worker_paces (longer backoff) rest)

-- The last action.
abbrev last_of : Action → List Action → Action
last_of a [] = a
last_of a (b ∷ bs) = last_of b bs

-- Where every reset succeeds, the last thing a worker does, after whatever went before, is to
-- report its instance as Stopped.
run_worker_stops :
    (x : Action) (backoff : ℕ) (attempts : List Attempt)
    → All (λ a. a.reset_error ≡ none) attempts
    → last_of x (run_worker backoff attempts) ≡ reports stopped none
unfolding run_worker
run_worker_stops x backoff [] h = refl
run_worker_stops x backoff (a ∷ rest) h = ground (
  arith,
  h,
  run_worker_stops (pauses 10) 10 rest h.1,
  run_worker_stops (pauses backoff) (longer backoff) rest h.1,
)

-- The place of the k-th pause of a worker that fails again and again.
abbrev pause_place : ℕ → ℕ
pause_place zero = 1
pause_place (suc k) = suc (suc (pause_place k))

pow-pos : (k : ℕ) → 1 ≤ 2 ^ k
pow-pos zero = omega arith
pow-pos (suc k) = omega (arith, pow-suc 2 k, pow-pos k)

-- An attempt that fails for another reason than those for a rebuild, and the wait after it.
record IsFailing (a : Attempt) : Type 0 where
  alive : a.ctx_done ≡ false
  retries : needs_fresh_restart a.result ≡ false
  waited : a.paused ≡ true

le-mul-pos : (b m : ℕ) → 1 ≤ m → b ≤ b * m
le-mul-pos b m h = grind arith

longer-mul : (b m : ℕ) → 1 ≤ m → min 60 (longer b * m) ≡ min 60 (b * (m * 2))
longer-mul b m h = elim (dec_le (b * 2) 60) [
  | yes small ↦ let e : longer b ≡ b * 2 = omega arith in rw e (omega arith)
  | no big ↦ let e : longer b ≡ 60 = omega arith in rw e (omega (arith, le-mul-pos b m h))
]

longer-pow : (b k : ℕ) → min 60 (longer b * 2 ^ k) ≡ min 60 (b * 2 ^ suc k)
longer-pow b k = rw (pow-suc 2 k) (longer-mul b (2 ^ k) (pow-pos k))

-- Where more than `k` attempts all fail, for another reason than those for a rebuild, and their
-- waits run to the end, from a back-off of at most a minute: the pause number `k`, from zero, is the
-- back-off times two to the power `k`, but at most a minute.
run_worker_backs_off :
    (backoff k : ℕ) (attempts : List Attempt)
    → k < length attempts
    → backoff ≤ 60
    → All IsFailing attempts
    → get_elem? (run_worker backoff attempts) (pause_place k)
      ≡ some (pauses (min 60 (backoff * 2 ^ k)))
unfolding run_worker
run_worker_backs_off backoff k [] lt hi h = elim lt [ ]
run_worker_backs_off backoff zero (a ∷ rest) lt hi h = ground (arith, h.0.alive, h.0.retries)
run_worker_backs_off backoff (suc k) (a ∷ rest) lt hi h = ground (
  arith,
  h.0.alive,
  h.0.retries,
  h.0.waited,
  longer-pow backoff k,
  run_worker_backs_off (longer backoff) k rest (omega arith) (omega arith) h.1,
)
