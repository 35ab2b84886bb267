-- ===== src/Errors.antt =====
-- Go's `error` values, as far as the program looks into them: the message that `Error()` returns,
-- and the sentinels that `errors.Is` finds in the chain of wrapped errors (internal/app/pool.go,
-- internal/app/tor.go, internal/app/control.go, the context package's two errors, and, as
-- `net_timeout`, a net.Error whose Timeout() is true).
use tor_rotating_http_proxy.Prelude.{
  ℕ, String, Bool, true, false, Option, none, some, List, [], ◌∷◌, ◌||◌, ◌==◌, ◌≡◌, refl, ◌⊎◌, inl,
  inr,
}

pub data Sentinel : Type 0 where
  no_ready used_ip fresh_restart bootstrap_stuck serve_failures control_closed : Sentinel
  deadline_exceeded canceled net_timeout : Sentinel

abbrev pub sentinel_code : Sentinel → ℕ
sentinel_code no_ready = 0
sentinel_code used_ip = 1
sentinel_code fresh_restart = 2
sentinel_code bootstrap_stuck = 3
sentinel_code serve_failures = 4
sentinel_code control_closed = 5
sentinel_code deadline_exceeded = 6
sentinel_code canceled = 7
sentinel_code net_timeout = 8

pub record GoError : Type 0 where
  pub message : String
  pub chain : List Sentinel

abbrev chain_has : List Sentinel → Sentinel → Bool
chain_has [] s = false
chain_has (x ∷ xs) s = sentinel_code x == sentinel_code s || chain_has xs s

-- errors.Is on an error that may be nil.
abbrev pub errors_is : Option GoError → Sentinel → Bool
errors_is none s = false
errors_is (some e) s = chain_has e.chain s

pub data Result {ℓ} (A : Type ℓ) : Type ℓ where
  ok : A → Result A
  err : GoError → Result A

-- err != nil
abbrev pub is_some {ℓ} : {A : Type ℓ} → Option A → Bool
is_some none = false
is_some (some a) = true

-- To split on a computed result and keep the equation.
pub Result-cases {ℓ} :
    {A : Type ℓ} (r : Result A) → ((a : A) × (r ≡ ok a)) ⊎ ((e : GoError) × (r ≡ err e))
Result-cases (ok a) = inl (a, refl)
Result-cases (err e) = inr (e, refl)
