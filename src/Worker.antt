-- ===== src/Worker.antt =====
-- internal/app/tor.go: the worker of an instance. Times are in seconds; the random jitter that is
-- added to a pause is not modelled.
pub mod Restart
pub mod Backoff
pub mod Bootstrap
pub mod Process
pub mod CheckIp
use tor_rotating_http_proxy.Prelude.{
  ℕ, zero, suc, ◌*◌, String, Bool, true, false, not, ◌&&◌, ◌||◌, Option, none, some, List, [], ◌∷◌,
  ltb, leb, if◌then◌else◌, min,
}
use tor_rotating_http_proxy.Errors.{
  GoError, Sentinel, used_ip, fresh_restart, bootstrap_stuck, serve_failures, control_closed,
  canceled, errors_is, is_some,
}
use tor_rotating_http_proxy.Pool.Types.{
  State, checking, retrying, rotating, restarting, error, stopped,
}

-- The fields of Config that the worker's policy reads.
pub record Policy : Type 0 where
  pub unique_ip : Bool
  pub max_used_ip_retries : ℕ

-- shouldRestartForUsedIP: the new streak, and the answer.
unfoldable pub should_restart_for_used_ip : Policy → ℕ → Option GoError → ℕ × Bool
should_restart_for_used_ip cfg streak err =
    let streak' : ℕ = if cfg.unique_ip && errors_is err used_ip then suc streak else 0 in
    (streak', cfg.unique_ip && leb cfg.max_used_ip_retries streak')

-- needsFreshRestart
unfoldable pub needs_fresh_restart : Option GoError → Bool
needs_fresh_restart err =
    errors_is err fresh_restart || (errors_is err bootstrap_stuck || errors_is err serve_failures)

-- min(60*time.Second, backoff*2)
abbrev pub longer : ℕ → ℕ
longer backoff = min 60 (backoff * 2)

-- What a worker does that others see.
pub data Action : Type 0 where
  reports : State → Option GoError → Action
  pauses : ℕ → Action
  resets : Action

abbrev pub fresh_restart_error : GoError
fresh_restart_error = record {
  message = "used-IP retry limit reached; rebuilding this Tor instance from scratch";
  chain = fresh_restart ∷ [];
}

abbrev pub control_closed_error : GoError
control_closed_error = record {
  message = "Tor control connection closed";
  chain = control_closed ∷ [];
}

-- ctx.Err() of a cancelled context
abbrev pub canceled_error : GoError
canceled_error = record { message = "context canceled"; chain = canceled ∷ [] }

-- One round of superviseTor's last loop, as its surroundings decide it: what cycle returned,
-- whether the context and the control connection are done after it, whether the pause ran to its
-- end, and the answer of SIGNAL NEWNYM.
pub record Round : Type 0 where
  pub result : Option GoError
  pub ctx_done : Bool
  pub ctrl_done : Bool
  pub paused : Bool
  pub newnym : Option GoError

abbrev pub Trace : Type 0
Trace = List Action × Option GoError

infixr 60 ◌then◌
abbrev pub ◌then◌ : Action → Trace → Trace
a then (as', e) = (a ∷ as', e)

-- The back-off of the next round, and the state it shows.
abbrev pub next_backoff : ℕ → Option GoError → ℕ
next_backoff backoff none = 10
next_backoff backoff (some e) = longer backoff

abbrev pub shown_after : Option GoError → Action
shown_after none = reports rotating none
shown_after (some e) = reports retrying (some e)

-- The last loop of superviseTor; the rounds end when the context is done at the loop's head.
unfoldable pub supervise : Policy → ℕ → ℕ → List Round → Trace
unfolding should_restart_for_used_ip
supervise cfg streak backoff [] = ([], some canceled_error)
supervise cfg streak backoff (r ∷ rest) =
    let (streak', restart) = should_restart_for_used_ip cfg streak r.result in
    let backoff' = next_backoff backoff r.result in
    let go_on : Trace =
      if not r.paused
      then ([], some canceled_error)
      else (if is_some r.newnym then ([], r.newnym) else supervise cfg streak' backoff' rest) in
    reports checking none
    then (if r.ctx_done
        then ([], some canceled_error)
        else (if r.ctrl_done
            then ([], some control_closed_error)
            else (if restart
                then ([], some fresh_restart_error)
                else (shown_after r.result then (pauses backoff' then go_on)))))

-- One round of RunWorkers' loop: what runTor returned, whether the context is done after it, the
-- answer of resetInstanceData, and whether the pause ran to its end.
pub record Attempt : Type 0 where
  pub result : Option GoError
  pub ctx_done : Bool
  pub reset_error : Option GoError
  pub paused : Bool

-- RunWorkers' loop for one instance, with its last report.
unfoldable pub run_worker : ℕ → List Attempt → List Action
unfolding needs_fresh_restart
run_worker backoff [] = reports stopped none ∷ []
run_worker backoff (a ∷ rest) =
    let fresh = needs_fresh_restart a.result in
    let more : List Action =
      if a.paused
      then run_worker (if fresh then 10 else longer backoff) rest
      else reports stopped none ∷ [] in
    if a.ctx_done
    then reports stopped none ∷ []
    else (if fresh
        then (if is_some a.reset_error
            then reports restarting a.result ∷ resets ∷ reports error a.reset_error ∷ []
            else reports restarting a.result ∷ resets ∷ pauses 10 ∷ more)
        else reports error a.result ∷ pauses backoff ∷ more)
