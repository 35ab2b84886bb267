-- ===== src/Proxy.antt =====
-- internal/app/proxy.go: the proxy's failover over the pool's instances. A client's request meets
-- the pool and the upstream servers in one attempt after another; what happens to the attempt `i`
-- is an argument, `tries i`, and any pool and any upstream give such a sequence.
pub mod Turns
pub mod Failover
pub mod Listener
pub mod Limits
pub mod Attempt
pub mod Idle
use tor_rotating_http_proxy.Prelude.{
  ℕ, zero, suc, Bool, true, false, not, ◌&&◌, ◌||◌, Option, none, some, List, [], ◌∷◌,
  if◌then◌else◌,
}
use tor_rotating_http_proxy.Errors.{
  GoError, no_ready, deadline_exceeded, net_timeout, errors_is, is_some,
}

-- `gone` is the state of the request's context before the attempt, `acquire` the error of Acquire;
-- `responded`, `dialed` and `result` are what forwardAttempt returns on the lease.
pub record Try : Type 0 where
  pub gone : Bool
  pub acquire : Option GoError
  pub responded : Bool
  pub dialed : Bool
  pub result : Option GoError

-- What the client gets: nothing, what the attempt of this number itself sent, an aborted connection, an answer 503
-- (the reservation failed; no instance is ready, with Retry-After; or without it), or the status
-- 502 or 504 of proxyError.
pub data Reply : Type 0 where
  nothing aborted unpersisted not_ready no_instance : Reply
  by_attempt gateway : ℕ → Reply

-- The reply, and what each lease was finished with, in order.
pub record Served : Type 0 where
  pub finishes : List (Option GoError)
  pub reply : Reply

abbrev pub replies : Reply → Served
replies r = record { finishes = []; reply = r }

abbrev pub finishing : Option GoError → Served → Served
finishing err s = record { finishes = err ∷ s.finishes; reply = s.reply }

-- proxyError
unfoldable pub proxy_error : GoError → Reply
proxy_error err =
    if errors_is (some err) deadline_exceeded || errors_is (some err) net_timeout
    then gateway 504
    else gateway 502

abbrev after_last : Option GoError → Reply
after_last none = not_ready
after_last (some last) = proxy_error last

-- The end of both loops.
abbrev exhausted : Option GoError → Reply
exhausted none = no_instance
exhausted (some last) = proxy_error last

-- acquireError
unfoldable pub acquire_error : GoError → Option GoError → Reply
unfolding proxy_error
acquire_error err last = if errors_is (some err) no_ready then after_last last else unpersisted

-- What follows a lease's attempt: the request is over, or goes on with the error of the attempt.
pub data Next : Type 0 where
  over : Reply → Next
  again : Option GoError → Next

-- serveForward, after lease.Finish of the attempt `i`
unfoldable pub after_forward : Bool → ℕ → Try → Next
unfolding proxy_error
after_forward has_body i t = elim t.result [
  | none ↦ over (by_attempt i)
  | some err ↦
      if t.responded
      then over aborted
      else (if has_body && t.dialed then over (proxy_error err) else again (some err))
]

-- serveConnect, after lease.Finish: `responded` says that the attempt got as far as the tunnel.
unfoldable pub after_connect : ℕ → Try → Next
after_connect i t = if t.responded then over (by_attempt i) else again t.result

abbrev pub continue : Next → (Option GoError → Served) → Served
continue (over r) rest = replies r
continue (again err) rest = rest err

-- After Acquire: it failed, or the lease is used.
abbrev pub on_acquire : Option GoError → Option GoError → Served → Served
on_acquire none last rest = rest
on_acquire (some err) last rest = replies (acquire_error err last)

-- The loop of both, from the attempt `i` with `k` attempts left.
unfoldable pub serve_loop : (ℕ → Try → Next) → (ℕ → Try) → ℕ → ℕ → Option GoError → Served
unfolding acquire_error proxy_error
serve_loop next tries zero i last = replies (exhausted last)
serve_loop next tries (suc k) i last =
    let t = tries i in
    let rest : Served =
      finishing t.result (continue (next i t) (λ err. serve_loop next tries k (suc i) err)) in
    let turn : Served = on_acquire t.acquire last rest in
    if is_some last && t.gone then replies nothing else turn

-- serveForward, on a pool of `size` instances
unfoldable pub serve_forward : ℕ → Bool → (ℕ → Try) → Served
unfolding serve_loop after_forward
serve_forward size has_body tries = serve_loop (after_forward has_body) tries size 0 none

-- serveConnect
unfoldable pub serve_connect : ℕ → (ℕ → Try) → Served
unfolding serve_loop after_connect
serve_connect size tries = serve_loop after_connect tries size 0 none
