-- ===== src/Proxy/Failover.antt =====
-- How the proxy fails over: the number of leases, what each is finished with, which attempts may be
-- followed by another, and what the client gets.
use native.Mathlib.Nat.{zero-add}
use tor_rotating_http_proxy.Prelude.{
  ℕ, suc, ◌≤◌, ◌<◌, ◌≡◌, sym, ◌∙◌, ap, subst, Bool, true, false, ◌&&◌, ◌||◌, none, some, arith,
  length, get_elem?, if◌then◌else◌,
}
use tor_rotating_http_proxy.Errors.{GoError, is_some, errors_is, deadline_exceeded, net_timeout}
use tor_rotating_http_proxy.Proxy.{
  Try, Next, over, again, by_attempt, gateway, after_forward, after_connect, serve_loop,
  serve_forward, serve_connect, proxy_error,
}
use tor_rotating_http_proxy.Proxy.Turns.{
  GoesOn, Reaches, loop-length, loop-Fair, loop-reply, loop-leases, loop-exhausted,
}

-- When forwarding goes on after an attempt: it failed before any response, and had no body or
-- never connected.
after_forward-GoesOn :
    (has_body : Bool) (i : ℕ) (t : Try)
    → GoesOn (after_forward has_body i t)
    → (is_some t.result ≡ true) × (t.responded ≡ false) × ((has_body && t.dialed) ≡ false)
unfolding after_forward
after_forward-GoesOn has_body i t h = ground arith

after_forward-again :
    (has_body : Bool) (i : ℕ) (t : Try)
    → (is_some t.result ≡ true) × (t.responded ≡ false) × ((has_body && t.dialed) ≡ false)
    → after_forward has_body i t ≡ again t.result
unfolding after_forward
after_forward-again has_body i t h = ground arith

after_forward-done :
    (has_body : Bool) (i : ℕ) (t : Try)
    → t.result ≡ none
    → after_forward has_body i t ≡ over (by_attempt i)
unfolding after_forward
after_forward-done has_body i t h = ground arith

after_connect-again : (i : ℕ) (t : Try) → t.responded ≡ false → after_connect i t ≡ again t.result
unfolding after_connect
after_connect-again i t h = ground arith

after_connect-done :
    (i : ℕ) (t : Try) → t.responded ≡ true → after_connect i t ≡ over (by_attempt i)
unfolding after_connect
after_connect-done i t h = ground arith

-- Whatever the attempts do: a request takes no more leases than there are instances, each lease is
-- finished with its own attempt's result, and every attempt but the last failed with an error,
-- before any response reached the client; if the request has a body, it also never connected, so
-- the body is sent at most once.
pub serve_forward_safe :
    (size : ℕ) (has_body : Bool) (tries : ℕ → Try)
    → (length (serve_forward size has_body tries).finishes ≤ size)
      × ((j : ℕ)
          → j < length (serve_forward size has_body tries).finishes
          → get_elem? (serve_forward size has_body tries).finishes j ≡ some (tries j).result)
      × ((j : ℕ)
          → suc j < length (serve_forward size has_body tries).finishes
          → (is_some (tries j).result ≡ true)
            × ((tries j).responded ≡ false)
            × ((has_body && (tries j).dialed) ≡ false))
unfolding serve_forward
serve_forward_safe size has_body tries =
    let s = serve_loop (after_forward has_body) tries size 0 none in
    (
      loop-length (after_forward has_body) tries size 0 none,
      (λ j l.
          subst (λ m. get_elem? s.finishes j ≡ some (tries m).result) (zero-add j)
            ((loop-Fair (after_forward has_body) tries size 0 j none).0 l)),
      (λ j l. after_forward-GoesOn has_body j (tries j) (
          subst (λ m. GoesOn (after_forward has_body m (tries m))) (zero-add j)
            ((loop-Fair (after_forward has_body) tries size 0 j none).1 l))),
    )

-- The attempts up to `n` each get a lease, with the client there, and those before `n` go on.
Reaches-start :
    (next : ℕ → Try → Next) (tries : ℕ → Try) (n : ℕ)
    → ((j : ℕ) → j ≤ n → ((tries j).acquire ≡ none) × ((tries j).gone ≡ false))
    → ((j : ℕ) → j < n → next j (tries j) ≡ again (tries j).result)
    → Reaches next tries 0 n
Reaches-start next tries n leased failing = record {
  leased = λ j l. subst (λ m. (tries m).acquire ≡ none) (sym (zero-add j)) (leased j l).0;
  present = λ j l. subst (λ m. (tries m).gone ≡ false) (sym (zero-add j)) (leased j l).1;
  failing = λ j l.
      subst (λ m. next m (tries m) ≡ again (tries m).result) (sym (zero-add j)) (failing j l);
}

-- Where the attempts up to `n` each get a lease, with the client there, each before `n` fails
-- without a response, on a request without a body or without a connection, and `n` is answered in
-- full, on a pool of more than `n` instances: the client gets what the attempt `n` sent, and exactly
-- the attempts up to `n` have had a lease.
pub serve_forward_fails_over :
    (size n : ℕ) (has_body : Bool) (tries : ℕ → Try)
    → n < size
    → ((j : ℕ) → j ≤ n → ((tries j).acquire ≡ none) × ((tries j).gone ≡ false))
    → ((j : ℕ)
        → j < n
        → (is_some (tries j).result ≡ true)
          × ((tries j).responded ≡ false)
          × ((has_body && (tries j).dialed) ≡ false))
    → (tries n).result ≡ none
    → ((serve_forward size has_body tries).reply ≡ by_attempt n)
      × (length (serve_forward size has_body tries).finishes ≡ suc n)
unfolding serve_forward
serve_forward_fails_over size n has_body tries lt leased failing done =
    let start =
      Reaches-start (after_forward has_body) tries n leased
        (λ j l. after_forward-again has_body j (tries j) (failing j l)) in
    let ends =
      subst (λ m. after_forward has_body m (tries m) ≡ over (by_attempt n)) (sym (zero-add n))
        (after_forward-done has_body n (tries n) done) in
    (
      loop-reply (after_forward has_body) tries size 0 n none (by_attempt n) lt start ends,
      loop-leases (after_forward has_body) tries size 0 n none (by_attempt n) lt start ends,
    )

proxy_error-status :
    (err : GoError)
    → proxy_error err
      ≡ gateway (
          if errors_is (some err) deadline_exceeded || errors_is (some err) net_timeout
          then 504
          else 502)
unfolding proxy_error
proxy_error-status err = ground arith

-- Where every instance is tried, each attempt with a lease and the client there, and each fails
-- without a response, on a request without a body or without a connection, the client gets 502, or
-- 504 for a deadline or a timeout, by the error of the last attempt.
pub serve_forward_exhausts :
    (n : ℕ) (has_body : Bool) (tries : ℕ → Try) (err : GoError)
    → ((j : ℕ) → j ≤ n → ((tries j).acquire ≡ none) × ((tries j).gone ≡ false))
    → ((j : ℕ)
        → j ≤ n
        → (is_some (tries j).result ≡ true)
          × ((tries j).responded ≡ false)
          × ((has_body && (tries j).dialed) ≡ false))
    → (tries n).result ≡ some err
    → (serve_forward (suc n) has_body tries).reply
      ≡ gateway (
          if errors_is (some err) deadline_exceeded || errors_is (some err) net_timeout
          then 504
          else 502)
unfolding serve_forward proxy_error
serve_forward_exhausts n has_body tries err leased failing last =
    loop-exhausted (after_forward has_body) tries n 0 none err
      (Reaches-start (after_forward has_body) tries n leased
        (λ j l. after_forward-again has_body j (tries j) (failing j (omega arith))))
      (subst (λ m. after_forward has_body m (tries m) ≡ again (some err)) (sym (zero-add n))
        (after_forward-again has_body n (tries n) (failing n (omega arith)) ∙ ap again last))
    ∙ proxy_error-status err

-- CONNECT likewise: where the attempts up to `n` each get a lease, with the client there, each before
-- `n` fails to dial, and `n` has its tunnel, the client gets that tunnel.
serve_connect_fails_over :
    (size n : ℕ) (tries : ℕ → Try)
    → n < size
    → ((j : ℕ) → j ≤ n → ((tries j).acquire ≡ none) × ((tries j).gone ≡ false))
    → ((j : ℕ) → j < n → (tries j).responded ≡ false)
    → (tries n).responded ≡ true
    → (serve_connect size tries).reply ≡ by_attempt n
unfolding serve_connect
serve_connect_fails_over size n tries lt leased failing done =
    loop-reply after_connect tries size 0 n none (by_attempt n) lt
      (Reaches-start after_connect tries n leased
        (λ j l. after_connect-again j (tries j) (failing j l)))
      (subst (λ m. after_connect m (tries m) ≡ over (by_attempt n)) (sym (zero-add n))
        (after_connect-done n (tries n) done))
