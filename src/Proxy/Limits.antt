-- ===== src/Proxy/Limits.antt =====
-- What boundedListener of internal/app/proxy.go keeps: its limit, and an empty map after
-- closeConnections.
use tor_rotating_http_proxy.Prelude.{
  ℕ, ◌∙◌, ◌≤◌, ◌≡◌, refl, Bool, true, false, List, [], ◌∷◌, arith, length, All, All-mono,
  Bool-cases, inl, inr,
}
use tor_rotating_http_proxy.Proxy.Listener.{
  Listener, new_bounded_listener, accept, close_socket, untrack, close, close_all,
  close_connections, Server, Move, accepts, closes_socket, untracks, contains, move, run,
  new_server, IsTracked, Limited, All-without, move-Limited,
}

run-Limited : (ms : List Move) (s : Server) → Limited s → Limited (run ms s)
unfolding run
run-Limited [] s h = h
run-Limited (m ∷ ms) s h = run-Limited ms (move m s) (move-Limited m s h)

move_limit : (m : Move) (s : Server) → (move m s).listener.limit ≡ s.listener.limit
unfolding move accept close_socket untrack
move_limit accepts s = ground arith
move_limit (closes_socket c) s = ground arith
move_limit (untracks c) s = ground arith

run_limit : (ms : List Move) (s : Server) → (run ms s).listener.limit ≡ s.listener.limit
unfolding run
run_limit [] s = refl
run_limit (m ∷ ms) s = run_limit ms (move m s) ∙ move_limit m s

new_server-Limited : (limit : ℕ) → Limited (new_server limit)
unfolding new_bounded_listener
new_server-Limited limit = record {
  bounded = omega arith;
  tracked = tt;
  unborn = λ c le. (refl, refl, refl);
}

-- After any sequence of accepts and of steps of calls of Close, several calls on one connection and
-- their interleavings included, a new listener of the limit `limit` tracks at most `limit`
-- connections, and each one it tracks came from the socket, was given up by no Close, and is open
-- unless a call of Close has closed it and not yet come to its second step.
pub run_limits :
    (limit : ℕ) (ms : List Move)
    → let s : Server = run ms (new_server limit) in
      (length s.listener.connections ≤ limit) × All (IsTracked s) s.listener.connections
unfolding new_bounded_listener
run_limits limit ms =
    let h = run-Limited ms (new_server limit) (new_server-Limited limit) in
    (omega (arith, h.bounded, run_limit ms (new_server limit)), h.tracked)

-- Every tracked connection is among those still to close, and its Close has not run.
ToClose : List ℕ → Listener → Type 0
ToClose cs l = All (λ d. (contains d cs ≡ true) × (l.once d ≡ false)) l.connections

close-ToClose : (c : ℕ) (cs : List ℕ) (l : Listener) → ToClose (c ∷ cs) l → ToClose cs (close c l)
unfolding close close_socket untrack ToClose
close-ToClose c cs l h = elim (Bool-cases (l.once c)) [
  | inl ran ↦ rw ran (All-mono (λ d o. (ground (arith, o, ran), o.1)) l.connections h)
  | inr first ↦
      rw first (All-without c l.connections (λ d ne o. (ground (arith, o), ground (arith, o))) h)
]

nothing_left :
    (once : ℕ → Bool) (ds : List ℕ)
    → All (λ d. (contains d [] ≡ true) × (once d ≡ false)) ds
    → ds ≡ []
nothing_left once [] h = refl
nothing_left once (d ∷ ds) h = absurd (ground (arith, h.0))

close_all-empties : (cs : List ℕ) (l : Listener) → ToClose cs l → (close_all cs l).connections ≡ []
unfolding close_all ToClose
close_all-empties [] l h = nothing_left l.once l.connections h
close_all-empties (c ∷ cs) l h = close_all-empties cs (close c l) (close-ToClose c cs l h)

close_all_keeps_closed :
    (cs : List ℕ) (d : ℕ) (l : Listener) → l.closed d ≡ true → (close_all cs l).closed d ≡ true
unfolding close_all close close_socket untrack
close_all_keeps_closed [] d l h = h
close_all_keeps_closed (c ∷ cs) d l h = close_all_keeps_closed cs d (close c l) (ground (arith, h))

close_all-closes : (cs : List ℕ) (l : Listener) → All (λ d. (close_all cs l).closed d ≡ true) cs
unfolding close_all close close_socket untrack
close_all-closes [] l = tt
close_all-closes (c ∷ cs) l =
    (close_all_keeps_closed cs c (close c l) (ground arith), close_all-closes cs (close c l))

All-contains :
    (once : ℕ → Bool) (cs ds : List ℕ)
    → ((d : ℕ) → contains d ds ≡ true → contains d cs ≡ true)
    → All (λ d. once d ≡ false) ds
    → All (λ d. (contains d cs ≡ true) × (once d ≡ false)) ds
All-contains once cs [] f h = tt
All-contains once cs (d ∷ ds) f h =
    ((f d (ground arith), h.0), All-contains once cs ds (λ e k. f e (ground (arith, k))) h.1)

-- After any sequence of accepts and of steps of Close, closeConnections leaves the listener's map
-- empty, and every connection that was tracked has its socket closed.
close_connections_empties :
    (limit : ℕ) (ms : List Move)
    → let l : Listener = (run ms (new_server limit)).listener in
      ((close_connections l).connections ≡ [])
      × All (λ c. (close_connections l).closed c ≡ true) l.connections
unfolding close_connections ToClose
close_connections_empties limit ms =
    let l : Listener = (run ms (new_server limit)).listener in
    let h = run-Limited ms (new_server limit) (new_server-Limited limit) in
    (
      close_all-empties l.connections l (
          All-contains l.once l.connections l.connections (λ d k. k)
            (All-mono (λ d o. o.1) l.connections h.tracked)),
      close_all-closes l.connections l,
    )
