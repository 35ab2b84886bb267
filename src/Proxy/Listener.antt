-- ===== src/Proxy/Listener.antt =====
-- boundedListener of internal/app/proxy.go: the limit on open connections. A connection is known by
-- a number; the listener's map of open connections is the list of them.
use tor_rotating_http_proxy.Prelude.{
  ℕ, suc, ◌≤◌, ◌<◌, ◌≡◌, ◌≢◌, refl, sym, ap, ◌∙◌, ◌⊎◌, ◌||◌, Bool, true, false, Option, none, some,
  List, [], ◌∷◌, ltb, ◌==◌, if◌then◌else◌, arith, length, All, All-mono, update, Bool-cases, inl,
  inr,
}

-- `closed c` says that the socket of `c` was closed, `rejected` lists the connections that got the
-- answer 503.
pub record Listener : Type 0 where
  pub limit : ℕ
  pub connections : List ℕ
  pub once : ℕ → Bool
  pub closed : ℕ → Bool
  pub rejected : List ℕ

-- newBoundedListener
unfoldable pub new_bounded_listener : ℕ → Listener
new_bounded_listener limit = record {
  limit = limit;
  connections = [];
  once = λ c. false;
  closed = λ c. false;
  rejected = [];
}

-- delete(connections, c)
unfoldable pub without : ℕ → List ℕ → List ℕ
without c [] = []
without c (d ∷ ds) = let rest = without c ds in if d == c then rest else d ∷ rest

-- One turn of Accept's loop, on the accepted socket `c`: it is tracked and returned, or it is
-- answered and closed, and the loop goes on.
unfoldable pub accept : ℕ → Listener → Listener × Option ℕ
accept c l =
    if ltb (length l.connections) l.limit
    then (record l { connections = c ∷ l.connections }, some c)
    else (record l { rejected = c ∷ l.rejected; closed = update l.closed c true }, none)

-- trackedConn.Close, first step: the socket is closed.
unfoldable pub close_socket : ℕ → Listener → Listener
close_socket c l = record l { closed = update l.closed c true }

-- Its second step, under the lock and once: the connection is no longer tracked.
unfoldable pub untrack : ℕ → Listener → Listener
unfolding without
untrack c l =
    if l.once c
    then l
    else record l { once = update l.once c true; connections = without c l.connections }

-- Both
unfoldable pub close : ℕ → Listener → Listener
unfolding close_socket untrack
close c l = untrack c (close_socket c l)

unfoldable pub close_all : List ℕ → Listener → Listener
unfolding close
close_all [] l = l
close_all (c ∷ cs) l = close_all cs (close c l)

-- closeConnections
unfoldable pub close_connections : Listener → Listener
unfolding close_all
close_connections l = close_all l.connections l

-- The listener, the number of sockets that came so far, which is the next socket's number, and the
-- calls of Close between their two steps, by their connections
pub record Server : Type 0 where
  pub arrived : ℕ
  pub closing : List ℕ
  pub listener : Listener

pub data Move : Type 0 where
  accepts : Move
  closes_socket untracks : ℕ → Move

abbrev pub contains : ℕ → List ℕ → Bool
contains c [] = false
contains c (d ∷ ds) = d == c || contains c ds

abbrev remove_one : ℕ → List ℕ → List ℕ
remove_one c [] = []
remove_one c (d ∷ ds) = let rest = remove_one c ds in if d == c then ds else d ∷ rest

-- A step of Accept's loop, or of a call of Close on a socket that came before
unfoldable pub move : Move → Server → Server
unfolding accept close_socket untrack
move accepts s = record s { arrived = suc s.arrived; listener = (accept s.arrived s.listener).0 }
move (closes_socket c) s =
    if ltb c s.arrived
    then record s { closing = c ∷ s.closing; listener = close_socket c s.listener }
    else s
move (untracks c) s =
    if contains c s.closing
    then record s { closing = remove_one c s.closing; listener = untrack c s.listener }
    else s

unfoldable pub run : List Move → Server → Server
unfolding move
run [] s = s
run (m ∷ ms) s = run ms (move m s)

abbrev pub new_server : ℕ → Server
new_server limit = record { arrived = 0; closing = []; listener = new_bounded_listener limit }

-- A tracked connection came from the socket, no Close has given it up, and it is open, or a call of
-- Close stands between its two steps.
abbrev pub IsTracked : Server → ℕ → Type 0
IsTracked s c =
    (c < s.arrived)
    × (s.listener.once c ≡ false)
    × ((s.listener.closed c ≡ false) ⊎ (contains c s.closing ≡ true))

-- The limit holds, every tracked connection is tracked rightly, nothing has happened to the sockets
-- still to come, and no call of Close is of one of them.
pub record Limited (s : Server) : Type 0 where
  pub bounded : length s.listener.connections ≤ s.listener.limit
  pub tracked : All (IsTracked s) s.listener.connections
  pub unborn :
      (c : ℕ)
      → s.arrived ≤ c
      → (s.listener.once c ≡ false) × (s.listener.closed c ≡ false) × (contains c s.closing ≡ false)

length-without : (c : ℕ) (ds : List ℕ) → length (without c ds) ≤ length ds
unfolding without
length-without c [] = omega arith
length-without c (d ∷ ds) = ground (arith, length-without c ds)

pub All-without {ℓ} :
    {P Q : ℕ → Type ℓ} (c : ℕ) (ds : List ℕ)
    → ((d : ℕ) → d ≢ c → P d → Q d)
    → All P ds
    → All Q (without c ds)
unfolding without
All-without c [] f h = tt
All-without {P} {Q} c (d ∷ ds) f h = elim (Bool-cases (d == c)) [
  | inl same ↦ rw same (All-without {P = P} {Q = Q} c ds f h.1)
  | inr other ↦ rw other (f d (ground arith) h.0, All-without {P = P} {Q = Q} c ds f h.1)
]

accept-Limited : (s : Server) → Limited s → Limited (move accepts s)
unfolding move accept
accept-Limited s h = elim (Bool-cases (ltb (length s.listener.connections) s.listener.limit)) [
  | inl room ↦ rw room (record {
    bounded = ground arith;
    tracked = (
      (omega arith, (h.unborn s.arrived (omega arith)).0, inl (h.unborn s.arrived (omega arith)).1),
      All-mono (λ c o. (omega (arith, o.0), o.1, o.2)) s.listener.connections h.tracked,
    );
    unborn = λ c lt. h.unborn c (omega arith);
  })
  | inr full ↦ rw full (record {
    bounded = h.bounded;
    tracked =
        All-mono (λ c o. (omega (arith, o.0), o.1, ground (arith, o))) s.listener.connections
          h.tracked;
    unborn = λ c lt. ground (arith, h.unborn c (omega arith));
  })
]

close_socket-Limited : (c : ℕ) (s : Server) → Limited s → Limited (move (closes_socket c) s)
unfolding move close_socket
close_socket-Limited c s h = elim (Bool-cases (ltb c s.arrived)) [
  | inr later ↦ rw later h
  | inl came ↦ rw came (record {
    bounded = h.bounded;
    tracked = All-mono (λ d o. (o.0, o.1, ground (arith, o))) s.listener.connections h.tracked;
    unborn = λ d le. ground (arith, h.unborn d le, came);
  })
]

contains-remove_one : (c d : ℕ) (ds : List ℕ) → d ≢ c → contains d (remove_one c ds) ≡ contains d ds
contains-remove_one c d [] ne = refl
contains-remove_one c d (e ∷ ds) ne = ground (arith, contains-remove_one c d ds ne, ne)

-- A call of Close that has run leaves the others' connections as they are.
untrack-Limited : (c : ℕ) (s : Server) → Limited s → Limited (move (untracks c) s)
unfolding move untrack
untrack-Limited c s h = elim (Bool-cases (contains c s.closing)) [
  | inr nobody ↦ rw nobody h
  | inl called ↦ elim (Bool-cases (s.listener.once c)) [
    | inl ran ↦
        rw (called, ran)
          (record {
            bounded = h.bounded;
            tracked =
                All-mono
                  (λ d o.
                    let differs : d ≢ c = λ e. cc (sym o.1 ∙ ap s.listener.once e ∙ ran) in
                    (o.0, o.1, rw (contains-remove_one c d s.closing differs) o.2))
                  s.listener.connections h.tracked;
            unborn = λ d le.
                let (o, k, absent) = h.unborn d le in
                let differs : d ≢ c =
                  λ e. cc (sym absent ∙ ap (λ x. contains x s.closing) e ∙ called) in
                (o, k, contains-remove_one c d s.closing differs ∙ absent);
          })
    | inr first ↦
        rw (called, first)
          (record {
            bounded = omega (arith, h.bounded, length-without c s.listener.connections);
            tracked =
                All-without c s.listener.connections
                  (λ d ne o.
                    (o.0, ground (arith, o, ne), rw (contains-remove_one c d s.closing ne) o.2))
                  h.tracked;
            unborn = λ d le.
                let (o, k, absent) = h.unborn d le in
                let differs : d ≢ c =
                  λ e. cc (sym absent ∙ ap (λ x. contains x s.closing) e ∙ called) in
                (ground (arith, o, differs), k, contains-remove_one c d s.closing differs ∙ absent);
          })
  ]
]

pub move-Limited : (m : Move) (s : Server) → Limited s → Limited (move m s)
move-Limited accepts s h = accept-Limited s h
move-Limited (closes_socket c) s h = close_socket-Limited c s h
move-Limited (untracks c) s h = untrack-Limited c s h
