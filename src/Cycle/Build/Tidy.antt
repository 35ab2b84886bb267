-- ===== src/Cycle/Build/Tidy.antt =====
-- What a run of cycle does to its circuit and its endpoint.
use tor_rotating_http_proxy.Prelude.{
  ℕ, zero, suc, ◌≡◌, refl, ap, ◌⊎◌, inl, inr, Bool, true, false, not, ◌||◌, List, [], ◌∷◌, ◌++◌,
  arith, Bool-cases, Option-cases,
}
use tor_rotating_http_proxy.Prelude.Bytes.{Bytes}
use tor_rotating_http_proxy.Errors.{GoError, ok, Result-cases, is_some}
use tor_rotating_http_proxy.Cycle.Build.{
  Deed, extends, asks_status, sets_endpoint, clears_endpoint, cancels_endpoint, checks_ip, serves,
  closes_circuit, extended_circuit, is_circuit, is_built, Status, Circuit, Progress, built, broken,
  wrapped, await_built, behind, check_and_serve, with_endpoint, once_built, with_circuit, cycle,
}
use tor_rotating_http_proxy.Cycle.Build.Replies.{
  SaysBuilt, Extended, NotExtended, is_built-SaysBuilt, is_circuit-Extended, is_circuit-NotExtended,
  err-NotExtended,
}

-- The time for the circuit ends at one of these pauses.
abbrev pub expiring : List Status → Bool
expiring [] = false
expiring (s ∷ ss) = not s.waited || expiring ss

abbrev pub asks : ℕ → List Deed
asks zero = []
asks (suc n) = asks_status ∷ asks n

-- One of the answers says so.
abbrev pub Built : Bytes → List Status → Type 0
Built circuit [] = true ≡ false
Built circuit (s ∷ ss) =
    ((lines : List Bytes) × (s.reply ≡ ok lines) × SaysBuilt circuit lines) ⊎ Built circuit ss

-- How the wait for the circuit ends
Awaited : Bytes → List Status → List Deed × Progress → Type 0
Awaited circuit ss r =
    (n : ℕ) × (r.0 ≡ asks n)
    × (((r.1 ≡ built) × Built circuit ss) ⊎ ((e : GoError) × (r.1 ≡ broken e)))

Awaited-cons :
    (circuit : Bytes) (s : Status) (ss : List Status) (r : List Deed × Progress)
    → Awaited circuit ss r
    → Awaited circuit (s ∷ ss) (asks_status ∷ r.0, r.1)
unfolding Awaited
Awaited-cons circuit s ss r (n, e, inl (b, w)) =
    (suc n, ap (λ l. asks_status ∷ l) e, inl (b, inr w))
Awaited-cons circuit s ss r (n, e, inr x) = (suc n, ap (λ l. asks_status ∷ l) e, inr x)

await_built-Awaited :
    (circuit : Bytes) (expiry : GoError) (ss : List Status)
    → expiring ss ≡ true
    → Awaited circuit ss (await_built circuit expiry ss)
unfolding await_built
await_built-Awaited circuit expiry [] h = cc
await_built-Awaited circuit expiry (s ∷ ss) h = elim (Result-cases s.reply) [
  | inr (e, f) ↦ rw f (unfold Awaited in (1, refl, inr (e, refl)))
  | inl (lines, f) ↦ elim (Bool-cases (is_built circuit lines)) [
    | inl done ↦
        rw (f, done)
          (unfold Awaited in
            (1, refl, inl (refl, inl (lines, refl, is_built-SaysBuilt circuit lines done))))
    | inr not_yet ↦ elim (Bool-cases s.waited) [
      | inl again ↦
          rw (f, not_yet, again)
            (Awaited-cons circuit _ ss (await_built circuit expiry ss)
              (await_built-Awaited circuit expiry ss (ground (arith, h, again))))
      | inr over ↦
          rw (f, not_yet, over)
            (unfold Awaited in (1, refl, inr (wrapped "building circuit: " expiry, refl)))
    ]
  ]
]

-- What happens to a built circuit: no endpoint is made, or one is set and taken back, and in between
-- its address is checked and, with the checker's answer, it is served.
abbrev pub Used : Circuit → Bytes → List Deed → Type 0
Used c circuit ds =
    (ds ≡ cancels_endpoint ∷ [])
    ⊎ ((token : Bytes) × ((ds
            ≡ sets_endpoint circuit token ∷ checks_ip ∷ clears_endpoint ∷ cancels_endpoint ∷ [])
          ⊎ ((ip : Bytes) × (c.ip ≡ ok ip)
              × (ds
                  ≡ sets_endpoint circuit token
                    ∷ checks_ip
                    ∷ serves ip
                    ∷ clears_endpoint
                    ∷ cancels_endpoint
                    ∷ []))))

with_endpoint-Used :
    (circuit : Bytes) (c : Circuit)
    → Used c circuit (with_endpoint circuit c).0 × (is_some (with_endpoint circuit c).1 ≡ true)
unfolding with_endpoint
with_endpoint-Used circuit c = elim (Result-cases c.token) [
  | inr (e, t) ↦ rw t (inl refl, refl)
  | inl (token, t) ↦ elim (Option-cases c.dialer_error) [
    | inr (e, d) ↦ rw (t, d) (inl refl, refl)
    | inl d ↦ elim (Result-cases c.ip) [
      | inr (e, i) ↦ rw (t, d, i, check_and_serve) (inr (token, inl refl), refl)
      | inl (ip, i) ↦ rw (t, d, i, check_and_serve) (inr (token, inr (ip, refl, refl)), refl)
    ]
  ]
]

-- A run with a circuit: the commands that ask for its status come first, its closing comes last, and
-- between them is nothing, or what happens to a circuit that an answer said to be built.
abbrev pub Tidy : Circuit → Bytes → List Deed → Type 0
Tidy c circuit ds =
    (n : ℕ) × (between : List Deed) × (ds ≡ asks n ++ (between ++ closes_circuit circuit ∷ []))
    × ((between ≡ []) ⊎ (Built circuit c.statuses × Used c circuit between))

with_circuit-eq :
    (circuit : Bytes) (c : Circuit) (ds : List Deed) (p : Progress)
    → (await_built circuit c.expiry c.statuses).0 ≡ ds
    → (await_built circuit c.expiry c.statuses).1 ≡ p
    → with_circuit circuit c ≡ behind ds (once_built circuit c p)
unfolding with_circuit
with_circuit-eq circuit c ds p e f = rw (e, f) refl

with_circuit-Tidy :
    (circuit : Bytes) (c : Circuit)
    → expiring c.statuses ≡ true
    → Tidy c circuit (with_circuit circuit c).0 × (is_some (with_circuit circuit c).1 ≡ true)
unfolding Awaited
with_circuit-Tidy circuit c h =
    let (n, e, ending) = await_built-Awaited circuit c.expiry c.statuses h in
    elim ending [
      | inl (b, known) ↦
          let (used, returned) = with_endpoint-Used circuit c in
          rw (with_circuit-eq circuit c (asks n) built e b)
            ((n, (with_endpoint circuit c).0, refl, inr (known, used)), returned)
      | inr (problem, b) ↦
          rw (with_circuit-eq circuit c (asks n) (broken problem) e b)
            ((n, [], refl, inl refl), refl)
    ]

-- Where the time for the circuit ends at a pause of its loop: cycle returns. Where Tor's answer has
-- no line that extends a circuit, or the last one names no positive number of 64 bits, it does
-- nothing but ask for one. Otherwise the last thing that it does is
-- to close that circuit, and before that it asks for its status and, only if an answer said that the
-- circuit is built (a line of it with that ID and BUILT in front), makes an endpoint for it, which it cancels; where that is set for the session it
-- is taken back, and it is served only with the address that the checker gave.
pub cycle_tidies :
    (c : Circuit)
    → expiring c.statuses ≡ true
    → (is_some (cycle c).1 ≡ true)
      × ((NotExtended c × ((cycle c).0 ≡ extends ∷ []))
          ⊎ ((circuit : Bytes) × (ds : List Deed) × Extended c circuit
              × ((cycle c).0 ≡ extends ∷ ds)
              × Tidy c circuit ds))
unfolding cycle
cycle_tidies c h = elim (Result-cases c.extended) [
  | inr (e, f) ↦ (rw (f, cycle) refl, inl (err-NotExtended c e f, rw (f, cycle) refl))
  | inl (lines, f) ↦ elim (Bool-cases (is_circuit (extended_circuit [] lines))) [
    | inr bad ↦ (
      rw (f, cycle, bad) refl,
      inl (is_circuit-NotExtended c lines f bad, rw (f, cycle, bad) refl),
    )
    | inl good ↦
        let circuit = extended_circuit [] lines in
        let (tidy, returned) = with_circuit-Tidy circuit c h in
        (
          rw (f, cycle, good) returned,
          inr (
            circuit,
            (with_circuit circuit c).0,
            is_circuit-Extended c lines f good,
            rw (f, cycle, good) refl,
            tidy,
          ),
        )
  ]
]
