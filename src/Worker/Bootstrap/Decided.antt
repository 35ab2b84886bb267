-- ===== src/Worker/Bootstrap/Decided.antt =====
-- How the bootstrap of an instance ends.
use tor_rotating_http_proxy.Prelude.{
  ℕ, ◌≤◌, ◌<◌, ◌≡◌, refl, ap, ◌⊎◌, inl, inr, String, Bool, true, false, not, ◌||◌, Option, some,
  List, [], ◌∷◌, ◌++◌, map, arith, All, Bool-cases, Option-cases, ◌==◌,
}
use tor_rotating_http_proxy.Prelude.Bytes.{Bytes, codes, fields, join}
use tor_rotating_http_proxy.Errors.{GoError, Result-cases}
use tor_rotating_http_proxy.Worker.{Policy, supervise, needs_fresh_restart}
use tor_rotating_http_proxy.Worker.Bootstrap.{
  bootstrap_progress, first_progress, Phase, goes_on, fails, Dial, connects, refused, dial_phase,
  Poll, poll_phase, show, Startup, bootstrap, Shown, bootstrapping, acts, circuits, supervise_tor,
}

-- The time of the bootstrap ends at one of these pauses, or a dial connects before.
abbrev pub expires : List Dial → Bool
expires [] = false
expires (connects ∷ ds) = true
expires (refused exited waited ∷ ds) = not waited || expires ds

-- The time of the bootstrap ends at one of these pauses.
abbrev pub expiring : List Poll → Bool
expiring [] = false
expiring (p ∷ ps) = not p.waited || expiring ps

abbrev pub Unfinished : List ℕ → Type 0
Unfinished = All (λ n. n < 100)

Fails : Phase → Type 0
Fails p = (e : GoError) × (p ≡ fails e) × (needs_fresh_restart (some e) ≡ true)

dial_phase-decided :
    (pe : Option GoError) (ds : List Dial)
    → expires ds ≡ true
    → (dial_phase pe ds ≡ goes_on) ⊎ Fails (dial_phase pe ds)
unfolding dial_phase Fails needs_fresh_restart
dial_phase-decided pe [] h = cc
dial_phase-decided pe (connects ∷ ds) h = inl refl
dial_phase-decided pe (refused true waited ∷ ds) h = inr (_, refl, refl)
dial_phase-decided pe (refused false true ∷ ds) h = dial_phase-decided pe ds h
dial_phase-decided pe (refused false false ∷ ds) h = inr (_, refl, refl)

first_progress-bounded : (fs : List Bytes) → first_progress fs ≤ 100
first_progress-bounded [] = omega arith
first_progress-bounded (f ∷ fs) = ground (arith, first_progress-bounded fs)

bootstrap_progress-bounded : (line : Bytes) → bootstrap_progress line ≤ 100
unfolding bootstrap_progress
bootstrap_progress-bounded line = first_progress-bounded (fields line)

Polled : List ℕ × Phase → Type 0
Polled r =
    (Fails r.1 × Unfinished r.0)
    ⊎ ((before : List ℕ) × (r ≡ (before ++ 100 ∷ [], goes_on)) × Unfinished before)

fails-Polled :
    (e : GoError) (ns : List ℕ)
    → needs_fresh_restart (some e) ≡ true
    → Unfinished ns
    → Polled (ns, fails e)
unfolding Polled Fails
fails-Polled e ns fresh u = inl ((e, refl, fresh), u)

show-Polled : (n : ℕ) (r : List ℕ × Phase) → n < 100 → Polled r → Polled (show n r)
unfolding Polled
show-Polled n (ns, p) lt (inl (f, u)) = inl (f, (lt, u))
show-Polled n (ns, p) lt (inr (before, e, u)) = inr (n ∷ before, ap (show n) e, (lt, u))

poll_phase-Polled :
    (budget : String) (ps : List Poll) → expiring ps ≡ true → Polled (poll_phase budget ps)
unfolding poll_phase needs_fresh_restart
poll_phase-Polled budget [] h = cc
poll_phase-Polled budget (p ∷ ps) h = elim (Result-cases p.reply) [
  | inr (e, f) ↦ rw f (fails-Polled _ [] refl tt)
  | inl (lines, f) ↦
      let n = bootstrap_progress (join (codes " ") lines) in
      let bound : n ≤ 100 = bootstrap_progress-bounded (join (codes " ") lines) in
      elim (Bool-cases (n == 100)) [
        | inl whole ↦
            let same : n ≡ 100 = ground (arith, whole) in
            rw (f, whole) (unfold Polled in inr ([], ap (λ k. (k ∷ [], goes_on)) same, tt))
        | inr part ↦
            let lt : n < 100 = ground (arith, part, bound) in
            elim (Bool-cases p.waited) [
              | inl again ↦
                  rw (f, part, again)
                    (show-Polled n (poll_phase budget ps) lt
                      (poll_phase-Polled budget ps (ground (arith, h, again))))
              | inr over ↦ rw (f, part, over) (fails-Polled _ (n ∷ []) refl (lt, tt))
            ]
      ]
]

bootstrap-Polled :
    (s : Startup) → expires s.dials ≡ true → expiring s.polls ≡ true → Polled (bootstrap s)
unfolding bootstrap Fails needs_fresh_restart
bootstrap-Polled s h k = elim (dial_phase-decided s.process_error s.dials h) [
  | inr (e, f, fresh) ↦ rw (f, bootstrap) (fails-Polled e [] fresh tt)
  | inl on ↦ elim (Option-cases s.authenticate) [
    | inr (e, a) ↦ rw (on, a, bootstrap) (fails-Polled _ [] refl tt)
    | inl a ↦ elim (Option-cases s.set_events) [
      | inr (e, b) ↦ rw (on, a, b, bootstrap) (fails-Polled _ [] refl tt)
      | inl b ↦ rw (on, a, b, bootstrap) (poll_phase-Polled s.budget s.polls k)
    ]
  ]
]

-- superviseTor gives up before its loop over the circuits, with an error for which RunWorkers
-- rebuilds the instance, and has shown no progress of 100 percent.
abbrev pub GivesUp : List Shown × Option GoError → Type 0
GivesUp r =
    (e : GoError) × (ns : List ℕ) × (r ≡ (map bootstrapping ns, some e))
    × (needs_fresh_restart (some e) ≡ true)
    × Unfinished ns

-- superviseTor shows progress up to 100 percent, and goes on with its loop over the circuits.
abbrev pub GoesOn : Policy → Startup → List Shown × Option GoError → Type 0
GoesOn cfg s r =
    let (as', e) = supervise cfg 0 10 s.rounds in
    (ns : List ℕ) × (r ≡ (map bootstrapping (ns ++ 100 ∷ []) ++ map acts as', e)) × Unfinished ns

supervise_tor-circuits :
    (cfg : Policy) (s : Startup) (r : List ℕ × Phase)
    → bootstrap s ≡ r
    → supervise_tor cfg s
      ≡ (bootstrapping 0 ∷ (circuits cfg s.rounds r).0, (circuits cfg s.rounds r).1)
unfolding supervise_tor
supervise_tor-circuits cfg s r h = rw h refl

-- Where the bootstrap's time ends at a pause of each of its loops, or the dial succeeds before:
-- superviseTor returns an error for which RunWorkers wipes the instance and starts it over, and shows
-- only progress below 100 percent; or the last progress it shows is 100 percent, those before are
-- below, and what follows is its loop over the circuits.
pub supervise_tor_decides :
    (cfg : Policy) (s : Startup)
    → expires s.dials ≡ true
    → expiring s.polls ≡ true
    → GivesUp (supervise_tor cfg s) ⊎ GoesOn cfg s (supervise_tor cfg s)
unfolding Polled Fails
supervise_tor_decides cfg s h k = elim (bootstrap-Polled s h k) [
  | inl ((e, f, fresh), u) ↦ inl (
    e,
    0 ∷ (bootstrap s).0,
    supervise_tor-circuits cfg s ((bootstrap s).0, fails e) (ap (λ p. ((bootstrap s).0, p)) f),
    fresh,
    (omega arith, u),
  )
  | inr (before, f, u) ↦
      inr
        (0 ∷ before, supervise_tor-circuits cfg s (before ++ 100 ∷ [], goes_on) f, (omega arith, u))
]
