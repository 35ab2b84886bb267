-- ===== src/LoadTest/Accounts.antt =====
-- The statistics of the load tester account for every request, and there is one test at a time.
use tor_rotating_http_proxy.Prelude.{
  ℕ, zero, suc, ◌+◌, ◌%◌, ◌^◌, ◌≤◌, ◌≡◌, refl, sym, ◌∙◌, Bool, true, false, String, Option, none,
  some, List, [], ◌∷◌, arith, ◌↔◌, ◌⊎◌, inl, inr, ◌||◌, Bool-cases, ltb,
}
use tor_rotating_http_proxy.LoadTest.{
  LoadTester, TestOptions, Url, TestState, idle, running, stopping, stopped, StartError, bad_url,
  bad_rps, shutting_down, test_active, start, started_with, stop, record_result, new_load_tester,
  is_active, is_running, acceptable_url,
}
use tor_rotating_http_proxy.LoadTest.Moves.{
  Run, Tester, Step, ticks, ends, releases, returns, Move, starts, stops, shuts_down, runs_on,
  launched, stepped, send, settle, step, move, moves, at_rest,
}

-- Requests are successful, failed, canceled or in flight, up to the wrap of the counters; and the
-- time of successes is part of the total.
pub record Counted (t : LoadTester) : Type 0 where
  pub total :
      t.stats.sent
      ≡ (t.stats.success + t.stats.failed + t.stats.canceled + t.stats.in_flight) % 2 ^ 64
  pub times : t.success_time ≤ t.total_time

-- One goroutine of a test lives: the test is running or stopping, the goroutine has the tester's
-- cancel, and the requests in flight are its own, each in one of its 128 slots.
pub record Testing (t : LoadTester) (r : Run) : Type 0 where
  pub active : is_active t.stats.state ≡ true
  pub latest : r.latest ≡ true
  pub flying : t.stats.in_flight ≡ r.flying
  pub in_slots : r.flying ≤ r.slots
  pub slots : r.slots ≤ 128

-- No test is running or stopping, and nothing is in flight.
pub record Resting (t : LoadTester) : Type 0 where
  pub active : is_active t.stats.state ≡ false
  pub landed : t.stats.in_flight ≡ 0

-- There is no goroutine of a test, or exactly one.
abbrev pub Alone : LoadTester → List Run → Type 0
Alone t [] = Resting t
Alone t (r ∷ []) = Testing t r
Alone t (r ∷ q ∷ rs) = true ≡ false

abbrev pub Accounted : Tester → Type 0
Accounted s = Counted s.tester × Alone s.tester s.runs

-- A Start begins a test where none is active, or changes nothing.
start-cases :
    (options : TestOptions) (parsed : Option Url) (now : ℕ) (t : LoadTester)
    → ((start options parsed now t ≡ (started_with options now t, none))
        × (is_active t.stats.state ≡ false))
      ⊎ ((e : StartError) × (start options parsed now t ≡ (t, some e)))
unfolding start
start-cases options parsed now t = elim (Bool-cases (acceptable_url parsed)) [
  | inr bad ↦ inr (bad_url, rw bad refl)
  | inl good ↦ elim (Bool-cases (ltb options.rps 1 || ltb 1000 options.rps)) [
    | inl out ↦ inr (bad_rps, rw (good, out) refl)
    | inr inside ↦ elim (Bool-cases t.parent_done) [
      | inl over ↦ inr (shutting_down, rw (good, inside, over) refl)
      | inr alive ↦ elim (Bool-cases (is_active t.stats.state)) [
        | inl busy ↦ inr (test_active, rw (good, inside, alive, busy) refl)
        | inr free ↦ inl (rw (good, inside, alive, free) refl, free)
      ]
    ]
  ]
]

-- A test that begins has counted nothing yet.
started-Counted :
    (options : TestOptions) (now : ℕ) (t : LoadTester) → Counted (started_with options now t)
started-Counted options now t = record { total = refl; times = omega arith }

start-Accounted :
    (options : TestOptions) (parsed : Option Url) (now : ℕ) (t : LoadTester) (rs : List Run)
    → Counted t
    → Alone t rs
    → Accounted (launched (start options parsed now t) (record { tester = t; runs = rs }))
unfolding start
start-Accounted options parsed now t [] c a = elim (start-cases options parsed now t) [
  | inr (e, refused) ↦ rw refused (c, a)
  | inl (begun, free) ↦ rw begun (
    started-Counted options now t,
    record {
      active = refl;
      latest = refl;
      flying = refl;
      in_slots = omega arith;
      slots = omega arith;
    },
  )
]
start-Accounted options parsed now t (r ∷ []) c a = elim (start-cases options parsed now t) [
  | inr (e, refused) ↦ rw refused (c, a)
  | inl (begun, free) ↦ absurd (cc (sym free ∙ a.active))
]
start-Accounted options parsed now t (r ∷ q ∷ rs) c a = cc

running-active : (s : TestState) → is_running s ≡ true → is_active s ≡ true
running-active idle h = cc
running-active running h = refl
running-active stopping h = cc
running-active stopped h = cc

stop-Accounted :
    (t : LoadTester) (rs : List Run) → Counted t → Alone t rs → Counted (stop t) × Alone (stop t) rs
unfolding stop
stop-Accounted t [] c a = elim (Bool-cases (is_running t.stats.state)) [
  | inr idle_now ↦ rw idle_now (c, a)
  | inl runs ↦ absurd (cc (sym a.active ∙ running-active t.stats.state runs))
]
stop-Accounted t (r ∷ []) c a = elim (Bool-cases (is_running t.stats.state)) [
  | inr waits ↦ rw waits (c, a)
  | inl runs ↦ rw runs (
    record { total = c.total; times = c.times },
    record {
      active = refl;
      latest = a.latest;
      flying = a.flying;
      in_slots = a.in_slots;
      slots = a.slots;
    },
  )
]
stop-Accounted t (r ∷ q ∷ rs) c a = cc

-- What a step of the only run leaves
Left : LoadTester × Option Run → Type 0
Left (t, none) = Counted t × Resting t
Left (t, some r) = Counted t × Testing t r

step-Left : (a : Step) (t : LoadTester) (r : Run) → Counted t → Testing t r → Left (step a t r)
unfolding step send settle record_result Left
step-Left ticks t r c h =
    ground (arith, c.total, c.times, h.active, h.latest, h.flying, h.in_slots, h.slots)
step-Left (ends now elapsed code status err) t r c h =
    ground (arith, c.total, c.times, h.active, h.latest, h.flying, h.in_slots, h.slots)
step-Left releases t r c h =
    ground (arith, c.total, c.times, h.active, h.latest, h.flying, h.in_slots, h.slots)
step-Left (returns now) t r c h =
    ground (arith, c.total, c.times, h.active, h.latest, h.flying, h.in_slots, h.slots)

Left-Accounted :
    (left : LoadTester × Option Run) (r : Run)
    → Left left
    → Accounted (stepped 0 left (record { tester = left.0; runs = r ∷ [] }))
unfolding Left
Left-Accounted (t, none) r h = h
Left-Accounted (t, some q) r h = h

-- The only run has made its step.
after_step :
    (i : ℕ) (a : Step) (t : LoadTester) (r : Run)
    → Counted t
    → Testing t r
    → Accounted (move (runs_on i a) (record { tester = t; runs = r ∷ [] }))
unfolding move Left
after_step (suc i) a t r c h = (c, h)
after_step zero a t r c h = Left-Accounted (step a t r) r (step-Left a t r c h)

runs_on-Accounted :
    (i : ℕ) (a : Step) (t : LoadTester) (rs : List Run)
    → Counted t
    → Alone t rs
    → Accounted (move (runs_on i a) (record { tester = t; runs = rs }))
unfolding move
runs_on-Accounted i a t [] c h = (c, h)
runs_on-Accounted i a t (r ∷ []) c h = after_step i a t r c h
runs_on-Accounted i a t (r ∷ q ∷ rs) c h = absurd (cc h)

shut-Alone :
    (t : LoadTester) (rs : List Run) → Alone t rs → Alone (record t { parent_done = true }) rs
shut-Alone t [] h = record { active = h.active; landed = h.landed }
shut-Alone t (r ∷ []) h = record {
  active = h.active;
  latest = h.latest;
  flying = h.flying;
  in_slots = h.in_slots;
  slots = h.slots;
}
shut-Alone t (r ∷ q ∷ rs) h = h

move-Accounted : (m : Move) (s : Tester) → Accounted s → Accounted (move m s)
unfolding move
move-Accounted (starts options parsed now) s a =
    start-Accounted options parsed now s.tester s.runs a.0 a.1
move-Accounted stops s a = stop-Accounted s.tester s.runs a.0 a.1
move-Accounted shuts_down s a =
    (record { total = a.0.total; times = a.0.times }, shut-Alone s.tester s.runs a.1)
move-Accounted (runs_on i b) s a = runs_on-Accounted i b s.tester s.runs a.0 a.1

moves-Accounted : (ms : List Move) (s : Tester) → Accounted s → Accounted (moves ms s)
unfolding moves
moves-Accounted [] s a = a
moves-Accounted (m ∷ ms) s a = moves-Accounted ms (move m s) (move-Accounted m s a)

-- From a new tester, whatever the moves: a request that was sent is successful, failed, canceled or
-- in flight, as the wrapping counters tell it, and the time of the successes is part of the total
-- time. There is no goroutine of a test, where no test is running or stopping and nothing is in
-- flight, or exactly one, where a test is; the requests in flight are then its own, each in one of
-- its 128 slots, and the tester's cancel is its own.
pub moves_account :
    (parent_done : Bool) (url : String) (ms : List Move)
    → Accounted (moves ms (at_rest (new_load_tester parent_done url)))
moves_account parent_done url ms =
    moves-Accounted ms _
      (record { total = refl; times = omega arith }, record { active = refl; landed = refl })

start_when :
    (options : TestOptions) (parsed : Option Url) (now : ℕ) (t : LoadTester)
    → ((start options parsed now t).1 ≡ none) ↔ (
        (acceptable_url parsed ≡ true)
        × (1 ≤ options.rps)
        × (options.rps ≤ 1000)
        × (t.parent_done ≡ false)
        × (is_active t.stats.state ≡ false))
unfolding start
start_when options parsed now t =
    (λ h. (ground arith, ground arith, ground arith, ground arith, ground arith), λ h. ground arith)

-- Start succeeds exactly on an acceptable URL, a rate from 1 to 1000, a live parent and no active
-- test; a Start that fails leaves the tester as it is.
start_decides :
    (options : TestOptions) (parsed : Option Url) (now : ℕ) (t : LoadTester)
    → (((start options parsed now t).1 ≡ none) ↔ (
        (acceptable_url parsed ≡ true)
        × (1 ≤ options.rps)
        × (options.rps ≤ 1000)
        × (t.parent_done ≡ false)
        × (is_active t.stats.state ≡ false)))
      × ((e : StartError)
          → (start options parsed now t).1 ≡ some e
          → (start options parsed now t).0 ≡ t)
unfolding start
start_decides options parsed now t = (start_when options parsed now t, λ e h. ground arith)
