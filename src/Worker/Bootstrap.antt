-- ===== src/Worker/Bootstrap.antt =====
-- superviseTor of internal/app/tor.go from its first line on: the wait for the control socket, the
-- first commands, the wait for Tor's bootstrap with bootstrapProgress, and then the loop over the
-- circuits. What the socket, the commands and the pauses answer is an argument; a list that ends
-- stands for a loop that still waits.
pub mod Decided
use Prim.Native.String.{◌++◌ as append_text}
use tor_rotating_http_proxy.Prelude.{
  ℕ, ◌^◌, String, Bool, true, false, not, Option, none, some, List, [], ◌∷◌, ◌++◌, map, length,
  drop, min, ◌==◌, if◌then◌else◌, ◌-◌,
}
use tor_rotating_http_proxy.Prelude.Bytes.{Bytes, codes, has_prefix, unsigned, fields, join}
use tor_rotating_http_proxy.Prelude.Int.{ℤ, pos, negsuc, neg, pos_part}
use tor_rotating_http_proxy.Errors.{GoError, bootstrap_stuck, Result, ok, err}
use tor_rotating_http_proxy.Worker.{Policy, Round, Action, supervise}

-- What strconv.Atoi returns beside its error: zero for a text that is no number, and the last int in
-- its direction for one that is too large.
abbrev or_zero : (ℕ → ℤ) → ℕ → Option ℕ → ℤ
or_zero sign limit none = pos 0
or_zero sign limit (some n) = sign (min n limit)

unfoldable pub atoi_value : Bytes → ℤ
atoi_value [] = pos 0
atoi_value (b ∷ bs) =
    if b == b'+'
    then or_zero pos (2 ^ 63 - 1) (unsigned bs)
    else (if b == b'-'
        then or_zero neg (2 ^ 63) (unsigned bs)
        else or_zero pos (2 ^ 63 - 1) (unsigned (b ∷ bs)))

abbrev pub progress_key : Bytes
progress_key = codes "PROGRESS="

abbrev pub first_progress : List Bytes → ℕ
first_progress [] = 0
first_progress (f ∷ fs) =
    let rest = first_progress fs in
    if has_prefix f progress_key
    then min (pos_part (atoi_value (drop (length progress_key) f))) 100
    else rest

-- bootstrapProgress
unfoldable pub bootstrap_progress : Bytes → ℕ
unfolding atoi_value
bootstrap_progress line = first_progress (fields line)

-- An error that wraps errBootstrapStuck, with what stands before it
abbrev pub stuck : String → GoError
stuck before = record {
  message =
      append_text before "bootstrap did not finish; rebuilding this Tor instance from scratch";
  chain = bootstrap_stuck ∷ [];
}

-- How a part of superviseTor ends
pub data Phase : Type 0 where
  goes_on : Phase
  fails : GoError → Phase
  waiting : Phase

-- A dial of the control socket: where it fails, whether the process has exited, and whether the
-- pause behind it ran to its end.
pub data Dial : Type 0 where
  connects : Dial
  refused : Bool → Bool → Dial

abbrev pub text_of_error : Option GoError → String
text_of_error none = "<nil>"
text_of_error (some e) = e.message

-- The loop over the dials
unfoldable pub dial_phase : Option GoError → List Dial → Phase
dial_phase process_error [] = waiting
dial_phase process_error (connects ∷ ds) = goes_on
dial_phase process_error (refused exited waited ∷ ds) =
    let rest = dial_phase process_error ds in
    if exited
    then fails (
        stuck (
          append_text "Tor exited during bootstrap: "
            (append_text (text_of_error process_error) ": ")))
    else (if waited then rest else fails (stuck "waiting for Tor control socket: "))

-- The answer of GETINFO, and whether the pause behind it ran to its end
pub record Poll : Type 0 where
  pub reply : Result (List Bytes)
  pub waited : Bool

abbrev pub show : ℕ → List ℕ × Phase → List ℕ × Phase
show n (ns, p) = (n ∷ ns, p)

-- The loop over the bootstrap phase: what it shows, and how it ends. `budget` is the text of the
-- time that it may take.
unfoldable pub poll_phase : String → List Poll → List ℕ × Phase
unfolding bootstrap_progress
poll_phase budget [] = ([], waiting)
poll_phase budget (p ∷ ps) =
    let rest = poll_phase budget ps in
    elim p.reply [
      | err e ↦ ([], fails (stuck "bootstrap: "))
      | ok lines ↦
          let n = bootstrap_progress (join (codes " ") lines) in
          show n (
            if n == 100
            then ([], goes_on)
            else (if p.waited then rest else (
              [],
              fails (
                  stuck
                    (append_text "bootstrap did not reach 100% within " (append_text budget ": "))),
            )))
    ]

-- What superviseTor meets
pub record Startup : Type 0 where
  pub process_error : Option GoError
  pub dials : List Dial
  pub authenticate : Option GoError
  pub set_events : Option GoError
  pub budget : String
  pub polls : List Poll
  pub rounds : List Round

-- From the dials on: what is shown of the bootstrap, and how it ends
unfoldable pub bootstrap : Startup → List ℕ × Phase
unfolding dial_phase poll_phase
bootstrap s = elim (dial_phase s.process_error s.dials) [
  | waiting ↦ ([], waiting)
  | fails e ↦ ([], fails e)
  | goes_on ↦ elim s.authenticate [
    | some e ↦ ([], fails (stuck "authenticate control connection: "))
    | none ↦ elim s.set_events [
      | some e ↦ ([], fails (stuck "subscribe to control events: "))
      | none ↦ poll_phase s.budget s.polls
    ]
  ]
]

-- What superviseTor shows, the state Bootstrapping with its progress first, and the error that it
-- returns where it does.
pub data Shown : Type 0 where
  bootstrapping : ℕ → Shown
  acts : Action → Shown

abbrev pub circuits : Policy → List Round → List ℕ × Phase → List Shown × Option GoError
circuits cfg rounds (ns, goes_on) =
    (map bootstrapping ns ++ map acts (supervise cfg 0 10 rounds).0, (supervise cfg 0 10 rounds).1)
circuits cfg rounds (ns, fails e) = (map bootstrapping ns, some e)
circuits cfg rounds (ns, waiting) = (map bootstrapping ns, none)

-- superviseTor; no error where it still waits
unfoldable pub supervise_tor : Policy → Startup → List Shown × Option GoError
unfolding bootstrap supervise
supervise_tor cfg s =
    let (shown, e) = circuits cfg s.rounds (bootstrap s) in (bootstrapping 0 ∷ shown, e)
