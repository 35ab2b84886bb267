-- ===== src/Cycle/Build.antt =====
-- cycle of internal/app/tor.go up to its service of the circuit: it has Tor extend a circuit, waits
-- until it is built, makes the endpoint, and checks its exit address. What Tor and the checker answer
-- is an argument; the service itself, modelled in the module above, is one as well, by the error that
-- it returns.
pub mod Replies
pub mod Tidy
use Prim.Native.String.{◌++◌ as append_text}
use tor_rotating_http_proxy.Prelude.{
  ℕ, ◌^◌, String, Bool, true, false, not, ◌&&◌, ◌||◌, Option, none, some, List, [], ◌∷◌, ◌++◌, drop,
  length, ltb, ◌==◌, if◌then◌else◌,
}
use tor_rotating_http_proxy.Prelude.Bytes.{
  Bytes, codes, bytes_eq, has_prefix, unsigned, split, join, fields,
}
use tor_rotating_http_proxy.Errors.{GoError, Result, ok, err}

-- What cycle does to its session and its circuit, in order; `serves` stands for the service.
pub data Deed : Type 0 where
  extends : Deed
  asks_status : Deed
  sets_endpoint : Bytes → Bytes → Deed
  clears_endpoint : Deed
  cancels_endpoint : Deed
  checks_ip : Deed
  serves : Bytes → Deed
  closes_circuit : Bytes → Deed

abbrev pub extended_key : Bytes
extended_key = codes "EXTENDED "

-- The circuit that the last line of its kind names, or what was known before
abbrev pub extended_circuit : Bytes → List Bytes → Bytes
extended_circuit circuit [] = circuit
extended_circuit circuit (line ∷ lines) =
    let found = extended_circuit (drop (length extended_key) line) lines in
    let other = extended_circuit circuit lines in
    if has_prefix line extended_key then found else other

-- strconv.ParseUint, of 64 bits
abbrev pub within_64 : Option ℕ → Bool
within_64 none = false
within_64 (some n) = ltb 0 n && ltb n (2 ^ 64)

-- Is the ID of a circuit a positive number of 64 bits?
unfoldable pub is_circuit : Bytes → Bool
is_circuit circuit = within_64 (unsigned circuit)

abbrev pub says_built : Bytes → List Bytes → Bool
says_built circuit [] = false
says_built circuit (a ∷ []) = false
says_built circuit (a ∷ b ∷ fs) = bytes_eq a circuit && bytes_eq b (codes "BUILT")

abbrev pub any_built : Bytes → List Bytes → Bool
any_built circuit [] = false
any_built circuit (line ∷ lines) = says_built circuit (fields line) || any_built circuit lines

-- The loop over the lines of circuit-status
unfoldable pub is_built : Bytes → List Bytes → Bool
is_built circuit lines = any_built circuit (split 10 (join (10 ∷ []) lines))

-- The answer of GETINFO circuit-status, and whether the pause behind it ran to its end
pub record Status : Type 0 where
  pub reply : Result (List Bytes)
  pub waited : Bool

-- What cycle meets. `expiry` is the error of its context at its end, `dialer_error` that of the
-- SOCKS dialer, `ip` the answer of checkIP, and `service` the error of the service.
pub record Circuit : Type 0 where
  pub extended : Result (List Bytes)
  pub statuses : List Status
  pub expiry : GoError
  pub token : Result Bytes
  pub dialer_error : Option GoError
  pub ip : Result Bytes
  pub service : Option GoError

-- How a part of cycle ends: with what follows, with an error, or still waiting.
pub data Progress : Type 0 where
  built : Progress
  broken : GoError → Progress
  still_waiting : Progress

abbrev pub wrapped : String → GoError → GoError
wrapped before e = record e { message = append_text before e.message }

-- The loop until the circuit is built
unfoldable pub await_built : Bytes → GoError → List Status → List Deed × Progress
unfolding is_built
await_built circuit expiry [] = ([], still_waiting)
await_built circuit expiry (s ∷ ss) =
    let (ds, p) = await_built circuit expiry ss in
    elim s.reply [
      | err e ↦ (asks_status ∷ [], broken e)
      | ok lines ↦
          if is_built circuit lines
          then (asks_status ∷ [], built)
          else (if s.waited
              then (asks_status ∷ ds, p)
              else (asks_status ∷ [], broken (wrapped "building circuit: " expiry)))
    ]

-- What cycle did, and what it returns: none inside stands for no error, none outside for a wait that
-- goes on.
abbrev pub Outcome : Type 0
Outcome = List Deed × Option (Option GoError)

abbrev pub behind : List Deed → Outcome → Outcome
behind ds (es, r) = (ds ++ es, r)

-- From the check of the address on, with the deferred call of setEndpoint
unfoldable pub check_and_serve : Circuit → Outcome
check_and_serve c = elim c.ip [
  | err e ↦ (checks_ip ∷ clears_endpoint ∷ [], some (some (wrapped "IP check: " e)))
  | ok ip ↦ (checks_ip ∷ serves ip ∷ clears_endpoint ∷ [], some c.service)
]

-- From the endpoint on, with the deferred call of its cancel
unfoldable pub with_endpoint : Bytes → Circuit → Outcome
unfolding check_and_serve
with_endpoint circuit c = elim c.token [
  | err e ↦ (cancels_endpoint ∷ [], some (some e))
  | ok token ↦ elim c.dialer_error [
    | some e ↦ (cancels_endpoint ∷ [], some (some e))
    | none ↦
        let (ds, r) = check_and_serve c in
        (sets_endpoint circuit token ∷ ds ++ cancels_endpoint ∷ [], r)
  ]
]

abbrev pub once_built : Bytes → Circuit → Progress → Outcome
once_built circuit c still_waiting = ([], none)
once_built circuit c (broken e) = (closes_circuit circuit ∷ [], some (some e))
once_built circuit c built =
    let (ds, r) = with_endpoint circuit c in (ds ++ closes_circuit circuit ∷ [], r)

abbrev pub invalid_circuit_error : GoError
invalid_circuit_error = record { message = "Tor returned an invalid circuit ID"; chain = [] }

-- With the circuit, and the deferred command that closes it
unfoldable pub with_circuit : Bytes → Circuit → Outcome
unfolding await_built with_endpoint
with_circuit circuit c =
    let (ds, p) = await_built circuit c.expiry c.statuses in behind ds (once_built circuit c p)

-- cycle
unfoldable pub cycle : Circuit → Outcome
unfolding is_circuit with_circuit
cycle c = elim c.extended [
  | err e ↦ (extends ∷ [], some (some e))
  | ok lines ↦
      let circuit = extended_circuit [] lines in
      behind (extends ∷ []) (
        if is_circuit circuit
        then with_circuit circuit c
        else ([], some (some invalid_circuit_error)))
]
