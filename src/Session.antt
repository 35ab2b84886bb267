-- ===== src/Session.antt =====
-- torSession.events of internal/app/tor.go: which streams of a Tor process are attached to which
-- circuit. Tor leaves the attachment of streams to this loop.
pub mod Streams
use text.Mathlib.Text.{starts_with}
use tor_rotating_http_proxy.Prelude.{
  String, Bool, true, false, not, ◌&&◌, ◌||◌, Option, none, some, List, [], ◌∷◌, if◌then◌else◌,
  str_eq,
}
use tor_rotating_http_proxy.Pool.Types.{Endpoint}

-- An event, as the standard library reads it: its fields, what socksUserPattern captures of it, and
-- whether ParseUint accepts its second field.
pub record Event : Type 0 where
  pub fields : List String
  pub user : Option String
  pub numeric : Bool

-- What the loop meets at an event: the session's endpoint, and whether Tor refuses to attach.
pub record Meets : Type 0 where
  pub event : Event
  pub current : Option Endpoint
  pub refused : Bool

-- ATTACHSTREAM with a stream and a circuit, and CLOSESTREAM with a stream
pub data Command : Type 0 where
  attach : String → String → Command
  close_stream : String → Command

-- After an event: the map of internal streams, the commands sent, whether the endpoint is
-- cancelled, and whether the control connection is closed, which ends the loop.
pub record Handled : Type 0 where
  pub internal : String → Bool
  pub commands : List Command
  pub cancels : Bool
  pub closes : Bool

abbrev pub marked : (String → Bool) → String → Bool → String → Bool
marked f s v t = if str_eq s t then v else f t

abbrev is_directory_purpose : String → Bool
is_directory_purpose f =
    str_eq f "PURPOSE=DIR_FETCH"
    || (str_eq f "PURPOSE=DIR_UPLOAD" || str_eq f "PURPOSE=DIRPORT_TEST")

abbrev any_directory_purpose : List String → Bool
any_directory_purpose [] = false
any_directory_purpose (f ∷ fs) = is_directory_purpose f || any_directory_purpose fs

abbrev fifth_is_internal : List String → Bool
fifth_is_internal (a ∷ b ∷ c ∷ d ∷ target ∷ fs) = starts_with target "(Tor_internal):"
fifth_is_internal fs = false

-- isInternalStream
unfoldable pub is_internal_stream : List String → Bool
is_internal_stream fields = fifth_is_internal fields || any_directory_purpose fields

-- The event says that the circuit of the endpoint ended.
unfoldable pub ends_circuit : String → String → String → Option Endpoint → Bool
ends_circuit f0 f1 f2 none = false
ends_circuit f0 f1 f2 (some ep) =
    str_eq f0 "CIRC" && (str_eq f1 ep.circuit && (str_eq f2 "CLOSED" || str_eq f2 "FAILED"))

abbrev pub matches : Option String → String → Bool
matches none token = false
matches (some user) token = str_eq user token

-- The commands for a new stream
unfoldable pub answer_new : String → Meets → Option Endpoint → List Command
answer_new stream m none = close_stream stream ∷ []
answer_new stream m (some ep) =
    if ep.cancelled || not (matches m.event.user ep.token)
    then close_stream stream ∷ []
    else attach stream ep.circuit ∷ (if m.refused then close_stream stream ∷ [] else [])

-- The commands for a client's stream, by its new status
unfoldable pub answer : String → String → Meets → List Command
unfolding answer_new
answer stream status m =
    if str_eq status "NEW" || str_eq status "NEWRESOLVE"
    then answer_new stream m m.current
    else (if str_eq status "DETACHED" then close_stream stream ∷ [] else [])

-- A stream's event, with the internal streams, this one included if it is internal.
unfoldable pub on_stream : String → String → Meets → (String → Bool) → Handled
unfolding answer
on_stream stream status m internal =
    if internal stream
    then record {
      internal = if str_eq status "CLOSED" then marked internal stream false else internal;
      commands = [];
      cancels = false;
      closes = false;
    }
    else record {
      internal = internal;
      commands = if m.event.numeric then answer stream status m else [];
      cancels = false;
      closes = not m.event.numeric;
    }

abbrev quiet : (String → Bool) → Bool → Handled
quiet internal cancels = record {
  internal = internal;
  commands = [];
  cancels = cancels;
  closes = false;
}

unfoldable pub on_fields : List String → Meets → (String → Bool) → Handled
unfolding on_stream ends_circuit is_internal_stream
on_fields (f0 ∷ f1 ∷ f2 ∷ fs) m internal =
    if str_eq f0 "STREAM"
    then on_stream f1 f2 m
        (if is_internal_stream (f0 ∷ f1 ∷ f2 ∷ fs) then marked internal f1 true else internal)
    else quiet internal (ends_circuit f0 f1 f2 m.current)
on_fields fs m internal = quiet internal false

-- One turn of the loop
unfoldable pub on_event : Meets → (String → Bool) → Handled
unfolding on_fields
on_event m internal = on_fields m.event.fields m internal

-- The loop: what each event comes to.
unfoldable pub events : List Meets → (String → Bool) → List Handled
unfolding on_event
events [] internal = []
events (m ∷ ms) internal =
    let h = on_event m internal in
    let rest = events ms h.internal in h ∷ (if h.closes then [] else rest)
