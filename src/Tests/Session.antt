-- ===== src/Tests/Session.antt =====
-- Tests of the stream events: a client's stream with the endpoint's token, one with another, and a
-- directory fetch of Tor's own.
use tor_rotating_http_proxy.Prelude.{
  ◌≡◌, refl, String, Bool, true, false, Option, none, some, List, [], ◌∷◌, All, str_eq,
}
use tor_rotating_http_proxy.Session.{Meets, Command, attach, close_stream, Handled, events}
use tor_rotating_http_proxy.Session.Streams.{Allowed, Leaves, events-Allowed, events-Leaves}
use tor_rotating_http_proxy.Tests.Pool.{endpoint}

abbrev event : List String → Option String → Meets
event fields user = record {
  event = record { fields = fields; user = user; numeric = true };
  current = some (endpoint 0);
  refused = false;
}

abbrev new_stream : String → Option String → Meets
new_stream s user = event ("STREAM" ∷ s ∷ "NEW" ∷ "0" ∷ "example.com:443" ∷ []) user

abbrev nothing_internal : String → Bool
nothing_internal s = false

abbrev two_streams : List Meets
two_streams = new_stream "5" (some "ab") ∷ new_stream "6" (some "cd") ∷ []

abbrev commands_of : List Handled → List (List Command)
commands_of [] = []
commands_of (h ∷ hs) = h.commands ∷ commands_of hs

handled :
    commands_of (events two_streams nothing_internal)
    ≡ (attach "5" "7" ∷ []) ∷ (close_stream "6" ∷ []) ∷ []
unfolding events
handled = refl

abbrev first : List Handled → Handled
first [] = record { internal = nothing_internal; commands = []; cancels = false; closes = false }
first (h ∷ hs) = h

events-Allowed_example :
    All
      (Allowed (new_stream "5" (some "ab")))
      (first (events two_streams nothing_internal)).commands
unfolding events
events-Allowed_example = events-Allowed two_streams nothing_internal 0 refl refl

-- Stream 9 is internal; it is detached, and 5 is attached meanwhile.
abbrev only_nine : String → Bool
only_nine s = str_eq s "9"

abbrev detached : List Meets
detached = event ("STREAM" ∷ "9" ∷ "DETACHED" ∷ []) none ∷ new_stream "5" (some "ab") ∷ []

events-Leaves_example : All (Leaves "9") (events detached only_nine)
events-Leaves_example = events-Leaves "9" detached only_nine refl ((λ e k. cc), ((λ e k. cc), tt))
