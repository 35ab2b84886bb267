-- ===== src/Proxy/Attempt.antt =====
-- One attempt of the proxy on a lease: forwardAttempt, connectAttempt and relayTunnel of
-- internal/app/proxy.go. What net/http, the upstream server and the client's connection do is an
-- argument. A header is a list of fields; the order of different names does not matter.
pub mod Relayed
pub mod Closed
use tor_rotating_http_proxy.Prelude.{
  ℕ, Bool, true, false, not, ◌||◌, Option, none, some, List, [], ◌∷◌, ◌++◌, if◌then◌else◌,
}
use tor_rotating_http_proxy.Prelude.Bytes.{Bytes, codes}
use tor_rotating_http_proxy.Errors.{GoError, Result, ok, err, is_some}
use tor_rotating_http_proxy.Headers.{Field, remove_hop_headers}

-- An upstream response: `body` is what CopyBuffer has written to the client, and `cut` its error;
-- `trailer_names` are the names that are known before the body.
pub record Upstream : Type 0 where
  pub status : ℕ
  pub header : List Field
  pub trailer_names : List Bytes
  pub body : Bytes
  pub cut : Option GoError
  pub trailer : List Field

-- RoundTrip: whether each of its dials succeeded, and its answer
pub record Exchange : Type 0 where
  pub dials : List Bool
  pub answer : Result Upstream

-- What is written to the client
pub record Client : Type 0 where
  pub header : List Field
  pub status : Option ℕ
  pub body : Bytes
  pub trailer : List Field

abbrev pub new_client : Client
new_client = record { header = []; status = none; body = []; trailer = [] }

-- What forwardAttempt returns, what the client got, and the header of the request that it sent
pub record Attempted : Type 0 where
  pub responded : Bool
  pub dialed : Bool
  pub error : Option GoError
  pub client : Client
  pub sent : List Field

abbrev pub any_dialed : List Bool → Bool
any_dialed [] = false
any_dialed (d ∷ ds) = d || any_dialed ds

abbrev pub announced : List Bytes → List Field
announced [] = []
announced (n ∷ ns) = record { name = codes "Trailer"; value = n } ∷ announced ns

-- From the header of the response to the end of its body
abbrev pub copied : Upstream → Client → Client
copied u w = record w {
  header = w.header ++ (remove_hop_headers u.header ++ announced u.trailer_names);
  status = some u.status;
  body = u.body;
}

abbrev pub with_trailer : Upstream → Client → Client
with_trailer u w = elim u.cut [
  | some e ↦ copied u w
  | none ↦ record (copied u w) { trailer = u.trailer }
]

-- forwardAttempt
unfoldable pub forward_attempt : List Field → Exchange → Client → Attempted
unfolding remove_hop_headers
forward_attempt header x w = elim x.answer [
  | err e ↦ record {
    responded = false;
    dialed = any_dialed x.dials;
    error = some e;
    client = w;
    sent = remove_hop_headers header;
  }
  | ok u ↦ record {
    responded = true;
    dialed = any_dialed x.dials;
    error = u.cut;
    client = with_trailer u w;
    sent = remove_hop_headers header;
  }
]

-- What connectAttempt does to its connections; `copy_starts` and `copy_ends` are of the goroutines
-- that copy.
pub data Deed : Type 0 where
  opens_upstream closes_upstream : Deed
  opens_client closes_client : Deed
  refuses_tunnel : Deed
  greets : Deed
  copy_starts copy_ends : Deed

-- What it meets; `result` is the error of the copy that ends first.
pub record Tunnel : Type 0 where
  pub dial : Option GoError
  pub hijackable : Bool
  pub hijack : Option GoError
  pub greeting : Option GoError
  pub result : Option GoError

-- What it did, and what it returns: whether there was a tunnel, and an error
abbrev pub Connected : Type 0
Connected = List Deed × Bool × Option GoError

-- relayTunnel
abbrev pub relay_tunnel : Tunnel → List Deed × Option GoError
relay_tunnel t = (
  copy_starts ∷ copy_starts ∷ copy_ends ∷ closes_client ∷ closes_upstream ∷ copy_ends ∷ [],
  t.result,
)

abbrev pub unhijackable : GoError
unhijackable = record { message = "hijacking unavailable"; chain = [] }

-- From the greeting on, with the deferred Close of the client
abbrev pub greet : Tunnel → List Deed × Option GoError
greet t = elim t.greeting [
  | some e ↦ (closes_client ∷ [], some e)
  | none ↦ let (ds, e) = relay_tunnel t in (greets ∷ ds ++ closes_client ∷ [], e)
]

-- With the upstream connection, and its deferred Close
abbrev pub with_upstream : Tunnel → List Deed × Option GoError
with_upstream t =
    if t.hijackable
    then elim t.hijack [
      | some e ↦ (closes_upstream ∷ [], some e)
      | none ↦ let (ds, e) = greet t in (opens_client ∷ ds ++ closes_upstream ∷ [], e)
    ]
    else (refuses_tunnel ∷ closes_upstream ∷ [], some unhijackable)

-- connectAttempt
unfoldable pub connect_attempt : Tunnel → Connected
connect_attempt t = elim t.dial [
  | some e ↦ ([], false, some e)
  | none ↦ let (ds, e) = with_upstream t in (opens_upstream ∷ ds, true, e)
]
