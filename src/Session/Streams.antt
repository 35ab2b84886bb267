-- ===== src/Session/Streams.antt =====
-- Which streams are attached, which are closed, and which are left to Tor.
use mathlib.Core.Option.{some-injective}
use tor_rotating_http_proxy.Prelude.{
  ℕ, zero, suc, ap, subst, Bool-cases, inl, inr, sym, ◌∙◌, ◌≡◌, ◌≢◌, refl, String, Bool, true,
  false, not, ◌||◌, Option, none, some, List, [], ◌∷◌, if◌then◌else◌, str_eq, eq_iff, arith, All,
  get_elem?,
}
use tor_rotating_http_proxy.Pool.Types.{Endpoint}
use tor_rotating_http_proxy.Session.{
  Meets, Command, attach, close_stream, Handled, matches, marked, is_internal_stream, answer_new,
  answer, on_stream, on_fields, on_event, events,
}

-- A command is for the stream of the event, and it attaches only to the circuit of the session's
-- endpoint, one not cancelled, for a stream with that endpoint's token.
abbrev pub Allowed : Meets → Command → Type 0
Allowed m (close_stream stream) = get_elem? m.event.fields 1 ≡ some stream
Allowed m (attach stream circuit) =
    (get_elem? m.event.fields 1 ≡ some stream)
    × ((ep : Endpoint) × (m.current ≡ some ep)
        × (ep.cancelled ≡ false)
        × (m.event.user ≡ some ep.token)
        × (ep.circuit ≡ circuit))

matches-user : (o : Option String) (token : String) → matches o token ≡ true → o ≡ some token
matches-user none token h = cc
matches-user (some user) token h = ground (arith, eq_iff user token, h)

close_if-Allowed :
    (b : Bool) (stream : String) (m : Meets)
    → get_elem? m.event.fields 1 ≡ some stream
    → All (Allowed m) (if b then close_stream stream ∷ [] else [])
close_if-Allowed true stream m f = (f, tt)
close_if-Allowed false stream m f = tt

answer_new-Allowed :
    (stream : String) (m : Meets) (o : Option Endpoint)
    → get_elem? m.event.fields 1 ≡ some stream
    → m.current ≡ o
    → All (Allowed m) (answer_new stream m o)
unfolding answer_new
answer_new-Allowed stream m none f e = (f, tt)
answer_new-Allowed stream m (some ep) f e =
    elim (Bool-cases (ep.cancelled || not (matches m.event.user ep.token))) [
      | inl turned ↦ rw turned (f, tt)
      | inr admitted ↦ rw admitted (
        (
          f,
          (
            ep,
            e,
            ground (arith, admitted),
            matches-user m.event.user ep.token (ground (arith, admitted)),
            refl,
          ),
        ),
        close_if-Allowed m.refused stream m f,
      )
    ]

answer-Allowed :
    (stream status : String) (m : Meets)
    → get_elem? m.event.fields 1 ≡ some stream
    → All (Allowed m) (answer stream status m)
unfolding answer
answer-Allowed stream status m f =
    elim (Bool-cases (str_eq status "NEW" || str_eq status "NEWRESOLVE")) [
      | inl new ↦ rw new (answer_new-Allowed stream m m.current f refl)
      | inr old ↦ rw old (close_if-Allowed (str_eq status "DETACHED") stream m f)
    ]

on_stream-Allowed :
    (stream status : String) (m : Meets) (internal : String → Bool)
    → get_elem? m.event.fields 1 ≡ some stream
    → All (Allowed m) (on_stream stream status m internal).commands
unfolding on_stream
on_stream-Allowed stream status m internal f = elim (Bool-cases (internal stream)) [
  | inl own ↦ rw own tt
  | inr client ↦ rw client (elim (Bool-cases m.event.numeric) [
    | inl number ↦ rw number (answer-Allowed stream status m f)
    | inr word ↦ rw word tt
  ])
]

on_fields-Allowed :
    (fields : List String) (m : Meets) (internal : String → Bool)
    → m.event.fields ≡ fields
    → All (Allowed m) (on_fields fields m internal).commands
unfolding on_fields
on_fields-Allowed [] m internal e = tt
on_fields-Allowed (f0 ∷ []) m internal e = tt
on_fields-Allowed (f0 ∷ f1 ∷ []) m internal e = tt
on_fields-Allowed (f0 ∷ f1 ∷ f2 ∷ fs) m internal e = elim (Bool-cases (str_eq f0 "STREAM")) [
  | inl stream ↦ rw stream (
      on_stream-Allowed f1 f2 m
        (if is_internal_stream (f0 ∷ f1 ∷ f2 ∷ fs) then marked internal f1 true else internal)
        (ap (λ l. get_elem? l 1) e))
  | inr other ↦ rw other tt
]

unless_closed :
    (b : Bool) (rest : List Handled) (i : ℕ) {h : Handled}
    → get_elem? (if b then [] else rest) i ≡ some h
    → get_elem? rest i ≡ some h
unless_closed true rest i e = absurd (cc)
unless_closed false rest i e = e

-- In any sequence of events, every command that the loop sends at an event is for that event's own
-- stream, and it attaches a stream only where the session has an endpoint that is not cancelled,
-- to that endpoint's circuit, and only for the user name that is the endpoint's token.
pub events-Allowed :
    (ms : List Meets) (internal : String → Bool) (i : ℕ) {m : Meets} {h : Handled}
    → get_elem? ms i ≡ some m
    → get_elem? (events ms internal) i ≡ some h
    → All (Allowed m) h.commands
unfolding events on_event
events-Allowed [] internal i e k = absurd (cc)
events-Allowed (m ∷ ms) internal zero {m = n} {h = g} e k =
    subst (λ (h : Handled). All (Allowed n) h.commands) (some-injective _ _ k)
      (subst (λ l. All (Allowed l) (on_event m internal).commands) (some-injective _ _ e)
        (on_fields-Allowed m.event.fields m internal refl))
events-Allowed (m ∷ ms) internal (suc i) e k =
    events-Allowed ms (on_event m internal).internal i e
      (unless_closed (on_event m internal).closes (events ms (on_event m internal).internal) i k)

-- The stream that a command names
abbrev pub stream_of : Command → String
stream_of (attach stream circuit) = stream
stream_of (close_stream stream) = stream

-- An event that does not say that the stream is closed
abbrev pub KeepsOpen : String → Meets → Type 0
KeepsOpen s m = get_elem? m.event.fields 1 ≡ some s → get_elem? m.event.fields 2 ≢ some "CLOSED"

-- What an event comes to, where it leaves the stream to Tor: it stays internal, and no command
-- names it.
abbrev pub Leaves : String → Handled → Type 0
Leaves s h = (h.internal s ≡ true) × All (λ c. stream_of c ≢ s) h.commands

Allowed-stream :
    (m : Meets) (f s : String) (cs : List Command)
    → get_elem? m.event.fields 1 ≡ some f
    → f ≢ s
    → All (Allowed m) cs
    → All (λ c. stream_of c ≢ s) cs
Allowed-stream m f s [] e ne h = tt
Allowed-stream m f s (attach stream circuit ∷ cs) e ne h =
    (λ q. ne (some-injective _ _ (sym e ∙ h.0.0) ∙ q), Allowed-stream m f s cs e ne h.1)
Allowed-stream m f s (close_stream stream ∷ cs) e ne h =
    (λ q. ne (some-injective _ _ (sym e ∙ h.0) ∙ q), Allowed-stream m f s cs e ne h.1)

on_stream-Leaves :
    (f status s : String) (m : Meets) (internal : String → Bool)
    → get_elem? m.event.fields 1 ≡ some f
    → (f ≡ s → status ≢ "CLOSED")
    → internal s ≡ true
    → Leaves s (on_stream f status m internal)
unfolding on_stream
on_stream-Leaves f status s m internal e keeps h = elim (Bool-cases (str_eq f s)) [
  | inl same ↦
      let q : f ≡ s = ground (arith, eq_iff f s, same) in
      let own : internal f ≡ true = ap internal q ∙ h in
      rw own (ground (arith, keeps q, eq_iff status "CLOSED", h), tt)
  | inr other ↦ (
    ground (arith, other, h),
    Allowed-stream m f s (on_stream f status m internal).commands e
        (λ q. ground (arith, eq_iff f s, other, q)) (on_stream-Allowed f status m internal e),
  )
]

marked_keeps :
    (b : Bool) (f s : String) (internal : String → Bool)
    → internal s ≡ true
    → (if b then marked internal f true else internal) s ≡ true
marked_keeps b f s internal h = ground (arith, h)

on_fields-Leaves :
    (fields : List String) (s : String) (m : Meets) (internal : String → Bool)
    → m.event.fields ≡ fields
    → KeepsOpen s m
    → internal s ≡ true
    → Leaves s (on_fields fields m internal)
unfolding on_fields
on_fields-Leaves [] s m internal e keeps h = (h, tt)
on_fields-Leaves (f0 ∷ []) s m internal e keeps h = (h, tt)
on_fields-Leaves (f0 ∷ f1 ∷ []) s m internal e keeps h = (h, tt)
on_fields-Leaves (f0 ∷ f1 ∷ f2 ∷ fs) s m internal e keeps h =
    elim (Bool-cases (str_eq f0 "STREAM")) [
      | inl stream ↦ rw stream (
          on_stream-Leaves f1 f2 s m
            (if is_internal_stream (f0 ∷ f1 ∷ f2 ∷ fs) then marked internal f1 true else internal)
            (ap (λ l. get_elem? l 1) e)
            (λ q c.
              keeps (ap (λ l. get_elem? l 1) e ∙ ap some q) (ap (λ l. get_elem? l 2) e ∙ ap some c))
            (marked_keeps (is_internal_stream (f0 ∷ f1 ∷ f2 ∷ fs)) f1 s internal h))
      | inr other ↦ rw other (h, tt)
    ]

All-unless :
    (s : String) (b : Bool) (hs : List Handled)
    → All (Leaves s) hs
    → All (Leaves s) (if b then [] else hs)
All-unless s true hs h = tt
All-unless s false hs h = h

-- A stream that is known as internal to Tor, such as a directory fetch, is left to Tor: until an
-- event says that it is closed, it stays internal and no command names it, whatever the events.
pub events-Leaves :
    (s : String) (ms : List Meets) (internal : String → Bool)
    → internal s ≡ true
    → All (KeepsOpen s) ms
    → All (Leaves s) (events ms internal)
unfolding events on_event
events-Leaves s [] internal h keeps = tt
events-Leaves s (m ∷ ms) internal h keeps =
    let l : Leaves s (on_event m internal) =
      on_fields-Leaves m.event.fields s m internal refl keeps.0 h in
    (
      l,
      All-unless s (on_event m internal).closes (events ms (on_event m internal).internal)
          (events-Leaves s ms (on_event m internal).internal l.0 keeps.1),
    )
