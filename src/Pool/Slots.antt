-- ===== src/Pool/Slots.antt =====
-- The operations of internal/app/pool.go that put endpoints into slots and take them out: NewPool,
-- state, publish, withdraw, and the queries. An answer `none` is a panic: an instance number that
-- is no slot's. A progress of -1 is `none`.
use tor_rotating_http_proxy.Prelude.{
  ℕ, zero, suc, String, Bool, true, false, not, ◌&&◌, ◌||◌, Option, none, some, List, [], ◌∷◌,
  if◌then◌else◌, incr64, length, str_eq, ◌>>=◌,
}
use Prim.Native.String.{◌++◌ as append_text}
use tor_rotating_http_proxy.Errors.{GoError, used_ip, is_some}
use tor_rotating_http_proxy.Store.{Sqlite, Returns, observe}
use tor_rotating_http_proxy.Pool.Types.{
  State, starting, ready, rotating, state_text, state_eq, Endpoint, Slot, Pool, slot_at, set_slot,
  points_to, event_locked, broadcast_locked, cancel,
}

-- The slots of NewPool: numbered from `id` on.
abbrev pub new_slots : ℕ → ℕ → List Slot
new_slots zero id = []
new_slots (suc n) id =
    record {
      view = record {
        id = id;
        state = starting;
        bootstrap = 0;
        ip = "";
        circuit = "";
        last_check = 0;
        last_error = "";
        requests = 0;
      };
      ep = none;
      fails = 0;
    }
    ∷ new_slots n (suc id)

abbrev pub message_of : Option GoError → String
message_of none = ""
message_of (some e) = e.message

abbrev pub is_empty : String → Bool
is_empty s = str_eq s ""

-- The event of a state change.
abbrev pub state_message : State → Option GoError → String
state_message st none = state_text st
state_message st (some e) = append_text (state_text st) (append_text ": " e.message)

abbrev progress_or : Option ℕ → ℕ → ℕ
progress_or none old = old
progress_or (some n) old = n

-- A map entry of `reserved`, written or deleted.
abbrev pub put : (String → Option ℕ) → String → Option ℕ → String → Option ℕ
put m ip v j = if str_eq ip j then v else m j

-- errUsedIP, wrapped.
abbrev pub used_ip_error : String → GoError
used_ip_error ip = record { message = append_text "IP was already used: " ip; chain = used_ip ∷ [] }

-- Does `state` log an event?
abbrev pub changes : State → Option GoError → Slot → Bool
changes st problem s =
    not (state_eq s.view.state st) || (is_some problem || not (is_empty s.view.last_error))

-- The slot of an endpoint whose address was just checked.
abbrev pub checked : ℕ → Endpoint → Slot → Slot
checked now ep s = record s {
  view = record s.view { ip = ep.ip; circuit = ep.circuit; last_check = now };
}

-- A slot whose endpoint has just become ready.
abbrev pub holding : ℕ → Slot → Slot
holding e s = record s { view = record s.view { state = ready; last_error = "" }; ep = some e }

-- A slot whose endpoint was taken out.
abbrev pub withdrawn : Slot → Slot
withdrawn s = record s { ep = none; view = record s.view { state = rotating } }

-- What `state` writes to the slot.
abbrev pub slot_in_state : State → Option ℕ → Option GoError → Slot → Slot
slot_in_state st progress problem s = record s {
  view = record s.view {
    state = st;
    bootstrap = progress_or progress s.view.bootstrap;
    last_error = message_of problem;
  };
}

module _ {Db : Type 0} where
  -- NewPool
  unfoldable pub new_pool : Db → Bool → ℕ → ℕ → ℕ → (ℕ → Endpoint) → Pool Db
  new_pool db unique retries count now heap = record {
    store = db;
    unique = unique;
    max_used_ip_retries = retries;
    slots = new_slots count 1;
    reserved = λ ip. none;
    next = 0;
    started = now;
    requests = 0;
    completed = 0;
    failed = 0;
    rejected = 0;
    revision = 0;
    events = [];
    notify = 0;
    heap = heap;
    lease_onces = 0;
    lease_ran = λ k. false;
  }

  -- Pool.state, at the slot that it finds
  unfoldable pub state_at : ℕ → ℕ → State → Option ℕ → Option GoError → Slot → Pool Db → Pool Db
  unfolding event_locked
  state_at now id st progress problem s p =
      let q : Pool Db = record p {
        slots = set_slot p.slots id (slot_in_state st progress problem s);
      } in
      if changes st problem s
      then event_locked now id (state_message st problem) q
      else record q { revision = incr64 q.revision }

  -- Pool.state
  unfoldable pub set_state : ℕ → ℕ → State → Option ℕ → Option GoError → Pool Db → Option (Pool Db)
  unfolding state_at
  set_state now id st progress problem p = do
    s ← slot_at p.slots id
    some (state_at now id st progress problem s p)

  -- The last part of publish: the endpoint enters its slot.
  unfoldable pub published : ℕ → ℕ → Slot → Pool Db → Pool Db
  unfolding event_locked broadcast_locked
  published now e s p =
      let ep = p.heap e in
      let q : Pool Db = record p {
        slots = set_slot p.slots ep.id (holding e s);
        reserved = if p.unique then put p.reserved ep.ip (some e) else p.reserved;
      } in
      broadcast_locked (event_locked now ep.id (append_text "Ready with " ep.ip) q)

  -- The first part of publish.
  unfoldable pub show_check : ℕ → ℕ → Slot → Pool Db → Pool Db
  show_check now e s p = record p {
    slots = set_slot p.slots (p.heap e).id (checked now (p.heap e) s);
  }

  -- publish, after the call of Observe
  unfoldable pub publish_observed :
      ℕ → ℕ → Slot → Pool Db → Returns Db → Pool Db × Bool × Option GoError
  unfolding published
  publish_observed now e s p (db, unused, some err) = (record p { store = db }, false, some err)
  publish_observed now e s p (db, unused, none) =
      let q : Pool Db = record p { store = db } in
      let ep = p.heap e in
      if p.unique && not unused
      then (q, false, some (used_ip_error ep.ip))
      else (if p.unique && is_some (p.reserved ep.ip) || ep.cancelled
          then (q, false, none)
          else (published now e s q, true, none))

  -- withdraw, at the slot that it finds
  unfoldable pub withdraw_at : ℕ → Slot → Pool Db → Pool Db
  unfolding cancel
  withdraw_at e s p =
      let ep = p.heap e in
      let q : Pool Db = record p {
        reserved = if points_to (p.reserved ep.ip) e then put p.reserved ep.ip none else p.reserved;
      } in
      let r : Pool Db = record q {
        slots = set_slot q.slots ep.id (withdrawn s);
        revision = incr64 q.revision;
      } in
      cancel e (if points_to s.ep e then r else q)

  unfoldable pub withdraw : ℕ → Pool Db → Option (Pool Db)
  unfolding withdraw_at
  withdraw e p = do s ← slot_at p.slots (p.heap e).id; some (withdraw_at e s p)

  -- Can the slot serve? The test of Ready and of both scans.
  unfoldable pub can_serve : Slot → Pool Db → Bool
  can_serve s p = elim s.ep [
    | none ↦ false
    | some e ↦ state_eq s.view.state ready && not (p.heap e).cancelled
  ]

  unfoldable pub any_serves : List Slot → Pool Db → Bool
  unfolding can_serve
  any_serves [] p = false
  any_serves (s ∷ rest) p = can_serve s p || any_serves rest p

  -- Pool.Ready
  unfoldable pub is_ready : Pool Db → Bool
  unfolding any_serves
  is_ready p = any_serves p.slots p

  -- reuseActive
  unfoldable pub reuse_active : ℕ → Pool Db → ℕ
  reuse_active e p = (p.heap e).active

  -- Size
  unfoldable pub size : Pool Db → ℕ
  size p = length p.slots

  -- consecutiveFailures
  unfoldable pub consecutive_failures : ℕ → Pool Db → Option ℕ
  consecutive_failures id p = do s ← slot_at p.slots id; some s.fails

  -- countRejected
  unfoldable pub count_rejected : Pool Db → Pool Db
  count_rejected p = record p { rejected = incr64 p.rejected; revision = incr64 p.revision }

module _ (sql : Sqlite) where
  unfoldable pub publish_at : ℕ → ℕ → Slot → Pool sql.Db → Pool sql.Db × Bool × Option GoError
  unfolding publish_observed show_check
  publish_at now e s p =
      publish_observed now e (checked now (p.heap e) s) (show_check now e s p)
        (observe sql p.store (p.heap e).ip)

  -- Pool.publish
  unfoldable pub publish : ℕ → ℕ → Pool sql.Db → Option (Pool sql.Db × Bool × Option GoError)
  unfolding publish_at
  publish now e p = do s ← slot_at p.slots (p.heap e).id; some (publish_at now e s p)
