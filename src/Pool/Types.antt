-- ===== src/Pool/Types.antt =====
-- The data of internal/app/pool.go. A pointer to an endpoint is its address in the heap of the
-- pool's record; a channel that is only ever closed is a Boolean, and the channel that is closed
-- and replaced is the number of replacements. `Db` is the database behind the store.
use tor_rotating_http_proxy.Prelude.{
  ℕ, zero, suc, String, Bool, true, false, Option, none, some, List, [], ◌∷◌, ◌++◌, ◌==◌, length,
  get_elem?, set, get_elem?-set, get_elem?-some-lt, if◌then◌else◌, incr64, update, ◌≡◌, ◌-◌, arith,
}
use mathlib.Core.List.{tail}
use tor_rotating_http_proxy.Errors.{GoError}

-- The values that the code gives InstanceView.State.
pub data State : Type 0 where
  starting bootstrapping checking ready busy rotating retrying restarting error stopped : State

abbrev pub state_text : State → String
state_text starting = "Starting"
state_text bootstrapping = "Bootstrapping"
state_text checking = "Checking"
state_text ready = "Ready"
state_text busy = "Busy"
state_text rotating = "Rotating"
state_text retrying = "Retrying"
state_text restarting = "Restarting"
state_text error = "Error"
state_text stopped = "Stopped"

abbrev state_code : State → ℕ
state_code starting = 0
state_code bootstrapping = 1
state_code checking = 2
state_code ready = 3
state_code busy = 4
state_code rotating = 5
state_code retrying = 6
state_code restarting = 7
state_code error = 8
state_code stopped = 9

abbrev pub state_eq : State → State → Bool
state_eq s t = state_code s == state_code t

pub record InstanceView : Type 0 where
  pub id : ℕ
  pub state : State
  pub bootstrap : ℕ
  pub ip : String
  pub circuit : String
  pub last_check : ℕ
  pub last_error : String
  pub requests : ℕ

pub record Event : Type 0 where
  pub time : ℕ
  pub instance_id : ℕ
  pub message : String

-- `cancelled` is `ctx.Err() != nil`, `done` says that the channel is closed, `once` that the
-- endpoint's sync.Once has run.
pub record Endpoint : Type 0 where
  pub id : ℕ
  pub ip : String
  pub circuit : String
  pub token : String
  pub cancelled : Bool
  pub done : Bool
  pub once : Bool
  pub last_err : Option GoError
  pub active : ℕ

pub record Slot : Type 0 where
  pub view : InstanceView
  pub ep : Option ℕ
  pub fails : ℕ

pub record Pool (Db : Type 0) : Type 0 where
  pub store : Db
  pub unique : Bool
  pub max_used_ip_retries : ℕ
  pub slots : List Slot
  pub reserved : String → Option ℕ
  pub next : ℕ
  pub started : ℕ
  pub requests : ℕ
  pub completed : ℕ
  pub failed : ℕ
  pub rejected : ℕ
  pub revision : ℕ
  pub events : List Event
  pub notify : ℕ
  pub heap : ℕ → Endpoint
  -- The leaseOnce variables of reuse leases: how many there are, and which have run.
  pub lease_onces : ℕ
  pub lease_ran : ℕ → Bool

-- p.slots[id-1], which panics outside the slice.
abbrev pub slot_at : List Slot → ℕ → Option Slot
slot_at slots zero = none
slot_at slots (suc i) = get_elem? slots i

-- Equality of pointers, where one may be nil.
abbrev pub points_to : Option ℕ → ℕ → Bool
points_to none e = false
points_to (some d) e = d == e

-- The log keeps the last hundred events.
unfoldable pub keep_last : List Event → List Event
keep_last events = if length events == 100 then tail events else events

module _ {Db : Type 0} where
  -- eventLocked
  unfoldable pub event_locked : ℕ → ℕ → String → Pool Db → Pool Db
  unfolding keep_last
  event_locked now id message p = record p {
    events = keep_last p.events ++ record { time = now; instance_id = id; message = message } ∷ [];
    revision = incr64 p.revision;
  }

  -- broadcastLocked
  unfoldable pub broadcast_locked : Pool Db → Pool Db
  broadcast_locked p = record p { notify = suc p.notify }

  -- ep.cancel()
  unfoldable pub cancel : ℕ → Pool Db → Pool Db
  cancel e p = record p { heap = update p.heap e (record (p.heap e) { cancelled = true }) }

abbrev pub set_slot : List Slot → ℕ → Slot → List Slot
set_slot slots id s = set slots (id - 1) s

pub slot_at-set_slot :
    (slots : List Slot) (id j : ℕ) (s t : Slot)
    → slot_at slots id ≡ some t
    → slot_at (set_slot slots id s) j ≡ (if j == id then some s else slot_at slots j)
slot_at-set_slot slots zero j s t h = absurd (cc)
slot_at-set_slot slots (suc i) zero s t h = ground arith
slot_at-set_slot slots (suc i) (suc j) s t h =
    ground (arith, get_elem?-set slots i j s, get_elem?-some-lt slots i h)
