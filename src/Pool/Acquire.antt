-- ===== src/Pool/Acquire.antt =====
-- acquireLocked and acquireReuseLocked of internal/app/pool.go: the scans for an endpoint that can
-- serve. Each scan is a loop over the slots from `next` on; the loop's body, an attempt at one
-- index, either goes on with the pool that it leaves or ends the scan. `none` is a panic.
use tor_rotating_http_proxy.Prelude.{
  ℕ, zero, suc, ◌+◌, ◌%◌, String, true, false, not, ◌&&◌, Option, none, some, [], ◌∷◌,
  if◌then◌else◌, incr64, update, length, get_elem?, set, ◌>>=◌,
}
use Prim.Native.String.{◌++◌ as append_text}
use tor_rotating_http_proxy.Errors.{GoError, no_ready}
use tor_rotating_http_proxy.Store.{Sqlite, Returns, consume}
use tor_rotating_http_proxy.Pool.Types.{ready, busy, state_eq, Slot, Pool, event_locked, cancel}

-- A Lease: `once` tells the two closures `finish` apart, and is the leaseOnce of a reuse lease.
pub record Lease : Type 0 where
  pub ip : String
  pub instance_id : ℕ
  pub ep : ℕ
  pub once : Option ℕ

pub data Acquired : Type 0 where
  granted : Lease → Acquired
  refused : GoError → Acquired

-- ErrNoReady
abbrev pub no_ready_error : GoError
no_ready_error = record { message = "no unused, verified IP is ready"; chain = no_ready ∷ [] }

-- fmt.Errorf("persist IP reservation: %w", err)
abbrev pub persist_error : GoError → GoError
persist_error e = record e { message = append_text "persist IP reservation: " e.message }

pub data Tried (Db : Type 0) : Type 0 where
  pass : Pool Db → Tried Db
  stop : Pool Db → Acquired → Tried Db

-- The slot of an endpoint that was assigned, in unique and in reuse mode.
abbrev pub busy_slot : Slot → Slot
busy_slot s = record s { view = record s.view { state = busy; requests = incr64 s.view.requests } }

abbrev pub serving_slot : ℕ → Slot → Slot
serving_slot now s = record s {
  view = record s.view { requests = incr64 s.view.requests; last_check = now };
}

module _ {Db : Type 0} where
  -- Goes on after an attempt, with the rest of the loop.
  abbrev pub after :
      (Pool Db → Option (Pool Db × Acquired)) → Tried Db → Option (Pool Db × Acquired)
  after rest (pass q) = rest q
  after rest (stop q a) = some (q, a)

  -- The loop of both scans, with `k` rounds left.
  unfoldable pub scan :
      (ℕ → Pool Db → Option (Tried Db)) → ℕ → ℕ → Pool Db → Option (Pool Db × Acquired)
  scan attempt zero offset p = some (p, refused no_ready_error)
  scan attempt (suc k) offset p = do
    t ← attempt ((p.next + offset) % length p.slots) p
    after (λ q. scan attempt k (suc offset) q) t

  unfoldable pub use_slot :
      (ℕ → Slot → ℕ → Pool Db → Tried Db) → ℕ → Slot → Option ℕ → Pool Db → Tried Db
  use_slot body index s none p = pass p
  use_slot body index s (some e) p =
      if state_eq s.view.state ready && not (p.heap e).cancelled then body index s e p else pass p

  -- What an attempt at a slot does: skip it, or use the endpoint in it.
  unfoldable pub at_slot : (ℕ → Slot → ℕ → Pool Db → Tried Db) → ℕ → Pool Db → Option (Tried Db)
  unfolding use_slot
  at_slot body index p = do s ← get_elem? p.slots index; some (use_slot body index s s.ep p)

  -- The assignment of an endpoint in unique mode.
  unfoldable pub grant_unique : ℕ → ℕ → Slot → ℕ → Pool Db → Tried Db
  unfolding event_locked
  grant_unique now index s e p =
      let ep = p.heap e in
      let q : Pool Db = record p {
        slots = set p.slots index (busy_slot s);
        requests = incr64 p.requests;
        next = (index + 1) % length p.slots;
      } in
      stop (event_locked now ep.id (append_text "Assigned " ep.ip) q)
        (granted (record { ip = ep.ip; instance_id = ep.id; ep = e; once = none }))

  -- The assignment of an endpoint in reuse mode.
  unfoldable pub grant_reuse : ℕ → ℕ → Slot → ℕ → Pool Db → Tried Db
  unfolding event_locked
  grant_reuse now index s e p =
      let ep = p.heap e in
      let q : Pool Db = record p {
        slots = set p.slots index (serving_slot now s);
        requests = incr64 p.requests;
        next = (index + 1) % length p.slots;
        heap = update p.heap e (record ep { active = suc ep.active });
        lease_onces = suc p.lease_onces;
      } in
      stop (event_locked now ep.id (append_text "Assigned " ep.ip) q)
        (granted (record { ip = ep.ip; instance_id = ep.id; ep = e; once = some p.lease_onces }))

  -- After the call of Consume: an error ends the scan, a refusal cancels the endpoint.
  unfoldable pub consumed :
      (ℕ → ℕ → Slot → ℕ → Pool Db → Tried Db) → ℕ → ℕ → Slot → ℕ → Pool Db → Returns Db → Tried Db
  unfolding cancel
  consumed grant now index s e p (db, claimed, some err) =
      stop (record p { store = db }) (refused (persist_error err))
  consumed grant now index s e p (db, true, none) = grant now index s e (record p { store = db })
  consumed grant now index s e p (db, false, none) = pass (cancel e (record p { store = db }))

module _ (sql : Sqlite) where
  abbrev pub unique_body : ℕ → ℕ → Slot → ℕ → Pool sql.Db → Tried sql.Db
  unique_body now index s e p =
      consumed grant_unique now index s e p (consume sql p.store (p.heap e).ip p.unique)

  unfoldable pub attempt_unique : ℕ → ℕ → Pool sql.Db → Option (Tried sql.Db)
  unfolding at_slot consumed grant_unique consume
  attempt_unique now = at_slot (unique_body now)

  abbrev pub reuse_body : ℕ → ℕ → Slot → ℕ → Pool sql.Db → Tried sql.Db
  reuse_body now index s e p =
      consumed grant_reuse now index s e p (consume sql p.store (p.heap e).ip false)

  unfoldable pub attempt_reuse : ℕ → ℕ → Pool sql.Db → Option (Tried sql.Db)
  unfolding at_slot consumed grant_reuse consume
  attempt_reuse now = at_slot (reuse_body now)

  -- acquireReuseLocked
  unfoldable pub acquire_reuse_locked : ℕ → Pool sql.Db → Option (Pool sql.Db × Acquired)
  unfolding scan attempt_reuse
  acquire_reuse_locked now p = scan (attempt_reuse now) (length p.slots) 0 p

  -- acquireLocked
  unfoldable pub acquire_locked : ℕ → Pool sql.Db → Option (Pool sql.Db × Acquired)
  unfolding scan attempt_unique acquire_reuse_locked
  acquire_locked now p =
      if p.unique
      then scan (attempt_unique now) (length p.slots) 0 p
      else acquire_reuse_locked now p
