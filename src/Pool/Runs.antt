-- ===== src/Pool/Runs.antt =====
-- The invariant of the pool over every interleaving of its calls, and what it says of addresses.
use tor_rotating_http_proxy.Prelude.{
  ℕ, zero, suc, ◌≡◌, ◌≤◌, ◌≢◌, refl, sym, ◌∙◌, ap, true, false, Bool, Option, none, some, List, [],
  ◌∷◌, arith, get_elem?, Each, Each-some, Each-bind, Each-mono, length,
}
use mathlib.Core.Option.{some-injective}
use tor_rotating_http_proxy.Errors.{GoError}
use tor_rotating_http_proxy.Store.{Sqlite, SqliteLaws}
use tor_rotating_http_proxy.Pool.Types.{Pool, Endpoint, Slot, slot_at}
use tor_rotating_http_proxy.Pool.Slots.{new_pool, new_slots}
use tor_rotating_http_proxy.Pool.Acquire.{Lease}
use tor_rotating_http_proxy.Pool.Valid.{Valid, holder}
use tor_rotating_http_proxy.Pool.Kept.{
  Kept, Kept-refl, Kept-trans, withdraw-Kept, set_state-Kept, cancel-Kept, count_rejected-Kept,
}
use tor_rotating_http_proxy.Pool.Kept.Publish.{publish-Kept}
use tor_rotating_http_proxy.Pool.Kept.Finish.{finish-Kept}
use tor_rotating_http_proxy.Pool.Claims.{acquire_locked-Claimed}
use tor_rotating_http_proxy.Pool.System.{
  System, Call, publishes, acquires, finishes, withdraws, states, cancels, rejects, finish_lease,
  step, run, start,
}

new_slots_empty : (n id i : ℕ) (s : Slot) → get_elem? (new_slots n id) i ≡ some s → s.ep ≡ none
new_slots_empty zero id i s h = cc
new_slots_empty (suc n) id zero s h = ground arith
new_slots_empty (suc n) id (suc i) s h = new_slots_empty n (suc id) i s h

new_slots-holder :
    (n id e : ℕ) (o : Option Slot)
    → slot_at (new_slots n 1) id ≡ o
    → holder (new_slots n 1) id ≢ some e
new_slots-holder n zero e o h k = cc
new_slots-holder n (suc i) e none h k = ground arith
new_slots-holder n (suc i) e (some s) h k = ground (arith, new_slots_empty n 1 i s h)

-- A new pool, over endpoints whose channels are open, satisfies the invariant.
pub new_pool-Valid :
    {Db : Type 0} (db : Db) (unique : Bool) (retries count now : ℕ) (heap : ℕ → Endpoint)
    → ((e : ℕ) → (heap e).done ≡ false)
    → Valid (new_pool db unique retries count now heap)
unfolding new_pool
new_pool-Valid db unique retries count now heap open_ = record {
  placed = λ id e h. absurd (new_slots-holder count id e _ refl h);
  reserved = λ id e h _. absurd (new_slots-holder count id e _ refl h);
  closed = λ e h. ground (arith, open_ e);
  bounded = omega arith;
}

module _ (sql : Sqlite) (laws : SqliteLaws sql) where
  pub finish_lease-Kept :
      (now : ℕ) (o : Option Lease) (err : Option GoError) (p : Pool sql.Db)
      → Each (Kept sql p) (finish_lease now o err p)
  unfolding finish_lease
  finish_lease-Kept now none err p = Each-some (Kept-refl sql p)
  finish_lease-Kept now (some l) err p = finish-Kept sql now l err p

  pub step-Kept : (c : Call) (s : System sql.Db) → Each (λ t. Kept sql s.pool t.pool) (step sql c s)
  unfolding step
  step-Kept (publishes now e) s =
      Each-bind _ _ λ r eq. Each-some ((publish-Kept sql laws now e s.pool).at r eq)
  step-Kept (acquires now) s =
      Each-bind _ _ λ r eq. Each-some (((acquire_locked-Claimed sql laws now s.pool).at r eq).0)
  step-Kept (finishes now i err) s =
      Each-bind _ _
        λ q eq. Each-some ((finish_lease-Kept now (get_elem? s.leases i) err s.pool).at q eq)
  step-Kept (withdraws e) s = Each-bind _ _ λ q eq. Each-some ((withdraw-Kept sql e s.pool).at q eq)
  step-Kept (states now id st n problem) s =
      Each-bind _ _ λ q eq. Each-some ((set_state-Kept sql now id st n problem s.pool).at q eq)
  step-Kept (cancels e) s = Each-some (cancel-Kept sql e s.pool)
  step-Kept rejects s = Each-some (count_rejected-Kept sql s.pool)

  pub run-Kept :
      (cs : List Call) (s : System sql.Db) → Each (λ t. Kept sql s.pool t.pool) (run sql cs s)
  unfolding run
  run-Kept [] s = Each-some (Kept-refl sql s.pool)
  run-Kept (c ∷ cs) s =
      Each-bind _ _
        λ t eq. Each-mono (λ u k. Kept-trans sql ((step-Kept c s).at t eq) k) (run-Kept cs t)

  -- In unique mode, after any sequence of calls on a pool that satisfies the invariant, two
  -- instances whose slots hold endpoints with the same address are one instance with one endpoint,
  -- and the address is reserved for that endpoint.
  pub run_separates_addresses :
      (p : Pool sql.Db) (cs : List Call) (t : System sql.Db) (i j d e : ℕ)
      → Valid p
      → p.unique ≡ true
      → run sql cs (start p) ≡ some t
      → holder t.pool.slots i ≡ some d
      → holder t.pool.slots j ≡ some e
      → (t.pool.heap d).ip ≡ (t.pool.heap e).ip
      → (i ≡ j) × (d ≡ e) × (t.pool.reserved (t.pool.heap e).ip ≡ some e)
  run_separates_addresses p cs t i j d e v mode eq hi hj same =
      let k = (run-Kept cs (start p)).at t eq in
      let w = k.valid v in
      let m = k.mode ∙ mode in
      let one : d ≡ e =
        some-injective d e
          (sym (w.reserved i d hi m) ∙ ap t.pool.reserved same ∙ w.reserved j e hj m) in
      (
        sym (w.placed i d hi) ∙ ap (λ (c : ℕ). (t.pool.heap c).id) one ∙ w.placed j e hj,
        one,
        w.reserved j e hj m,
      )

  -- After any sequence of calls on a pool that satisfies the invariant, the log of events has at most a hundred entries, and no endpoint's
  -- channel is closed but by its sync.Once.
  pub run_bounds_events :
      (p : Pool sql.Db) (cs : List Call) (t : System sql.Db)
      → Valid p
      → run sql cs (start p) ≡ some t
      → (length t.pool.events ≤ 100)
        × ((e : ℕ) → (t.pool.heap e).done ≡ true → (t.pool.heap e).once ≡ true)
  run_bounds_events p cs t v eq =
      let w = ((run-Kept cs (start p)).at t eq).valid v in (w.bounded, w.closed)
