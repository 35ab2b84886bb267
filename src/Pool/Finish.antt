-- ===== src/Pool/Finish.antt =====
-- Lease.Finish of internal/app/pool.go: the closures of the two modes. `none` is a panic: an
-- instance number that is no slot's, or a channel closed twice.
use tor_rotating_http_proxy.Prelude.{
  ℕ, suc, ◌-◌, String, true, Option, none, some, if◌then◌else◌, incr64, update, ◌>>=◌,
}
use tor_rotating_http_proxy.Errors.{GoError}
use tor_rotating_http_proxy.Pool.Types.{
  rotating, Slot, Pool, slot_at, set_slot, points_to, event_locked,
}
use tor_rotating_http_proxy.Pool.Acquire.{Lease}

-- The slot's run of failures, after a lease that ended with `err`.
abbrev pub fails_after : Option GoError → Slot → ℕ
fails_after none s = 0
fails_after (some e) s = suc s.fails

abbrev last_error_after : Option GoError → String → String
last_error_after none old = old
last_error_after (some e) old = e.message

-- The slot after a unique lease; the slot keeps its endpoint, which its worker withdraws.
unfoldable pub slot_after_unique : ℕ → Option GoError → Slot → Slot
slot_after_unique e err s =
    let s' : Slot = record s { fails = fails_after err s } in
    if points_to s.ep e
    then record s' {
      view = record s.view {
        state = rotating;
        last_error = last_error_after err s.view.last_error;
      };
    }
    else s'

-- The slot after a failed reuse lease on the endpoint that it holds.
abbrev pub slot_after_failure : GoError → Slot → Slot
slot_after_failure err s = record s {
  fails = suc s.fails;
  ep = none;
  view = record s.view { state = rotating; last_error = err.message };
}

module _ {Db : Type 0} where
  -- close(ep.done)
  unfoldable pub close_done : ℕ → Pool Db → Option (Pool Db)
  close_done e p =
      if (p.heap e).done
      then none
      else some (record p { heap = update p.heap e (record (p.heap e) { done = true }) })

  -- completed++ or failed++
  unfoldable pub count_result : Option GoError → Pool Db → Pool Db
  count_result none p = record p { completed = incr64 p.completed }
  count_result (some e) p = record p { failed = incr64 p.failed }

  -- The body of the unique lease's once.Do, at the slot that it finds, but for the channel.
  unfoldable pub unique_finished : ℕ → ℕ → Option GoError → Slot → Pool Db → Pool Db
  unfolding count_result event_locked slot_after_unique
  unique_finished now e err s p =
      let ep = p.heap e in
      let q : Pool Db = record (count_result err p) {
        heap = update p.heap e (record ep { once = true; last_err = err });
        slots = set_slot p.slots ep.id (slot_after_unique e err s);
      } in
      event_locked now ep.id "Request finished; rotating" q

  -- finish of a unique lease
  unfoldable pub finish_unique : ℕ → ℕ → Option GoError → Pool Db → Option (Pool Db)
  unfolding unique_finished close_done
  finish_unique now e err p =
      if (p.heap e).once
      then some p
      else (slot_at p.slots (p.heap e).id >>= λ s. close_done e (unique_finished now e err s p))

  -- ep.once.Do(func() { close(ep.done) })
  unfoldable pub close_once : ℕ → Pool Db → Option (Pool Db)
  unfolding close_done
  close_once e p =
      if (p.heap e).once
      then some p
      else close_done e (record p { heap = update p.heap e (record (p.heap e) { once = true }) })

  -- finishReuse with an error, at the slot that it finds, but for the channel
  unfoldable pub reuse_failed : ℕ → ℕ → GoError → Slot → Pool Db → Pool Db
  unfolding event_locked
  reuse_failed now e err s p =
      let ep = p.heap e in
      let q : Pool Db = record p {
        failed = incr64 p.failed;
        heap = update p.heap e (record ep { last_err = some err });
      } in
      if points_to s.ep e
      then event_locked now ep.id "Request finished; rotating"
          (record q { slots = set_slot p.slots ep.id (slot_after_failure err s) })
      else record q { slots = set_slot p.slots ep.id (record s { fails = suc s.fails }) }

  -- finishReuse with no error
  unfoldable pub reuse_completed : ℕ → Slot → Pool Db → Pool Db
  reuse_completed e s p = record p {
    completed = incr64 p.completed;
    slots = set_slot p.slots (p.heap e).id (record s { fails = 0 });
  }

  unfoldable pub finish_reuse_at : ℕ → ℕ → Option GoError → Slot → Pool Db → Option (Pool Db)
  unfolding reuse_failed close_once reuse_completed
  finish_reuse_at now e (some err) s p = close_once e (reuse_failed now e err s p)
  finish_reuse_at now e none s p = some (reuse_completed e s p)

  -- if ep.active > 0 { ep.active-- }
  unfoldable pub released : ℕ → Pool Db → Pool Db
  released e p = record p {
    heap = update p.heap e (record (p.heap e) { active = (p.heap e).active - 1 });
  }

  -- finishReuse
  unfoldable pub finish_reuse : ℕ → ℕ → Option GoError → Pool Db → Option (Pool Db)
  unfolding finish_reuse_at released
  finish_reuse now e err p = do
    s ← slot_at p.slots (p.heap e).id
    finish_reuse_at now e err s (released e p)

  -- leaseOnce.Do
  unfoldable pub finish_reuse_once : ℕ → ℕ → ℕ → Option GoError → Pool Db → Option (Pool Db)
  unfolding finish_reuse
  finish_reuse_once now k e err p =
      if p.lease_ran k
      then some p
      else finish_reuse now e err (record p { lease_ran = update p.lease_ran k true })

  unfoldable pub finish_by : Option ℕ → ℕ → ℕ → Option GoError → Pool Db → Option (Pool Db)
  unfolding finish_unique finish_reuse_once
  finish_by none now e err p = finish_unique now e err p
  finish_by (some k) now e err p = finish_reuse_once now k e err p

  -- Lease.Finish
  unfoldable pub finish : ℕ → Lease → Option GoError → Pool Db → Option (Pool Db)
  unfolding finish_by
  finish now lease err p = finish_by lease.once now lease.ep err p
