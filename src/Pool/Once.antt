-- ===== src/Pool/Once.antt =====
-- Lease.Finish counts once: a further call of the closure changes nothing, in either mode, and each
-- reuse lease has a sync.Once of its own.
use tor_rotating_http_proxy.Prelude.{
  ℕ, ◌≡◌, true, Option, none, some, List, get_elem?, arith, Each, Each-some, Each-none, Each-bind,
  Each-if, update,
}
use tor_rotating_http_proxy.Errors.{GoError}
use tor_rotating_http_proxy.Pool.Types.{Pool, Slot, slot_at}
use tor_rotating_http_proxy.Store.{Sqlite, SqliteLaws}
use tor_rotating_http_proxy.Pool.Acquire.{Lease}
use tor_rotating_http_proxy.Pool.Kept.{Kept}
use tor_rotating_http_proxy.Pool.Kept.Finish.{finish-Kept}
use tor_rotating_http_proxy.Pool.Owned.{Apart, same-Owned, run-Owned}
use tor_rotating_http_proxy.Pool.Runs.{run-Kept}
use tor_rotating_http_proxy.Pool.System.{System, Call, with_pool, run, start}
use tor_rotating_http_proxy.Pool.Finish.{
  finish, finish_unique, finish_reuse, close_done, close_once, unique_finished, reuse_failed,
  reuse_completed, finish_reuse_at, released, finish_by, finish_reuse_once,
}

module _ {Db : Type 0} where
  -- The closure of the lease has run.
  abbrev pub HasRun : Option ℕ → ℕ → Pool Db → Type 0
  HasRun none e p = (p.heap e).once ≡ true
  HasRun (some k) e p = p.lease_ran k ≡ true

  close_done-HasRun :
      (o : Option ℕ) (e : ℕ) (p : Pool Db) → HasRun o e p → Each (HasRun o e) (close_done e p)
  unfolding close_done
  close_done-HasRun none e p h =
      Each-if (p.heap e).done _ _ (λ _. Each-none) (λ _. Each-some (ground (arith, h)))
  close_done-HasRun (some k) e p h = Each-if (p.heap e).done _ _ (λ _. Each-none) (λ _. Each-some h)

  close_once-ran :
      (k e : ℕ) (p : Pool Db) → p.lease_ran k ≡ true → Each (HasRun (some k) e) (close_once e p)
  unfolding close_once
  close_once-ran k e p h =
      Each-if (p.heap e).once _ _ (λ _. Each-some h)
        (λ _.
          close_done-HasRun (some k) e
            (record p { heap = update p.heap e (record (p.heap e) { once = true }) }) h)

  unique_finished-once :
      (now e : ℕ) (err : Option GoError) (s : Slot) (p : Pool Db)
      → HasRun none e (unique_finished now e err s p)
  unfolding unique_finished
  unique_finished-once now e err s p = ground arith

  finish_unique-HasRun :
      (now e : ℕ) (err : Option GoError) (p : Pool Db)
      → Each (HasRun none e) (finish_unique now e err p)
  unfolding finish_unique
  finish_unique-HasRun now e err p =
      Each-if (p.heap e).once _ _ (λ h. Each-some h)
        λ _. Each-bind (slot_at p.slots (p.heap e).id) _ λ s _.
          close_done-HasRun none e (unique_finished now e err s p)
            (unique_finished-once now e err s p)

  reuse_failed-ran :
      (now e k : ℕ) (err : GoError) (s : Slot) (p : Pool Db)
      → p.lease_ran k ≡ true
      → (reuse_failed now e err s p).lease_ran k ≡ true
  unfolding reuse_failed
  reuse_failed-ran now e k err s p h = ground arith

  finish_reuse_at-ran :
      (now e k : ℕ) (err : Option GoError) (s : Slot) (p : Pool Db)
      → p.lease_ran k ≡ true
      → Each (HasRun (some k) e) (finish_reuse_at now e err s p)
  unfolding finish_reuse_at reuse_completed
  finish_reuse_at-ran now e k none s p h = Each-some h
  finish_reuse_at-ran now e k (some err) s p h =
      close_once-ran k e (reuse_failed now e err s p) (reuse_failed-ran now e k err s p h)

  finish_reuse-ran :
      (now e k : ℕ) (err : Option GoError) (p : Pool Db)
      → p.lease_ran k ≡ true
      → Each (HasRun (some k) e) (finish_reuse now e err p)
  unfolding finish_reuse released
  finish_reuse-ran now e k err p h =
      Each-bind (slot_at p.slots (p.heap e).id) _
        λ s _. finish_reuse_at-ran now e k err s (released e p) (unfold released in h)

  finish_by-HasRun :
      (o : Option ℕ) (now e : ℕ) (err : Option GoError) (p : Pool Db)
      → Each (HasRun o e) (finish_by o now e err p)
  unfolding finish_by finish_reuse_once
  finish_by-HasRun none now e err p = finish_unique-HasRun now e err p
  finish_by-HasRun (some k) now e err p =
      Each-if (p.lease_ran k) _ _ (λ h. Each-some h)
        λ _.
          finish_reuse-ran now e k err (record p { lease_ran = update p.lease_ran k true })
            (ground arith)

  finish_by-run :
      (o : Option ℕ) (now e : ℕ) (err : Option GoError) (p : Pool Db)
      → HasRun o e p
      → finish_by o now e err p ≡ some p
  unfolding finish_by finish_unique finish_reuse_once
  finish_by-run none now e err p h = rw h
  finish_by-run (some k) now e err p h = rw h

module _ (sql : Sqlite) (laws : SqliteLaws sql) where
  Kept-HasRun :
      (o : Option ℕ) (e : ℕ) (p q : Pool sql.Db) → Kept sql p q → HasRun o e p → HasRun o e q
  Kept-HasRun none e p q k h = k.onces e h
  Kept-HasRun (some j) e p q k h = k.ran j h

  -- A lease is finished once: after any calls on a pool, the first Finish of a lease that was handed
  -- out, where it does not panic, runs its closure, and whatever calls come between, a further Finish
  -- of that lease, with any result and at any time, leaves the pool exactly as it is. And no two
  -- leases that were handed out share a sync.Once of their own, so that a reuse lease's first Finish
  -- is not lost to another lease's.
  pub finish_twice :
      (p : Pool sql.Db) (cs ds : List Call) (s t : System sql.Db) (q : Pool sql.Db) (i : ℕ)
      (l : Lease) (now later : ℕ) (first second : Option GoError)
      → run sql cs (start p) ≡ some s
      → get_elem? s.leases i ≡ some l
      → finish now l first s.pool ≡ some q
      → run sql ds (with_pool s q) ≡ some t
      → HasRun l.once l.ep q × (finish later l second t.pool ≡ some t.pool) × Apart t.leases
  unfolding finish
  finish_twice p cs ds s t q i l now later first second before handed_out finished between =
      let ran = (finish_by-HasRun l.once now l.ep first s.pool).at q finished in
      let kept = (run-Kept sql laws ds (with_pool s q)).at t between in
      let owned = (run-Owned sql laws cs (start p) (tt, tt)).at s before in
      let still =
        same-Owned sql laws s q
          (unfold finish in (finish-Kept sql now l first s.pool).at q finished) owned in
      (
        ran,
        finish_by-run l.once later l.ep second t.pool (Kept-HasRun l.once l.ep q t.pool kept ran),
        ((run-Owned sql laws ds (with_pool s q) still).at t between).1,
      )
