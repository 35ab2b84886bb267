-- ===== src/Pool/Panics.antt =====
-- No interleaving of the pool's calls panics, and every scan ends.
use native.Mathlib.Nat.{mod-lt}
use tor_rotating_http_proxy.Prelude.{
  ℕ, zero, suc, ◌+◌, ◌%◌, ◌≤◌, ◌<◌, ◌≡◌, refl, Option, List, [], ◌∷◌, arith, get_elem?,
  get_elem?-total, Each, length, All,
}
use tor_rotating_http_proxy.Store.{Sqlite, SqliteLaws}
use tor_rotating_http_proxy.Pool.Types.{Pool, Slot}
use tor_rotating_http_proxy.Pool.Slots.{publish, withdraw, set_state}
use tor_rotating_http_proxy.Pool.Acquire.{
  Acquired, Tried, pass, stop, after, scan, at_slot, attempt_unique, attempt_reuse, acquire_locked,
  acquire_reuse_locked, unique_body, reuse_body,
}
use tor_rotating_http_proxy.Pool.Valid.{Valid}
use tor_rotating_http_proxy.Pool.Kept.{Kept, Kept-refl}
use tor_rotating_http_proxy.Pool.Claims.{Ends, attempt_unique-Leaves, attempt_reuse-Leaves}
use tor_rotating_http_proxy.Pool.Scan.{Leaves}
use tor_rotating_http_proxy.Pool.Runs.{step-Kept}
use tor_rotating_http_proxy.Pool.System.{
  System, Call, publishes, acquires, finishes, withdraws, states, cancels, rejects, step, run,
}
use tor_rotating_http_proxy.Pool.Total.{
  Succeeds, Succeeds-bind, Succeeds-if, InRange, slot_at_total, found, finish_lease_total,
}

module _ {Db : Type 0} where
  pub withdraw_total : (e : ℕ) (p : Pool Db) → InRange p → Succeeds (withdraw e p)
  unfolding withdraw
  withdraw_total e p r = Succeeds-bind _ _ (found e p r) λ s _. (_, refl)

  at_slot_total :
      (body : ℕ → Slot → ℕ → Pool Db → Tried Db) (index : ℕ) (p : Pool Db)
      → index < length p.slots
      → Succeeds (at_slot body index p)
  unfolding at_slot
  at_slot_total body index p h =
      Succeeds-bind _ _ (get_elem?-total p.slots index h) λ s _. (_, refl)

-- A call names an instance of the pool.
abbrev pub Names : ℕ → Call → Type 0
Names n (states now id st progress problem) = (1 ≤ id) × (id ≤ n)
Names n (publishes now e) = Unit
Names n (acquires now) = Unit
Names n (finishes now i err) = Unit
Names n (withdraws e) = Unit
Names n (cancels e) = Unit
Names n rejects = Unit

module _ (sql : Sqlite) (laws : SqliteLaws sql) where
  after_total :
      (p : Pool sql.Db) (rest : Pool sql.Db → Option (Pool sql.Db × Acquired)) (t : Tried sql.Db)
      → ((q : Pool sql.Db) → Kept sql p q → Succeeds (rest q))
      → Leaves (Kept sql p) (Ends sql laws p) t
      → Succeeds (after rest t)
  after_total p rest (pass q) h k = h q k
  after_total p rest (stop q a) h k = (_, refl)

  -- A scan that starts at a pool with slots ends in a result.
  scan_total :
      (p : Pool sql.Db) (attempt : ℕ → Pool sql.Db → Option (Tried sql.Db))
      → 0 < length p.slots
      → ((index : ℕ) (q : Pool sql.Db) → index < length q.slots → Succeeds (attempt index q))
      → ((index : ℕ) (q : Pool sql.Db)
          → Kept sql p q
          → Each (Leaves (Kept sql p) (Ends sql laws p)) (attempt index q))
      → (k offset : ℕ) (q : Pool sql.Db) → Kept sql p q
      → Succeeds (scan attempt k offset q)
  unfolding scan
  scan_total p attempt pos total leaves zero offset q h = (_, refl)
  scan_total p attempt pos total leaves (suc k) offset q h =
      let index = (q.next + offset) % length q.slots in
      let inside : index < length q.slots = mod-lt _ (omega (arith, h.size)) in
      Succeeds-bind (attempt index q) _ (total index q inside) λ t e.
        after_total p (λ m. scan attempt k (suc offset) m) t
          (λ m j. scan_total p attempt pos total leaves k (suc offset) m j)
          ((leaves index q h).at t e)

  scan_from_total :
      (p : Pool sql.Db) (attempt : ℕ → Pool sql.Db → Option (Tried sql.Db)) (n : ℕ)
      → length p.slots ≡ n
      → ((index : ℕ) (q : Pool sql.Db) → index < length q.slots → Succeeds (attempt index q))
      → ((index : ℕ) (q : Pool sql.Db)
          → Kept sql p q
          → Each (Leaves (Kept sql p) (Ends sql laws p)) (attempt index q))
      → Succeeds (scan attempt n 0 p)
  unfolding scan
  scan_from_total p attempt zero e total leaves = (_, refl)
  scan_from_total p attempt (suc n) e total leaves =
      scan_total p attempt (omega (arith, e)) total leaves (suc n) 0 p (Kept-refl sql p)

  -- acquireLocked ends, with a lease or an error, on every pool.
  pub acquire_total : (now : ℕ) (p : Pool sql.Db) → Succeeds (acquire_locked sql now p)
  unfolding acquire_locked acquire_reuse_locked attempt_unique attempt_reuse
  acquire_total now p =
      Succeeds-if p.unique _ _
        (λ _.
          scan_from_total p (attempt_unique sql now) (length p.slots) refl
            (λ index q h. at_slot_total (unique_body sql now) index q h)
            (attempt_unique-Leaves sql laws now p))
        (λ mode.
          scan_from_total p (attempt_reuse sql now) (length p.slots) refl
            (λ index q h. at_slot_total (reuse_body sql now) index q h)
            (λ index q. attempt_reuse-Leaves sql laws now p index q mode))

  pub publish_total : (now e : ℕ) (p : Pool sql.Db) → InRange p → Succeeds (publish sql now e p)
  unfolding publish
  publish_total now e p r = Succeeds-bind _ _ (found e p r) λ s _. (_, refl)

  step_total :
      (c : Call) (s : System sql.Db)
      → Valid s.pool
      → InRange s.pool
      → Names (length s.pool.slots) c
      → Succeeds (step sql c s)
  unfolding step set_state
  step_total (publishes now e) s v r n =
      Succeeds-bind _ _ (publish_total now e s.pool r) λ q _. (_, refl)
  step_total (acquires now) s v r n = Succeeds-bind _ _ (acquire_total now s.pool) λ q _. (_, refl)
  step_total (finishes now i err) s v r n =
      Succeeds-bind _ _ (finish_lease_total now (get_elem? s.leases i) err s.pool v r)
        λ q _. (_, refl)
  step_total (withdraws e) s v r n = Succeeds-bind _ _ (withdraw_total e s.pool r) λ q _. (_, refl)
  step_total (states now id st progress problem) s v r n =
      Succeeds-bind _ _ (Succeeds-bind _ _ (slot_at_total s.pool.slots id n.0 n.1) λ q _. (_, refl))
        λ q _. (_, refl)
  step_total (cancels e) s v r n = (_, refl)
  step_total rejects s v r n = (_, refl)

  -- No sequence of calls panics, on a pool that satisfies the invariant, whose endpoints are for
  -- its instances, if the calls that name an instance name one of the pool.
  pub run_total :
      (cs : List Call) (s : System sql.Db)
      → Valid s.pool
      → InRange s.pool
      → All (Names (length s.pool.slots)) cs
      → Succeeds (run sql cs s)
  unfolding run
  run_total [] s v r n = (s, refl)
  run_total (c ∷ cs) s v r n = Succeeds-bind _ _ (step_total c s v r n.0) λ t e.
      let k = (step-Kept sql laws c s).at t e in
      run_total cs t (k.valid v)
        (λ d. (omega (arith, r d, k.ids d), omega (arith, r d, k.ids d, k.size))) (rw k.size n.1)
