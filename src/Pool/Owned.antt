-- ===== src/Pool/Owned.antt =====
-- The leases that the pool hands out: each has a sync.Once of its own, or its endpoint's.
use tor_rotating_http_proxy.Prelude.{
  ℕ, ◌≤◌, ◌<◌, ◌≢◌, Option, none, some, List, [], ◌∷◌, All, All-mono, get_elem?, arith, Each,
  Each-some, Each-bind,
}
use tor_rotating_http_proxy.Pool.Types.{Pool}
use tor_rotating_http_proxy.Store.{Sqlite, SqliteLaws}
use tor_rotating_http_proxy.Pool.Acquire.{Lease, Acquired, granted, refused}
use tor_rotating_http_proxy.Pool.Claims.{IsNew, Outcome, acquire_locked-Claimed}
use tor_rotating_http_proxy.Pool.Kept.{
  Kept, withdraw-Kept, set_state-Kept, cancel-Kept, count_rejected-Kept,
}
use tor_rotating_http_proxy.Pool.Kept.Publish.{publish-Kept}
use tor_rotating_http_proxy.Pool.Runs.{finish_lease-Kept}
use tor_rotating_http_proxy.Pool.System.{
  System, Call, publishes, acquires, finishes, withdraws, states, cancels, rejects, handed,
  with_pool, step, run,
}

-- Two leases do not share a sync.Once of their own.
abbrev Differ : Option ℕ → Option ℕ → Type 0
Differ none o = Unit
Differ (some k) none = Unit
Differ (some k) (some j) = k ≢ j

-- No two of the leases share one.
abbrev pub Apart : List Lease → Type 0
Apart [] = Unit
Apart (l ∷ ls) = All (λ m. Differ l.once m.once) ls × Apart ls

-- A sync.Once that was made before this count
abbrev Made : ℕ → Option ℕ → Type 0
Made n none = Unit
Made n (some k) = k < n

Made-later : (n m : ℕ) (o : Option ℕ) → n ≤ m → Made n o → Made m o
Made-later n m none h k = tt
Made-later n m (some j) h k = omega (arith, h, k)

new-Made : (n m : ℕ) (o : Option ℕ) → IsNew n m o → Made m o
new-Made n m none h = tt
new-Made n m (some k) h = h.1

new-Differ : (n m : ℕ) (o old : Option ℕ) → IsNew n m o → Made n old → Differ o old
new-Differ n m none old h k = tt
new-Differ n m (some j) none h k = tt
new-Differ n m (some j) (some i) h k = λ e. omega (arith, h.0, k, e)

-- The leases of the system have each their own.
abbrev pub Owned : {Db : Type 0} → System Db → Type 0
Owned s = All (λ l. Made s.pool.lease_onces l.once) s.leases × Apart s.leases

module _ (sql : Sqlite) (laws : SqliteLaws sql) where
  pub same-Owned :
      (s : System sql.Db) (q : Pool sql.Db) → Kept sql s.pool q → Owned s → Owned (with_pool s q)
  same-Owned s q k (made, apart) =
      (All-mono (λ l m. Made-later _ _ l.once k.drawn m) s.leases made, apart)

  acquired-Owned :
      (s : System sql.Db) (q : Pool sql.Db) (a : Acquired)
      → Kept sql s.pool q
      → Outcome sql s.pool q a
      → Owned s
      → Owned (record { pool = q; leases = handed a s.leases })
  acquired-Owned s q (refused e) k c h = same-Owned s q k h
  acquired-Owned s q (granted l) k c (made, apart) = (
    (new-Made _ _ l.once c.own, All-mono (λ m o. Made-later _ _ m.once k.drawn o) s.leases made),
    (All-mono (λ m o. new-Differ _ _ l.once m.once c.own o) s.leases made, apart),
  )

  step-Owned : (c : Call) (s : System sql.Db) → Owned s → Each Owned (step sql c s)
  unfolding step
  step-Owned (publishes now e) s h =
      Each-bind _ _
        λ r eq. Each-some (same-Owned s r.0 ((publish-Kept sql laws now e s.pool).at r eq) h)
  step-Owned (acquires now) s h = Each-bind _ _ λ r eq.
      let claimed = (acquire_locked-Claimed sql laws now s.pool).at r eq in
      Each-some (acquired-Owned s r.0 r.1 claimed.0 claimed.1 h)
  step-Owned (finishes now i err) s h = Each-bind _ _ λ q eq. Each-some (
      same-Owned s q ((finish_lease-Kept sql laws now (get_elem? s.leases i) err s.pool).at q eq) h)
  step-Owned (withdraws e) s h =
      Each-bind _ _ λ q eq. Each-some (same-Owned s q ((withdraw-Kept sql e s.pool).at q eq) h)
  step-Owned (states now id st n problem) s h =
      Each-bind _ _ λ q eq.
        Each-some (same-Owned s q ((set_state-Kept sql now id st n problem s.pool).at q eq) h)
  step-Owned (cancels e) s h = Each-some (same-Owned s _ (cancel-Kept sql e s.pool) h)
  step-Owned rejects s h = Each-some (same-Owned s _ (count_rejected-Kept sql s.pool) h)

  pub run-Owned : (cs : List Call) (s : System sql.Db) → Owned s → Each Owned (run sql cs s)
  unfolding run
  run-Owned [] s h = Each-some h
  run-Owned (c ∷ cs) s h = Each-bind _ _ λ t eq. run-Owned cs t ((step-Owned c s h).at t eq)
