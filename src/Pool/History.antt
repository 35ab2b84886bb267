-- ===== src/Pool/History.antt =====
-- In unique mode no address is assigned twice, by this run of the program or since the history
-- began: for every interleaving of the pool's calls.
use tor_rotating_http_proxy.Prelude.{
  ◌≡◌, ◌≢◌, ◌∙◌, String, true, some, List, [], ◌∷◌, map, get_elem?, Each, Each-some, Each-bind, All,
  All-mono, Distinct,
}
use tor_rotating_http_proxy.Store.{Sqlite, SqliteLaws}
use tor_rotating_http_proxy.Pool.Types.{Pool}
use tor_rotating_http_proxy.Pool.Acquire.{Lease, Acquired, granted, refused}
use tor_rotating_http_proxy.Pool.Kept.{
  Kept, Kept-refl, Kept-trans, withdraw-Kept, set_state-Kept, cancel-Kept, count_rejected-Kept,
}
use tor_rotating_http_proxy.Pool.Kept.Publish.{publish-Kept}
use tor_rotating_http_proxy.Pool.Runs.{finish_lease-Kept}
use tor_rotating_http_proxy.Pool.Claims.{Outcome, acquire_locked-Claimed}
use tor_rotating_http_proxy.Pool.System.{
  System, Call, publishes, acquires, finishes, withdraws, states, cancels, rejects, handed,
  with_pool, step, run, start,
}

abbrev pub addresses : List Lease → List String
addresses = map λ l. l.ip

module _ (sql : Sqlite) (laws : SqliteLaws sql) where
  -- Of a pool that began with the history `p.store`: what is assigned is used now, was not used
  -- at the start, and no two assignments are of one address.
  record Honest (p : Pool sql.Db) (s : System sql.Db) : Type 0 where
    kept : Kept sql p s.pool
    used : All (λ ip. sql.row s.pool.store ip ≡ some true) (addresses s.leases)
    unused : All (λ ip. sql.row p.store ip ≢ some true) (addresses s.leases)
    distinct : Distinct (addresses s.leases)

  start-Honest : (p : Pool sql.Db) → Honest p (start p)
  start-Honest p = record { kept = Kept-refl sql p; used = tt; unused = tt; distinct = tt }

  -- A call that hands out no lease.
  with_pool-Honest :
      (p : Pool sql.Db) (s : System sql.Db) (q : Pool sql.Db)
      → Honest p s
      → Kept sql s.pool q
      → Honest p (with_pool s q)
  with_pool-Honest p s q h k = record {
    kept = Kept-trans sql h.kept k;
    used = All-mono (λ ip u. k.used ip u) (addresses s.leases) h.used;
    unused = h.unused;
    distinct = h.distinct;
  }

  acquired-Honest :
      (p : Pool sql.Db) (s : System sql.Db) (q : Pool sql.Db) (a : Acquired)
      → p.unique ≡ true
      → Honest p s
      → Kept sql s.pool q
      → Outcome sql s.pool q a
      → Honest p (record { pool = q; leases = handed a s.leases })
  acquired-Honest p s q (refused e) mode h k o = with_pool-Honest p s q h k
  acquired-Honest p s q (granted l) mode h k o = record {
    kept = Kept-trans sql h.kept k;
    used = (o.used, All-mono (λ ip u. k.used ip u) (addresses s.leases) h.used);
    unused = ((λ e. o.unused (h.kept.mode ∙ mode) (h.kept.used l.ip e)), h.unused);
    distinct = (
      All-mono (λ ip u e. o.unused (h.kept.mode ∙ mode) (rw e u)) (addresses s.leases) h.used,
      h.distinct,
    );
  }

  step-Honest :
      (p : Pool sql.Db) (c : Call) (s : System sql.Db)
      → p.unique ≡ true
      → Honest p s
      → Each (Honest p) (step sql c s)
  unfolding step
  step-Honest p (publishes now e) s mode h =
      Each-bind _ _ λ r eq.
        Each-some (with_pool-Honest p s r.0 h ((publish-Kept sql laws now e s.pool).at r eq))
  step-Honest p (acquires now) s mode h = Each-bind _ _ λ r eq.
      let (k, o) = (acquire_locked-Claimed sql laws now s.pool).at r eq in
      Each-some (acquired-Honest p s r.0 r.1 mode h k o)
  step-Honest p (finishes now i err) s mode h = Each-bind _ _ λ q eq. Each-some (
      with_pool-Honest p s q h
        ((finish_lease-Kept sql laws now (get_elem? s.leases i) err s.pool).at q eq))
  step-Honest p (withdraws e) s mode h =
      Each-bind _ _
        λ q eq. Each-some (with_pool-Honest p s q h ((withdraw-Kept sql e s.pool).at q eq))
  step-Honest p (states now id st n problem) s mode h = Each-bind _ _ λ q eq.
      Each-some (with_pool-Honest p s q h ((set_state-Kept sql now id st n problem s.pool).at q eq))
  step-Honest p (cancels e) s mode h =
      Each-some (with_pool-Honest p s _ h (cancel-Kept sql e s.pool))
  step-Honest p rejects s mode h =
      Each-some (with_pool-Honest p s _ h (count_rejected-Kept sql s.pool))

  run-Honest :
      (p : Pool sql.Db) (cs : List Call) (s : System sql.Db)
      → p.unique ≡ true
      → Honest p s
      → Each (Honest p) (run sql cs s)
  unfolding run
  run-Honest p [] s mode h = Each-some h
  run-Honest p (c ∷ cs) s mode h =
      Each-bind _ _ λ t eq. run-Honest p cs t mode ((step-Honest p c s mode h).at t eq)

  -- In unique mode, after any sequence of calls on a pool that has handed out no lease, the
  -- addresses of the leases are pairwise different, none of them was marked used in the history
  -- that the pool began with, and all of them are marked used in the one that it ends with.
  pub run_never_reuses :
      (p : Pool sql.Db) (cs : List Call) (t : System sql.Db)
      → p.unique ≡ true
      → run sql cs (start p) ≡ some t
      → Distinct (addresses t.leases)
        × All (λ ip. sql.row p.store ip ≢ some true) (addresses t.leases)
        × All (λ ip. sql.row t.pool.store ip ≡ some true) (addresses t.leases)
  run_never_reuses p cs t mode e =
      let h = (run-Honest p cs (start p) mode (start-Honest p)).at t e in
      (h.distinct, h.unused, h.used)
