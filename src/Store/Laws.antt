-- ===== src/Store/Laws.antt =====
-- What Observe and Consume do to the table of addresses, on each outcome.
use tor_rotating_http_proxy.Prelude.{
  ℕ, String, ◌≡◌, ◌≢◌, refl, Bool, true, false, Option, none, some, not, arith, str_eq, eq_iff,
  if◌then◌else◌,
}
use tor_rotating_http_proxy.Errors.{GoError, Result, ok, err}
use tor_rotating_http_proxy.Store.{
  Sqlite, SqliteLaws, or_unused, selected, observe, consume, scanned, select_after, affected,
}

module _ (sql : Sqlite) (laws : SqliteLaws sql) where
  -- A used address stays used, whatever the outcome.
  pub observe_keeps_used :
      (db : sql.Db) (ip j : String)
      → sql.row db j ≡ some true
      → sql.row (observe sql db ip).0 j ≡ some true
  unfolding observe
  observe_keeps_used db ip j h = ground (
    arith,
    eq_iff ip j,
    laws.row-insert db ip j,
    laws.row-select (sql.insert_ignore db ip).0 ip j,
  )

  pub consume_keeps_used :
      (db : sql.Db) (ip j : String) (unique : Bool)
      → sql.row db j ≡ some true
      → sql.row (consume sql db ip unique).0 j ≡ some true
  unfolding consume
  consume_keeps_used db ip j unique h = ground (arith, laws.row-update db unique ip j)

  affected-true :
      (r : sql.Db × Result (Result ℕ))
      → (affected sql r).1 ≡ true
      → (r.1 ≡ ok (ok 1)) × ((affected sql r).2 ≡ none) × ((affected sql r).0 ≡ r.0)
  unfolding affected
  affected-true (db, ok (ok n)) h = (ground arith, refl, refl)
  affected-true (db, ok (err e)) h = cc
  affected-true (db, err e) h = cc

  affected-false :
      (r : sql.Db × Result (Result ℕ))
      → (affected sql r).1 ≡ false
      → (affected sql r).2 ≡ none
      → (n : ℕ) × (r.1 ≡ ok (ok n)) × (n ≢ 1)
  unfolding affected
  affected-false (db, ok (ok n)) h k = (n, refl, ground arith)
  affected-false (db, ok (err e)) h k = cc
  affected-false (db, err e) h k = cc

  -- A granted claim found the row, unused where uniqueness was asked for, and left it used.
  pub consume_granted :
      (db : sql.Db) (ip : String) (unique : Bool)
      → (consume sql db ip unique).1 ≡ true
      → (selected unique (sql.row db ip) ≡ true)
        × (sql.row (consume sql db ip unique).0 ip ≡ some true)
        × ((consume sql db ip unique).2 ≡ none)
  unfolding consume
  consume_granted db ip unique h =
      let e = affected-true (sql.update_used db unique ip) h in
      ground (
        arith,
        e,
        eq_iff ip ip,
        laws.row-update db unique ip ip,
        laws.update_counts db unique ip e.0,
      )

  -- A refused claim, with no error, found no row to change.
  consume_refused :
      (db : sql.Db) (ip : String) (unique : Bool)
      → (consume sql db ip unique).1 ≡ false
      → (consume sql db ip unique).2 ≡ none
      → selected unique (sql.row db ip) ≡ false
  unfolding consume
  consume_refused db ip unique h k =
      let (n, e, ne) = affected-false (sql.update_used db unique ip) h k in
      ground (arith, e, ne, laws.update_counts db unique ip e)

  pub consume_others :
      (db : sql.Db) (ip j : String) (unique : Bool)
      → str_eq ip j ≡ false
      → sql.row (consume sql db ip unique).0 j ≡ sql.row db j
  unfolding consume
  consume_others db ip j unique h = ground (arith, laws.row-update db unique ip j)

  scanned-none :
      (r : sql.Db × Result Bool)
      → (scanned sql r).2 ≡ none
      → (used : Bool) × (r.1 ≡ ok used) × ((scanned sql r).1 ≡ not used) × ((scanned sql r).0 ≡ r.0)
  unfolding scanned
  scanned-none (db, ok used) h = (used, refl, refl, refl)
  scanned-none (db, err e) h = cc

  select_after-none :
      (i : sql.Db × Option GoError) (ip : String)
      → (select_after sql i ip).2 ≡ none
      → (i.1 ≡ none)
        × (select_after sql i ip ≡ scanned sql (sql.select_used i.0 ip))
        × ((scanned sql (sql.select_used i.0 ip)).2 ≡ none)
  unfolding select_after
  select_after-none (db, some e) ip h = cc
  select_after-none (db, none) ip h = (refl, refl, h)

  -- Without an error Observe answers whether the address is unused, knows it from then on, and
  -- touches no other row.
  pub observe_lem :
      (db : sql.Db) (ip j : String)
      → (observe sql db ip).2 ≡ none
      → ((observe sql db ip).1 ≡ not (or_unused (sql.row db ip)))
        × (sql.row (observe sql db ip).0 j
            ≡ (if str_eq ip j then some (or_unused (sql.row db ip)) else sql.row db j))
  unfolding observe
  observe_lem db ip j h =
      let e = select_after-none (sql.insert_ignore db ip) ip h in
      let (used, r, v, d) = scanned-none (sql.select_used (sql.insert_ignore db ip).0 ip) e.2 in
      ground (
        arith,
        e,
        v,
        d,
        eq_iff ip ip,
        laws.row-insert db ip j,
        laws.row-insert db ip ip,
        laws.row-select (sql.insert_ignore db ip).0 ip j,
        laws.select_reads (sql.insert_ignore db ip).0 ip r,
      )
