-- ===== src/Store.antt =====
-- internal/app/store.go: the history of addresses, over the SQLite engine. The engine is not part
-- of the repository: it is the parameter `Sqlite`, one operation for each statement that the code
-- issues, and `SqliteLaws` states what SQLite documents of these statements.
pub mod Laws
pub mod Memory
pub mod Listing
use tor_rotating_http_proxy.Prelude.{
  ℕ, String, ◌≡◌, Bool, true, false, not, ◌&&◌, Option, none, some, ◌==◌, str_eq, if◌then◌else◌,
}
use tor_rotating_http_proxy.Errors.{GoError, Result, ok, err, is_some}

-- `row db ip` is the column `used` of the row of `ip`. Every operation returns the database it
-- leaves, failed ones too. `update_used` is Exec, with the answer of RowsAffected inside.
pub record Sqlite : Type 1 where
  pub Db : Type 0
  pub row : Db → String → Option Bool
  pub insert_ignore : Db → String → Db × Option GoError
  pub select_used : Db → String → Db × Result Bool
  pub update_used : Db → Bool → String → Db × Result (Result ℕ)

-- The value that INSERT … ON CONFLICT DO NOTHING leaves.
abbrev pub or_unused : Option Bool → Bool
or_unused none = false
or_unused (some used) = used

-- Does WHERE ip=? (AND used=0) select the row?
abbrev pub selected : Bool → Option Bool → Bool
selected unique none = false
selected unique (some used) = not (unique && used)

abbrev pub matched : Bool → ℕ
matched true = 1
matched false = 0

abbrev pub applied : Result (Result ℕ) → Bool
applied (ok r) = true
applied (err e) = false

-- A failed statement changes no row.
pub record SqliteLaws (sql : Sqlite) : Type 0 where
  pub row-insert :
      (db : sql.Db) (ip j : String)
      → sql.row (sql.insert_ignore db ip).0 j ≡ (
          if is_some (sql.insert_ignore db ip).1
          then sql.row db j
          else (if str_eq ip j then some (or_unused (sql.row db ip)) else sql.row db j))
  pub row-select :
      (db : sql.Db) (ip j : String) → sql.row (sql.select_used db ip).0 j ≡ sql.row db j
  pub select_reads :
      (db : sql.Db) (ip : String) {used : Bool}
      → (sql.select_used db ip).1 ≡ ok used
      → sql.row db ip ≡ some used
  pub row-update :
      (db : sql.Db) (unique : Bool) (ip j : String)
      → sql.row (sql.update_used db unique ip).0 j ≡ (
          if applied (sql.update_used db unique ip).1
            && (selected unique (sql.row db ip) && str_eq ip j)
          then some true
          else sql.row db j)
  pub update_counts :
      (db : sql.Db) (unique : Bool) (ip : String) {n : ℕ}
      → (sql.update_used db unique ip).1 ≡ ok (ok n)
      → n ≡ matched (selected unique (sql.row db ip))

-- What a Go call returns: the database that it leaves, the value and the error.
abbrev pub Returns : Type 0 → Type 0
Returns Db = Db × Bool × Option GoError

module _ (sql : Sqlite) where
  -- Scan leaves `used` false when it fails, so the value beside an error is true.
  scanned : sql.Db × Result Bool → Returns sql.Db
  scanned (db, ok used) = (db, not used, none)
  scanned (db, err e) = (db, true, some e)

  select_after : sql.Db × Option GoError → String → Returns sql.Db
  unfolding scanned
  select_after (db, some e) ip = (db, false, some e)
  select_after (db, none) ip = scanned (sql.select_used db ip)

  -- Store.Observe
  unfoldable pub observe : sql.Db → String → Returns sql.Db
  unfolding select_after
  observe db ip = select_after (sql.insert_ignore db ip) ip

  -- Where RowsAffected fails it returns 0.
  affected : sql.Db × Result (Result ℕ) → Returns sql.Db
  affected (db, ok (ok n)) = (db, n == 1, none)
  affected (db, ok (err e)) = (db, false, some e)
  affected (db, err e) = (db, false, some e)

  -- Store.Consume
  unfoldable pub consume : sql.Db → String → Bool → Returns sql.Db
  unfolding affected
  consume db ip unique = affected (sql.update_used db unique ip)
