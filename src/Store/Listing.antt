-- ===== src/Store/Listing.antt =====
-- Store.Counts and Store.List of internal/app/store.go: the queries of the dashboard. The engine is
-- the parameter `Queries`, one operation for each SELECT, and `QueriesLaws` states what SQLite
-- documents of them. Both methods only read.
pub mod Pages
use tor_rotating_http_proxy.Prelude.{
  ℕ, zero, suc, ◌-◌, ◌*◌, ◌≡◌, Bool, true, false, not, ◌&&◌, ◌||◌, Option, none, some, List, [],
  ◌∷◌, length, take, drop, if◌then◌else◌,
}
use tor_rotating_http_proxy.Prelude.Bytes.{Bytes, codes, bytes_eq, contains}
use tor_rotating_http_proxy.Prelude.Int.{ℤ, pos, lt_nat, gt_nat, pos_part, wrap64}
use tor_rotating_http_proxy.Errors.{GoError, Result, ok, err}

pub record IpRecord : Type 0 where
  pub ip : Bytes
  pub used : Bool

pub record IpPage : Type 0 where
  pub items : List IpRecord
  pub total : ℕ
  pub page : ℤ
  pub page_size : ℤ

-- The condition of both queries of List: the text that the address holds, and its column `used`.
pub record Where : Type 0 where
  pub search : Bytes
  pub used : Option Bool

-- `rows db` are the rows of the table in the order of their addresses. The rows that a query gives
-- come with the error that ends them.
pub record Queries : Type 1 where
  pub Db : Type 0
  pub rows : Db → List IpRecord
  pub select_counts : Db → Result (ℕ × ℕ)
  pub select_count : Db → Where → Result ℕ
  pub select_page : Db → Where → ℤ → ℤ → List IpRecord × Option GoError

abbrev bool_eq : Bool → Bool → Bool
bool_eq true b = b
bool_eq false b = not b

abbrev used_matches : Option Bool → Bool → Bool
used_matches none used = true
used_matches (some b) used = bool_eq b used

abbrev pub matches : Where → IpRecord → Bool
matches w r = contains r.ip w.search && used_matches w.used r.used

-- The rows that a condition selects
abbrev pub selection : Where → List IpRecord → List IpRecord
selection w [] = []
selection w (r ∷ rs) = if matches w r then r ∷ selection w rs else selection w rs

abbrev pub count_used : List IpRecord → ℕ
count_used [] = 0
count_used (r ∷ rs) = if r.used then suc (count_used rs) else count_used rs

-- COUNT and SUM are of all rows, and ORDER BY … LIMIT … OFFSET … takes a part of the selected rows,
-- where a negative offset counts as zero.
pub record QueriesLaws (q : Queries) : Type 0 where
  pub counts_read :
      (db : q.Db) {n m : ℕ}
      → q.select_counts db ≡ ok (n, m)
      → (n ≡ length (q.rows db)) × (m ≡ count_used (q.rows db))
  pub count_reads :
      (db : q.Db) (w : Where) {n : ℕ}
      → q.select_count db w ≡ ok n
      → n ≡ length (selection w (q.rows db))
  pub page_reads :
      (db : q.Db) (w : Where) (limit : ℕ) (offset : ℤ)
      → (q.select_page db w (pos limit) offset).1 ≡ none
      → (q.select_page db w (pos limit) offset).0
        ≡ take limit (drop (pos_part offset) (selection w (q.rows db)))

abbrev pub invalid_pagination : GoError
invalid_pagination = record { message = "invalid pagination"; chain = [] }

abbrev pub invalid_filter : GoError
invalid_filter = record { message = "used must be true or false"; chain = [] }

-- The texts of the filter: none, true or false
abbrev pub parse_filter : Bytes → Option (Option Bool)
parse_filter filter =
    if bytes_eq filter []
    then some none
    else (if bytes_eq filter (codes "true")
        then some (some true)
        else (if bytes_eq filter (codes "false") then some (some false) else none))

-- int64(page-1)*int64(size), for a page and a size that are positive
abbrev pub offset_of : ℤ → ℤ → ℤ
offset_of page size = wrap64 ((pos_part page - 1) * pos_part size)

module _ (q : Queries) where
  -- Counts: the numbers of known and of used addresses; it leaves them zero where Scan fails.
  unfoldable pub counts : q.Db → (ℕ × ℕ) × Option GoError
  counts db = elim (q.select_counts db) [ ok n ↦ (n, none) | err e ↦ ((0, 0), some e) ]

  -- The two queries of List
  unfoldable pub query : q.Db → Where → ℤ → ℤ → IpPage × Option GoError
  query db w page size =
      let p : IpPage = record { items = []; total = 0; page = page; page_size = size } in
      elim (q.select_count db w) [
        | err e ↦ (p, some e)
        | ok n ↦
            let (rows, failed) = q.select_page db w size (offset_of page size) in
            (record p { items = rows; total = n }, failed)
      ]

  -- List
  unfoldable pub list_ips : q.Db → Bytes → Bytes → ℤ → ℤ → IpPage × Option GoError
  unfolding query
  list_ips db search filter page size =
      let p : IpPage = record { items = []; total = 0; page = page; page_size = size } in
      if lt_nat page 1 || (lt_nat size 1 || gt_nat size 100)
      then (p, some invalid_pagination)
      else elim (parse_filter filter) [
        | none ↦ (p, some invalid_filter)
        | some used ↦ query db (record { search = search; used = used }) page size
      ]
