-- ===== src/Store/Listing/Pages.antt =====
-- The pages of List.
use native.Mathlib.Nat.{zero-mul, suc-mul}
use tor_rotating_http_proxy.Prelude.{
  ℕ, zero, suc, ◌-◌, ◌*◌, ◌^◌, ◌≤◌, ◌<◌, ◌≡◌, refl, sym, ap, ◌∙◌, Bool, false, ◌||◌, Option, none,
  some, List, [], ◌++◌, arith, length, take, drop, take-add, ltb, inl, inr,
}
use tor_rotating_http_proxy.Prelude.Bytes.{Bytes}
use tor_rotating_http_proxy.Prelude.Int.{pos, pos_part, wrap64, wrap64_of_lt}
use tor_rotating_http_proxy.Errors.{Result-cases}
use tor_rotating_http_proxy.Store.Listing.{
  IpRecord, Where, Queries, QueriesLaws, selection, parse_filter, query, list_ips,
}

module _ (q : Queries) where
  -- Inside the limits and with a filter that it knows, List is its two queries.
  pub list_ips-query :
      (db : q.Db) (search filter : Bytes) (page size : ℕ) (used : Option Bool)
      → 1 ≤ page
      → 1 ≤ size
      → size ≤ 100
      → parse_filter filter ≡ some used
      → list_ips q db search filter (pos page) (pos size)
        ≡ query q db (record { search = search; used = used }) (pos page) (pos size)
  unfolding list_ips
  list_ips-query db search filter page size used p s t f =
      let inside : (ltb page 1 || (ltb size 1 || ltb 100 size)) ≡ false = ground arith in
      rw inside (rw f refl)

  -- The items of the first `k` pages, one after another
  unfoldable pub first_pages : q.Db → Bytes → Bytes → ℕ → ℕ → List IpRecord
  first_pages db search filter size zero = []
  first_pages db search filter size (suc k) =
      first_pages db search filter size k
      ++ (list_ips q db search filter (pos (suc k)) (pos size)).0.items

module _ (q : Queries) (laws : QueriesLaws q) where
  pub query-take :
      (db : q.Db) (w : Where) (page size : ℕ)
      → (page - 1) * size < 2 ^ 63
      → (query q db w (pos page) (pos size)).1 ≡ none
      → ((query q db w (pos page) (pos size)).0.items
          ≡ take size (drop ((page - 1) * size) (selection w (q.rows db))))
        × ((query q db w (pos page) (pos size)).0.total ≡ length (selection w (q.rows db)))
  unfolding query
  query-take db w page size fits none_failed = elim (Result-cases (q.select_count db w)) [
    | inl (n, e) ↦
        let offset : wrap64 ((page - 1) * size) ≡ pos ((page - 1) * size) =
          wrap64_of_lt ((page - 1) * size) fits in
        let read : (q.select_page db w (pos size) (wrap64 ((page - 1) * size))).1 ≡ none =
          rw (e, query) at none_failed in
        rw (e, query)
          (
            laws.page_reads db w size (wrap64 ((page - 1) * size)) read
                ∙ ap (λ z. take size (drop (pos_part z) (selection w (q.rows db)))) offset,
            laws.count_reads db w e,
          )
    | inr (f, e) ↦ absurd (cc (rw (e, query) at none_failed))
  ]

  page_at :
      (db : q.Db) (search filter : Bytes) (size i : ℕ) (used : Option Bool)
      → 1 ≤ size
      → size ≤ 100
      → i * size < 2 ^ 63
      → parse_filter filter ≡ some used
      → (list_ips q db search filter (pos (suc i)) (pos size)).1 ≡ none
      → let selected = selection (record { search = search; used = used }) (q.rows db) in
        ((list_ips q db search filter (pos (suc i)) (pos size)).0.items
          ≡ take size (drop (i * size) selected))
        × ((list_ips q db search filter (pos (suc i)) (pos size)).0.total ≡ length selected)
  page_at db search filter size i used lo hi fits known fine =
      let w : Where = record { search = search; used = used } in
      let e = list_ips-query q db search filter (suc i) size used (omega arith) lo hi known in
      let same : suc i - 1 ≡ i = omega arith in
      let r = query-take db w (suc i) size (rw same fits) (rw e at fine) in
      rw e (r.0 ∙ ap (λ m. take size (drop (m * size) (selection w (q.rows db)))) same, r.1)

  first_pages-take :
      (db : q.Db) (search filter : Bytes) (size k : ℕ) (used : Option Bool)
      → 1 ≤ size
      → size ≤ 100
      → k * size < 2 ^ 63
      → parse_filter filter ≡ some used
      → ((i : ℕ) → i < k → (list_ips q db search filter (pos (suc i)) (pos size)).1 ≡ none)
      → first_pages q db search filter size k
        ≡ take (k * size) (selection (record { search = search; used = used }) (q.rows db))
  unfolding first_pages
  first_pages-take db search filter size zero used lo hi fits known fine =
      ap (λ m. take m (selection (record { search = search; used = used }) (q.rows db)))
        (sym (zero-mul size))
  first_pages-take db search filter size (suc k) used lo hi fits known fine =
      let selected = selection (record { search = search; used = used }) (q.rows db) in
      let less : k * size < 2 ^ 63 = omega (arith, suc-mul k size, fits) in
      rw
        (first_pages-take db search filter size k used lo hi less known
          (λ i l. fine i (omega arith)))
        (rw (page_at db search filter size k used lo hi less known (fine k (omega arith))).0 (
          sym (take-add (k * size) size selected)
          ∙ ap (λ m. take m selected) (sym (suc-mul k size))))

  -- For a page size of 1 to 100 and a filter that List knows, where the first `k` calls have no
  -- error and their offsets fit into an int64: the items of the pages, one after another, are the
  -- first entries of the selection, as many as the pages hold, and each call's total is the number
  -- of all that are selected.
  pub list_ips-pages :
      (db : q.Db) (search filter : Bytes) (size k : ℕ) (used : Option Bool)
      → 1 ≤ size
      → size ≤ 100
      → k * size < 2 ^ 63
      → parse_filter filter ≡ some used
      → ((i : ℕ) → i < k → (list_ips q db search filter (pos (suc i)) (pos size)).1 ≡ none)
      → let selected = selection (record { search = search; used = used }) (q.rows db) in
        (first_pages q db search filter size k ≡ take (k * size) selected)
        × ((i : ℕ)
            → i < k
            → (list_ips q db search filter (pos (suc i)) (pos size)).0.total ≡ length selected)
  list_ips-pages db search filter size k used lo hi fits known fine = (
    first_pages-take db search filter size k used lo hi fits known fine,
    λ i l. (page_at db search filter size i used lo hi (grind (arith, l, fits)) known (fine i l)).1,
  )
