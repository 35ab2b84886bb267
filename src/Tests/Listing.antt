-- ===== src/Tests/Listing.antt =====
-- Tests of the queries of the history, over the rows in memory.
use tor_rotating_http_proxy.Prelude.{
  ℕ, zero, suc, ◌<◌, ◌≡◌, refl, true, false, none, some, List, [], ◌∷◌, length, take, drop, arith,
}
use tor_rotating_http_proxy.Prelude.Bytes.{codes}
use tor_rotating_http_proxy.Prelude.Int.{pos, pos_part}
use tor_rotating_http_proxy.Errors.{ok}
use tor_rotating_http_proxy.Store.Listing.{
  IpRecord, Queries, QueriesLaws, Where, selection, count_used, list_ips,
}
use tor_rotating_http_proxy.Store.Listing.Pages.{list_ips-pages, first_pages}

abbrev pub rows_in_memory : Queries
rows_in_memory = record {
  Db = List IpRecord;
  rows = λ db. db;
  select_counts = λ db. ok (length db, count_used db);
  select_count = λ db w. ok (length (selection w db));
  select_page =
      λ db w limit offset. (take (pos_part limit) (drop (pos_part offset) (selection w db)), none);
}

pub rows_in_memory_laws : QueriesLaws rows_in_memory
rows_in_memory_laws = record {
  counts_read = λ db h. (cc, cc);
  count_reads = λ db w h. cc;
  page_reads = λ db w limit offset h. refl;
}

abbrev pub known : List IpRecord
known =
    record { ip = codes "1.1.1.1"; used = true }
    ∷ record { ip = codes "4.4.4.4"; used = false }
    ∷ record { ip = codes "8.8.8.8"; used = true }
    ∷ record { ip = codes "9.9.9.9"; used = true }
    ∷ []

no_errors :
    (i : ℕ)
    → i < 2
    → (list_ips rows_in_memory known [] (codes "true") (pos (suc i)) (pos 2)).1 ≡ none
unfolding list_ips
no_errors zero h = refl
no_errors (suc zero) h = refl
no_errors (suc (suc i)) h = absurd (omega (arith, h))

-- Two pages of two entries
list_ips-pages_example :
    let w : Where = record { search = []; used = some true } in
    let selected = selection w known in
    (first_pages rows_in_memory known [] (codes "true") 2 2 ≡ take 4 selected)
    × ((i : ℕ)
        → i < 2
        → (list_ips rows_in_memory known [] (codes "true") (pos (suc i)) (pos 2)).0.total
          ≡ length selected)
list_ips-pages_example =
    list_ips-pages rows_in_memory rows_in_memory_laws known [] (codes "true") 2 2 (some true)
      (omega arith) (omega arith) (omega arith) refl no_errors
