-- ===== src/Web/Ips.antt =====
-- What GET /api/ips answers.
use native.Mathlib.Nat.{mul-le-mul}
use tor_rotating_http_proxy.Prelude.{
  ℕ, ◌-◌, ◌*◌, ◌^◌, ◌≤◌, ◌<◌, ◌≡◌, refl, ap, ◌∙◌, Bool, true, false, ◌||◌, List, Option, none, some,
  length, take, drop, arith, Bool-cases, Option-cases, inl, inr, ◌⊎◌, ltb,
}
use tor_rotating_http_proxy.Prelude.Bytes.{Bytes}
use tor_rotating_http_proxy.Prelude.Int.{ℤ, pos, negsuc}
use tor_rotating_http_proxy.Errors.{GoError}
use tor_rotating_http_proxy.Store.Listing.{
  IpPage, IpRecord, Where, Queries, QueriesLaws, selection, parse_filter, query,
}
use tor_rotating_http_proxy.Store.Listing.Pages.{list_ips-query, query-take}
use tor_rotating_http_proxy.Web.{
  Params, get, int_param, listed, refuse, write_json, page_of, ips_page, api_ips, is_filter,
}
use tor_rotating_http_proxy.Web.Query.{
  IsNumber, IsFilter, IsFilter-parse_filter, parse_filter-IsFilter, int_param-IsNumber,
  IsNumber-int_param,
}

-- Parameters that ask for the page `n` of `size` entries, with the filter `used`
pub record Accepted (ps : Params) (n size : ℕ) (used : Option Bool) : Type 0 where
  pub page : IsNumber "page" 1 ps n
  pub page_size : IsNumber "page_size" 50 ps size
  pub first : 1 ≤ n
  pub last : n ≤ 100000000
  pub least : 1 ≤ size
  pub most : size ≤ 100
  pub short : length (get "search" ps) ≤ 64
  pub known : IsFilter (get "used" ps) used

offset_fits : (n m : ℕ) → n ≤ 100000000 → m ≤ 100 → (n - 1) * m < 2 ^ 63
offset_fits n m h k =
    let product : (n - 1) * m ≤ 100000000 * 100 = mul-le-mul {n₂ = 100000000} (omega arith) k in
    omega (arith, product)

is_filter-none : (v : Bytes) → parse_filter v ≡ none → is_filter v ≡ false
is_filter-none v h = ground (arith, h)

is_filter-some : (v : Bytes) (used : Option Bool) → parse_filter v ≡ some used → is_filter v ≡ true
is_filter-some v used h = ground (arith, h)

-- The test of the numbers and of the search text
abbrev out_of_range : Params → ℕ → ℕ → Bool
out_of_range ps n m =
    ltb n 1 || (ltb 100000000 n || (ltb m 1 || (ltb 100 m || ltb 64 (length (get "search" ps)))))

module _ (q : Queries) where
  ips_page-cases :
      (db : q.Db) (ps : Params) (page size : ℤ)
      → int_param "page" 1 ps ≡ some page
      → int_param "page_size" 50 ps ≡ some size
      → ((ips_page q db ps page size).code ≡ 400)
        ⊎ ((n m : ℕ) × (used : Option Bool) × Accepted ps n m used)
  unfolding ips_page
  ips_page-cases db ps (negsuc a) size e f = inl refl
  ips_page-cases db ps (pos n) (negsuc a) e f = inl (ground arith)
  ips_page-cases db ps (pos n) (pos m) e f = elim (Bool-cases (out_of_range ps n m)) [
    | inl out ↦ inl (rw out refl)
    | inr inside ↦ elim (Option-cases (parse_filter (get "used" ps))) [
      | inl unknown ↦ inl (rw (inside, is_filter-none (get "used" ps) unknown) refl)
      | inr (used, known) ↦ inr (
        n,
        m,
        used,
        record {
          page = int_param-IsNumber "page" 1 ps n e;
          page_size = int_param-IsNumber "page_size" 50 ps m f;
          first = ground (arith, inside);
          last = ground (arith, inside);
          least = ground (arith, inside);
          most = ground (arith, inside);
          short = ground (arith, inside);
          known = parse_filter-IsFilter (get "used" ps) used known;
        },
      )
    ]
  ]

  api_ips-cases :
      (db : q.Db) (ps : Params)
      → ((api_ips q db ps).code ≡ 400) ⊎ ((n m : ℕ) × (used : Option Bool) × Accepted ps n m used)
  unfolding api_ips
  api_ips-cases db ps = elim (Option-cases (int_param "page" 1 ps)) [
    | inl e ↦ inl (rw (e, api_ips) refl)
    | inr (page, e) ↦ elim (Option-cases (int_param "page_size" 50 ps)) [
      | inl f ↦ inl (rw (e, f, api_ips) refl)
      | inr (size, f) ↦ rw (e, f, api_ips) (ips_page-cases db ps page size e f)
    ]
  ]

  -- The two queries for accepted parameters
  abbrev pub asked : q.Db → Params → ℕ → ℕ → Option Bool → IpPage × Option GoError
  asked db ps n m used =
      query q db (record { search = get "search" ps; used = used }) (pos n) (pos m)

  ips_page-Accepted :
      (db : q.Db) (ps : Params) (n m : ℕ) (used : Option Bool)
      → Accepted ps n m used
      → ips_page q db ps (pos n) (pos m) ≡ listed (asked db ps n m used)
  unfolding ips_page
  ips_page-Accepted db ps n m used a =
      let inside : out_of_range ps n m ≡ false = ground (arith, a) in
      rw
        (
          inside,
          is_filter-some (get "used" ps) used (IsFilter-parse_filter (get "used" ps) used a.known),
        )
        (ap listed (
          list_ips-query q db (get "search" ps) (get "used" ps) n m used a.first a.least a.most
            (IsFilter-parse_filter (get "used" ps) used a.known)))

  api_ips-Accepted :
      (db : q.Db) (ps : Params) (n m : ℕ) (used : Option Bool)
      → Accepted ps n m used
      → api_ips q db ps ≡ listed (asked db ps n m used)
  unfolding api_ips
  api_ips-Accepted db ps n m used a =
      rw
        (
          IsNumber-int_param "page" 1 ps n a.page,
          IsNumber-int_param "page_size" 50 ps m a.page_size,
          api_ips,
        )
        (ips_page-Accepted db ps n m used a)

listed-none : (r : IpPage × Option GoError) → r.1 ≡ none → listed r ≡ write_json (page_of r.0)
listed-none (p, none) h = refl
listed-none (p, some e) h = cc

listed-some :
    (r : IpPage × Option GoError) (e : GoError)
    → r.1 ≡ some e
    → listed r ≡ refuse 503 "database unavailable"
listed-some (p, none) e h = cc
listed-some (p, some f) e h = refl

-- No page of any size is what the parameters ask for.
abbrev pub Unacceptable : Params → Type 0
Unacceptable ps = (n m : ℕ) (used : Option Bool) → ¬ Accepted ps n m used

module _ (q : Queries) where
  -- Where the parameters do not ask for a page from 1 to a hundred million, of 1 to 100 entries, with
  -- a search text of at most 64 bytes and a filter that is empty, true or false, GET /api/ips
  -- answers 400.
  pub api_ips_refuses : (db : q.Db) (ps : Params) → Unacceptable ps → (api_ips q db ps).code ≡ 400
  api_ips_refuses db ps none_fits = elim (api_ips-cases q db ps) [
    | inl refused ↦ refused
    | inr (n, m, used, a) ↦ absurd (none_fits n m used a)
  ]

-- The page that the parameters ask for, of the selected rows, with the number of all of them
abbrev pub IsPage : IpPage → ℕ → ℕ → List IpRecord → Type 0
IsPage p n m selected =
    (p.items ≡ take m (drop ((n - 1) * m) selected)) × (p.total ≡ length selected)

module _ (q : Queries) (laws : QueriesLaws q) where
  -- Where the parameters ask for a page that GET /api/ips accepts, it answers 200 with that page of
  -- the selected rows and the number of all of them, no offset having wrapped around, or a query
  -- failed and it answers 503.
  pub api_ips_answers :
      (db : q.Db) (ps : Params) (n m : ℕ) (used : Option Bool)
      → Accepted ps n m used
      → let r = asked q db ps n m used in
        ((api_ips q db ps ≡ write_json (page_of r.0))
          × IsPage r.0 n m
              (selection (record { search = get "search" ps; used = used }) (q.rows db)))
        ⊎ ((e : GoError) × (r.1 ≡ some e) × (api_ips q db ps ≡ refuse 503 "database unavailable"))
  api_ips_answers db ps n m used a =
      let w : Where = record { search = get "search" ps; used = used } in
      let fits : (n - 1) * m < 2 ^ 63 = offset_fits n m a.last a.most in
      elim (Option-cases (asked q db ps n m used).1) [
        | inl fine ↦
            let t = query-take q laws db w n m fits fine in
            inl (api_ips-Accepted q db ps n m used a ∙ listed-none _ fine, (t.0, t.1))
        | inr (e, failed) ↦
            inr (e, failed, api_ips-Accepted q db ps n m used a ∙ listed-some _ e failed)
      ]
