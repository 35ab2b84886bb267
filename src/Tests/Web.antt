-- ===== src/Tests/Web.antt =====
-- Tests of the handlers of the dashboard.
use tor_rotating_http_proxy.Prelude.{ℕ, ◌≡◌, ◌⊎◌, inl, eq_iff, refl, true, some, [], ◌∷◌, arith}
use tor_rotating_http_proxy.Prelude.Bytes.{codes}
use tor_rotating_http_proxy.Prelude.Int.{ℤ, pos, atoi}
use tor_rotating_http_proxy.Errors.{GoError}
use tor_rotating_http_proxy.Store.Listing.{selection}
use tor_rotating_http_proxy.Web.{Params, api_ips, refuse, write_json, page_of}
use tor_rotating_http_proxy.Web.Query.{IsNumber-int_param}
use tor_rotating_http_proxy.Web.Ips.{
  Accepted, Unacceptable, IsPage, asked, api_ips_refuses, api_ips_answers,
}
use tor_rotating_http_proxy.Tests.Listing.{rows_in_memory, rows_in_memory_laws, known}

abbrev second_size : Params
second_size = ("page_size", codes "2") ∷ ("used", codes "true") ∷ []

abbrev second_page : Params
second_page = ("page", codes "2") ∷ second_size

second_page-Accepted : Accepted second_page 2 2 (some true)
unfolding atoi
second_page-Accepted = record {
  page = inl (codes "2", ([], second_size, refl, tt), refl);
  page_size = inl (
    codes "2",
    (
      ("page", codes "2") ∷ [],
      ("used", codes "true") ∷ [],
      refl,
      ((λ e. cc ((eq_iff "page" "page_size").1 e)), tt),
    ),
    refl,
  );
  first = omega arith;
  last = omega arith;
  least = omega arith;
  most = omega arith;
  short = omega arith;
  known = refl;
}

too_many : (api_ips rows_in_memory known (("page_size", codes "101") ∷ [])).code ≡ 400
unfolding api_ips atoi
too_many = refl

pos_eq : (m n : ℕ) → pos m ≡ pos n → m ≡ n
pos_eq m n h = cc

some_eq : (a b : ℤ) → some a ≡ some b → a ≡ b
some_eq a b h = cc

abbrev no_page : Params
no_page = ("page", codes "0") ∷ []

no_page-Unacceptable : Unacceptable no_page
unfolding atoi
no_page-Unacceptable n m used a = omega (
  arith,
  pos_eq 0 n (some_eq (pos 0) (pos n) (IsNumber-int_param "page" 1 no_page n a.page)),
  a.first,
)

api_ips_refuses_example : (api_ips rows_in_memory known no_page).code ≡ 400
api_ips_refuses_example = api_ips_refuses rows_in_memory known no_page no_page-Unacceptable

api_ips_answers_example :
    let r = asked rows_in_memory known second_page 2 2 (some true) in
    ((api_ips rows_in_memory known second_page ≡ write_json (page_of r.0))
      × IsPage r.0 2 2 (selection (record { search = []; used = some true }) known))
    ⊎ ((e : GoError) × (r.1 ≡ some e)
        × (api_ips rows_in_memory known second_page ≡ refuse 503 "database unavailable"))
api_ips_answers_example =
    api_ips_answers rows_in_memory rows_in_memory_laws known second_page 2 2 (some true)
      second_page-Accepted
