-- ===== src/LoadTest/Rate.antt =====
-- The rate that Snapshot of internal/app/loadtest.go shows.
use tor_rotating_http_proxy.Prelude.{
  ℕ, ◌/◌, ◌^◌, ◌<◌, ◌≡◌, refl, ap, ◌∙◌, Bool, Option, List, [], ◌∷◌, length, Bool-cases, inl, inr,
  if◌then◌else◌, String,
}
use tor_rotating_http_proxy.Errors.{GoError}
use tor_rotating_http_proxy.LoadTest.{
  LoadTester, new_load_tester, count_tick, record_result, actual_rps,
}
use tor_rotating_http_proxy.LoadTest.Buckets.{record_ticks, Ordered, recent, record_ticks-recent}

-- A request that has ended, with what Record gets
pub record Ended : Type 0 where
  pub now : ℕ
  pub elapsed : ℕ
  pub code : ℕ
  pub status : String
  pub error : Option GoError
  pub canceled : Bool

-- The newest first
unfoldable pub record_all : List Ended → LoadTester → LoadTester
unfolding record_result
record_all [] t = t
record_all (r ∷ rs) t =
    record_result r.now r.elapsed r.code r.status r.error r.canceled (record_all rs t)

-- The tenths of a second of those that were not canceled
abbrev pub ticks_of : List Ended → List ℕ
ticks_of [] = []
ticks_of (r ∷ rs) = let rest = ticks_of rs in if r.canceled then rest else r.now / 100 ∷ rest

buckets-record_all :
    (rs : List Ended) (t : LoadTester)
    → (record_all rs t).buckets ≡ record_ticks (ticks_of rs) t.buckets
unfolding record_all record_ticks
buckets-record_all [] t = refl
buckets-record_all (r ∷ rs) t = elim (Bool-cases r.canceled) [
  | inl dropped ↦ rw dropped (buckets-record_all rs t)
  | inr kept ↦ rw kept (ap (count_tick (r.now / 100)) (buckets-record_all rs t))
]

-- For results that are recorded in the order of a clock which does not go back, fewer than 2 ^ 64,
-- from a new load tester on: the rate that Snapshot shows at a time is the number of results, but
-- for the canceled ones, in the last ten tenths of a second.
pub record_all-recent :
    (parent_done : Bool) (url : String) (rs : List Ended) (now : ℕ)
    → Ordered now (ticks_of rs)
    → length (ticks_of rs) < 2 ^ 64
    → actual_rps now (record_all rs (new_load_tester parent_done url)).buckets
      ≡ recent now (ticks_of rs)
record_all-recent parent_done url rs now o h =
    ap (actual_rps now) (buckets-record_all rs (new_load_tester parent_done url))
    ∙ record_ticks-recent now (ticks_of rs) o h
