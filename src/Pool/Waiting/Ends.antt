-- ===== src/Pool/Waiting/Ends.antt =====
-- Acquire ends: with a lease or an error, once a turn's wait ends it, and with no panic.
use tor_rotating_http_proxy.Prelude.{
  ℕ, ◌≡◌, ◌≢◌, refl, sym, subst, ◌∙◌, Bool, true, false, Option, some, List, [], ◌∷◌, ◌||◌, ◌>>=◌,
  if◌then◌else◌, arith, length, All, Bool-cases, inl, inr,
}
use tor_rotating_http_proxy.Errors.{no_ready, errors_is}
use tor_rotating_http_proxy.Store.{Sqlite, SqliteLaws}
use tor_rotating_http_proxy.Pool.Types.{Pool}
use tor_rotating_http_proxy.Pool.Acquire.{Acquired, granted, refused}
use tor_rotating_http_proxy.Pool.Valid.{Valid}
use tor_rotating_http_proxy.Pool.Kept.{Kept}
use tor_rotating_http_proxy.Pool.Claims.{acquire_locked-Claimed}
use tor_rotating_http_proxy.Pool.System.{System, Call, run}
use tor_rotating_http_proxy.Pool.Runs.{run-Kept}
use tor_rotating_http_proxy.Pool.Total.{InRange}
use tor_rotating_http_proxy.Pool.Panics.{Names, acquire_total, run_total}
use tor_rotating_http_proxy.Pool.Waiting.{
  Turn, Wake, gone, notified, timed_out, Answer, waits, take, reject, after_last_scan, on_wake,
  after_scan, acquire,
}

abbrev is_notified : Wake → Bool
is_notified (gone deadline) = false
is_notified notified = true
is_notified timed_out = false

-- Does some turn find no time remaining, or have a wait that ends by time or by the context?
abbrev pub some_ends : List Turn → Bool
some_ends [] = false
some_ends (t ∷ ts) = t.expired || (if is_notified t.wake then some_ends ts else true)

-- The calls of others in a turn name instances of the pool.
abbrev pub NamesIn : ℕ → Turn → Type 0
NamesIn n t = All (Names n) t.before × All (Names n) t.between × All (Names n) t.after

-- It gives a result, and the result is not that it waits.
abbrev pub Answers : {Db : Type 0} → Option (System Db × Answer) → Type 0
Answers {Db} m = (r : System Db × Answer) × (m ≡ some r) × (r.1 ≢ waits)

module _ (sql : Sqlite) (laws : SqliteLaws sql) where
  -- A pool of `n` instances in order.
  pub record Sound (n : ℕ) (p : Pool sql.Db) : Type 0 where
    pub valid : Valid p
    pub in_range : InRange p
    pub size : length p.slots ≡ n

  pub Kept-Sound : (n : ℕ) (p q : Pool sql.Db) → Kept sql p q → Sound n p → Sound n q
  Kept-Sound n p q k s = record {
    valid = k.valid s.valid;
    in_range =
        λ d. (omega (arith, s.in_range d, k.ids d), omega (arith, s.in_range d, k.ids d, k.size));
    size = k.size ∙ s.size;
  }

  ran-Answers :
      (n : ℕ) (cs : List Call) (s : System sql.Db)
      (next : System sql.Db → Option (System sql.Db × Answer))
      → Sound n s.pool
      → All (Names n) cs
      → ((u : System sql.Db) → Sound n u.pool → Answers (next u))
      → Answers (do u ← run sql cs s; next u)
  ran-Answers n cs s next good names h =
      let (u, e) =
        run_total sql laws cs s good.valid good.in_range
          (subst (λ m. All (Names m) cs) (sym good.size) names) in
      rw e (h u (Kept-Sound n s.pool u.pool ((run-Kept sql laws cs s).at u e) good))

  taken-Answers :
      (n now : ℕ) (s : System sql.Db)
      (next : System sql.Db × Acquired → Option (System sql.Db × Answer))
      → Sound n s.pool
      → ((v : System sql.Db × Acquired) → Sound n v.0.pool → Answers (next v))
      → Answers (do v ← take sql now s; next v)
  unfolding take
  taken-Answers n now s next good h =
      let (r, e) = acquire_total sql laws now s.pool in
      rw e
        (h _ (Kept-Sound n s.pool r.0 ((acquire_locked-Claimed sql laws now s.pool).at r e).0 good))

  reject-Answers :
      (n : ℕ) (cs : List Call) (s : System sql.Db)
      → Sound n s.pool
      → All (Names n) cs
      → Answers (reject sql cs s)
  unfolding reject
  reject-Answers n cs s good names = ran-Answers n cs s _ good names λ u g. (_, refl, λ e. cc)

  after_last_scan-Answers :
      (n : ℕ) (cs : List Call) (v : System sql.Db × Acquired)
      → Sound n v.0.pool
      → All (Names n) cs
      → Answers (after_last_scan sql cs v)
  unfolding after_last_scan
  after_last_scan-Answers n cs (s, granted l) good names = (_, refl, λ e. cc)
  after_last_scan-Answers n cs (s, refused e) good names =
      elim (Bool-cases (errors_is (some e) no_ready)) [
        | inl none_ready ↦ rw none_ready (reject-Answers n cs s good names)
        | inr failed ↦ rw failed (_, refl, λ k. cc)
      ]

  on_wake-Answers :
      (n : ℕ) (t : Turn) (w : Wake) (rest : System sql.Db → Option (System sql.Db × Answer))
      (s : System sql.Db)
      → Sound n s.pool
      → NamesIn n t
      → (is_notified w ≡ true → Answers (rest s))
      → Answers (on_wake sql t w rest s)
  unfolding on_wake
  on_wake-Answers n t (gone deadline) rest s good names h = (_, refl, λ e. cc)
  on_wake-Answers n t notified rest s good names h = h refl
  on_wake-Answers n t timed_out rest s good names h =
      ran-Answers n t.between s _ good names.1
        λ u g. taken-Answers n t.later u _ g λ v k. after_last_scan-Answers n t.after v k names.2

  after_scan-Answers :
      (n : ℕ) (t : Turn) (rest : System sql.Db → Option (System sql.Db × Answer))
      (v : System sql.Db × Acquired)
      → Sound n v.0.pool
      → NamesIn n t
      → (t.expired ≡ false → is_notified t.wake ≡ true → Answers (rest v.0))
      → Answers (after_scan sql t rest v)
  unfolding after_scan
  after_scan-Answers n t rest (s, granted l) good names h = (_, refl, λ e. cc)
  after_scan-Answers n t rest (s, refused e) good names h =
      elim (Bool-cases (errors_is (some e) no_ready)) [
        | inl none_ready ↦ rw none_ready (elim (Bool-cases t.expired) [
          | inl late ↦ rw late (reject-Answers n t.after s good names.2)
          | inr early ↦ rw early (on_wake-Answers n t t.wake rest s good names (h early))
        ])
        | inr failed ↦ rw failed (_, refl, λ k. cc)
      ]

  acquire-Answers :
      (n : ℕ) (turns : List Turn) (s : System sql.Db)
      → Sound n s.pool
      → All (NamesIn n) turns
      → some_ends turns ≡ true
      → Answers (acquire sql turns s)
  unfolding acquire
  acquire-Answers n [] s good names h = absurd (cc)
  acquire-Answers n (t ∷ ts) s good names h = ran-Answers n t.before s _ good names.0.0 λ u g.
      taken-Answers n t.now u _ g λ v k.
        after_scan-Answers n t (λ w. acquire sql ts w) v k names.0
          (λ early more. acquire-Answers n ts v.0 k names.1 (ground (arith, early, more, h)))

  -- On a pool in order, where the calls of others name its instances: Acquire ends with a lease or
  -- an error, and does not panic, as soon as some turn finds that no time remains, or its wait ends
  -- by the time or by the context, whatever comes between.
  pub acquire_ends :
      (turns : List Turn) (s : System sql.Db)
      → Valid s.pool
      → InRange s.pool
      → All (NamesIn (length s.pool.slots)) turns
      → some_ends turns ≡ true
      → Answers (acquire sql turns s)
  acquire_ends turns s valid in_range =
      acquire-Answers (length s.pool.slots) turns s
        (record { valid = valid; in_range = in_range; size = refl })
