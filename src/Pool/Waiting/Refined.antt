-- ===== src/Pool/Waiting/Refined.antt =====
-- Acquire is made of the pool's calls: what holds after every sequence of them holds after it.
use tor_rotating_http_proxy.Prelude.{
  ℕ, ◌≡◌, refl, ◌∙◌, Bool, true, false, Option, some, List, [], ◌∷◌, ◌++◌, ◌>>=◌, Each, Each-some,
  Each-bind, Each-if, Each-mono, arith, >>=-eq-some,
}
use tor_rotating_http_proxy.Errors.{no_ready, errors_is}
use tor_rotating_http_proxy.Store.{Sqlite}
use tor_rotating_http_proxy.Pool.Acquire.{Lease, Acquired, granted, refused, acquire_locked}
use tor_rotating_http_proxy.Pool.System.{
  System, Call, rejects, acquires, publishes, finishes, withdraws, states, cancels, handed, run,
  step,
}
use tor_rotating_http_proxy.Pool.Waiting.{
  Turn, Wake, gone, notified, timed_out, Answer, got, fails, waits, take, reject, after_last_scan,
  on_wake, after_scan, acquire,
}

-- Is the last of the calls the count of a rejection?
abbrev is_rejection : Call → Bool
is_rejection (publishes now e) = false
is_rejection (acquires now) = false
is_rejection (finishes now i err) = false
is_rejection (withdraws e) = false
is_rejection (states now id st n problem) = false
is_rejection (cancels e) = false
is_rejection rejects = true

abbrev pub ends_rejected : List Call → Bool
ends_rejected [] = false
ends_rejected (c ∷ []) = is_rejection c
ends_rejected (c ∷ d ∷ cs) = ends_rejected (d ∷ cs)

ends_rejected-append :
    (cs ds : List Call) → ends_rejected ds ≡ true → ends_rejected (cs ++ ds) ≡ true
ends_rejected-append [] ds h = h
ends_rejected-append (c ∷ []) [] h = cc
ends_rejected-append (c ∷ []) (d ∷ ds) h = h
ends_rejected-append (c ∷ b ∷ cs) ds h = ends_rejected-append (b ∷ cs) ds h

-- A lease that Acquire returns is the newest of those handed out; with ErrNoReady its last call
-- counted a rejection.
abbrev pub Ending : {Db : Type 0} → List Call → System Db → Answer → Type 0
Ending cs s (got l) = (ls : List Lease) × (s.leases ≡ l ∷ ls)
Ending cs s (fails e) = errors_is (some e) no_ready ≡ true → ends_rejected cs ≡ true
Ending cs s waits = Unit

Ending-append :
    {Db : Type 0} (cs ds : List Call) (s : System Db) (a : Answer)
    → Ending ds s a
    → Ending (cs ++ ds) s a
Ending-append cs ds s (got l) h = h
Ending-append cs ds s (fails e) h = λ k. ends_rejected-append cs ds (h k)
Ending-append cs ds s waits h = tt

module _ (sql : Sqlite) where
  -- From `s`, the calls `calls` lead to the state and the answer of `r`.
  pub record Refines (s : System sql.Db) (r : System sql.Db × Answer) : Type 0 where
    pub calls : List Call
    pub runs : run sql calls s ≡ some r.0
    pub ending : Ending calls r.0 r.1

  run-append :
      (cs ds : List Call) (s t : System sql.Db)
      → run sql cs s ≡ some t
      → run sql (cs ++ ds) s ≡ run sql ds t
  unfolding run
  run-append [] ds s t h = ground (arith, h)
  run-append (c ∷ cs) ds s t h =
      let (u, e, k) = >>=-eq-some (step sql c s) _ h in rw e (run-append cs ds u t k)

  -- The calls that come first.
  Refines-after :
      (cs : List Call) (s t : System sql.Db) (r : System sql.Db × Answer)
      → run sql cs s ≡ some t
      → Refines t r
      → Refines s r
  Refines-after cs s t r h k = record {
    calls = cs ++ k.calls;
    runs = run-append cs k.calls s t h ∙ k.runs;
    ending = Ending-append cs k.calls r.0 r.1 k.ending;
  }

  Refines-here : (s : System sql.Db) (a : Answer) → Ending [] s a → Refines s (s, a)
  unfolding run
  Refines-here s a h = record { calls = []; runs = refl; ending = h }

  -- A scan is one call, and what it grants is the newest lease.
  abbrev Newest : System sql.Db × Acquired → Type 0
  Newest (s, granted l) = (ls : List Lease) × (s.leases ≡ l ∷ ls)
  Newest (s, refused e) = Unit

  handed-Newest :
      (s : System sql.Db) (p : _) (a : Acquired)
      → Newest (record { pool = p; leases = handed a s.leases }, a)
  handed-Newest s p (granted l) = (s.leases, refl)
  handed-Newest s p (refused e) = tt

  take-run :
      (now : ℕ) (s : System sql.Db)
      → Each (λ v. (run sql (acquires now ∷ []) s ≡ some v.0) × Newest v) (take sql now s)
  unfolding take run step
  take-run now s =
      Each-bind (acquire_locked sql now s.pool) _
        λ r e. Each-some (rw e refl, handed-Newest s r.0 r.1)

  reject-Refines : (cs : List Call) (s : System sql.Db) → Each (Refines s) (reject sql cs s)
  unfolding reject run step
  reject-Refines cs s = Each-bind (run sql cs s) _ λ u e.
      Each-some (
        Refines-after cs s u _ e (record { calls = rejects ∷ []; runs = refl; ending = λ k. refl }))

  after_last_scan-Refines :
      (cs : List Call) (v : System sql.Db × Acquired)
      → Newest v
      → Each (Refines v.0) (after_last_scan sql cs v)
  unfolding after_last_scan
  after_last_scan-Refines cs (s, granted l) n = Each-some (Refines-here s (got l) n)
  after_last_scan-Refines cs (s, refused e) n =
      Each-if (errors_is (some e) no_ready) _ _ (λ _. reject-Refines cs s)
        (λ h. Each-some (Refines-here s (fails e) (λ k. cc)))

  -- A scan, and what follows it.
  taken-Refines :
      (now : ℕ) (s : System sql.Db)
      (next : System sql.Db × Acquired → Option (System sql.Db × Answer))
      → ((v : System sql.Db × Acquired) → Newest v → Each (Refines v.0) (next v))
      → Each (Refines s) (do v ← take sql now s; next v)
  taken-Refines now s next h = Each-bind (take sql now s) _ λ v e.
      let (runs, newest) = (take-run now s).at v e in
      Each-mono (λ r k. Refines-after (acquires now ∷ []) s v.0 r runs k) (h v newest)

  -- Calls of others, and what follows them.
  ran-Refines :
      (cs : List Call) (s : System sql.Db) (next : System sql.Db → Option (System sql.Db × Answer))
      → ((u : System sql.Db) → Each (Refines u) (next u))
      → Each (Refines s) (do u ← run sql cs s; next u)
  ran-Refines cs s next h =
      Each-bind (run sql cs s) _ λ u e. Each-mono (λ r k. Refines-after cs s u r e k) (h u)

  on_wake-Refines :
      (t : Turn) (w : Wake) (rest : System sql.Db → Option (System sql.Db × Answer))
      (s : System sql.Db)
      → Each (Refines s) (rest s)
      → Each (Refines s) (on_wake sql t w rest s)
  unfolding on_wake
  on_wake-Refines t (gone true) rest s h = Each-some (Refines-here s _ (λ k. cc))
  on_wake-Refines t (gone false) rest s h = Each-some (Refines-here s _ (λ k. cc))
  on_wake-Refines t notified rest s h = h
  on_wake-Refines t timed_out rest s h =
      ran-Refines t.between s _
        λ u. taken-Refines t.later u _ λ v n. after_last_scan-Refines t.after v n

  after_scan-Refines :
      (t : Turn) (rest : System sql.Db → Option (System sql.Db × Answer))
      (v : System sql.Db × Acquired)
      → Newest v
      → Each (Refines v.0) (rest v.0)
      → Each (Refines v.0) (after_scan sql t rest v)
  unfolding after_scan
  after_scan-Refines t rest (s, granted l) n h = Each-some (Refines-here s (got l) n)
  after_scan-Refines t rest (s, refused e) n h =
      Each-if (errors_is (some e) no_ready) _ _
        (λ _.
          Each-if t.expired _ _ (λ _. reject-Refines t.after s)
            (λ _. on_wake-Refines t t.wake rest s h))
        (λ k. Each-some (Refines-here s (fails e) (λ j. cc)))

  -- Whatever happens in its turns, Acquire's effect on the pool is that of a sequence of the pool's
  -- calls, so every invariant of `run` survives it; a lease it returns is the newest one handed out;
  -- and where it returns ErrNoReady, the last of those calls counts the rejection.
  pub acquire-Refines :
      (turns : List Turn) (s : System sql.Db) → Each (Refines s) (acquire sql turns s)
  unfolding acquire
  acquire-Refines [] s = Each-some (Refines-here s waits tt)
  acquire-Refines (t ∷ ts) s = ran-Refines t.before s _ λ u.
      taken-Refines t.now u _
        λ v n. after_scan-Refines t (λ w. acquire sql ts w) v n (acquire-Refines ts v.0)
