-- ===== src/Proxy/Turns.antt =====
-- The loop of both handlers: rules for its turns, by induction on the attempts left.
use native.Mathlib.Nat.{add-zero}
use tor_rotating_http_proxy.Prelude.{
  ℕ, zero, suc, ◌+◌, ◌≤◌, ◌<◌, ◌≡◌, refl, subst, ap, Bool, true, false, ◌&&◌, Option, none, some,
  arith, length, get_elem?, if◌then◌else◌,
}
use tor_rotating_http_proxy.Errors.{GoError, is_some}
use tor_rotating_http_proxy.Proxy.{
  Try, Reply, Served, Next, over, again, serve_loop, proxy_error, replies, finishing, continue,
  on_acquire, acquire_error, nothing,
}

continue-length :
    (n : Next) (rest : Option GoError → Served) (k : ℕ)
    → ((e : Option GoError) → length (rest e).finishes ≤ k)
    → length (continue n rest).finishes ≤ k
continue-length (over r) rest k h = omega arith
continue-length (again e) rest k h = h e

-- The attempt is followed by another one, with the error that it left.
abbrev pub GoesOn : Next → Type 0
GoesOn (over r) = ⊥
GoesOn (again e) = Unit

-- What holds of every answer without a lease, and of the rest, holds of a turn of the loop.
turn_rule :
    (P : Served → Type 0) (stop : Bool) (acquire last : Option GoError) (rest : Served)
    → ((r : Reply) → P (replies r))
    → P rest
    → P (if stop then replies nothing else on_acquire acquire last rest)
turn_rule P true acquire last rest h k = h nothing
turn_rule P false none last rest h k = k
turn_rule P false (some err) last rest h k = h (acquire_error err last)

module _ (next : ℕ → Try → Next) (tries : ℕ → Try) where
  pub loop-length :
      (k i : ℕ) (last : Option GoError) → length (serve_loop next tries k i last).finishes ≤ k
  unfolding serve_loop
  loop-length zero i last = omega arith
  loop-length (suc k) i last = ground (
    arith,
    continue-length (next i (tries i)) (λ (e : Option GoError). serve_loop next tries k (suc i) e) k
        (loop-length k (suc i)),
  )

  -- Of a part of the loop, from the attempt `i`: the lease `j` was finished with its own result,
  -- and if another lease follows, its attempt goes on.
  abbrev pub Fair : ℕ → ℕ → Served → Type 0
  Fair i j s =
      (j < length s.finishes → get_elem? s.finishes j ≡ some (tries (i + j)).result)
      × (suc j < length s.finishes → GoesOn (next (i + j) (tries (i + j))))

  continue-Fair :
      (n : Next) (rest : Option GoError → Served) (i j : ℕ)
      → ((e : Option GoError) → Fair (suc i) j (rest e))
      → Fair (suc i) j (continue n rest)
  continue-Fair (over r) rest i j h = ((λ l. elim l [ ]), (λ l. elim l [ ]))
  continue-Fair (again e) rest i j h = h e

  continue-GoesOn :
      (n : Next) (rest : Option GoError → Served) → 0 < length (continue n rest).finishes → GoesOn n
  continue-GoesOn (over r) rest h = elim h [ ]
  continue-GoesOn (again e) rest h = tt

  pub loop-Fair : (k i j : ℕ) (last : Option GoError) → Fair i j (serve_loop next tries k i last)
  unfolding serve_loop
  loop-Fair zero i j last = ((λ l. elim l [ ]), (λ l. elim l [ ]))
  loop-Fair (suc k) i zero last =
      turn_rule (Fair i 0) (is_some last && (tries i).gone) (tries i).acquire last
        (finishing (tries i).result
          (continue (next i (tries i)) (λ err. serve_loop next tries k (suc i) err)))
        (λ r. ((λ l. elim l [ ]), (λ l. elim l [ ])))
        (rw add-zero (
          (λ l. refl),
          (λ l.
              continue-GoesOn (next i (tries i)) (λ err. serve_loop next tries k (suc i) err)
                (omega arith)),
        ))
  loop-Fair (suc k) i (suc j) last =
      let fair =
        continue-Fair (next i (tries i)) (λ err. serve_loop next tries k (suc i) err) i j
          (loop-Fair k (suc i) j) in
      let shift : i + suc j ≡ suc i + j = omega arith in
      turn_rule (Fair i (suc j)) (is_some last && (tries i).gone) (tries i).acquire last
        (finishing (tries i).result
          (continue (next i (tries i)) (λ err. serve_loop next tries k (suc i) err)))
        (λ r. ((λ l. elim l [ ]), (λ l. elim l [ ])))
        (rw shift ((λ l. fair.0 (omega arith)), (λ l. fair.1 (omega arith))))

  -- Attempts that go on, one after the other, up to the attempt `i + n`.
  pub record Reaches (i n : ℕ) : Type 0 where
    pub leased : (j : ℕ) → j ≤ n → (tries (i + j)).acquire ≡ none
    pub present : (j : ℕ) → j ≤ n → (tries (i + j)).gone ≡ false
    pub failing : (j : ℕ) → j < n → next (i + j) (tries (i + j)) ≡ again (tries (i + j)).result

  Reaches-first : (i n : ℕ) → Reaches i n → ((tries i).acquire ≡ none) × ((tries i).gone ≡ false)
  Reaches-first i n h = (
    subst (λ m. (tries m).acquire ≡ none) (add-zero i) (h.leased 0 (omega arith)),
    subst (λ m. (tries m).gone ≡ false) (add-zero i) (h.present 0 (omega arith)),
  )

  shift : (i j : ℕ) → i + suc j ≡ suc i + j
  shift i j = omega arith

  Reaches-rest : (i n : ℕ) → Reaches i (suc n) → Reaches (suc i) n
  Reaches-rest i n h = record {
    leased =
        λ j l. subst (λ m. (tries m).acquire ≡ none) (shift i j) (h.leased (suc j) (omega arith));
    present =
        λ j l. subst (λ m. (tries m).gone ≡ false) (shift i j) (h.present (suc j) (omega arith));
    failing = λ j l.
        subst (λ m. next m (tries m) ≡ again (tries m).result) (shift i j)
          (h.failing (suc j) (omega arith));
  }

  -- A turn whose lease is used, and that goes on or not.
  turn_on :
      (k i : ℕ) (last : Option GoError) (r : Option GoError)
      → (tries i).acquire ≡ none
      → (tries i).gone ≡ false
      → next i (tries i) ≡ again r
      → serve_loop next tries (suc k) i last
        ≡ finishing (tries i).result (serve_loop next tries k (suc i) r)
  unfolding serve_loop
  turn_on k i last r a g e = ground (arith, a, g, e)

  turn_over :
      (k i : ℕ) (last : Option GoError) (r : Reply)
      → (tries i).acquire ≡ none
      → (tries i).gone ≡ false
      → next i (tries i) ≡ over r
      → serve_loop next tries (suc k) i last ≡ finishing (tries i).result (replies r)
  unfolding serve_loop
  turn_over k i last r a g e = ground (arith, a, g, e)

  pub loop-reply :
      (k i n : ℕ) (last : Option GoError) (r : Reply)
      → n < k
      → Reaches i n
      → next (i + n) (tries (i + n)) ≡ over r
      → (serve_loop next tries k i last).reply ≡ r
  loop-reply zero i n last r lt h e = elim lt [ ]
  loop-reply (suc k) i zero last r lt h e =
      let (a, g) = Reaches-first i 0 h in
      let over_at : next i (tries i) ≡ over r =
        subst (λ m. next m (tries m) ≡ over r) (add-zero i) e in
      rw (turn_over k i last r a g over_at) refl
  loop-reply (suc k) i (suc n) last r lt h e =
      let (a, g) = Reaches-first i (suc n) h in
      let on : next i (tries i) ≡ again (tries i).result =
        subst (λ m. next m (tries m) ≡ again (tries m).result) (add-zero i)
          (h.failing 0 (omega arith)) in
      rw (turn_on k i last (tries i).result a g on) (
        loop-reply k (suc i) n (tries i).result r (omega arith) (Reaches-rest i n h)
          (subst (λ m. next m (tries m) ≡ over r) (shift i n) e))

  -- Each of these attempts has had its lease, and no other.
  pub loop-leases :
      (k i n : ℕ) (last : Option GoError) (r : Reply)
      → n < k
      → Reaches i n
      → next (i + n) (tries (i + n)) ≡ over r
      → length (serve_loop next tries k i last).finishes ≡ suc n
  loop-leases zero i n last r lt h e = elim lt [ ]
  loop-leases (suc k) i zero last r lt h e =
      let (a, g) = Reaches-first i 0 h in
      let over_at : next i (tries i) ≡ over r =
        subst (λ m. next m (tries m) ≡ over r) (add-zero i) e in
      rw (turn_over k i last r a g over_at) refl
  loop-leases (suc k) i (suc n) last r lt h e =
      let (a, g) = Reaches-first i (suc n) h in
      let on : next i (tries i) ≡ again (tries i).result =
        subst (λ m. next m (tries m) ≡ again (tries m).result) (add-zero i)
          (h.failing 0 (omega arith)) in
      rw (turn_on k i last (tries i).result a g on) (
        ap suc (
          loop-leases k (suc i) n (tries i).result r (omega arith) (Reaches-rest i n h)
            (subst (λ m. next m (tries m) ≡ over r) (shift i n) e)))

  -- Where every attempt fails and goes on, the client gets the last one's error.
  pub loop-exhausted :
      (n i : ℕ) (last : Option GoError) (err : GoError)
      → Reaches i n
      → next (i + n) (tries (i + n)) ≡ again (some err)
      → (serve_loop next tries (suc n) i last).reply ≡ proxy_error err
  loop-exhausted zero i last err h e =
      let (a, g) = Reaches-first i 0 h in
      let on : next i (tries i) ≡ again (some err) =
        subst (λ m. next m (tries m) ≡ again (some err)) (add-zero i) e in
      rw (turn_on 0 i last (some err) a g on) (unfold serve_loop in refl)
  loop-exhausted (suc n) i last err h e =
      let (a, g) = Reaches-first i (suc n) h in
      let on : next i (tries i) ≡ again (tries i).result =
        subst (λ m. next m (tries m) ≡ again (tries m).result) (add-zero i)
          (h.failing 0 (omega arith)) in
      rw (turn_on (suc n) i last (tries i).result a g on) (
        loop-exhausted n (suc i) (tries i).result err (Reaches-rest i n h)
          (subst (λ m. next m (tries m) ≡ again (some err)) (shift i n) e))
