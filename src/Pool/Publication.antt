-- ===== src/Pool/Publication.antt =====
-- When publish makes an instance ready, and what it leaves otherwise.
use tor_rotating_http_proxy.Prelude.{
  ℕ, suc, ◌≡◌, refl, sym, String, Bool, true, false, not, ◌&&◌, Option, none, some, arith,
  if◌then◌else◌, eq_iff, >>=-eq-some, inl, inr, Bool-cases, subst,
}
use mathlib.Core.Option.{some-injective}
use tor_rotating_http_proxy.Errors.{GoError, is_some}
use tor_rotating_http_proxy.Store.{Sqlite, SqliteLaws, Returns, observe, or_unused}
use tor_rotating_http_proxy.Store.Laws.{observe_lem}
use tor_rotating_http_proxy.Pool.Types.{Pool, Slot, ready, slot_at, slot_at-set_slot}
use tor_rotating_http_proxy.Pool.Slots.{
  publish, publish_at, publish_observed, published, show_check, checked, holding, used_ip_error,
}
use tor_rotating_http_proxy.Pool.Valid.{holder, holder-set_slot}

-- The endpoint stands in its own slot, which is Ready.
pub record Stands {Db : Type 0} (e : ℕ) (p : Pool Db) : Type 0 where
  pub slot : Slot
  pub at : slot_at p.slots (p.heap e).id ≡ some slot
  pub held : slot.ep ≡ some e
  pub state : slot.view.state ≡ ready

module _ {Db : Type 0} where
  -- The conditions under which publish goes through, after the call of Observe that returned `r`.
  abbrev pub admits : ℕ → Pool Db → Returns Db → Bool
  admits e p r =
      not (is_some r.2)
      && (not (p.unique && not r.1)
          && (not (p.unique && is_some (p.reserved (p.heap e).ip)) && not (p.heap e).cancelled))

  publish_observed-admits :
      (now e : ℕ) (s : Slot) (p : Pool Db) (r : Returns Db)
      → (publish_observed now e s p r).1 ≡ admits e p r
  unfolding publish_observed
  publish_observed-admits now e s p (db, unused, some err) = refl
  publish_observed-admits now e s p (db, unused, none) = ground arith

  publish_observed-true :
      (now e : ℕ) (s : Slot) (p : Pool Db) (r : Returns Db)
      → admits e p r ≡ true
      → publish_observed now e s p r ≡ (published now e s (record p { store = r.0 }), true, none)
  unfolding publish_observed
  publish_observed-true now e s p (db, unused, some err) h = cc
  publish_observed-true now e s p (db, unused, none) h = ground arith

  refusal : ℕ → Pool Db → Returns Db → Option GoError
  refusal e p (db, unused, some err) = some err
  refusal e p (db, unused, none) =
      if p.unique && not unused then some (used_ip_error (p.heap e).ip) else none

  publish_observed-refused :
      (now e : ℕ) (s : Slot) (p : Pool Db) (r : Returns Db)
      → admits e p r ≡ false
      → publish_observed now e s p r ≡ (record p { store = r.0 }, false, refusal e p r)
  unfolding publish_observed refusal
  publish_observed-refused now e s p (db, unused, some err) h = refl
  publish_observed-refused now e s p (db, unused, none) h = ground arith

module _ (sql : Sqlite) (laws : SqliteLaws sql) where
  -- The conditions, read off the history: the address was not used before.
  pub admits-unused :
      (e : ℕ) (p : Pool sql.Db)
      → admits e p (observe sql p.store (p.heap e).ip) ≡ true
      → p.unique ≡ true
      → (or_unused (sql.row p.store (p.heap e).ip) ≡ false) × (p.reserved (p.heap e).ip ≡ none)
  admits-unused e p h m = ground (arith, observe_lem sql laws p.store (p.heap e).ip (p.heap e).ip)

  published-Stands :
      (now e : ℕ) (s t : Slot) (p : Pool sql.Db)
      → slot_at p.slots (p.heap e).id ≡ some t
      → Stands e (published now e s p)
  unfolding published
  published-Stands now e s t p found = record {
    slot = holding e s;
    at = ground (arith, slot_at-set_slot p.slots (p.heap e).id (p.heap e).id (holding e s) t found);
    held = refl;
    state = refl;
  }

  -- What publish comes to, with the pool `q` and the result `ok`: whether the endpoint is admitted
  -- decides; an admitted one stands in its slot and every waiting Acquire is woken, and in unique
  -- mode its address was unused and not reserved, and is reserved now; for one turned away no
  -- slot's endpoint and no reservation changes.
  pub record Decided (e : ℕ) (p q : Pool sql.Db) (ok : Bool) : Type 0 where
    pub decision : ok ≡ admits e p (observe sql p.store (p.heap e).ip)
    pub stands : ok ≡ true → Stands e q
    pub woken : ok ≡ true → q.notify ≡ suc p.notify
    pub claims :
        ok ≡ true
        → p.unique ≡ true
        → (or_unused (sql.row p.store (p.heap e).ip) ≡ false)
          × (p.reserved (p.heap e).ip ≡ none)
          × (q.reserved (p.heap e).ip ≡ some e)
    pub unmoved :
        ok ≡ false
        → (j : ℕ) (a : String)
        → (holder q.slots j ≡ holder p.slots j) × (q.reserved a ≡ p.reserved a)

  shown :
      (now e : ℕ) (s : Slot) (p : Pool sql.Db)
      → slot_at p.slots (p.heap e).id ≡ some s
      → slot_at (show_check now e s p).slots (p.heap e).id ≡ some (checked now (p.heap e) s)
  unfolding show_check
  shown now e s p found = ground (
    arith,
    slot_at-set_slot p.slots (p.heap e).id (p.heap e).id (checked now (p.heap e) s) s found,
  )

  admitted-Decided :
      (now e : ℕ) (s : Slot) (p : Pool sql.Db)
      → slot_at p.slots (p.heap e).id ≡ some s
      → admits e p (observe sql p.store (p.heap e).ip) ≡ true
      → Decided e p
          (published now e
            (checked now (p.heap e) s)
            (record (show_check now e s p) { store = (observe sql p.store (p.heap e).ip).0 }))
          true
  unfolding published show_check
  admitted-Decided now e s p found a = record {
    decision = sym a;
    stands = λ _.
        unfold published show_check in
        (published-Stands now e (checked now (p.heap e) s) (checked now (p.heap e) s)
          (record (show_check now e s p) { store = (observe sql p.store (p.heap e).ip).0 })
          (shown now e s p found));
    woken = λ _. refl;
    claims = λ _ m.
        let (u, f) = admits-unused e p a m in
        (u, f, ground (arith, eq_iff (p.heap e).ip (p.heap e).ip));
    unmoved = λ h. absurd (cc);
  }

  refused-Decided :
      (now e : ℕ) (s : Slot) (p : Pool sql.Db)
      → slot_at p.slots (p.heap e).id ≡ some s
      → admits e p (observe sql p.store (p.heap e).ip) ≡ false
      → Decided e p
          (record (show_check now e s p) { store = (observe sql p.store (p.heap e).ip).0 })
          false
  unfolding show_check
  refused-Decided now e s p found a = record {
    decision = sym a;
    stands = λ h. absurd (cc);
    woken = λ h. absurd (cc);
    claims = λ h. absurd (cc);
    unmoved = λ _ j b. (
      ground (
        arith,
        found,
        holder-set_slot p.slots (p.heap e).id j (checked now (p.heap e) s) s found,
      ),
      refl,
    );
  }

  publish_at-Decided :
      (now e : ℕ) (s : Slot) (p : Pool sql.Db)
      → slot_at p.slots (p.heap e).id ≡ some s
      → Decided e p (publish_at sql now e s p).0 (publish_at sql now e s p).1
  unfolding publish_at
  publish_at-Decided now e s p found =
      let r = observe sql p.store (p.heap e).ip in
      let c = checked now (p.heap e) s in
      let goal : Pool sql.Db × Bool × Option GoError → Type 0 = λ o. Decided e p o.0 o.1 in
      elim (Bool-cases (admits e p r)) [
        | inl a ↦
            subst goal (sym (publish_observed-true now e c (show_check now e s p) r a))
              (admitted-Decided now e s p found a)
        | inr a ↦
            subst goal (sym (publish_observed-refused now e c (show_check now e s p) r a))
              (refused-Decided now e s p found a)
      ]

  -- Where publish does not panic, it admits the endpoint exactly when the check of the history had no
  -- error, the endpoint is not cancelled, and, in unique mode, its address is unused and has no
  -- reservation. An admitted endpoint stands in its slot, the waiting calls of Acquire are woken, and
  -- in unique mode the address is reserved for it. Otherwise no slot's endpoint and no reservation
  -- changes.
  pub publish_decides :
      (now e : ℕ) (p q : Pool sql.Db) (ok : Bool) (err : Option GoError)
      → publish sql now e p ≡ some (q, ok, err)
      → Decided e p q ok
  unfolding publish
  publish_decides now e p q ok err h =
      let (s, found, k) = >>=-eq-some (slot_at p.slots (p.heap e).id) _ h in
      subst (λ (o : Pool sql.Db × Bool × Option GoError). Decided e p o.0 o.1)
        (some-injective _ _ k) (publish_at-Decided now e s p found)
