-- ===== src/Pool/Kept/Publish.antt =====
-- What publish keeps, and any change of the database that keeps used addresses used.
use tor_rotating_http_proxy.Prelude.{
  ℕ, String, ◌≡◌, refl, true, false, none, some, arith, length-set, Each, Each-bind, Each-some,
  eq_iff, ◌&&◌, ◌||◌, not, Bool-cases, inl, inr,
}
use tor_rotating_http_proxy.Errors.{is_some}
use tor_rotating_http_proxy.Store.{Sqlite, SqliteLaws, Returns, observe}
use tor_rotating_http_proxy.Store.Laws.{observe_keeps_used}
use tor_rotating_http_proxy.Pool.Types.{Slot, Pool, slot_at, slot_at-set_slot}
use tor_rotating_http_proxy.Pool.Slots.{
  publish_observed, published, publish, publish_at, show_check, checked, holding,
}
use tor_rotating_http_proxy.Pool.Valid.{Valid, holder-set_slot, keep_last_bounded, Valid-frame}
use tor_rotating_http_proxy.Pool.Kept.{Kept, Kept-trans}

module _ (sql : Sqlite) where
  published-Valid :
      (now e : ℕ) (s : Slot) (p : Pool sql.Db)
      → slot_at p.slots (p.heap e).id ≡ some s
      → (p.unique ≡ true → p.reserved (p.heap e).ip ≡ none)
      → Valid p
      → Valid (published now e s p)
  unfolding published
  published-Valid now e s p found free v = record {
    placed = λ id d h.
        ground
          (arith, v.placed id d, holder-set_slot p.slots (p.heap e).id id (holding e s) s found);
    reserved = λ id d h m. ground (
      arith,
      v.reserved id d,
      free m,
      eq_iff (p.heap e).ip (p.heap d).ip,
      eq_iff (p.heap e).ip (p.heap e).ip,
      holder-set_slot p.slots (p.heap e).id id (holding e s) s found,
    );
    closed = v.closed;
    bounded = keep_last_bounded p.events _ v.bounded;
  }

  published-Kept :
      (now e : ℕ) (s : Slot) (p : Pool sql.Db)
      → slot_at p.slots (p.heap e).id ≡ some s
      → (p.unique ≡ true → p.reserved (p.heap e).ip ≡ none)
      → Kept sql p (published now e s p)
  unfolding published
  published-Kept now e s p found free = record {
    mode = refl;
    size = length-set _ _ _;
    ids = λ d. refl;
    ips = λ d. refl;
    valid = unfold published in published-Valid now e s p found free;
    used = λ j h. h;
    onces = λ d c. ground (arith, c);
    ran = λ k c. ground (arith, c);
    drawn = ground arith;
  }

  pub store-Kept :
      (p : Pool sql.Db) (db : sql.Db)
      → ((j : String) → sql.row p.store j ≡ some true → sql.row db j ≡ some true)
      → Kept sql p (record p { store = db })
  store-Kept p db u = record {
    mode = refl;
    size = refl;
    ids = λ d. refl;
    ips = λ d. refl;
    valid = λ v. record {
      placed = v.placed;
      reserved = v.reserved;
      closed = v.closed;
      bounded = v.bounded;
    };
    used = u;
    onces = λ d c. c;
    ran = λ k c. c;
    drawn = omega arith;
  }

  none_of_free :
      (p : Pool sql.Db) (e : ℕ)
      → p.unique ≡ true
      → (p.unique && is_some (p.reserved (p.heap e).ip) || (p.heap e).cancelled) ≡ false
      → p.reserved (p.heap e).ip ≡ none
  none_of_free p e m h = ground arith

  shown :
      (now e : ℕ) (s : Slot) (p : Pool sql.Db)
      → slot_at p.slots (p.heap e).id ≡ some s
      → slot_at (show_check now e s p).slots (p.heap e).id ≡ some (checked now (p.heap e) s)
  unfolding show_check
  shown now e s p found = ground (
    arith,
    slot_at-set_slot p.slots (p.heap e).id (p.heap e).id (checked now (p.heap e) s) s found,
  )

  publish_observed-Kept :
      (now e : ℕ) (s : Slot) (p : Pool sql.Db) (r : Returns sql.Db)
      → slot_at p.slots (p.heap e).id ≡ some s
      → ((j : String) → sql.row p.store j ≡ some true → sql.row r.0 j ≡ some true)
      → Kept sql p (publish_observed now e s p r).0
  unfolding publish_observed
  publish_observed-Kept now e s p (db, unused, some err) found u = store-Kept p db u
  publish_observed-Kept now e s p (db, unused, none) found u =
      let q : Pool sql.Db = record p { store = db } in
      elim (Bool-cases (p.unique && not unused)) [
        | inl seen ↦ rw seen (store-Kept p db u)
        | inr unseen ↦
            rw unseen
              (elim (Bool-cases
                (p.unique && is_some (p.reserved (p.heap e).ip) || (p.heap e).cancelled)) [
                  | inl taken ↦ rw taken (store-Kept p db u)
                  | inr free ↦ rw free (
                      Kept-trans sql (store-Kept p db u)
                        (published-Kept now e s q found (λ m. none_of_free p e m free)))
                ])
      ]

  show_check-Kept :
      (now e : ℕ) (s : Slot) (p : Pool sql.Db)
      → slot_at p.slots (p.heap e).id ≡ some s
      → Kept sql p (show_check now e s p)
  unfolding show_check
  show_check-Kept now e s p found = record {
    mode = refl;
    size = length-set _ _ _;
    ids = λ d. refl;
    ips = λ d. refl;
    valid =
        Valid-frame p _ refl
          (λ j d h.
            ground
              (arith, holder-set_slot p.slots (p.heap e).id j (checked now (p.heap e) s) s found))
          (λ j. refl) (λ d. refl) (λ d. refl) (λ d c. c) (λ b. b);
    used = λ j h. h;
    onces = λ d c. ground (arith, c);
    ran = λ k c. ground (arith, c);
    drawn = ground arith;
  }

  publish_at-Kept :
      SqliteLaws sql
      → (now e : ℕ) (s : Slot) (p : Pool sql.Db) → slot_at p.slots (p.heap e).id ≡ some s
      → Kept sql p (publish_at sql now e s p).0
  unfolding publish_at show_check
  publish_at-Kept laws now e s p found =
      Kept-trans sql (unfold show_check in show_check-Kept now e s p found) (
        publish_observed-Kept now e (checked now (p.heap e) s) (show_check now e s p)
          (observe sql p.store (p.heap e).ip) (shown now e s p found)
          (observe_keeps_used sql laws p.store (p.heap e).ip))

  pub publish-Kept :
      SqliteLaws sql
      → (now e : ℕ) (p : Pool sql.Db) → Each (λ r. Kept sql p r.0) (publish sql now e p)
  unfolding publish
  publish-Kept laws now e p =
      Each-bind (slot_at p.slots (p.heap e).id) _
        λ s at. Each-some (publish_at-Kept laws now e s p at)
