-- ===== src/Pool/Kept/Finish.antt =====
-- What Lease.Finish keeps.
use tor_rotating_http_proxy.Prelude.{
  ℕ, suc, ◌≡◌, refl, true, Option, none, some, arith, length-set, Each, Each-bind, Each-some,
  Each-none, Each-if, Each-mono, update,
}
use tor_rotating_http_proxy.Errors.{GoError}
use tor_rotating_http_proxy.Store.{Sqlite}
use tor_rotating_http_proxy.Pool.Types.{Event, Slot, Pool, slot_at}
use tor_rotating_http_proxy.Pool.Acquire.{Lease}
use tor_rotating_http_proxy.Pool.Finish.{
  finish, finish_unique, finish_reuse, close_done, close_once, unique_finished, reuse_failed,
  reuse_completed, finish_reuse_at, released, finish_by, finish_reuse_once, slot_after_unique,
  slot_after_failure,
}
use tor_rotating_http_proxy.Pool.Valid.{Valid, holder-set_slot, keep_last_bounded, Valid-frame}
use tor_rotating_http_proxy.Pool.Kept.{Kept, Kept-refl, Kept-trans, heap-Kept}

abbrev finished_event : ℕ → ℕ → Event
finished_event now id = record {
  time = now;
  instance_id = id;
  message = "Request finished; rotating";
}

module _ (sql : Sqlite) where
  close_done-Kept :
      (e : ℕ) (p : Pool sql.Db) → (p.heap e).once ≡ true → Each (Kept sql p) (close_done e p)
  unfolding close_done
  close_done-Kept e p ran =
      Each-if (p.heap e).done _ _ (λ _. Each-none)
        (λ _. Each-some (heap-Kept sql p e _ refl refl (λ _ _. ran) (λ c. c)))

  close_once-Kept : (e : ℕ) (p : Pool sql.Db) → Each (Kept sql p) (close_once e p)
  unfolding close_once
  close_once-Kept e p =
      let q : Pool sql.Db = record p {
        heap = update p.heap e (record (p.heap e) { once = true });
      } in
      let h : Kept sql p q = heap-Kept sql p e _ refl refl (λ _ _. refl) (λ _. refl) in
      Each-if (p.heap e).once _ _ (λ _. Each-some (Kept-refl sql p))
        (λ _. Each-mono (λ r k. Kept-trans sql h k) (close_done-Kept e q (ground arith)))

  unique_finished-Valid :
      (now e : ℕ) (err : Option GoError) (s : Slot) (p : Pool sql.Db)
      → slot_at p.slots (p.heap e).id ≡ some s
      → Valid p
      → Valid (unique_finished now e err s p)
  unfolding unique_finished slot_after_unique
  unique_finished-Valid now e err s p found =
      Valid-frame p _ (ground arith)
        (λ j d h.
          ground
            (arith, holder-set_slot p.slots (p.heap e).id j (slot_after_unique e err s) s found))
        (λ j. ground arith) (λ d. ground arith) (λ d. ground arith) (λ d c h. ground (arith, c))
        (λ b. ground (arith, keep_last_bounded p.events (finished_event now (p.heap e).id)))

  unique_finished-Kept :
      (now e : ℕ) (err : Option GoError) (s : Slot) (p : Pool sql.Db)
      → slot_at p.slots (p.heap e).id ≡ some s
      → Kept sql p (unique_finished now e err s p)
  unfolding unique_finished
  unique_finished-Kept now e err s p found = record {
    mode = ground arith;
    size = length-set _ _ _;
    ids = λ d. ground arith;
    ips = λ d. ground arith;
    valid = unfold unique_finished in unique_finished-Valid now e err s p found;
    used = λ j h. ground arith;
    onces = λ d c. ground (arith, c);
    ran = λ k c. ground (arith, c);
    drawn = ground arith;
  }

  unique_finished_ran :
      (now e : ℕ) (err : Option GoError) (s : Slot) (p : Pool sql.Db)
      → ((unique_finished now e err s p).heap e).once ≡ true
  unfolding unique_finished
  unique_finished_ran now e err s p = ground arith

  finish_unique-Kept :
      (now e : ℕ) (err : Option GoError) (p : Pool sql.Db)
      → Each (Kept sql p) (finish_unique now e err p)
  unfolding finish_unique
  finish_unique-Kept now e err p =
      Each-if (p.heap e).once _ _ (λ _. Each-some (Kept-refl sql p))
        λ _. Each-bind (slot_at p.slots (p.heap e).id) _ λ s at.
          Each-mono (λ r k. Kept-trans sql (unique_finished-Kept now e err s p at) k)
            (close_done-Kept e (unique_finished now e err s p) (unique_finished_ran now e err s p))

  reuse_failed-Valid :
      (now e : ℕ) (err : GoError) (s : Slot) (p : Pool sql.Db)
      → slot_at p.slots (p.heap e).id ≡ some s
      → Valid p
      → Valid (reuse_failed now e err s p)
  unfolding reuse_failed
  reuse_failed-Valid now e err s p found =
      Valid-frame p _ (ground arith)
        (λ j d h. ground (
          arith,
          holder-set_slot p.slots (p.heap e).id j (slot_after_failure err s) s found,
          holder-set_slot p.slots (p.heap e).id j (record s { fails = suc s.fails }) s found,
        ))
        (λ j. ground arith) (λ d. ground arith) (λ d. ground arith) (λ d c h. ground (arith, c))
        (λ b. ground (arith, keep_last_bounded p.events (finished_event now (p.heap e).id)))

  reuse_failed-Kept :
      (now e : ℕ) (err : GoError) (s : Slot) (p : Pool sql.Db)
      → slot_at p.slots (p.heap e).id ≡ some s
      → Kept sql p (reuse_failed now e err s p)
  unfolding reuse_failed
  reuse_failed-Kept now e err s p found = record {
    mode = ground arith;
    size = grind (arith, length-set);
    ids = λ d. ground arith;
    ips = λ d. ground arith;
    valid = unfold reuse_failed in reuse_failed-Valid now e err s p found;
    used = λ j h. ground arith;
    onces = λ d c. ground (arith, c);
    ran = λ k c. ground (arith, c);
    drawn = ground arith;
  }

  reuse_completed-Kept :
      (e : ℕ) (s : Slot) (p : Pool sql.Db)
      → slot_at p.slots (p.heap e).id ≡ some s
      → Kept sql p (reuse_completed e s p)
  unfolding reuse_completed
  reuse_completed-Kept e s p found = record {
    mode = refl;
    size = length-set _ _ _;
    ids = λ d. refl;
    ips = λ d. refl;
    valid =
        Valid-frame p _ refl
          (λ j d h.
            ground
              (arith, holder-set_slot p.slots (p.heap e).id j (record s { fails = 0 }) s found))
          (λ j. refl) (λ d. refl) (λ d. refl) (λ d c. c) (λ b. b);
    used = λ j h. h;
    onces = λ d c. ground (arith, c);
    ran = λ k c. ground (arith, c);
    drawn = ground arith;
  }

  finish_reuse_at-Kept :
      (now e : ℕ) (err : Option GoError) (s : Slot) (p : Pool sql.Db)
      → slot_at p.slots (p.heap e).id ≡ some s
      → Each (Kept sql p) (finish_reuse_at now e err s p)
  unfolding finish_reuse_at
  finish_reuse_at-Kept now e none s p at = Each-some (reuse_completed-Kept e s p at)
  finish_reuse_at-Kept now e (some err) s p at =
      Each-mono (λ r k. Kept-trans sql (reuse_failed-Kept now e err s p at) k)
        (close_once-Kept e (reuse_failed now e err s p))

  released-Kept : (e : ℕ) (p : Pool sql.Db) → Kept sql p (released e p)
  unfolding released
  released-Kept e p = heap-Kept sql p e _ refl refl (λ c. c) (λ c. c)

  released_slot :
      (e : ℕ) (s : Slot) (p : Pool sql.Db)
      → slot_at p.slots (p.heap e).id ≡ some s
      → slot_at (released e p).slots ((released e p).heap e).id ≡ some s
  unfolding released
  released_slot e s p at = ground (arith, at)

  finish_reuse-Kept :
      (now e : ℕ) (err : Option GoError) (p : Pool sql.Db)
      → Each (Kept sql p) (finish_reuse now e err p)
  unfolding finish_reuse
  finish_reuse-Kept now e err p = Each-bind (slot_at p.slots (p.heap e).id) _ λ s at.
      Each-mono (λ r k. Kept-trans sql (released-Kept e p) k)
        (finish_reuse_at-Kept now e err s (released e p) (released_slot e s p at))

  ran-Kept :
      (p : Pool sql.Db) (k : ℕ) → Kept sql p (record p { lease_ran = update p.lease_ran k true })
  ran-Kept p k = record {
    mode = refl;
    size = refl;
    ids = λ d. refl;
    ips = λ d. refl;
    valid = λ v. record {
      placed = v.placed;
      reserved = v.reserved;
      closed = v.closed;
      bounded = v.bounded;
    };
    used = λ j h. h;
    onces = λ d c. ground (arith, c);
    ran = λ k c. ground (arith, c);
    drawn = ground arith;
  }

  finish_by-Kept :
      (o : Option ℕ) (now e : ℕ) (err : Option GoError) (p : Pool sql.Db)
      → Each (Kept sql p) (finish_by o now e err p)
  unfolding finish_by finish_reuse_once
  finish_by-Kept none now e err p = finish_unique-Kept now e err p
  finish_by-Kept (some k) now e err p =
      Each-if (p.lease_ran k) _ _ (λ _. Each-some (Kept-refl sql p))
        λ _.
          Each-mono (λ r h. Kept-trans sql (ran-Kept p k) h)
            (finish_reuse-Kept now e err (record p { lease_ran = update p.lease_ran k true }))

  pub finish-Kept :
      (now : ℕ) (l : Lease) (err : Option GoError) (p : Pool sql.Db)
      → Each (Kept sql p) (finish now l err p)
  unfolding finish
  finish-Kept now l err p = finish_by-Kept l.once now l.ep err p
