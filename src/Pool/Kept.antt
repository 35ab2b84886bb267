-- ===== src/Pool/Kept.antt =====
-- What no operation of the pool changes: the mode, the number of slots, and which instance and
-- address an endpoint is for.
pub mod Publish
pub mod Finish
use tor_rotating_http_proxy.Prelude.{
  ℕ, zero, suc, String, ◌≤◌, ◌≡◌, refl, ◌∙◌, Bool, true, false, Option, none, some, arith, length,
  length-set, Each, Each-bind, Each-some, Each-none, Each-if, Each-mono, update, eq_iff, ◌+◌, ◌-◌,
  ◌%◌, get_elem?,
}
use tor_rotating_http_proxy.Errors.{GoError}
use tor_rotating_http_proxy.Store.{Sqlite, SqliteLaws, Returns, observe, consume}
use tor_rotating_http_proxy.Store.Laws.{observe_keeps_used, consume_keeps_used}
use tor_rotating_http_proxy.Pool.Types.{
  rotating, set_slot, State, Slot, Pool, Endpoint, slot_at, cancel, event_locked, broadcast_locked,
}
use tor_rotating_http_proxy.Pool.Slots.{
  set_state, publish_observed, published, withdraw, slot_in_state, state_message, withdrawn,
  withdraw_at, state_at, withdraw_at, count_rejected, publish, publish_at, show_check, checked,
}
use tor_rotating_http_proxy.Pool.Valid.{
  Valid, holder, holder-set_slot, keep_last_bounded, Valid-frame,
}
use tor_rotating_http_proxy.Pool.Acquire.{
  Lease, Acquired, Tried, pass, stop, scan, attempt_unique, attempt_reuse, acquire_locked,
  acquire_reuse_locked, at_slot, consumed, grant_unique, grant_reuse,
}
use tor_rotating_http_proxy.Pool.Finish.{
  finish, finish_unique, finish_reuse, close_done, close_once, unique_finished, reuse_failed,
  reuse_completed, finish_reuse_at, released, finish_by, finish_reuse_once,
}

pub record Kept (sql : Sqlite) (p q : Pool sql.Db) : Type 0 where
  pub mode : q.unique ≡ p.unique
  pub size : length q.slots ≡ length p.slots
  pub ids : (d : ℕ) → (q.heap d).id ≡ (p.heap d).id
  pub ips : (d : ℕ) → (q.heap d).ip ≡ (p.heap d).ip
  pub valid : Valid p → Valid q
  pub used : (j : String) → sql.row p.store j ≡ some true → sql.row q.store j ≡ some true
  pub onces : (d : ℕ) → (p.heap d).once ≡ true → (q.heap d).once ≡ true
  pub ran : (k : ℕ) → p.lease_ran k ≡ true → q.lease_ran k ≡ true
  pub drawn : p.lease_onces ≤ q.lease_onces

module _ (sql : Sqlite) where
  pub Kept-refl : (p : Pool sql.Db) → Kept sql p p
  Kept-refl p = record {
    mode = refl;
    size = refl;
    ids = λ d. refl;
    ips = λ d. refl;
    valid = λ v. v;
    used = λ j h. h;
    onces = λ d c. c;
    ran = λ k c. c;
    drawn = omega arith;
  }

  pub Kept-trans : {p q r : Pool sql.Db} → Kept sql p q → Kept sql q r → Kept sql p r
  Kept-trans h k = record {
    mode = k.mode ∙ h.mode;
    size = k.size ∙ h.size;
    ids = λ d. k.ids d ∙ h.ids d;
    ips = λ d. k.ips d ∙ h.ips d;
    valid = λ v. k.valid (h.valid v);
    used = λ j u. k.used j (h.used j u);
    onces = λ d c. k.onces d (h.onces d c);
    ran = λ j c. k.ran j (h.ran j c);
    drawn = omega (arith, h.drawn, k.drawn);
  }

  -- A change of one endpoint that keeps its instance and its address.
  pub heap-Kept :
      (p : Pool sql.Db) (e : ℕ) (ep : Endpoint)
      → ep.id ≡ (p.heap e).id
      → ep.ip ≡ (p.heap e).ip
      → (((p.heap e).done ≡ true → (p.heap e).once ≡ true) → ep.done ≡ true → ep.once ≡ true)
      → ((p.heap e).once ≡ true → ep.once ≡ true)
      → Kept sql p (record p { heap = update p.heap e ep })
  heap-Kept p e ep i j c o = record {
    mode = refl;
    size = refl;
    ids = λ d. ground arith;
    ips = λ d. ground arith;
    valid = λ v. record {
      placed = λ id d h. ground (arith, v.placed id d h);
      reserved = λ id d h m. ground (arith, v.reserved id d h m);
      closed = λ d h. ground (arith, v.closed d, c (v.closed e));
      bounded = v.bounded;
    };
    used = λ k h. h;
    onces = λ d c. ground (arith, c, o);
    ran = λ k c. c;
    drawn = omega arith;
  }

  pub cancel-Kept : (e : ℕ) (p : Pool sql.Db) → Kept sql p (cancel e p)
  unfolding cancel
  cancel-Kept e p = heap-Kept p e _ refl refl (λ c. c) (λ c. c)

  withdraw_at-Kept :
      (e : ℕ) (s : Slot) (p : Pool sql.Db)
      → slot_at p.slots (p.heap e).id ≡ some s
      → Kept sql p (withdraw_at e s p)
  unfolding withdraw_at
  withdraw_at-Kept e s p found = record {
    mode = ground arith;
    size = grind (arith, length-set);
    ids = λ d. ground arith;
    ips = λ d. ground arith;
    valid = λ v. record {
      placed = λ id d h.
          ground
            (arith, v.placed id d, holder-set_slot p.slots (p.heap e).id id (withdrawn s) s found);
      reserved = λ id d h m. ground (
        arith,
        v.placed id d,
        v.reserved id d,
        found,
        eq_iff (p.heap e).ip (p.heap d).ip,
        holder-set_slot p.slots (p.heap e).id id (withdrawn s) s found,
      );
      closed = λ d h. ground (arith, v.closed d);
      bounded = ground (arith, v.bounded);
    };
    used = λ j h. ground arith;
    onces = λ d c. ground (arith, c);
    ran = λ k c. ground (arith, c);
    drawn = ground arith;
  }

  pub withdraw-Kept : (e : ℕ) (p : Pool sql.Db) → Each (Kept sql p) (withdraw e p)
  unfolding withdraw
  withdraw-Kept e p =
      Each-bind (slot_at p.slots (p.heap e).id) _ λ s at. Each-some (withdraw_at-Kept e s p at)

  state_at-Kept :
      (now id : ℕ) (st : State) (n : Option ℕ) (problem : Option GoError) (s : Slot)
      (p : Pool sql.Db)
      → slot_at p.slots id ≡ some s
      → Kept sql p (state_at now id st n problem s p)
  unfolding state_at
  state_at-Kept now id st n problem s p found = record {
    mode = ground arith;
    size = grind (arith, length-set);
    ids = λ d. ground arith;
    ips = λ d. ground arith;
    valid =
        Valid-frame p _ (ground arith)
          (λ j d h.
            ground (arith, holder-set_slot p.slots id j (slot_in_state st n problem s) s found))
          (λ j. ground arith) (λ d. ground arith) (λ d. ground arith) (λ d c h. ground (arith, c))
          (λ b. ground (
            arith,
            keep_last_bounded p.events
                (record { time = now; instance_id = id; message = state_message st problem }),
          ));
    used = λ j h. ground arith;
    onces = λ d c. ground (arith, c);
    ran = λ k c. ground (arith, c);
    drawn = ground arith;
  }

  pub set_state-Kept :
      (now id : ℕ) (st : State) (n : Option ℕ) (problem : Option GoError) (p : Pool sql.Db)
      → Each (Kept sql p) (set_state now id st n problem p)
  unfolding set_state
  set_state-Kept now id st n problem p =
      Each-bind (slot_at p.slots id) _ λ s at. Each-some (state_at-Kept now id st n problem s p at)

  pub count_rejected-Kept : (p : Pool sql.Db) → Kept sql p (count_rejected p)
  unfolding count_rejected
  count_rejected-Kept p = record {
    mode = refl;
    size = refl;
    ids = λ d. refl;
    ips = λ d. refl;
    valid = λ v. record {
      placed = v.placed;
      reserved = v.reserved;
      closed = v.closed;
      bounded = v.bounded;
    };
    used = λ j h. h;
    onces = λ d c. c;
    ran = λ k c. c;
    drawn = omega arith;
  }
