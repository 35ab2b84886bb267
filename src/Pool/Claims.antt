-- ===== src/Pool/Claims.antt =====
-- What an assignment does to the history: in either mode the scans only add used addresses, and in
-- unique mode the assigned address was unused until then.
use tor_rotating_http_proxy.Prelude.{
  ℕ, ◌≤◌, ◌<◌, ◌≡◌, ◌≢◌, refl, String, Bool, true, false, Option, none, some, ◌∙◌, arith, length,
  length-set, get_elem?, Each, Each-if,
}
use tor_rotating_http_proxy.Store.{Sqlite, SqliteLaws, selected, consume}
use tor_rotating_http_proxy.Store.Laws.{consume_keeps_used, consume_granted}
use tor_rotating_http_proxy.Pool.Types.{Slot, Pool}
use tor_rotating_http_proxy.Pool.Acquire.{
  Lease, Acquired, granted, refused, Tried, attempt_unique, attempt_reuse, acquire_locked,
  acquire_reuse_locked, busy_slot, serving_slot, unique_body, reuse_body, grant_unique, grant_reuse,
  consumed,
}
use tor_rotating_http_proxy.Pool.Kept.{Kept, Kept-refl, Kept-trans, cancel-Kept}
use tor_rotating_http_proxy.Pool.Kept.Publish.{store-Kept}
use tor_rotating_http_proxy.Pool.Valid.{Valid-frame, holder-set, keep_last_bounded}
use tor_rotating_http_proxy.Pool.Scan.{Leaves, scan_rule, at_slot_rule, consumed_rule}

-- A lease's own sync.Once, made between these counts, if it has one
abbrev pub IsNew : ℕ → ℕ → Option ℕ → Type 0
IsNew before after none = Unit
IsNew before after (some k) = (before ≤ k) × (k < after)

-- How a lease relates to the pools before and after it: its endpoint's address and instance, now
-- used; and it was not used before, if the pool is in unique mode.
pub record Claimed (sql : Sqlite) (p q : Pool sql.Db) (l : Lease) : Type 0 where
  pub ip : l.ip ≡ (p.heap l.ep).ip
  pub instance_id : l.instance_id ≡ (p.heap l.ep).id
  pub used : sql.row q.store l.ip ≡ some true
  pub unused : p.unique ≡ true → sql.row p.store l.ip ≢ some true
  pub own : IsNew p.lease_onces q.lease_onces l.once

abbrev pub Outcome : (sql : Sqlite) → Pool sql.Db → Pool sql.Db → Acquired → Type 0
Outcome sql p q (refused e) = Unit
Outcome sql p q (granted l) = Claimed sql p q l

module _ (sql : Sqlite) (laws : SqliteLaws sql) where
  consume-Kept :
      (p : Pool sql.Db) (e : ℕ) (unique : Bool)
      → Kept sql p (record p { store = (consume sql p.store (p.heap e).ip unique).0 })
  consume-Kept p e unique =
      store-Kept sql p _ (λ j. consume_keeps_used sql laws p.store (p.heap e).ip j unique)

  grant_unique-Kept :
      (now index : ℕ) (s : Slot) (e : ℕ) (p : Pool sql.Db)
      → get_elem? p.slots index ≡ some s
      → Leaves (Kept sql p) (λ r. Kept sql p r.0) (grant_unique now index s e p)
  unfolding grant_unique
  grant_unique-Kept now index s e p found = record {
    mode = refl;
    size = length-set _ _ _;
    ids = λ d. refl;
    ips = λ d. refl;
    valid =
        Valid-frame p _ refl
          (λ j d h. ground (arith, holder-set p.slots index j (busy_slot s) s found)) (λ j. refl)
          (λ d. refl) (λ d. refl) (λ d c. c) (keep_last_bounded p.events _);
    used = λ j h. h;
    onces = λ d c. ground (arith, c);
    ran = λ k c. ground (arith, c);
    drawn = ground arith;
  }

  grant_reuse-Kept :
      (now index : ℕ) (s : Slot) (e : ℕ) (p : Pool sql.Db)
      → get_elem? p.slots index ≡ some s
      → Leaves (Kept sql p) (λ r. Kept sql p r.0) (grant_reuse now index s e p)
  unfolding grant_reuse
  grant_reuse-Kept now index s e p found = record {
    mode = refl;
    size = length-set _ _ _;
    ids = λ d. ground arith;
    ips = λ d. ground arith;
    valid =
        Valid-frame p _ refl
          (λ j d h. ground (arith, holder-set p.slots index j (serving_slot now s) s found))
          (λ j. refl) (λ d. ground arith) (λ d. ground arith) (λ d c h. ground (arith, c))
          (keep_last_bounded p.events _);
    used = λ j h. h;
    onces = λ d c. ground (arith, c);
    ran = λ k c. ground (arith, c);
    drawn = ground arith;
  }

  abbrev pub Ends : Pool sql.Db → Pool sql.Db × Acquired → Type 0
  Ends p r = Kept sql p r.0 × Outcome sql p r.0 r.1

  -- An address that Consume granted at `q` was unused at the earlier `p`.
  unused_before :
      (p q : Pool sql.Db) (ip : String) (unique : Bool)
      → Kept sql p q
      → selected unique (sql.row q.store ip) ≡ true
      → unique ≡ true
      → sql.row p.store ip ≢ some true
  unused_before p q ip unique k sel u h = ground (arith, k.used ip h)

  -- What Consume settles before the assignment, of the pool `m` that it leaves.
  abbrev Won : Pool sql.Db → Pool sql.Db → ℕ → Type 0
  Won p m e =
      Kept sql p m
      × (sql.row m.store (m.heap e).ip ≡ some true)
      × (p.unique ≡ true → sql.row p.store (m.heap e).ip ≢ some true)

  grant_unique-Won :
      (p m : Pool sql.Db) (now index : ℕ) (s : Slot) (e : ℕ)
      → get_elem? m.slots index ≡ some s
      → Won p m e
      → Leaves (Kept sql p) (Ends p) (grant_unique now index s e m)
  unfolding grant_unique
  grant_unique-Won p m now index s e found (k, u, n) = (
    Kept-trans sql k (unfold grant_unique in grant_unique-Kept now index s e m found),
    record { ip = k.ips e; instance_id = k.ids e; used = u; unused = n; own = tt },
  )

  grant_reuse-Won :
      (p m : Pool sql.Db) (now index : ℕ) (s : Slot) (e : ℕ)
      → get_elem? m.slots index ≡ some s
      → Won p m e
      → Leaves (Kept sql p) (Ends p) (grant_reuse now index s e m)
  unfolding grant_reuse
  grant_reuse-Won p m now index s e found (k, u, n) = (
    Kept-trans sql k (unfold grant_reuse in grant_reuse-Kept now index s e m found),
    record {
      ip = k.ips e;
      instance_id = k.ids e;
      used = u;
      unused = n;
      own = (k.drawn, omega arith);
    },
  )

  attempt_body :
      (grant : ℕ → ℕ → Slot → ℕ → Pool sql.Db → Tried sql.Db) (unique : Bool) (p : Pool sql.Db)
      (now index : ℕ) (s : Slot) (e : ℕ) (q : Pool sql.Db)
      → get_elem? q.slots index ≡ some s
      → ((m : Pool sql.Db)
          → get_elem? m.slots index ≡ some s
          → Won p m e
          → Leaves (Kept sql p) (Ends p) (grant now index s e m))
      → (p.unique ≡ true → unique ≡ true)
      → Kept sql p q
      → Leaves
          (Kept sql p)
          (Ends p)
          (consumed grant now index s e q (consume sql q.store (q.heap e).ip unique))
  attempt_body grant unique p now index s e q found won mode k =
      let r = consume sql q.store (q.heap e).ip unique in
      let m : Pool sql.Db = record q { store = r.0 } in
      let km = Kept-trans sql k (consume-Kept q e unique) in
      consumed_rule (Kept sql p) (Ends p) grant now index s e q r (λ err. (km, tt))
        (λ c _.
          let (sel, u, _) = consume_granted sql laws q.store (q.heap e).ip unique c in
          won m found (km, u, λ w. unused_before p q (q.heap e).ip unique k sel (mode w)))
        (Kept-trans sql km (cancel-Kept sql e m))

  pub attempt_unique-Leaves :
      (now : ℕ) (p : Pool sql.Db) (index : ℕ) (q : Pool sql.Db)
      → Kept sql p q
      → Each (Leaves (Kept sql p) (Ends p)) (attempt_unique sql now index q)
  unfolding attempt_unique
  attempt_unique-Leaves now p index q h =
      at_slot_rule (Kept sql p) (Ends p) (unique_body sql now) index q h λ s e found _ _ _.
        attempt_body grant_unique q.unique p now index s e q found
          (λ m. grant_unique-Won p m now index s e) (λ u. h.mode ∙ u) h

  pub attempt_reuse-Leaves :
      (now : ℕ) (p : Pool sql.Db) (index : ℕ) (q : Pool sql.Db)
      → p.unique ≡ false
      → Kept sql p q
      → Each (Leaves (Kept sql p) (Ends p)) (attempt_reuse sql now index q)
  unfolding attempt_reuse
  attempt_reuse-Leaves now p index q mode h =
      at_slot_rule (Kept sql p) (Ends p) (reuse_body sql now) index q h λ s e found _ _ _.
        attempt_body grant_reuse false p now index s e q found
          (λ m. grant_reuse-Won p m now index s e) (λ u. ground arith) h

  -- Every scan, whatever its outcome, keeps used addresses used; a lease it grants is for an
  -- endpoint's own address and instance, the address is used from then on, and in unique mode it
  -- was unused before.
  pub acquire_locked-Claimed :
      (now : ℕ) (p : Pool sql.Db)
      → Each (λ r. Kept sql p r.0 × Outcome sql p r.0 r.1) (acquire_locked sql now p)
  unfolding acquire_locked acquire_reuse_locked
  acquire_locked-Claimed now p =
      Each-if p.unique _ _
        (λ _.
          scan_rule (Kept sql p) (Ends p) (attempt_unique sql now) (λ q h. (h, tt))
            (attempt_unique-Leaves now p) (length p.slots) 0 p (Kept-refl sql p))
        (λ mode.
          scan_rule (Kept sql p) (Ends p) (attempt_reuse sql now) (λ q h. (h, tt))
            (λ index q. attempt_reuse-Leaves now p index q mode) (length p.slots) 0 p
            (Kept-refl sql p))
