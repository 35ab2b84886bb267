-- ===== src/Pool/Total.antt =====
-- Lease.Finish never panics: no index is out of range and no channel is closed twice.
use tor_rotating_http_proxy.Prelude.{
  ℕ, zero, suc, ◌≤◌, ◌≡◌, refl, true, false, Bool, Option, none, some, List, arith, get_elem?-total,
  length, if◌then◌else◌, ◌>>=◌, update,
}
use tor_rotating_http_proxy.Errors.{GoError}
use tor_rotating_http_proxy.Pool.Types.{Pool, Slot, slot_at}
use tor_rotating_http_proxy.Pool.Acquire.{Lease}
use tor_rotating_http_proxy.Pool.Finish.{
  finish, finish_unique, finish_reuse, close_done, close_once, unique_finished, reuse_failed,
  finish_reuse_at, released, finish_by, finish_reuse_once,
}
use tor_rotating_http_proxy.Pool.Valid.{Valid}
use tor_rotating_http_proxy.Pool.System.{finish_lease}

abbrev pub Succeeds {ℓ} : {A : Type ℓ} → Option A → Type ℓ
Succeeds {A} m = (a : A) × (m ≡ some a)

pub Succeeds-bind {ℓ κ} :
    {A : Type ℓ} {B : Type κ} (m : Option A) (f : A → Option B)
    → Succeeds m
    → ((a : A) → m ≡ some a → Succeeds (f a))
    → Succeeds (m >>= f)
Succeeds-bind none f h k = absurd (cc (h.1))
Succeeds-bind (some a) f h k = k a refl

pub Succeeds-if {ℓ} :
    {A : Type ℓ} (b : Bool) (m n : Option A)
    → (b ≡ true → Succeeds m)
    → (b ≡ false → Succeeds n)
    → Succeeds (if b then m else n)
Succeeds-if true m n h k = h refl
Succeeds-if false m n h k = k refl

-- Every endpoint is for an instance of the pool.
abbrev pub InRange : {Db : Type 0} → Pool Db → Type 0
InRange p = (e : ℕ) → (1 ≤ (p.heap e).id) × ((p.heap e).id ≤ length p.slots)

pub slot_at_total :
    (slots : List Slot) (id : ℕ) → 1 ≤ id → id ≤ length slots → Succeeds (slot_at slots id)
slot_at_total slots zero h k = absurd (omega arith)
slot_at_total slots (suc i) h k = get_elem?-total slots i (omega arith)

module _ {Db : Type 0} where
  close_done_total : (e : ℕ) (p : Pool Db) → (p.heap e).done ≡ false → Succeeds (close_done e p)
  unfolding close_done
  close_done_total e p h = Succeeds-if (p.heap e).done _ _ (λ d. cc) (λ _. (_, refl))

  -- The channel of an endpoint is closed only after its sync.Once has run.
  abbrev Guarded : ℕ → Pool Db → Type 0
  Guarded e p = (p.heap e).done ≡ true → (p.heap e).once ≡ true

  open_of_unrun :
      (e : ℕ) (p : Pool Db) → Guarded e p → (p.heap e).once ≡ false → (p.heap e).done ≡ false
  open_of_unrun e p v h = ground (arith, v)

  close_once_total : (e : ℕ) (p : Pool Db) → Guarded e p → Succeeds (close_once e p)
  unfolding close_once
  close_once_total e p v =
      Succeeds-if (p.heap e).once _ _ (λ _. (p, refl))
        λ h.
          close_done_total e
            (record p { heap = update p.heap e (record (p.heap e) { once = true }) })
            (ground (arith, open_of_unrun e p v h))

  pub found : (e : ℕ) (p : Pool Db) → InRange p → Succeeds (slot_at p.slots (p.heap e).id)
  found e p r = slot_at_total p.slots (p.heap e).id (r e).0 (r e).1

  unique_finished_open :
      (now e : ℕ) (err : Option GoError) (s : Slot) (p : Pool Db)
      → (p.heap e).done ≡ false
      → ((unique_finished now e err s p).heap e).done ≡ false
  unfolding unique_finished
  unique_finished_open now e err s p h = ground arith

  finish_unique_total :
      (now e : ℕ) (err : Option GoError) (p : Pool Db)
      → Valid p
      → InRange p
      → Succeeds (finish_unique now e err p)
  unfolding finish_unique
  finish_unique_total now e err p v r =
      Succeeds-if (p.heap e).once _ _ (λ _. (p, refl))
        λ h. Succeeds-bind _ _ (found e p r) λ s _.
          close_done_total e (unique_finished now e err s p)
            (unique_finished_open now e err s p (open_of_unrun e p (v.closed e) h))

  reuse_failed-Guarded :
      (now e : ℕ) (err : GoError) (s : Slot) (p : Pool Db)
      → Guarded e p
      → Guarded e (reuse_failed now e err s p)
  unfolding reuse_failed
  reuse_failed-Guarded now e err s p g h = ground (arith, g)

  finish_reuse_at_total :
      (now e : ℕ) (err : Option GoError) (s : Slot) (p : Pool Db)
      → Guarded e p
      → Succeeds (finish_reuse_at now e err s p)
  unfolding finish_reuse_at
  finish_reuse_at_total now e none s p g = (_, refl)
  finish_reuse_at_total now e (some err) s p g =
      close_once_total e (reuse_failed now e err s p) (reuse_failed-Guarded now e err s p g)

  released-Guarded : (e : ℕ) (p : Pool Db) → Guarded e p → Guarded e (released e p)
  unfolding released
  released-Guarded e p g h = ground (arith, g)

  finish_reuse_total :
      (now e : ℕ) (err : Option GoError) (p : Pool Db)
      → Guarded e p
      → InRange p
      → Succeeds (finish_reuse now e err p)
  unfolding finish_reuse
  finish_reuse_total now e err p g r =
      Succeeds-bind _ _ (found e p r)
        λ s _. finish_reuse_at_total now e err s (released e p) (released-Guarded e p g)

  finish_by_total :
      (o : Option ℕ) (now e : ℕ) (err : Option GoError) (p : Pool Db)
      → Valid p
      → InRange p
      → Succeeds (finish_by o now e err p)
  unfolding finish_by finish_reuse_once
  finish_by_total none now e err p v r = finish_unique_total now e err p v r
  finish_by_total (some k) now e err p v r =
      Succeeds-if (p.lease_ran k) _ _ (λ _. (p, refl))
        λ _.
          finish_reuse_total now e err (record p { lease_ran = update p.lease_ran k true })
            (v.closed e) r

  pub finish_lease_total :
      (now : ℕ) (o : Option Lease) (err : Option GoError) (p : Pool Db)
      → Valid p
      → InRange p
      → Succeeds (finish_lease now o err p)
  unfolding finish_lease finish
  finish_lease_total now none err p v r = (p, refl)
  finish_lease_total now (some l) err p v r = finish_by_total l.once now l.ep err p v r
