-- ===== src/Pool/RoundRobin.antt =====
-- The order of the scans: the first instance that can serve, counted from the pool's `next`, is the
-- one that serves, and the next scan starts behind it.
use native.Mathlib.Nat.{mod-lt, add-zero, zero-add}
use tor_rotating_http_proxy.Prelude.{
  ℕ, zero, suc, ◌+◌, ◌%◌, ◌<◌, ◌≡◌, refl, ap, subst, sym, ◌∙◌, Bool, true, false, Option, none,
  some, arith, length, get_elem?, get_elem?-total, if◌then◌else◌,
}
use tor_rotating_http_proxy.Store.{Sqlite, consume}
use tor_rotating_http_proxy.Pool.Types.{Pool, Slot}
use tor_rotating_http_proxy.Pool.Slots.{can_serve}
use tor_rotating_http_proxy.Pool.Acquire.{
  Lease, Acquired, granted, Tried, pass, stop, scan, use_slot, at_slot, attempt_unique,
  attempt_reuse, unique_body, reuse_body, acquire_locked, acquire_reuse_locked, consumed,
  grant_unique, grant_reuse,
}
use tor_rotating_http_proxy.Pool.Ready.{use_slot-pass}

module _ {Db : Type 0} where
  -- The instance at a place serves.
  abbrev pub Serves : Pool Db → ℕ → ℕ → Type 0
  Serves p index e =
      (s : Slot) × (get_elem? p.slots index ≡ some s) × (s.ep ≡ some e) × (can_serve s p ≡ true)

  -- The instance at a place does not.
  abbrev pub Skipped : Pool Db → ℕ → Type 0
  Skipped p index = (s : Slot) → get_elem? p.slots index ≡ some s → can_serve s p ≡ false

  use_slot-serves :
      (body : ℕ → Slot → ℕ → Pool Db → Tried Db) (index e : ℕ) (s : Slot) (o : Option ℕ)
      (p : Pool Db)
      → s.ep ≡ o
      → o ≡ some e
      → can_serve s p ≡ true
      → use_slot body index s o p ≡ body index s e p
  unfolding use_slot can_serve
  use_slot-serves body index e s none p f g h = absurd (cc)
  use_slot-serves body index e s (some d) p f g h = ground (arith, f, g, h)

  at_slot-Serves :
      (body : ℕ → Slot → ℕ → Pool Db → Tried Db) (index e : ℕ) (p : Pool Db)
      → (h : Serves p index e) → at_slot body index p ≡ some (body index h.0 e p)
  unfolding at_slot
  at_slot-Serves body index e p (s, found, ep, serves) =
      rw found (ap some (use_slot-serves body index e s s.ep p refl ep serves))

  at_slot-Skipped :
      (body : ℕ → Slot → ℕ → Pool Db → Tried Db) (index : ℕ) (p : Pool Db)
      → index < length p.slots
      → Skipped p index
      → at_slot body index p ≡ some (pass p)
  unfolding at_slot
  at_slot-Skipped body index p lt h =
      let (s, e) = get_elem?-total p.slots index lt in
      rw e (ap some (use_slot-pass body index s s.ep p refl (h s e)))

  -- The attempt at the first place that does not skip decides the scan, where it stops there.
  scan-first :
      (body : ℕ → Slot → ℕ → Pool Db → Tried Db) (k offset j : ℕ) (p q : Pool Db) (a : Acquired)
      → 0 < length p.slots
      → j < k
      → ((i : ℕ) → i < j → Skipped p ((p.next + (offset + i)) % length p.slots))
      → at_slot body ((p.next + (offset + j)) % length p.slots) p ≡ some (stop q a)
      → scan (at_slot body) k offset p ≡ some (q, a)
  unfolding scan
  scan-first body zero offset j p q a pos lt skips stops = elim lt [ ]
  scan-first body (suc k) offset zero p q a pos lt skips stops =
      rw
        (subst (λ m. at_slot body ((p.next + m) % length p.slots) p ≡ some (stop q a))
          (add-zero offset) stops)
        refl
  scan-first body (suc k) offset (suc j) p q a pos lt skips stops =
      let shift : (i : ℕ) → offset + suc i ≡ suc offset + i = λ i. omega arith in
      rw
        (at_slot-Skipped body ((p.next + offset) % length p.slots) p (mod-lt _ pos) (
          subst (λ m. Skipped p ((p.next + m) % length p.slots)) (add-zero offset)
            (skips 0 (omega arith))))
        (scan-first body k (suc offset) j p q a pos (omega arith)
          (λ i l.
            subst (λ m. Skipped p ((p.next + m) % length p.slots)) (shift i)
              (skips (suc i) (omega arith)))
          (subst (λ m. at_slot body ((p.next + m) % length p.slots) p ≡ some (stop q a)) (shift j)
            stops))

  -- The scan of either mode, at the first instance that serves.
  scan_from_first :
      (body : ℕ → Slot → ℕ → Pool Db → Tried Db) (n j e : ℕ) (p q : Pool Db) (a : Acquired)
      → length p.slots ≡ n
      → j < n
      → ((i : ℕ) → i < j → Skipped p ((p.next + i) % length p.slots))
      → (h : Serves p ((p.next + j) % length p.slots) e)
      → body ((p.next + j) % length p.slots) h.0 e p ≡ stop q a
      → scan (at_slot body) n 0 p ≡ some (q, a)
  scan_from_first body n j e p q a size lt skips h stops =
      scan-first body n 0 j p q a (omega (arith, size)) lt
        (λ i l.
          subst (λ m. Skipped p ((p.next + m) % length p.slots)) (sym (zero-add i)) (skips i l))
        (subst (λ m. at_slot body ((p.next + m) % length p.slots) p ≡ some (stop q a))
          (sym (zero-add j))
          (at_slot-Serves body ((p.next + j) % length p.slots) e p h ∙ ap some stops))

-- A lease for the endpoint `e`, and a pool whose next scan starts behind `index`.
abbrev pub Grants : {Db : Type 0} → ℕ → ℕ → Pool Db → Option (Pool Db × Acquired) → Type 0
Grants {Db} e index p m =
    (q : Pool Db) × (l : Lease) × (m ≡ some (q, granted l))
    × (l.ep ≡ e)
    × (q.next ≡ (index + 1) % length p.slots)

Grants-if :
    {Db : Type 0} (e index : ℕ) (p : Pool Db) (b : Bool) (m n : Option (Pool Db × Acquired))
    → (b ≡ true → Grants e index p m)
    → (b ≡ false → Grants e index p n)
    → Grants e index p (if b then m else n)
Grants-if e index p true m n h k = h refl
Grants-if e index p false m n h k = k refl

module _ (sql : Sqlite) where
  unique_granted :
      (now index e : ℕ) (s : Slot) (p : Pool sql.Db) (db : sql.Db)
      → consume sql p.store (p.heap e).ip p.unique ≡ (db, true, none)
      → unique_body sql now index s e p ≡ grant_unique now index s e (record p { store = db })
  unfolding consumed
  unique_granted now index e s p db h = rw h refl

  reuse_granted :
      (now index e : ℕ) (s : Slot) (p : Pool sql.Db) (db : sql.Db)
      → consume sql p.store (p.heap e).ip false ≡ (db, true, none)
      → reuse_body sql now index s e p ≡ grant_reuse now index s e (record p { store = db })
  unfolding consumed
  reuse_granted now index e s p db h = rw h refl

  -- Where the history grants the claim of the first instance that serves, counted round the slots
  -- from the pool's `next`, the scan gives a lease for that instance's endpoint, and the next scan
  -- starts at the slot behind it: the assignments go round the instances, in either mode.
  pub acquire_locked-Grants :
      (now j e : ℕ) (p : Pool sql.Db) (db : sql.Db)
      → j < length p.slots
      → ((i : ℕ) → i < j → Skipped p ((p.next + i) % length p.slots))
      → Serves p ((p.next + j) % length p.slots) e
      → consume sql p.store (p.heap e).ip p.unique ≡ (db, true, none)
      → Grants e ((p.next + j) % length p.slots) p (acquire_locked sql now p)
  unfolding acquire_locked acquire_reuse_locked attempt_unique attempt_reuse grant_unique
      grant_reuse
  acquire_locked-Grants now j e p db lt skips h claim =
      let index = (p.next + j) % length p.slots in
      Grants-if e index p p.unique _ _
        (λ unique. (
          _,
          _,
          scan_from_first (unique_body sql now) (length p.slots) j e p _ _ refl lt skips h
              (unique_granted now index e h.0 p db claim),
          refl,
          refl,
        ))
        (λ reuse. (
          _,
          _,
          scan_from_first (reuse_body sql now) (length p.slots) j e p _ _ refl lt skips h (
              reuse_granted now index e h.0 p db
                (subst (λ b. consume sql p.store (p.heap e).ip b ≡ (db, true, none)) reuse claim)),
          refl,
          refl,
        ))
