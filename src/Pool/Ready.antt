-- ===== src/Pool/Ready.antt =====
-- Readiness: what the endpoint /readyz answers is what the scans find.
use tor_rotating_http_proxy.Prelude.{
  ℕ, zero, suc, ◌+◌, ◌%◌, ◌≡◌, refl, ap, Bool, true, false, Option, none, some, List, [], ◌∷◌,
  arith, length, get_elem?, get_elem?-total, if◌then◌else◌, ◌<◌,
}
use native.Mathlib.Nat.{mod-lt}
use tor_rotating_http_proxy.Store.{Sqlite}
use tor_rotating_http_proxy.Pool.Types.{Pool, Slot}
use tor_rotating_http_proxy.Pool.Slots.{is_ready, any_serves, can_serve}
use tor_rotating_http_proxy.Pool.Acquire.{
  refused, no_ready_error, Tried, pass, scan, use_slot, at_slot, attempt_unique, attempt_reuse,
  unique_body, reuse_body, acquire_locked, acquire_reuse_locked,
}

module _ {Db : Type 0} where
  none_serves :
      (slots : List Slot) (p : Pool Db) (i : ℕ) (s : Slot)
      → any_serves slots p ≡ false
      → get_elem? slots i ≡ some s
      → can_serve s p ≡ false
  unfolding any_serves
  none_serves [] p i s h e = cc
  none_serves (x ∷ xs) p zero s h e = ground (arith, e)
  none_serves (x ∷ xs) p (suc i) s h e = none_serves xs p i s (ground arith) e

  pub use_slot-pass :
      (body : ℕ → Slot → ℕ → Pool Db → Tried Db) (index : ℕ) (s : Slot) (o : Option ℕ) (p : Pool Db)
      → s.ep ≡ o
      → can_serve s p ≡ false
      → use_slot body index s o p ≡ pass p
  unfolding use_slot can_serve
  use_slot-pass body index s none p e h = refl
  use_slot-pass body index s (some d) p e h = ground arith

  at_slot-pass :
      (body : ℕ → Slot → ℕ → Pool Db → Tried Db) (index : ℕ) (p : Pool Db)
      → is_ready p ≡ false
      → index < length p.slots
      → at_slot body index p ≡ some (pass p)
  unfolding at_slot is_ready
  at_slot-pass body index p h lt =
      let (s, e) = get_elem?-total p.slots index lt in
      rw e (ap some (use_slot-pass body index s s.ep p refl (none_serves p.slots p index s h e)))

  scan-refuses :
      (body : ℕ → Slot → ℕ → Pool Db → Tried Db) (k offset : ℕ) (p : Pool Db)
      → is_ready p ≡ false
      → 0 < length p.slots
      → scan (at_slot body) k offset p ≡ some (p, refused no_ready_error)
  unfolding scan
  scan-refuses body zero offset p h pos = refl
  scan-refuses body (suc k) offset p h pos =
      rw (at_slot-pass body ((p.next + offset) % length p.slots) p h (mod-lt _ pos))
        (scan-refuses body k (suc offset) p h pos)

  scan_all-refuses :
      (body : ℕ → Slot → ℕ → Pool Db → Tried Db) (n : ℕ) (p : Pool Db)
      → length p.slots ≡ n
      → is_ready p ≡ false
      → scan (at_slot body) n 0 p ≡ some (p, refused no_ready_error)
  unfolding scan
  scan_all-refuses body zero p e h = refl
  scan_all-refuses body (suc n) p e h = scan-refuses body (suc n) 0 p h (omega (arith, e))

if_both {ℓ} : {A : Type ℓ} (b : Bool) {x y z : A} → x ≡ z → y ≡ z → (if b then x else y) ≡ z
if_both true h k = h
if_both false h k = k

-- Where Ready is false a scan, in either mode, refuses with ErrNoReady and leaves the pool exactly
-- as it is: no address is claimed and no counter moves.
pub acquire_locked-not_ready :
    (sql : Sqlite) (now : ℕ) (p : Pool sql.Db)
    → is_ready p ≡ false
    → acquire_locked sql now p ≡ some (p, refused no_ready_error)
unfolding acquire_locked acquire_reuse_locked attempt_unique attempt_reuse
acquire_locked-not_ready sql now p h =
    if_both p.unique (scan_all-refuses (unique_body sql now) (length p.slots) p refl h)
      (scan_all-refuses (reuse_body sql now) (length p.slots) p refl h)
