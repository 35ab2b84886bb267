-- ===== src/Pool/Scan.antt =====
-- Rules for the scans: an invariant of the loop, a result that follows from it at every exit, and
-- one obligation for each way that an attempt can go.
use tor_rotating_http_proxy.Prelude.{
  ℕ, zero, suc, ◌+◌, ◌%◌, ◌≡◌, refl, true, false, Option, none, some, arith, length, get_elem?,
  Each, Each-some, Each-bind, not, ◌&&◌, Bool-cases, inl, inr,
}
use tor_rotating_http_proxy.Errors.{GoError}
use tor_rotating_http_proxy.Store.{Returns}
use tor_rotating_http_proxy.Pool.Types.{ready, state_eq, Slot, Pool, cancel}
use tor_rotating_http_proxy.Pool.Acquire.{
  Acquired, refused, no_ready_error, persist_error, Tried, pass, stop, after, scan, use_slot,
  at_slot, consumed,
}

module _ {Db : Type 0} (I : Pool Db → Type 0) (Q : Pool Db × Acquired → Type 0) where
  -- What an attempt owes: the invariant if the scan goes on, the result if it ends.
  abbrev pub Leaves : Tried Db → Type 0
  Leaves (pass q) = I q
  Leaves (stop q a) = Q (q, a)

  after_rule :
      (rest : Pool Db → Option (Pool Db × Acquired)) (t : Tried Db)
      → ((q : Pool Db) → I q → Each Q (rest q))
      → Leaves t
      → Each Q (after rest t)
  after_rule rest (pass q) h k = h q k
  after_rule rest (stop q a) h k = Each-some k

  pub scan_rule :
      (attempt : ℕ → Pool Db → Option (Tried Db))
      → ((p : Pool Db) → I p → Q (p, refused no_ready_error))
      → ((index : ℕ) (p : Pool Db) → I p → Each Leaves (attempt index p))
      → (k offset : ℕ) (p : Pool Db) → I p
      → Each Q (scan attempt k offset p)
  unfolding scan
  scan_rule attempt end body zero offset p i = Each-some (end p i)
  scan_rule attempt end body (suc k) offset p i =
      Each-bind (attempt ((p.next + offset) % length p.slots) p) _ λ t e.
        after_rule (λ q. scan attempt k (suc offset) q) t
          (λ q j. scan_rule attempt end body k (suc offset) q j)
          ((body ((p.next + offset) % length p.slots) p i).at t e)

  use_slot_rule :
      (body : ℕ → Slot → ℕ → Pool Db → Tried Db) (index : ℕ) (s : Slot) (o : Option ℕ) (p : Pool Db)
      → Leaves (pass p)
      → ((e : ℕ)
          → o ≡ some e
          → state_eq s.view.state ready ≡ true
          → (p.heap e).cancelled ≡ false
          → Leaves (body index s e p))
      → Leaves (use_slot body index s o p)
  unfolding use_slot
  use_slot_rule body index s none p h k = h
  use_slot_rule body index s (some e) p h k =
      elim (Bool-cases (state_eq s.view.state ready && not (p.heap e).cancelled)) [
        | inl yes' ↦ rw yes' (k e refl (ground arith) (ground arith))
        | inr no' ↦ rw no' h
      ]

  pub at_slot_rule :
      (body : ℕ → Slot → ℕ → Pool Db → Tried Db) (index : ℕ) (p : Pool Db)
      → I p
      → ((s : Slot) (e : ℕ)
          → get_elem? p.slots index ≡ some s
          → s.ep ≡ some e
          → state_eq s.view.state ready ≡ true
          → (p.heap e).cancelled ≡ false
          → Leaves (body index s e p))
      → Each Leaves (at_slot body index p)
  unfolding at_slot
  at_slot_rule body index p i h =
      Each-bind (get_elem? p.slots index) _
        λ s at. Each-some (use_slot_rule body index s s.ep p i (λ e. h s e at))

  pub consumed_rule :
      (grant : ℕ → ℕ → Slot → ℕ → Pool Db → Tried Db) (now index : ℕ) (s : Slot) (e : ℕ)
      (p : Pool Db) (r : Returns Db)
      → ((err : GoError) → Q (record p { store = r.0 }, refused (persist_error err)))
      → (r.1 ≡ true → r.2 ≡ none → Leaves (grant now index s e (record p { store = r.0 })))
      → I (cancel e (record p { store = r.0 }))
      → Leaves (consumed grant now index s e p r)
  unfolding consumed
  consumed_rule grant now index s e p (db, claimed, some err) fail won lost = fail err
  consumed_rule grant now index s e p (db, true, none) fail won lost = won refl refl
  consumed_rule grant now index s e p (db, false, none) fail won lost = lost
