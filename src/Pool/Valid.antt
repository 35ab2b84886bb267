-- ===== src/Pool/Valid.antt =====
-- The invariant of the pool's data: where endpoints stand, which addresses are reserved, when the
-- channel of an endpoint is closed, and how long the log is.
use tor_rotating_http_proxy.Prelude.{
  ℕ, zero, suc, ◌≤◌, ◌≡◌, ◌∙◌, ap, sym, String, true, Option, none, some, List, [], arith, ◌==◌,
  if◌then◌else◌, length, get_elem?, set, get_elem?-set, get_elem?-some-lt, length-append, ◌++◌, ◌∷◌,
}
use tor_rotating_http_proxy.Pool.Types.{
  Slot, Pool, Event, slot_at, set_slot, slot_at-set_slot, keep_last,
}

-- The endpoint in the slot of an instance.
abbrev pub slot_ep : Option Slot → Option ℕ
slot_ep none = none
slot_ep (some s) = s.ep

abbrev pub holder : List Slot → ℕ → Option ℕ
holder slots id = slot_ep (slot_at slots id)

pub holder-set_slot :
    (slots : List Slot) (id j : ℕ) (s t : Slot)
    → slot_at slots id ≡ some t
    → holder (set_slot slots id s) j ≡ (if j == id then s.ep else holder slots j)
holder-set_slot slots id j s t h = ground (arith, slot_at-set_slot slots id j s t h)

pub holder-set :
    (slots : List Slot) (index j : ℕ) (s t : Slot)
    → get_elem? slots index ≡ some t
    → holder (set slots index s) j ≡ (if j == suc index then s.ep else holder slots j)
holder-set slots index zero s t h = ground arith
holder-set slots index (suc j) s t h =
    ground (arith, get_elem?-set slots index j s, get_elem?-some-lt slots index h)

-- An endpoint stands in its own instance's slot only, and in unique mode its address is reserved
-- for it; a channel is closed only by the endpoint's sync.Once; the log has at most 100 events.
pub record Valid {Db : Type 0} (p : Pool Db) : Type 0 where
  pub placed : (id e : ℕ) → holder p.slots id ≡ some e → (p.heap e).id ≡ id
  pub reserved :
      (id e : ℕ) → holder p.slots id ≡ some e → p.unique ≡ true → p.reserved (p.heap e).ip ≡ some e
  pub closed : (e : ℕ) → (p.heap e).done ≡ true → (p.heap e).once ≡ true
  pub bounded : length p.events ≤ 100

pub keep_last_bounded :
    (es : List Event) (e : Event) → length es ≤ 100 → length (keep_last es ++ e ∷ []) ≤ 100
unfolding keep_last
keep_last_bounded [] e h = ground arith
keep_last_bounded (x ∷ es) e h =
    ground (arith, length-append es (e ∷ []), length-append (x ∷ es) (e ∷ []))

-- The frame: an operation that moves no endpoint into a slot and leaves the reservations.
pub Valid-frame :
    {Db : Type 0} (p q : Pool Db)
    → q.unique ≡ p.unique
    → ((id d : ℕ) → holder q.slots id ≡ some d → holder p.slots id ≡ some d)
    → ((j : String) → q.reserved j ≡ p.reserved j)
    → ((d : ℕ) → (q.heap d).id ≡ (p.heap d).id)
    → ((d : ℕ) → (q.heap d).ip ≡ (p.heap d).ip)
    → ((d : ℕ)
        → ((p.heap d).done ≡ true → (p.heap d).once ≡ true)
        → (q.heap d).done ≡ true
        → (q.heap d).once ≡ true)
    → (length p.events ≤ 100 → length q.events ≤ 100)
    → Valid p
    → Valid q
Valid-frame p q mode hold res ids ips closed bounded v = record {
  placed = λ id d h. ids d ∙ v.placed id d (hold id d h);
  reserved = λ id d h m.
      ap q.reserved (ips d) ∙ res (p.heap d).ip ∙ v.reserved id d (hold id d h) (sym mode ∙ m);
  closed = λ d. closed d (v.closed d);
  bounded = bounded v.bounded;
}
