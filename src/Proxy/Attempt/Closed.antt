-- ===== src/Proxy/Attempt/Closed.antt =====
-- What a tunnel leaves behind.
use tor_rotating_http_proxy.Prelude.{
  ℕ, suc, ◌-◌, ◌≡◌, refl, Bool, true, false, not, ◌&&◌, ◌||◌, Option, none, some, List, [], ◌∷◌,
  Bool-cases, Option-cases, inl, inr, ◌==◌, if◌then◌else◌,
}
use tor_rotating_http_proxy.Errors.{is_some}
use tor_rotating_http_proxy.Proxy.Attempt.{
  Deed, opens_upstream, closes_upstream, opens_client, closes_client, refuses_tunnel, greets,
  copy_starts, copy_ends, Tunnel, connect_attempt,
}

-- The connections that are open, the number of copies that run, and whether one has ended
pub record Open : Type 0 where
  pub upstream : Bool
  pub client : Bool
  pub copies : ℕ
  pub ended : Bool

abbrev pub all_closed : Open
all_closed = record { upstream = false; client = false; copies = 0; ended = false }

-- A connection that is copied from or to stays open until a copy has ended.
abbrev pub may_close : Open → Bool
may_close o = o.copies == 0 || o.ended

-- After these deeds; none where a connection is closed while the copies run and none of them has
-- ended, or where the client is greeted, or a copy starts, with no open tunnel.
abbrev pub replay : Open → List Deed → Option Open
replay o [] = some o
replay o (opens_upstream ∷ ds) = replay (record o { upstream = true }) ds
replay o (closes_upstream ∷ ds) =
    let rest = replay (record o { upstream = false }) ds in if may_close o then rest else none
replay o (opens_client ∷ ds) = replay (record o { client = true }) ds
replay o (closes_client ∷ ds) =
    let rest = replay (record o { client = false }) ds in if may_close o then rest else none
replay o (refuses_tunnel ∷ ds) = replay o ds
replay o (greets ∷ ds) = let rest = replay o ds in if o.upstream && o.client then rest else none
replay o (copy_starts ∷ ds) =
    let rest = replay (record o { copies = suc o.copies }) ds in
    if o.upstream && o.client then rest else none
replay o (copy_ends ∷ ds) =
    let rest = replay (record o { copies = o.copies - 1; ended = true }) ds in
    if o.copies == 0 then none else rest

-- Whatever the connections do: connectAttempt reports a tunnel exactly where its dial succeeds, and
-- without one it does nothing, so that another instance may be tried. It greets the client and
-- starts copying only while both connections are open, closes neither of them while the copies run
-- and none has ended, and when it returns both are closed and no copy runs any more.
pub connect_attempt_closes :
    (t : Tunnel)
    → ((copied : Bool) × (replay all_closed (connect_attempt t).0
          ≡ some (record all_closed { ended = copied })))
      × ((connect_attempt t).1 ≡ not (is_some t.dial))
unfolding connect_attempt
connect_attempt_closes t = elim (Option-cases t.dial) [
  | inr (e, d) ↦ rw d ((false, refl), refl)
  | inl d ↦ elim (Bool-cases t.hijackable) [
    | inr h ↦ rw (d, h) ((false, refl), refl)
    | inl h ↦ elim (Option-cases t.hijack) [
      | inr (e, j) ↦ rw (d, h, j) ((false, refl), refl)
      | inl j ↦ elim (Option-cases t.greeting) [
        | inr (e, g) ↦ rw (d, h, j, g) ((false, refl), refl)
        | inl g ↦ rw (d, h, j, g) ((true, refl), refl)
      ]
    ]
  ]
]
