-- ===== src/Proxy/Attempt/Relayed.antt =====
-- What an attempt at a forwarded request relays.
use tor_rotating_http_proxy.Prelude.{
  ◌≡◌, refl, ap, ◌∙◌, ◌⊎◌, inl, inr, true, false, some, List, [], ◌++◌, if◌then◌else◌, Option-cases,
}
use tor_rotating_http_proxy.Prelude.Bytes.{Bytes}
use tor_rotating_http_proxy.Errors.{GoError, ok, err, Result-cases, is_some}
use tor_rotating_http_proxy.Headers.{Field, values, remove_hop_headers}
use tor_rotating_http_proxy.Headers.EndToEnd.{
  hop_by_hop, is_hop_by_hop, is_among-hop_by_hop, remove_hop_headers-without, values-without,
  values-append,
}
use tor_rotating_http_proxy.Proxy.Attempt.{
  Upstream, Exchange, Attempted, new_client, announced, copied, with_trailer, forward_attempt,
}

-- The values of a name, or none where it is hop-by-hop: one of the nine names, or listed by a
-- Connection field
abbrev pub end_to_end : Bytes → List Field → List Bytes
end_to_end name h = if is_hop_by_hop name h then [] else values name h

values-remove_hop_headers :
    (name : Bytes) (h : List Field) → values name (remove_hop_headers h) ≡ end_to_end name h
values-remove_hop_headers name h =
    ap (values name) (remove_hop_headers-without h)
    ∙ values-without name (hop_by_hop h) h
    ∙ ap (λ b. if b then [] else values name h) (is_among-hop_by_hop name h)

-- The client has got nothing of this attempt.
abbrev pub Untouched : Exchange → Attempted → Type 0
Untouched x a =
    (e : GoError) × (x.answer ≡ err e)
    × (a.responded ≡ false)
    × (a.error ≡ some e)
    × (a.client ≡ new_client)

-- The client has got the status, the body as far as it was copied, the end-to-end fields, and the
-- names of the trailer; and the trailer where the body was copied to its end.
pub record Relayed (u : Upstream) (a : Attempted) : Type 0 where
  pub responded : a.responded ≡ true
  pub error : a.error ≡ u.cut
  pub status : a.client.status ≡ some u.status
  pub body : a.client.body ≡ u.body
  pub header :
      (name : Bytes)
      → values name a.client.header
        ≡ end_to_end name u.header ++ values name (announced u.trailer_names)
  pub trailer : a.client.trailer ≡ (if is_some u.cut then [] else u.trailer)

values-copied :
    (name : Bytes) (u : Upstream)
    → values name (copied u new_client).header
      ≡ end_to_end name u.header ++ values name (announced u.trailer_names)
values-copied name u =
    values-append name (remove_hop_headers u.header) (announced u.trailer_names)
    ∙ ap (λ l. l ++ values name (announced u.trailer_names))
        (values-remove_hop_headers name u.header)

with_trailer-Relayed :
    (u : Upstream) (a : Attempted)
    → a.responded ≡ true
    → a.error ≡ u.cut
    → a.client ≡ with_trailer u new_client
    → Relayed u a
with_trailer-Relayed u a responded error client = elim (Option-cases u.cut) [
  | inl whole ↦ record {
    responded = responded;
    error = error;
    status = rw (client, whole) refl;
    body = rw (client, whole) refl;
    header = λ name. rw (client, whole) (values-copied name u);
    trailer = rw (client, whole) refl;
  }
  | inr (e, cut) ↦ record {
    responded = responded;
    error = error;
    status = rw (client, cut) refl;
    body = rw (client, cut) refl;
    header = λ name. rw (client, cut) (values-copied name u);
    trailer = rw (client, cut) refl;
  }
]

-- Whatever the upstream server answers: the request that forwardAttempt sends has the client's
-- end-to-end fields and no other. Where RoundTrip fails, nothing has reached the client, so that the
-- request can go to another instance; otherwise the client gets the response's status, body and
-- end-to-end fields, with the names of its trailer, and the trailer itself where the body is whole.
pub forward_attempt_relays :
    (header : List Field) (x : Exchange)
    → let a = forward_attempt header x new_client in
      ((name : Bytes) → values name a.sent ≡ end_to_end name header)
      × (Untouched x a ⊎ ((u : Upstream) × (x.answer ≡ ok u) × Relayed u a))
unfolding forward_attempt
forward_attempt_relays header x = elim (Result-cases x.answer) [
  | inr (e, f) ↦
      rw f ((λ name. values-remove_hop_headers name header), inl (e, refl, refl, refl, refl))
  | inl (u, f) ↦ rw f (
    (λ name. values-remove_hop_headers name header),
    inr (u, refl, with_trailer-Relayed u _ refl refl refl),
  )
]
