-- ===== src/Worker/CheckIp/Public.antt =====
-- What checkIP lets pass as an exit address.
use tor_rotating_http_proxy.Prelude.{
  ℕ, ◌≤◌, ◌≡◌, ◌≢◌, ◌↔◌, refl, sym, ap, ◌∙◌, true, Option, none, some, List, [], ◌∷◌, take, arith,
  ◌==◌, Bool-cases, Option-cases, inl, inr,
}
use tor_rotating_http_proxy.Prelude.Bytes.{Bytes, split, join, trim_space}
use tor_rotating_http_proxy.Errors.{ok}
use tor_rotating_http_proxy.Worker.CheckIp.{
  octet, Address, of_octets, of_fields, parse_ipv4, is_public, show_octet, show_address, exit_ip,
  Answer, public_text, check_ip,
}
use tor_rotating_http_proxy.Worker.CheckIp.Octets.{
  octet-show, show-octet, show_octet-Lacks, split-join, split_last, join-split,
}

some_address : (x y : Address) → some x ≡ some y → x ≡ y
some_address x y h = cc

of_octets-some :
    (o p q r : Option ℕ) (x : Address)
    → of_octets o p q r ≡ some x
    → (o ≡ some x.a) × (p ≡ some x.b) × (q ≡ some x.c) × (r ≡ some x.d)
of_octets-some none p q r x h = cc
of_octets-some (some a) none q r x h = cc
of_octets-some (some a) (some b) none r x h = cc
of_octets-some (some a) (some b) (some c) none x h = cc
of_octets-some (some a) (some b) (some c) (some d) x h =
    let e = some_address (record { a = a; b = b; c = c; d = d }) x h in
    (ap (λ y. some y.a) e, ap (λ y. some y.b) e, ap (λ y. some y.c) e, ap (λ y. some y.d) e)

-- The fields of an address are octets.
pub record IsIpv4 (x : Address) : Type 0 where
  pub a : x.a ≤ 255
  pub b : x.b ≤ 255
  pub c : x.c ≤ 255
  pub d : x.d ≤ 255

-- Four fields of an address make up its text.
of_fields-join :
    (ps : List Bytes) (x : Address)
    → of_fields ps ≡ some x
    → (join (46 ∷ []) ps ≡ show_address x) × IsIpv4 x
unfolding show_address
of_fields-join [] x h = cc
of_fields-join (p ∷ []) x h = cc
of_fields-join (p ∷ q ∷ []) x h = cc
of_fields-join (p ∷ q ∷ r ∷ []) x h = cc
of_fields-join (p ∷ q ∷ r ∷ t ∷ u ∷ ps) x h = cc
of_fields-join (p ∷ q ∷ r ∷ t ∷ []) x h =
    let (e, f, g, i) = of_octets-some (octet p) (octet q) (octet r) (octet t) x h in
    let (a, p') = show-octet p x.a e in
    let (b, q') = show-octet q x.b f in
    let (c, r') = show-octet r x.c g in
    let (d, t') = show-octet t x.d i in
    (rw (p', q', r', t') refl, record { a = a; b = b; c = c; d = d })

parse_ipv4-show :
    (text : Bytes) (x : Address) → parse_ipv4 text ≡ some x → (text ≡ show_address x) × IsIpv4 x
unfolding parse_ipv4
parse_ipv4-show text x h =
    let (e, octets) = of_fields-join (split 46 text) x h in (sym (join-split 46 text) ∙ e, octets)

show-parse_ipv4 : (x : Address) → IsIpv4 x → parse_ipv4 (show_address x) ≡ some x
unfolding parse_ipv4 show_address
show-parse_ipv4 x v =
    rw
      (
        split-join 46 (show_octet x.a) (show_octet x.b) (show_octet x.c ∷ show_octet x.d ∷ [])
            (show_octet-Lacks x.a),
        split-join 46 (show_octet x.b) (show_octet x.c) (show_octet x.d ∷ [])
            (show_octet-Lacks x.b),
        split-join 46 (show_octet x.c) (show_octet x.d) [] (show_octet-Lacks x.c),
        split_last 46 (show_octet x.d) (show_octet-Lacks x.d),
        octet-show x.a v.a,
        octet-show x.b v.b,
        octet-show x.c v.c,
        octet-show x.d v.d,
      )
      refl

-- An address of a single host on the Internet
pub record IsPublic (x : Address) : Type 0 where
  pub specified : ¬ ((x.a ≡ 0) × (x.b ≡ 0) × (x.c ≡ 0) × (x.d ≡ 0))
  pub no_broadcast : ¬ ((x.a ≡ 255) × (x.b ≡ 255) × (x.c ≡ 255) × (x.d ≡ 255))
  pub no_loopback : x.a ≢ 127
  pub no_group : ¬ ((224 ≤ x.a) × (x.a ≤ 239))
  pub no_link : ¬ ((x.a ≡ 169) × (x.b ≡ 254))
  pub no_private_10 : x.a ≢ 10
  pub no_private_172 : ¬ ((x.a ≡ 172) × (16 ≤ x.b) × (x.b ≤ 31))
  pub no_private_192 : ¬ ((x.a ≡ 192) × (x.b ≡ 168))

is_public-IsPublic : (x : Address) → is_public x ≡ true → IsPublic x
unfolding is_public
is_public-IsPublic x h = record {
  specified = λ e. ground (arith, h, e);
  no_broadcast = λ e. ground (arith, h, e);
  no_loopback = λ e. ground (arith, h, e);
  no_group = λ e. ground (arith, h, e);
  no_link = λ e. ground (arith, h, e);
  no_private_10 = λ e. ground (arith, h, e);
  no_private_172 = λ e. ground (arith, h, e);
  no_private_192 = λ e. ground (arith, h, e);
}

IsPublic-is_public : (x : Address) → IsPublic x → is_public x ≡ true
unfolding is_public
IsPublic-is_public x p = ground (
  arith, p.specified, p.no_broadcast, p.no_loopback, p.no_group, p.no_link, p.no_private_10,
  p.no_private_172, p.no_private_192,
)

-- The answer of a checker is the text of a public IPv4 address.
pub record Names (r : Answer) (x : Address) : Type 0 where
  pub status : r.status ≡ 200
  pub whole : r.read_error ≡ none
  pub octets : IsIpv4 x
  pub public : IsPublic x
  pub text : trim_space (take 65 r.body) ≡ show_address x

exit_ip_eq : (s t : Bytes) → exit_ip s ≡ exit_ip t → s ≡ t
exit_ip_eq s t h = cc

public_text-exit :
    (o : Option Address) (t : Bytes)
    → public_text o ≡ exit_ip t
    → (x : Address) × (o ≡ some x) × (is_public x ≡ true) × (t ≡ show_address x)
public_text-exit none t h = cc
public_text-exit (some x) t h = elim (Bool-cases (is_public x)) [
  | inl public ↦ (x, refl, public, sym (exit_ip_eq (show_address x) t (rw public at h)))
  | inr private ↦ cc (rw private at h)
]

is_equal : (m n : ℕ) → (m == n) ≡ true → m ≡ n
is_equal m n h = ground (arith, h)

check_ip-Names :
    (r : Answer) (t : Bytes)
    → check_ip none (ok r) ≡ exit_ip t
    → (x : Address) × (t ≡ show_address x) × Names r x
unfolding check_ip
check_ip-Names r t h = elim (Bool-cases (r.status == 200)) [
  | inr other ↦ cc (rw other at h)
  | inl fine ↦ elim (Option-cases r.read_error) [
    | inr (e, f) ↦ cc (rw (fine, f) at h)
    | inl whole ↦
        let (x, parsed, public, e) =
          public_text-exit (parse_ipv4 (trim_space (take 65 r.body))) t (rw (fine, whole) at h) in
        let (text, octets) = parse_ipv4-show (trim_space (take 65 r.body)) x parsed in
        (
          x,
          e,
          record {
            status = is_equal r.status 200 fine;
            whole = whole;
            octets = octets;
            public = is_public-IsPublic x public;
            text = text;
          },
        )
  ]
]

Names-check_ip :
    (r : Answer) (x : Address) → Names r x → check_ip none (ok r) ≡ exit_ip (show_address x)
unfolding check_ip
Names-check_ip r x n =
    rw (n.status, n.whole, n.text, show-parse_ipv4 x n.octets, IsPublic-is_public x n.public) refl

-- checkIP, where the request has its answer, returns an address exactly when the answer has the
-- status 200, its first 65 bytes are read and are, but for white space around it, the text of an
-- IPv4 address that is neither private nor reserved for a loopback, a link, a group or all hosts;
-- what it returns is that text, the only one that the address has.
pub check_ip_passes :
    (r : Answer) (t : Bytes)
    → (check_ip none (ok r) ≡ exit_ip t) ↔ ((x : Address) × (t ≡ show_address x) × Names r x)
check_ip_passes r t = (check_ip-Names r t, λ (x, e, n). Names-check_ip r x n ∙ ap exit_ip (sym e))
