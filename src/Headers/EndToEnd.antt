-- ===== src/Headers/EndToEnd.antt =====
-- Which fields removeHopHeaders of internal/app/proxy.go keeps.
use tor_rotating_http_proxy.Prelude.{
  ◌≡◌, refl, sym, ap, ◌∙◌, Bool, false, ◌&&◌, ◌||◌, List, [], ◌∷◌, ◌++◌, map, arith, if◌then◌else◌,
  Bool-cases, inl, inr,
}
use tor_rotating_http_proxy.Prelude.Bytes.{
  Bytes, codes, bytes_eq, to_lower, split, trim_space, bytes_eq_iff,
}
use tor_rotating_http_proxy.Headers.{
  Field, same_name, values, del, del_all, listed, hop_names, remove_hop_headers,
}

abbrev pub is_among : Bytes → List Bytes → Bool
is_among name [] = false
is_among name (n ∷ ns) = same_name name n || is_among name ns

-- The fields whose names are not among these
abbrev pub without : List Bytes → List Field → List Field
without names [] = []
without names (f ∷ fs) =
    let rest = without names fs in if is_among f.name names then rest else f ∷ rest

without-none : (h : List Field) → without [] h ≡ h
without-none [] = refl
without-none (f ∷ fs) = ap (λ l. f ∷ l) (without-none fs)

without-del :
    (name : Bytes) (names : List Bytes) (h : List Field)
    → without names (del name h) ≡ without (name ∷ names) h
unfolding del
without-del name names [] = refl
without-del name names (f ∷ fs) = elim (Bool-cases (same_name f.name name)) [
  | inl same ↦ rw same (without-del name names fs)
  | inr other ↦ rw (other, without-del name names fs) refl
]

del_all-without : (names : List Bytes) (h : List Field) → del_all names h ≡ without names h
unfolding del_all
del_all-without [] h = sym (without-none h)
del_all-without (name ∷ names) h = del_all-without names (del name h) ∙ without-del name names h

is_among-append :
    (name : Bytes) (ns ms : List Bytes)
    → is_among name (ns ++ ms) ≡ (is_among name ns || is_among name ms)
is_among-append name [] ms = refl
is_among-append name (n ∷ ns) ms = ground (arith, is_among-append name ns ms)

without-without :
    (ns ms : List Bytes) (h : List Field) → without ms (without ns h) ≡ without (ns ++ ms) h
without-without ns ms [] = refl
without-without ns ms (f ∷ fs) =
    ground (arith, is_among-append f.name ns ms, without-without ns ms fs)

-- removeHopHeaders comes to one pass that keeps, in order and unchanged, exactly the fields whose
-- name no value of Connection lists and that is none of the nine hop-by-hop names, whatever the
-- case of the letters.
pub remove_hop_headers-without :
    (h : List Field)
    → remove_hop_headers h ≡ without (listed (values (codes "Connection") h) ++ hop_names) h
unfolding remove_hop_headers
remove_hop_headers-without h =
    del_all-without hop_names (del_all (listed (values (codes "Connection") h)) h)
    ∙ ap (without hop_names) (del_all-without (listed (values (codes "Connection") h)) h)
    ∙ without-without (listed (values (codes "Connection") h)) hop_names h

-- The hop-by-hop fields that a proxy does not pass on, by their names in lower case
abbrev connection_fields : List Bytes
connection_fields =
    codes "connection"
    ∷ codes "keep-alive"
    ∷ codes "proxy-authenticate"
    ∷ codes "proxy-authorization"
    ∷ codes "proxy-connection"
    ∷ codes "te"
    ∷ codes "trailer"
    ∷ codes "transfer-encoding"
    ∷ codes "upgrade"
    ∷ []

abbrev any_is : Bytes → List Bytes → Bool
any_is n [] = false
any_is n (m ∷ ms) = bytes_eq n m || any_is n ms

-- Is a name in lower case one of the parts between the commas?
abbrev is_part : Bytes → List Bytes → Bool
is_part n [] = false
is_part n (p ∷ ps) = bytes_eq n (to_lower (trim_space p)) || is_part n ps

-- Does a Connection field list the name, which is in lower case?
abbrev is_listed : Bytes → List Field → Bool
is_listed n [] = false
is_listed n (f ∷ fs) =
    (bytes_eq (to_lower f.name) (codes "connection") && is_part n (split b',' f.value))
    || is_listed n fs

-- Is a field of this name not for the other end, in this header?
abbrev pub is_hop_by_hop : Bytes → List Field → Bool
is_hop_by_hop name h = any_is (to_lower name) connection_fields || is_listed (to_lower name) h

is_among-part :
    (name : Bytes) (ps : List Bytes)
    → is_among name (map trim_space ps) ≡ is_part (to_lower name) ps
is_among-part name [] = refl
is_among-part name (p ∷ ps) = rw (is_among-part name ps) refl

is_among-listed :
    (name : Bytes) (h : List Field)
    → is_among name (listed (values (codes "Connection") h)) ≡ is_listed (to_lower name) h
unfolding values
is_among-listed name [] = refl
is_among-listed name (f ∷ fs) = elim (Bool-cases (same_name f.name (codes "Connection"))) [
  | inl same ↦
      rw
        (
          same,
          is_among-append name (map trim_space (split b',' f.value))
              (listed (values (codes "Connection") fs)),
          is_among-part name (split b',' f.value),
          is_among-listed name fs,
        )
        refl
  | inr other ↦ rw (other, is_among-listed name fs) refl
]

is_among-fixed : (name : Bytes) → is_among name hop_names ≡ any_is (to_lower name) connection_fields
is_among-fixed name = ground arith

-- Names in the same canonical case are among the same names.
is_among-cong :
    (a b : Bytes) (ns : List Bytes) → to_lower a ≡ to_lower b → is_among a ns ≡ is_among b ns
is_among-cong a b [] h = refl
is_among-cong a b (n ∷ ns) h = rw (h, is_among-cong a b ns h) refl

pub values-without :
    (name : Bytes) (names : List Bytes) (h : List Field)
    → values name (without names h) ≡ (if is_among name names then [] else values name h)
unfolding values
values-without name names [] = ground arith
values-without name names (f ∷ fs) = elim (Bool-cases (same_name f.name name)) [
  | inl same ↦
      let again = values-without name names fs in
      let e = is_among-cong f.name name names ((bytes_eq_iff _ _).0 same) in
      elim (Bool-cases (is_among name names)) [
        | inl gone ↦ rw (e, gone) (rw gone at again)
        | inr kept ↦ rw (e, kept, same) (ap (λ l. f.value ∷ l) (rw kept at again))
      ]
  | inr other ↦ elim (Bool-cases (is_among f.name names)) [
    | inl gone ↦ rw (gone, other) (values-without name names fs)
    | inr kept ↦ rw (kept, other) (values-without name names fs)
  ]
]

pub values-append :
    (name : Bytes) (a b : List Field) → values name (a ++ b) ≡ values name a ++ values name b
unfolding values
values-append name [] b = refl
values-append name (f ∷ fs) b = elim (Bool-cases (same_name f.name name)) [
  | inl same ↦ rw same (ap (λ l. f.value ∷ l) (values-append name fs b))
  | inr other ↦ rw other (values-append name fs b)
]

-- The names of the fields that removeHopHeaders takes out of a header
abbrev pub hop_by_hop : List Field → List Bytes
hop_by_hop h = listed (values (codes "Connection") h) ++ hop_names

-- They are the names of the hop-by-hop fields.
pub is_among-hop_by_hop :
    (name : Bytes) (h : List Field) → is_among name (hop_by_hop h) ≡ is_hop_by_hop name h
is_among-hop_by_hop name h = ground (
  arith,
  is_among-append name (listed (values (codes "Connection") h)) hop_names,
  is_among-listed name h,
  is_among-fixed name,
)
