-- ===== src/Worker/CheckIp.antt =====
-- checkIP of internal/app/tor.go, with the text that netip.ParseAddr takes for an IPv4 address and
-- what Is4, IsGlobalUnicast, IsPrivate and String say of it. What net/http answers is an argument.
pub mod Octets
pub mod Public
use tor_rotating_http_proxy.Prelude.{
  ℕ, ◌+◌, ◌-◌, ◌*◌, ◌/◌, ◌%◌, Bool, true, false, not, ◌&&◌, ◌||◌, Option, none, some, List, [], ◌∷◌,
  ◌++◌, take, ltb, leb, ◌==◌, if◌then◌else◌,
}
use tor_rotating_http_proxy.Prelude.Bytes.{Bytes, codes, is_digit, split, join, trim_space}
use tor_rotating_http_proxy.Errors.{GoError, Result, ok, err}

-- A field of an IPv4 address: one to three digits with no zero in front, at most 255
unfoldable pub octet : Bytes → Option ℕ
octet [] = none
octet (a ∷ []) = if is_digit a then some (a - 48) else none
octet (a ∷ b ∷ []) =
    if is_digit a && (is_digit b && not (a == 48)) then some ((a - 48) * 10 + (b - 48)) else none
octet (a ∷ b ∷ c ∷ []) =
    if is_digit a
      && (is_digit b
          && (is_digit c && (not (a == 48) && leb ((a - 48) * 100 + (b - 48) * 10 + (c - 48)) 255)))
    then some ((a - 48) * 100 + (b - 48) * 10 + (c - 48))
    else none
octet (a ∷ b ∷ c ∷ d ∷ s) = none

pub record Address : Type 0 where
  pub a : ℕ
  pub b : ℕ
  pub c : ℕ
  pub d : ℕ

abbrev pub of_octets : Option ℕ → Option ℕ → Option ℕ → Option ℕ → Option Address
of_octets (some a) (some b) (some c) (some d) = some (record { a = a; b = b; c = c; d = d })
of_octets none q r t = none
of_octets (some a) none r t = none
of_octets (some a) (some b) none t = none
of_octets (some a) (some b) (some c) none = none

abbrev pub of_fields : List Bytes → Option Address
of_fields [] = none
of_fields (p ∷ []) = none
of_fields (p ∷ q ∷ []) = none
of_fields (p ∷ q ∷ r ∷ []) = none
of_fields (p ∷ q ∷ r ∷ t ∷ []) = of_octets (octet p) (octet q) (octet r) (octet t)
of_fields (p ∷ q ∷ r ∷ t ∷ u ∷ ps) = none

-- netip.ParseAddr, where the address is one of IPv4
unfoldable pub parse_ipv4 : Bytes → Option Address
unfolding octet
parse_ipv4 text = of_fields (split b'.' text)

-- IsGlobalUnicast and not IsPrivate, of an IPv4 address
unfoldable pub is_public : Address → Bool
is_public x =
    not (x.a == 0 && (x.b == 0 && (x.c == 0 && x.d == 0)))
    && (not (x.a == 255 && (x.b == 255 && (x.c == 255 && x.d == 255)))
        && (not (x.a == 127)
            && (not (leb 224 x.a && leb x.a 239)
                && (not (x.a == 169 && x.b == 254)
                    && (not (x.a == 10)
                        && (not (x.a == 172 && (leb 16 x.b && leb x.b 31))
                            && not (x.a == 192 && x.b == 168)))))))

abbrev pub show_octet : ℕ → Bytes
show_octet n =
    if ltb n 10
    then (48 + n) ∷ []
    else (if ltb n 100
        then (48 + n / 10) ∷ (48 + n % 10) ∷ []
        else (48 + n / 100) ∷ (48 + n / 10 % 10) ∷ (48 + n % 10) ∷ [])

-- String
unfoldable pub show_address : Address → Bytes
show_address x =
    join (b'.' ∷ []) (show_octet x.a ∷ show_octet x.b ∷ show_octet x.c ∷ show_octet x.d ∷ [])

pub data IpError : Type 0 where
  no_answer : GoError → IpError
  http_status : ℕ → IpError
  not_public : IpError

pub data CheckedIp : Type 0 where
  exit_ip : Bytes → CheckedIp
  ip_error : IpError → CheckedIp

-- The answer of the checker, with the error of reading its body
pub record Answer : Type 0 where
  pub status : ℕ
  pub body : Bytes
  pub read_error : Option GoError

abbrev pub public_text : Option Address → CheckedIp
public_text none = ip_error not_public
public_text (some x) = if is_public x then exit_ip (show_address x) else ip_error not_public

abbrev pub read_answer : Answer → CheckedIp
read_answer r =
    if not (r.status == 200) then ip_error (http_status r.status) else elim r.read_error [
      | some e ↦ ip_error (no_answer e)
      | none ↦ public_text (parse_ipv4 (trim_space (take 65 r.body)))
    ]

-- checkIP: the error of the request, if it has one, or of Do, or the answer
unfoldable pub check_ip : Option GoError → Result Answer → CheckedIp
unfolding parse_ipv4 is_public show_address
check_ip (some e) answered = ip_error (no_answer e)
check_ip none (err e) = ip_error (no_answer e)
check_ip none (ok r) = read_answer r
