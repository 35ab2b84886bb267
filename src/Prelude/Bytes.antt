-- ===== src/Prelude/Bytes.antt =====
-- Text as Go's strings are: lists of bytes, with the functions of the packages strings and strconv
-- that the program calls. The text is ASCII where a function looks at letters or white space.
use Prim.Native.Char.{code}
use Prim.Native.String.{String}
use Prim.Native.Nat.{ℕ, ◌+◌, ◌-◌, ◌*◌}
use mathlib.Core.Path.{◌≡◌, refl}
use mathlib.Core.Logic.{◌≢◌, ◌↔◌}
use mathlib.Core.Bool.{Bool, true, false, ◌&&◌, ◌||◌}
use mathlib.Core.Option.{Option, none, some}
use mathlib.Core.List.{List, [], ◌∷◌, ◌++◌, reverse}
use native.Mathlib.Omega.{arith}
use tor_rotating_http_proxy.Prelude.Tests.{leb, ◌==◌, if◌then◌else◌}
use tor_rotating_http_proxy.Prelude.Lists.{All}

abbrev pub Bytes : Type 0
Bytes = List ℕ

-- The bytes of an ASCII literal
abbrev pub codes : String → Bytes
codes String.[] = []
codes (String.◌∷◌ c s) = code c ∷ codes s

abbrev pub bytes_eq : Bytes → Bytes → Bool
bytes_eq [] [] = true
bytes_eq [] (b ∷ t) = false
bytes_eq (a ∷ s) [] = false
bytes_eq (a ∷ s) (b ∷ t) = a == b && bytes_eq s t

pub bytes_eq_iff : (s t : Bytes) → (bytes_eq s t ≡ true) ↔ (s ≡ t)
bytes_eq_iff [] [] = (λ h. refl, λ h. refl)
bytes_eq_iff [] (b ∷ t) = (λ h. cc, λ h. cc)
bytes_eq_iff (a ∷ s) [] = (λ h. cc, λ h. cc)
bytes_eq_iff (a ∷ s) (b ∷ t) =
    (λ h. ground (arith, bytes_eq_iff s t, h), λ h. ground (arith, bytes_eq_iff s t, h))

-- strings.HasPrefix
abbrev pub has_prefix : Bytes → Bytes → Bool
has_prefix s [] = true
has_prefix [] (b ∷ t) = false
has_prefix (a ∷ s) (b ∷ t) = a == b && has_prefix s t

-- strings.HasSuffix
abbrev pub has_suffix : Bytes → Bytes → Bool
has_suffix s t = has_prefix (reverse s) (reverse t)

-- strings.Contains
abbrev pub contains : Bytes → Bytes → Bool
contains [] t = has_prefix [] t
contains (a ∷ s) t = has_prefix (a ∷ s) t || contains s t

-- strings.IndexByte is not negative.
abbrev pub has_byte : ℕ → Bytes → Bool
has_byte b [] = false
has_byte b (a ∷ s) = a == b || has_byte b s

-- strings.ContainsAny
abbrev pub has_any : Bytes → Bytes → Bool
has_any [] t = false
has_any (a ∷ s) t = has_byte a t || has_any s t

-- strings.Cut at one byte: what stands before its first occurrence, and behind it
abbrev pub cut : ℕ → Bytes → Option (Bytes × Bytes)
cut b [] = none
cut b (a ∷ s) =
    let rest = cut b s in
    if a == b then some ([], s) else elim rest [ none ↦ none | some (l, r) ↦ some (a ∷ l, r) ]

abbrev pub lower_byte : ℕ → ℕ
lower_byte a = if leb b'A' a && leb a b'Z' then a + 32 else a

-- strings.ToLower
abbrev pub to_lower : Bytes → Bytes
to_lower [] = []
to_lower (a ∷ s) = lower_byte a ∷ to_lower s

abbrev pub is_space : ℕ → Bool
is_space a = a == 32 || leb 9 a && leb a 13

abbrev pub trim_left : Bytes → Bytes
trim_left [] = []
trim_left (a ∷ s) = if is_space a then trim_left s else a ∷ s

-- strings.TrimSpace
abbrev pub trim_space : Bytes → Bytes
trim_space s = reverse (trim_left (reverse (trim_left s)))

abbrev push_byte : ℕ → List Bytes → List Bytes
push_byte a [] = (a ∷ []) ∷ []
push_byte a (p ∷ ps) = (a ∷ p) ∷ ps

-- strings.Split at one byte
abbrev pub split : ℕ → Bytes → List Bytes
split b [] = [] ∷ []
split b (a ∷ s) = let rest = split b s in if a == b then [] ∷ rest else push_byte a rest

abbrev drop_empty : List Bytes → List Bytes
drop_empty [] = []
drop_empty ([] ∷ ps) = drop_empty ps
drop_empty ((a ∷ p) ∷ ps) = (a ∷ p) ∷ drop_empty ps

abbrev spaced : Bytes → Bytes
spaced [] = []
spaced (a ∷ s) = (if is_space a then 32 else a) ∷ spaced s

-- strings.Fields
abbrev pub fields : Bytes → List Bytes
fields s = drop_empty (split 32 (spaced s))

-- strings.Join
abbrev pub join : Bytes → List Bytes → Bytes
join sep [] = []
join sep (p ∷ []) = p
join sep (p ∷ q ∷ ps) = p ++ sep ++ join sep (q ∷ ps)

abbrev pub is_digit : ℕ → Bool
is_digit b = leb b'0' b && leb b b'9'

-- The number that digits stand for, after those that gave `n`
abbrev pub digits : ℕ → Bytes → Option ℕ
digits n [] = some n
digits n (b ∷ bs) = let rest = digits (n * 10 + (b - b'0')) bs in if is_digit b then rest else none

-- A text of one digit or more
abbrev pub unsigned : Bytes → Option ℕ
unsigned [] = none
unsigned (b ∷ bs) = digits 0 (b ∷ bs)

-- A text lacks a byte.
abbrev pub Lacks : ℕ → Bytes → Type 0
Lacks b = All (λ a. a ≢ b)
