-- ===== src/Prelude/Affixes.antt =====
-- What the tests of a text's beginning and end say of it, and what its pieces are.
use mathlib.Core.Path.{◌≡◌, refl, sym, ap, ◌∙◌}
use mathlib.Core.Logic.{◌↔◌}
use mathlib.Core.Bool.{true}
use mathlib.Core.List.{[], ◌∷◌, ◌++◌, reverse, reverse-append, reverse-reverse}
use native.Mathlib.Omega.{arith}
use tor_rotating_http_proxy.Prelude.Bytes.{Bytes, has_prefix, has_suffix}

pub has_prefix-append : (t rest : Bytes) → has_prefix (t ++ rest) t ≡ true
has_prefix-append [] rest = refl
has_prefix-append (b ∷ t) rest = ground (arith, has_prefix-append t rest)

pub prefix_rest : (s t : Bytes) → has_prefix s t ≡ true → (rest : Bytes) × (s ≡ t ++ rest)
prefix_rest s [] h = (s, refl)
prefix_rest [] (b ∷ t) h = cc
prefix_rest (a ∷ s) (b ∷ t) h =
    let same : a ≡ b = ground (arith, h) in
    let more : has_prefix s t ≡ true = ground (arith, h) in
    let (rest, e) = prefix_rest s t more in (rest, rw (same, e) refl)

-- A text ends in another: something stands before it.
abbrev pub EndsIn : Bytes → Bytes → Type 0
EndsIn s t = (before : Bytes) × (s ≡ before ++ t)

pub has_suffix-EndsIn : (s t : Bytes) → (has_suffix s t ≡ true) ↔ EndsIn s t
has_suffix-EndsIn s t = (
  λ h.
      let (rest, e) = prefix_rest (reverse s) (reverse t) h in
      (
        reverse rest,
        sym (reverse-reverse s)
            ∙ ap reverse e
            ∙ reverse-append (reverse t) rest
            ∙ ap (λ l. reverse rest ++ l) (reverse-reverse t),
      ),
  λ (before, e).
      ap (λ l. has_prefix l (reverse t)) (ap reverse e ∙ reverse-append before t)
      ∙ has_prefix-append (reverse t) (reverse before),
)
