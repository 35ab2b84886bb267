-- ===== src/Worker/CheckIp/Octets.antt =====
-- The fields of an address as text.
use mathlib.Core.List.{append_assoc}
use tor_rotating_http_proxy.Prelude.{
  ℕ, ◌+◌, ◌-◌, ◌*◌, ◌≤◌, ◌≡◌, refl, ap, ◌∙◌, some, List, [], ◌∷◌, ◌++◌, arith, ◌==◌, Bool-cases,
  inl, inr,
}
use tor_rotating_http_proxy.Prelude.Bytes.{Bytes, split, join, Lacks}
use tor_rotating_http_proxy.Worker.CheckIp.{octet, show_octet}

pub octet-show : (n : ℕ) → n ≤ 255 → octet (show_octet n) ≡ some n
unfolding octet
octet-show n h = ground (arith, h)

some_eq : (m n : ℕ) → some m ≡ some n → m ≡ n
some_eq m n h = cc

-- A field is the decimal of its number.
pub show-octet : (s : Bytes) (n : ℕ) → octet s ≡ some n → (n ≤ 255) × (s ≡ show_octet n)
unfolding octet
show-octet [] n h = cc
show-octet (a ∷ []) n h = ground (arith, h, some_eq (a - 48) n)
show-octet (a ∷ b ∷ []) n h = ground (arith, h, some_eq ((a - 48) * 10 + (b - 48)) n)
show-octet (a ∷ b ∷ c ∷ []) n h =
    ground (arith, h, some_eq ((a - 48) * 100 + (b - 48) * 10 + (c - 48)) n)
show-octet (a ∷ b ∷ c ∷ d ∷ s) n h = cc

pub show_octet-Lacks : (n : ℕ) → Lacks 46 (show_octet n)
show_octet-Lacks n = ground arith

split-Lacks : (b : ℕ) (p s : Bytes) → Lacks b p → split b (p ++ b ∷ s) ≡ p ∷ split b s
split-Lacks b [] s h = ground arith
split-Lacks b (a ∷ p) s h = rw (split-Lacks b p s h.1) (ground (arith, h.0))

pub split-join :
    (b : ℕ) (p q : Bytes) (ps : List Bytes)
    → Lacks b p
    → split b (join (b ∷ []) (p ∷ q ∷ ps)) ≡ p ∷ split b (join (b ∷ []) (q ∷ ps))
split-join b p q ps h =
    ap (split b) (append_assoc p (b ∷ []) (join (b ∷ []) (q ∷ ps)))
    ∙ split-Lacks b p (join (b ∷ []) (q ∷ ps)) h

pub split_last : (b : ℕ) (p : Bytes) → Lacks b p → split b p ≡ p ∷ []
split_last b [] h = refl
split_last b (a ∷ p) h = rw (split_last b p h.1) (ground (arith, h.0))

split-cons : (b : ℕ) (s : Bytes) → (p : Bytes) × (ps : List Bytes) × (split b s ≡ p ∷ ps)
split-cons b [] = ([], [], refl)
split-cons b (a ∷ s) =
    let (p, ps, e) = split-cons b s in
    elim (Bool-cases (a == b)) [
      | inl here ↦ ([], split b s, rw here refl)
      | inr other ↦ (a ∷ p, ps, rw (other, e) refl)
    ]

pushed :
    (a b : ℕ) (p : Bytes) (ps : List Bytes) (s : Bytes)
    → join (b ∷ []) (p ∷ ps) ≡ s
    → join (b ∷ []) ((a ∷ p) ∷ ps) ≡ a ∷ s
pushed a b p [] s h = ap (λ t. a ∷ t) h
pushed a b p (q ∷ ps) s h = ap (λ t. a ∷ t) h

pub join-split : (b : ℕ) (s : Bytes) → join (b ∷ []) (split b s) ≡ s
join-split b [] = refl
join-split b (a ∷ s) =
    let (p, ps, e) = split-cons b s in
    let again = join-split b s in
    elim (Bool-cases (a == b)) [
      | inl here ↦
          let same : a ≡ b = ground (arith, here) in
          rw here (rw e (rw same (ap (λ t. b ∷ t) (rw e at again))))
      | inr other ↦ rw (other, e) (pushed a b p ps s (rw e at again))
    ]
