-- ===== src/Control/Scanned.antt =====
-- The scanner of Tor's control connection gives the lines that Tor sends.
use tor_rotating_http_proxy.Prelude.{
  ℕ, ◌+◌, ◌≤◌, ◌≡◌, refl, ap, ◌∙◌, false, List, [], ◌∷◌, ◌++◌, length, length-append, inl, inr,
  ◌==◌, arith, All, Bool-cases, ltb,
}
use tor_rotating_http_proxy.Prelude.Bytes.{Bytes, has_byte, split}
use tor_rotating_http_proxy.Control.{Line, one_mib, drop_cr, scan_pieces, scan_all, scan}
use tor_rotating_http_proxy.Control.Printed.{wire, Sendable}

drop_cr-append : (l : Line) → drop_cr (l ++ 13 ∷ []) ≡ l
unfolding drop_cr
drop_cr-append [] = refl
drop_cr-append (a ∷ []) = refl
drop_cr-append (a ∷ b ∷ l) = ap (λ k. a ∷ k) (drop_cr-append (b ∷ l))

-- The first piece of a line's bytes, with those of the rest
split-line :
    (l : Line) (rest : Bytes)
    → has_byte 10 l ≡ false
    → split 10 (l ++ 13 ∷ 10 ∷ rest) ≡ (l ++ 13 ∷ []) ∷ split 10 rest
split-line [] rest h = refl
split-line (a ∷ l) rest h =
    let other : (a == 10) ≡ false = ground (arith, h) in
    rw (other, split-line l rest (ground (arith, h))) refl

split-cons : (b : ℕ) (s : Bytes) → (p : Bytes) × (ps : List Bytes) × (split b s ≡ p ∷ ps)
split-cons b [] = ([], [], refl)
split-cons b (a ∷ s) = elim (Bool-cases (a == b)) [
  | inl same ↦ ([], split b s, rw same refl)
  | inr other ↦ let (p, ps, e) = split-cons b s in (a ∷ p, ps, rw (other, e) refl)
]

scan_line :
    (l : Line) (ps : List Bytes) (p : Bytes) (qs : List Bytes)
    → length l + 2 ≤ one_mib
    → ps ≡ p ∷ qs
    → scan_pieces (l ++ 13 ∷ []) ps ≡ l ∷ scan_all ps
unfolding scan_pieces
scan_line l ps p qs h e =
    let short : ltb one_mib (length (l ++ 13 ∷ []) + 1) ≡ false =
      ground (arith, h, length-append l (13 ∷ [])) in
    rw (e, short, drop_cr-append l) refl

-- The scanner gives the lines that were sent.
pub scan-wire : (ls : List Line) → All Sendable ls → scan (wire ls) ≡ ls
unfolding scan wire scan_pieces
scan-wire [] h = refl
scan-wire (l ∷ ls) h =
    let (p, ps, e) = split-cons 10 (wire ls) in
    ap scan_all (split-line l (wire ls) h.0.0)
    ∙ scan_line l (split 10 (wire ls)) p ps h.0.1 e
    ∙ ap (λ k. l ∷ k) (scan-wire ls h.1)
