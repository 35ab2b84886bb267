-- ===== src/Cycle/Build/Replies.antt =====
-- What Tor's answers to EXTENDCIRCUIT and to circuit-status say.
use tor_rotating_http_proxy.Prelude.{
  ℕ, ◌^◌, ◌≤◌, ◌<◌, ◌≡◌, ◌≢◌, refl, sym, ap, ◌∙◌, ◌⊎◌, inl, inr, true, false, Option, none, some,
  All, drop, List, [], ◌∷◌, ◌++◌, arith, Bool-cases,
}
use tor_rotating_http_proxy.Prelude.Bytes.{
  Bytes, codes, bytes_eq_iff, has_prefix, unsigned, split, join, fields,
}
use tor_rotating_http_proxy.Prelude.Affixes.{has_prefix-append, prefix_rest}
use tor_rotating_http_proxy.Errors.{GoError, ok, err}
use tor_rotating_http_proxy.Cycle.Build.{
  extended_key, extended_circuit, within_64, is_circuit, says_built, any_built, is_built, Circuit,
}

-- A line that says which circuit has been extended
abbrev pub extended_line : Bytes → Bytes
extended_line circuit = codes "EXTENDED " ++ circuit

abbrev pub NoneExtended : List Bytes → Type 0
NoneExtended = All (λ line. (circuit : Bytes) → line ≢ extended_line circuit)

-- The last line of its kind names the circuit.
abbrev pub Names : List Bytes → Bytes → Type 0
Names lines circuit =
    (before after : List Bytes) × (lines ≡ before ++ extended_line circuit ∷ after)
    × NoneExtended after

-- Tor's answer to EXTENDCIRCUIT names a circuit, by a positive number of 64 bits.
abbrev pub Extended : Circuit → Bytes → Type 0
Extended c circuit =
    (lines : List Bytes) × (n : ℕ) × (c.extended ≡ ok lines)
    × Names lines circuit
    × (unsigned circuit ≡ some n)
    × (1 ≤ n)
    × (n < 2 ^ 64)

-- There was an error, or the answer names no circuit in this way.
abbrev pub NotExtended : Circuit → Type 0
NotExtended c = (circuit : Bytes) → ¬ Extended c circuit

no_key-differs :
    (line : Bytes)
    → has_prefix line (codes "EXTENDED ") ≡ false
    → (c : Bytes) → line ≢ extended_line c
no_key-differs line h c e =
    cc (
      sym h
      ∙ ap (λ l. has_prefix l (codes "EXTENDED ")) e
      ∙ has_prefix-append (codes "EXTENDED ") c)

-- What the loop over the lines finds
Found : Bytes → List Bytes → Type 0
Found before_them lines =
    Names lines (extended_circuit before_them lines)
    ⊎ (NoneExtended lines × (extended_circuit before_them lines ≡ before_them))

found : (c : Bytes) (lines : List Bytes) → Found c lines
unfolding Found
found c [] = inr (tt, refl)
found c (line ∷ lines) = elim (Bool-cases (has_prefix line extended_key)) [
  | inr other ↦ rw other (elim (found c lines) [
    | inl (before, after, e, f) ↦ inl (line ∷ before, after, ap (λ l. line ∷ l) e, f)
    | inr (none_there, same) ↦ inr ((no_key-differs line other, none_there), same)
  ])
  | inl key ↦
      let (id, e) = prefix_rest line (codes "EXTENDED ") key in
      rw e (elim (found id lines) [
        | inl (before, after, g, f) ↦
            inl (extended_line id ∷ before, after, ap (λ l. extended_line id ∷ l) g, f)
        | inr (none_there, same) ↦
            inl ([], lines, ap (λ k. extended_line k ∷ lines) (sym same), none_there)
      ])
]

extended_circuit-none :
    (c : Bytes) (lines : List Bytes) → NoneExtended lines → extended_circuit c lines ≡ c
extended_circuit-none c [] h = refl
extended_circuit-none c (line ∷ lines) (here, later) =
    elim (Bool-cases (has_prefix line extended_key)) [
      | inl key ↦ absurd (let (id, e) = prefix_rest line (codes "EXTENDED ") key in here id e)
      | inr other ↦ rw other (extended_circuit-none c lines later)
    ]

extended_circuit-last :
    (c circuit : Bytes) (before after : List Bytes)
    → NoneExtended after
    → extended_circuit c (before ++ extended_line circuit ∷ after) ≡ circuit
extended_circuit-last c circuit [] after h = extended_circuit-none circuit after h
extended_circuit-last c circuit (line ∷ before) after h =
    elim (Bool-cases (has_prefix line extended_key)) [
      | inl key ↦ rw key (extended_circuit-last (drop 9 line) circuit before after h)
      | inr other ↦ rw other (extended_circuit-last c circuit before after h)
    ]

within_64-some :
    (o : Option ℕ) → within_64 o ≡ true → (n : ℕ) × (o ≡ some n) × (1 ≤ n) × (n < 2 ^ 64)
within_64-some none h = cc
within_64-some (some n) h = (n, refl, ground (arith, h), ground (arith, h))

some-within_64 : (o : Option ℕ) (n : ℕ) → o ≡ some n → 1 ≤ n → n < 2 ^ 64 → within_64 o ≡ true
some-within_64 o n e h k = rw e (ground (arith, h, k))

-- Where the answer has a valid ID, that is the circuit which it names.
pub is_circuit-Extended :
    (c : Circuit) (lines : List Bytes)
    → c.extended ≡ ok lines
    → is_circuit (extended_circuit [] lines) ≡ true
    → Extended c (extended_circuit [] lines)
unfolding is_circuit Found
is_circuit-Extended c lines e h =
    let (n, f, lo, hi) = within_64-some (unsigned (extended_circuit [] lines)) h in
    elim (found [] lines) [
      | inl names ↦ (lines, n, e, names, f, lo, hi)
      | inr (none_there, empty) ↦ absurd (cc (sym f ∙ ap unsigned empty))
    ]

ok_lines : (a b : List Bytes) → ok a ≡ ok b → a ≡ b
ok_lines a b h = cc

pub is_circuit-NotExtended :
    (c : Circuit) (lines : List Bytes)
    → c.extended ≡ ok lines
    → is_circuit (extended_circuit [] lines) ≡ false
    → NotExtended c
unfolding is_circuit
is_circuit-NotExtended c lines e h circuit (said, n, f, (before, after, g, last), i, lo, hi) =
    let same : lines ≡ before ++ extended_line circuit ∷ after =
      ok_lines lines said (sym e ∙ f) ∙ g in
    let which : extended_circuit [] lines ≡ circuit =
      ap (extended_circuit []) same ∙ extended_circuit-last [] circuit before after last in
    cc (
      sym h ∙ some-within_64 (unsigned (extended_circuit [] lines)) n (ap unsigned which ∙ i) lo hi)

pub err-NotExtended : (c : Circuit) (e : GoError) → c.extended ≡ err e → NotExtended c
err-NotExtended c e f circuit (lines, n, g, names, i, lo, hi) = cc (sym f ∙ g)

-- A line of an answer's text says that the circuit is built: its first two fields are the circuit's ID
-- and BUILT.
abbrev pub SaysBuilt : Bytes → List Bytes → Type 0
SaysBuilt circuit lines =
    (before : List Bytes) × (line : Bytes) × (after : List Bytes) × (rest : List Bytes) × (split 10
        (join (10 ∷ []) lines)
      ≡ before ++ line ∷ after)
    × (fields line ≡ circuit ∷ codes "BUILT" ∷ rest)

says_built-fields :
    (circuit : Bytes) (fs : List Bytes)
    → says_built circuit fs ≡ true
    → (rest : List Bytes) × (fs ≡ circuit ∷ codes "BUILT" ∷ rest)
says_built-fields circuit [] h = cc
says_built-fields circuit (a ∷ []) h = cc
says_built-fields circuit (a ∷ b ∷ fs) h =
    let e : a ≡ circuit = ground (arith, bytes_eq_iff a circuit, h) in
    let f : b ≡ codes "BUILT" = ground (arith, bytes_eq_iff b (codes "BUILT"), h) in
    (fs, rw (e, f) refl)

any_built-line :
    (circuit : Bytes) (lines : List Bytes)
    → any_built circuit lines ≡ true
    → (before : List Bytes) × (line : Bytes) × (after : List Bytes) × (rest : List Bytes) × (lines
        ≡ before ++ line ∷ after)
      × (fields line ≡ circuit ∷ codes "BUILT" ∷ rest)
any_built-line circuit [] h = cc
any_built-line circuit (line ∷ lines) h = elim (Bool-cases (says_built circuit (fields line))) [
  | inl here ↦
      let (rest, e) = says_built-fields circuit (fields line) here in
      ([], line, lines, rest, refl, e)
  | inr other ↦
      let (before, found, after, rest, e, f) =
        any_built-line circuit lines (ground (arith, h, other)) in
      (line ∷ before, found, after, rest, ap (λ l. line ∷ l) e, f)
]

pub is_built-SaysBuilt :
    (circuit : Bytes) (lines : List Bytes) → is_built circuit lines ≡ true → SaysBuilt circuit lines
unfolding is_built
is_built-SaysBuilt circuit lines h = any_built-line circuit (split 10 (join (10 ∷ []) lines)) h
