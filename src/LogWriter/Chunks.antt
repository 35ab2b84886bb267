-- ===== src/LogWriter/Chunks.antt =====
-- What torLogWriter makes of the chunks of an output.
use mathlib.Core.List.{append_assoc, append-nil, map-append}
use tor_rotating_http_proxy.Prelude.{
  ℕ, zero, suc, ◌≤◌, ◌<◌, ◌≡◌, ◌≢◌, refl, ap, ◌∙◌, subst, false, Option, none, some, List, [], ◌∷◌,
  ◌++◌, map, length, ltb, ◌==◌, if◌then◌else◌, arith, All-append, Bool-cases, inl, inr,
}
use tor_rotating_http_proxy.Prelude.Bytes.{Bytes, cut, Lacks}
use tor_rotating_http_proxy.LogWriter.{Entry, entry, take_lines, write, writes}

-- The lines that end in `text`, where `begun` stands before it, and what is left behind the last.
unfoldable pub lines : Bytes → Bytes → List Bytes × Bytes
lines begun [] = ([], begun)
lines begun (a ∷ text) =
    let ended = lines [] text in
    let longer = lines (begun ++ a ∷ []) text in
    if a == 10 then (begun ∷ ended.0, ended.1) else longer

lines-append :
    (begun a b : Bytes)
    → lines begun (a ++ b)
      ≡ ((lines begun a).0 ++ (lines (lines begun a).1 b).0, (lines (lines begun a).1 b).1)
unfolding lines
lines-append begun [] b = refl
lines-append begun (x ∷ a) b = elim (Bool-cases (x == 10)) [
  | inl end ↦ rw end (ap (λ (r : List Bytes × Bytes). (begun ∷ r.0, r.1)) (lines-append [] a b))
  | inr inside ↦ rw inside (lines-append (begun ++ x ∷ []) a b)
]

-- A text with no end of a line
lines-Lacks : (begun a b : Bytes) → Lacks 10 a → lines begun (a ++ b) ≡ lines (begun ++ a) b
unfolding lines
lines-Lacks begun [] b h = rw (append-nil begun) refl
lines-Lacks begun (x ∷ a) b h =
    let other : (x == 10) ≡ false = ground (arith, h.0) in
    rw other
      (lines-Lacks (begun ++ x ∷ []) a b h.1 ∙ ap (λ t. lines t b) (append_assoc begun (x ∷ []) a))

left-Lacks : (begun text : Bytes) → Lacks 10 begun → Lacks 10 (lines begun text).1
unfolding lines
left-Lacks begun [] h = h
left-Lacks begun (a ∷ text) h = elim (Bool-cases (a == 10)) [
  | inl end ↦ rw end (left-Lacks [] text tt)
  | inr inside ↦ rw inside (
      left-Lacks (begun ++ a ∷ []) text
        (All-append (λ b. b ≢ 10) begun (a ∷ []) h (ground (arith, inside), tt)))
]

-- What Cut finds is the first line.
Found : Bytes → Bytes → Option (Bytes × Bytes) → Type 0
Found begun text none = lines begun text ≡ ([], begun ++ text)
Found begun text (some (line, rest)) =
    (lines begun text ≡ ((begun ++ line) ∷ (lines [] rest).0, (lines [] rest).1))
    × (length rest < length text)

Found-cons :
    (begun : Bytes) (a : ℕ) (text : Bytes) (o : Option (Bytes × Bytes))
    → (a == 10) ≡ false
    → Found (begun ++ a ∷ []) text o
    → Found begun (a ∷ text) (elim o [ none ↦ none | some (l, r) ↦ some (a ∷ l, r) ])
unfolding Found lines
Found-cons begun a text none other h =
    rw other (h ∙ ap (λ t. ([], t)) (append_assoc begun (a ∷ []) text))
Found-cons begun a text (some (line, rest)) other h = (
  rw other (
      h.0
      ∙ ap (λ l. (l ∷ (lines [] rest).0, (lines [] rest).1)) (append_assoc begun (a ∷ []) line)),
  omega (arith, h.1),
)

cut-Found : (begun text : Bytes) → Found begun text (cut 10 text)
unfolding Found lines
cut-Found begun [] = rw (append-nil begun) refl
cut-Found begun (a ∷ text) = elim (Bool-cases (a == 10)) [
  | inl end ↦ rw end (rw (append-nil begun) (rw end refl), omega arith)
  | inr other ↦
      rw other (Found-cons begun a text (cut 10 text) other (cut-Found (begun ++ a ∷ []) text))
]

-- What the loop over the lines comes to, with fuel for every byte.
entries : Bytes → List Entry × Bytes
entries text = (map entry (lines [] text).0, (lines [] text).1)

taken :
    (fuel : ℕ) (text : Bytes) (o : Option (Bytes × Bytes))
    → Found [] text o
    → ((rest : Bytes) → length rest < length text → take_lines fuel rest ≡ entries rest)
    → (elim o [
      | none ↦ ([], text)
      | some (line, rest) ↦ (entry line ∷ (take_lines fuel rest).0, (take_lines fuel rest).1)
    ])
      ≡ entries text
unfolding Found entries
taken fuel text none h again = rw h refl
taken fuel text (some (line, rest)) h again = rw h.0 (rw (again rest h.1) refl)

take_lines-entries :
    (fuel : ℕ) (text : Bytes) → length text ≤ fuel → take_lines fuel text ≡ entries text
unfolding take_lines
take_lines-entries zero [] h = unfold entries lines in refl
take_lines-entries zero (a ∷ text) h = absurd (omega arith)
take_lines-entries (suc fuel) text h =
    taken fuel text (cut 10 text) (cut-Found [] text)
      (λ rest lt. take_lines-entries fuel rest (omega arith))

-- A Write of a chunk, behind the output `before`, where the unfinished line is not too long.
write-lines :
    (before chunk : Bytes)
    → length (lines [] (before ++ chunk)).1 ≤ 65536
    → write chunk (lines [] before).1
      ≡ (map entry (lines (lines [] before).1 chunk).0, (lines [] (before ++ chunk)).1)
unfolding write
write-lines before chunk short =
    let buffer = (lines [] before).1 in
    let same : lines [] (buffer ++ chunk) ≡ lines buffer chunk =
      lines-Lacks [] buffer chunk (left-Lacks [] before tt) in
    let end : (lines [] (before ++ chunk)).1 ≡ (lines buffer chunk).1 =
      ap (λ r. r.1) (lines-append [] before chunk) in
    let small : ltb 65536 (length (lines buffer chunk).1) ≡ false =
      ground (arith, subst (λ t. length t ≤ 65536) end short) in
    let taken_all : take_lines (length (buffer ++ chunk)) (buffer ++ chunk)
        ≡ (map entry (lines buffer chunk).0, (lines buffer chunk).1) =
      take_lines-entries (length (buffer ++ chunk)) (buffer ++ chunk) (omega arith)
      ∙ unfold entries in ap (λ (r : List Bytes × Bytes). (map entry r.0, r.1)) same in
    rw (taken_all, small, end) refl

-- At the end of each chunk, behind the output `before`, the unfinished line has at most 64 KiB.
abbrev pub ShortLines : Bytes → List Bytes → Type 0
ShortLines before [] = Unit
ShortLines before (chunk ∷ chunks) =
    (length (lines [] (before ++ chunk)).1 ≤ 65536) × ShortLines (before ++ chunk) chunks

abbrev pub concat : List Bytes → Bytes
concat [] = []
concat (c ∷ cs) = c ++ concat cs

writes-cons :
    (c : Bytes) (cs : List Bytes) (buffer : Bytes)
    → writes (c ∷ cs) buffer
      ≡ ((write c buffer).0 ++ (writes cs (write c buffer).1).0, (writes cs (write c buffer).1).1)
unfolding writes
writes-cons c cs buffer = refl

writes_lines :
    (before : Bytes) (chunks : List Bytes)
    → ShortLines before chunks
    → writes chunks (lines [] before).1 ≡ (
      map entry (lines (lines [] before).1 (concat chunks)).0,
      (lines [] (before ++ concat chunks)).1,
    )
writes_lines before [] h = unfold writes lines in rw (append-nil before) refl
writes_lines before (c ∷ cs) h =
    let t = (lines [] before).1 in
    let end : (lines [] (before ++ c)).1 ≡ (lines t c).1 =
      ap (λ r. r.1) (lines-append [] before c) in
    writes-cons c cs t
    ∙ rw (write-lines before c h.0) (
        rw (writes_lines (before ++ c) cs h.1) (
          rw (end, lines-append t c (concat cs), map-append, append_assoc before c (concat cs))
            refl))

-- However the output of Tor is cut into chunks, where the unfinished line is at most 64 KiB long at
-- the end of each: the records of the log are those of the complete lines of the whole output, in
-- order, and the buffer holds what stands behind the last of them.
pub writes-lines :
    (chunks : List Bytes)
    → ShortLines [] chunks
    → writes chunks [] ≡ (map entry (lines [] (concat chunks)).0, (lines [] (concat chunks)).1)
writes-lines chunks h = unfold lines in writes_lines [] chunks h

-- Whatever is written, Write leaves at most 64 KiB in the buffer.
pub write_bounded : (chunk buffer : Bytes) → length (write chunk buffer).1 ≤ 65536
unfolding write
write_bounded chunk buffer = ground arith
