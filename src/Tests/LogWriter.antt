-- ===== src/Tests/LogWriter.antt =====
-- Tests of the log writer: a line cut in two, and two lines in one chunk.
use tor_rotating_http_proxy.Prelude.{◌≡◌, refl, map, true, false, List, [], ◌∷◌, ◌++◌, arith}
use tor_rotating_http_proxy.Prelude.Bytes.{Bytes, codes}
use tor_rotating_http_proxy.LogWriter.{entry, writes}
use tor_rotating_http_proxy.LogWriter.Chunks.{ShortLines, lines, concat, writes-lines}

abbrev chunks : List Bytes
chunks = codes "Nov [wa" ∷ (codes "rn] x" ++ 10 ∷ codes " y " ++ 10 ∷ codes "z") ∷ []

logged : writes chunks [] ≡ (
  record { warns = true; message = codes "Nov [warn] x" }
      ∷ record { warns = false; message = codes "y" }
      ∷ [],
  codes "z",
)
unfolding writes
logged = refl

chunks-ShortLines : ShortLines [] chunks
unfolding lines
chunks-ShortLines = (omega arith, (omega arith, tt))

writes-lines_example :
    writes chunks [] ≡ (map entry (lines [] (concat chunks)).0, (lines [] (concat chunks)).1)
writes-lines_example = writes-lines chunks chunks-ShortLines
