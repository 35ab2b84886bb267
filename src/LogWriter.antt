-- ===== src/LogWriter.antt =====
-- torLogWriter of internal/app/tor.go: it cuts what the Tor process prints into lines and logs
-- each. The chunks come as the process and the pipe happen to make them.
pub mod Chunks
use tor_rotating_http_proxy.Prelude.{
  ℕ, zero, suc, Bool, true, false, ◌||◌, Option, none, some, List, [], ◌∷◌, ◌++◌, length, ltb,
  if◌then◌else◌,
}
use tor_rotating_http_proxy.Prelude.Bytes.{Bytes, codes, contains, cut, trim_space}

-- A record of the log: at level Warn or Debug
pub record Entry : Type 0 where
  pub warns : Bool
  pub message : Bytes

unfoldable pub entry : Bytes → Entry
entry line = record {
  warns = contains line (codes "[warn]") || contains line (codes "[err]");
  message = trim_space line;
}

-- The loop over the complete lines of the buffer, of which `fuel` at most are taken.
unfoldable pub take_lines : ℕ → Bytes → List Entry × Bytes
unfolding entry
take_lines zero buffer = ([], buffer)
take_lines (suc fuel) buffer = elim (cut 10 buffer) [
  | none ↦ ([], buffer)
  | some (line, rest) ↦ let (entries, left) = take_lines fuel rest in (entry line ∷ entries, left)
]

-- Write: what it logs, and the buffer that it leaves. A buffer has no more lines than bytes.
unfoldable pub write : Bytes → Bytes → List Entry × Bytes
unfolding take_lines
write chunk buffer =
    let (entries, rest) = take_lines (length (buffer ++ chunk)) (buffer ++ chunk) in
    (entries, if ltb 65536 (length rest) then [] else rest)

-- One Write for each chunk
unfoldable pub writes : List Bytes → Bytes → List Entry × Bytes
unfolding write
writes [] buffer = ([], buffer)
writes (chunk ∷ chunks) buffer =
    let (entries, left) = write chunk buffer in
    let (more, last) = writes chunks left in (entries ++ more, last)
