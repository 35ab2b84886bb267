-- ===== src/Control.antt =====
-- internal/app/control.go: the reader of Tor's control connection, on the bytes that arrive up to the
-- connection's end: the scanner cuts them into lines, and the loop reads these. A line is the list of
-- its bytes, without its end.
pub mod Printed
pub mod Scanned
pub mod RoundTrip
pub mod Commands
use tor_rotating_http_proxy.Prelude.Bytes.{Bytes, bytes_eq, split}
use tor_rotating_http_proxy.Prelude.Int.{ℤ, pos, int_eq, atoi}
use tor_rotating_http_proxy.Prelude.{
  ℕ, zero, suc, ◌+◌, ◌-◌, ◌*◌, Bool, true, false, not, ◌&&◌, ◌||◌, Option, none, some, List, [],
  ◌∷◌, ◌++◌, length, ltb, leb, ◌==◌, if◌then◌else◌,
}

abbrev pub Line : Type 0
Line = Bytes

-- The limit of the scanner's buffer, one MiB
abbrev pub one_mib : ℕ
one_mib = 1048576

-- A line without a carriage return at its end
unfoldable pub drop_cr : Line → Line
drop_cr [] = []
drop_cr (a ∷ []) = if a == 13 then [] else a ∷ []
drop_cr (a ∷ b ∷ l) = a ∷ drop_cr (b ∷ l)

-- The scanner on a piece between newlines, and those behind it. It ends at a line that does not fit
-- in its buffer together with its newline; a rest without one is a line at the end of the
-- connection, where there is room in the buffer and it is not empty.
unfoldable pub scan_pieces : Bytes → List Bytes → List Line
unfolding drop_cr
scan_pieces p [] = if bytes_eq p [] || leb one_mib (length p) then [] else drop_cr p ∷ []
scan_pieces p (q ∷ ps) =
    let rest = scan_pieces q ps in if ltb one_mib (length p + 1) then [] else drop_cr p ∷ rest

abbrev pub scan_all : List Bytes → List Line
scan_all [] = []
scan_all (p ∷ ps) = scan_pieces p ps

-- The lines that Scan and Text of the scanner of newControl give
unfoldable pub scan : Bytes → List Line
unfolding scan_pieces
scan s = scan_all (split 10 s)

-- The limit of four MiB.
abbrev pub four_mib : ℕ
four_mib = 4194304

-- A data block: the code of its first line, and its text so far.
pub record Block : Type 0 where
  pub code : ℤ
  pub body : Line

-- `code`, `lines` and `total` are of the reply that is being read; `block` is the inner loop, while
-- it runs; `sent` counts what went to the channels.
pub record Reader : Type 0 where
  pub code : ℤ
  pub lines : List Line
  pub total : ℕ
  pub block : Option Block
  pub sent : ℕ

-- What goes to the channels.
pub data Output : Type 0 where
  event : Line → Output
  replied : ℤ → List Line → Output

abbrev pub Read : Type 0
Read = Option (Reader × List Output)

-- An empty reply
abbrev pub no_reply : ℕ → Reader
no_reply sent = record { code = pos 0; lines = []; total = 0; block = none; sent = sent }

-- `room i` says whether the i-th value finds room in its channel; without room for it the loop
-- returns, which closes the connection: `none`.
unfoldable pub put : (ℕ → Bool) → Output → Reader → Read
put room o r = if room r.sent then some (record r { sent = suc r.sent }, o ∷ []) else none

-- A line of a reply, and the end of the reply if the separator is a space.
unfoldable pub reply_line : (ℕ → Bool) → ℤ → ℕ → Line → Reader → Read
unfolding put
reply_line room code separator body r =
    let lines : List Line = r.lines ++ body ∷ [] in
    let total : ℕ = r.total + length body in
    if not (int_eq r.code (pos 0)) && not (int_eq r.code code)
    then none
    else (if ltb four_mib total
        then none
        else (if separator == 32
            then put room (replied code lines) (no_reply r.sent)
            else some (record r { code = code; lines = lines; total = total }, [])))

-- The line is complete, with its block if it has one.
unfoldable pub complete : (ℕ → Bool) → ℤ → ℕ → Line → Reader → Read
unfolding put reply_line
complete room code separator body r =
    if int_eq code (pos 650) then put room (event body) r else reply_line room code separator body r

abbrev is_separator : ℕ → Bool
is_separator s = s == 32 || (s == 45 || s == 43)

unfoldable pub with_code : (ℕ → Bool) → Option ℤ → ℕ → Line → Reader → Read
unfolding complete
with_code room none separator body r = none
with_code room (some code) separator body r =
    if not (is_separator separator)
    then none
    else (if separator == 43
        then some (record r { block = some (record { code = code; body = body }) }, [])
        else complete room code separator body r)

-- A line outside a block: three bytes of a code, a separator and a text.
unfoldable pub read_header : (ℕ → Bool) → Line → Reader → Read
unfolding with_code atoi
read_header room (a ∷ b ∷ c ∷ s ∷ body) r = with_code room (atoi (a ∷ b ∷ c ∷ [])) s body r
read_header room l r = none

-- A dot that was doubled
unfoldable pub unstuff : Line → Line
unstuff [] = []
unstuff (a ∷ []) = a ∷ []
unstuff (a ∷ b ∷ l) = if a == 46 && b == 46 then b ∷ l else a ∷ b ∷ l

abbrev pub is_dot : Line → Bool
is_dot [] = false
is_dot (a ∷ []) = a == 46
is_dot (a ∷ b ∷ l) = false

-- A line inside a block.
unfoldable pub read_data : (ℕ → Bool) → Block → Line → Reader → Read
unfolding complete unstuff
read_data room k l r =
    if is_dot l
    then complete room k.code 43 k.body (record r { block = none })
    else (if ltb four_mib (length k.body + length (unstuff l))
        then none
        else some (record r { block = some (record k { body = k.body ++ 10 ∷ unstuff l }) }, []))

unfoldable pub read_line : (ℕ → Bool) → Option Block → Line → Reader → Read
unfolding read_header read_data
read_line room none l r = read_header room l r
read_line room (some k) l r = read_data room k l r

abbrev pub read_on : Read → (Reader → List Output) → List Output
read_on none rest = []
read_on (some (r, os)) rest = os ++ rest r

-- readLoop
unfoldable pub read_loop : (ℕ → Bool) → List Line → Reader → List Output
unfolding read_line
read_loop room [] r = []
read_loop room (l ∷ ls) r = read_on (read_line room r.block l r) (λ q. read_loop room ls q)
