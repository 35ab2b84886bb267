-- ===== src/Control/RoundTrip.antt =====
-- What Tor writes, the reader gives to the channels.
use tor_rotating_http_proxy.Prelude.{ℕ, ◌≡◌, refl, Bool, true, ◌||◌, none, some, List, [], ◌⊎◌}
use tor_rotating_http_proxy.Prelude.Int.{ℤ, pos, int_eq}
use tor_rotating_http_proxy.Control.{Line, Block, Reader, Output, read_on}
use tor_rotating_http_proxy.Control.Printed.{Item, plain, data_block}

-- Every value finds room.
abbrev pub always : ℕ → Bool
always i = true

-- The reader, with the block `k`.
abbrev inside : Reader → Block → Reader
inside r k = record r { block = some k }

abbrev outside : Reader → Reader
outside r = record r { block = none }

read_on-some : (r : Reader) (rest : Reader → List Output) → read_on (some (r, [])) rest ≡ rest r
read_on-some r rest = refl

-- A text on one line comes to its own separator, one in a block to a plus sign.
abbrev separator_of : ℕ → Item → ℕ
separator_of s (plain l) = s
separator_of s (data_block l vs) = 43

-- The separators of a text on one line
abbrev IsPlain : ℕ → Type 0
IsPlain s = (s ≡ 32) ⊎ (s ≡ 45)

-- A reader with a part of a reply.
abbrev part : ℤ → List Line → ℕ → ℕ → Reader
part code lines total sent = record {
  code = code;
  lines = lines;
  total = total;
  block = none;
  sent = sent;
}

-- A part of a reply takes a line of the code `n`.
abbrev Takes : ℤ → ℕ → Type 0
Takes code n = (int_eq code (pos 0) || int_eq code (pos n)) ≡ true
