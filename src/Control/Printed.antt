-- ===== src/Control/Printed.antt =====
-- How Tor writes on its control connection, after its control protocol: lines of a code, a
-- separator and a text; a text of several lines as a data block, with leading dots doubled and a
-- dot alone at its end.
use tor_rotating_http_proxy.Prelude.{
  ℕ, ◌+◌, ◌*◌, ◌≤◌, ◌≡◌, ◌≢◌, false, List, [], ◌∷◌, ◌++◌, length, ◌==◌, if◌then◌else◌,
}
use tor_rotating_http_proxy.Prelude.Int.{pos}
use tor_rotating_http_proxy.Prelude.Bytes.{Bytes, has_byte}
use tor_rotating_http_proxy.Control.{Line, Output, event, replied, four_mib, one_mib}

-- Three digits
pub record Code : Type 0 where
  pub hundreds : ℕ
  pub tens : ℕ
  pub ones : ℕ

pub record IsCode (c : Code) : Type 0 where
  pub hundreds : c.hundreds ≤ 9
  pub tens : c.tens ≤ 9
  pub ones : c.ones ≤ 9

abbrev pub value : Code → ℕ
value c = (c.hundreds * 10 + c.tens) * 10 + c.ones

abbrev pub header : Code → ℕ → Line → Line
header c separator text = (48 + c.hundreds) ∷ (48 + c.tens) ∷ (48 + c.ones) ∷ separator ∷ text

unfoldable pub stuff : Line → Line
stuff [] = []
stuff (a ∷ l) = if a == 46 then 46 ∷ a ∷ l else a ∷ l

unfoldable pub stuff_all : List Line → List Line
unfolding stuff
stuff_all [] = []
stuff_all (v ∷ vs) = stuff v ∷ stuff_all vs

-- Lines joined to the first of them
unfoldable pub joined : Line → List Line → Line
joined body [] = body
joined body (v ∷ vs) = joined (body ++ 10 ∷ v) vs

pub data Item : Type 0 where
  plain : Line → Item
  data_block : Line → List Line → Item

unfoldable pub text : Item → Line
unfolding joined
text (plain l) = l
text (data_block l vs) = joined l vs

-- An item of the code `c`, before the lines `rest`
unfoldable pub print_item : Code → ℕ → Item → List Line → List Line
unfolding stuff_all
print_item c separator (plain l) rest = header c separator l ∷ rest
print_item c separator (data_block l vs) rest = header c 43 l ∷ (stuff_all vs ++ (46 ∷ []) ∷ rest)

-- An event, or the reply to a command, whose last line ends it
pub data Message : Type 0 where
  asynchronous : Item → Message
  reply : Code → List Item → Line → Message

abbrev pub event_code : Code
event_code = record { hundreds = 6; tens = 5; ones = 0 }

unfoldable pub print_items : Code → List Item → List Line → List Line
unfolding print_item
print_items c [] rest = rest
print_items c (i ∷ is) rest = print_item c 45 i (print_items c is rest)

unfoldable pub print : List Message → List Line
unfolding print_item print_items
print [] = []
print (asynchronous i ∷ ms) = print_item event_code 32 i (print ms)
print (reply c is last ∷ ms) = print_items c is (header c 32 last ∷ print ms)

-- The bytes of these lines, each with its carriage return and newline
unfoldable pub wire : List Line → Bytes
wire [] = []
wire (l ∷ ls) = l ++ 13 ∷ 10 ∷ wire ls

-- A line that has no newline in it, and that fits in the scanner's buffer with its end
abbrev pub Sendable : Line → Type 0
Sendable l = (has_byte 10 l ≡ false) × (length l + 2 ≤ one_mib)

unfoldable pub texts : List Item → List Line
unfolding text
texts [] = []
texts (i ∷ is) = text i ∷ texts is

-- What the program should receive
unfoldable pub meant : List Message → List Output
unfolding text texts
meant [] = []
meant (asynchronous i ∷ ms) = event (text i) ∷ meant ms
meant (reply c is last ∷ ms) = replied (pos (value c)) (texts is ++ last ∷ []) ∷ meant ms

unfoldable pub size : List Item → ℕ
unfolding text
size [] = 0
size (i ∷ is) = length (text i) + size is

-- A message of at most four MiB; a reply has a code of its own, neither zero nor that of events.
abbrev pub Fits : Message → Type 0
Fits (asynchronous i) = length (text i) ≤ four_mib
Fits (reply c is last) =
    IsCode c × (value c ≢ 0) × (value c ≢ 650) × (size is + length last ≤ four_mib)
