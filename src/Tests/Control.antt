-- ===== src/Tests/Control.antt =====
-- Tests of the control connection's reader: an event in a data block and the reply to a command.
use tor_rotating_http_proxy.Prelude.{◌≡◌, refl, List, [], ◌∷◌}
use tor_rotating_http_proxy.Prelude.Int.{pos}
use tor_rotating_http_proxy.Control.{event, replied, no_reply, read_loop, scan}
use tor_rotating_http_proxy.Control.Printed.{
  Code, plain, data_block, Message, asynchronous, reply, print,
}
use tor_rotating_http_proxy.Control.RoundTrip.{always}

abbrev ok_code : Code
ok_code = record { hundreds = 2; tens = 5; ones = 0 }

-- The second line of the block is a dot.
abbrev messages : List Message
messages =
    asynchronous (plain (67 ∷ 73 ∷ []))
    ∷ reply ok_code (data_block (97 ∷ 61 ∷ []) ((46 ∷ []) ∷ (46 ∷ 98 ∷ []) ∷ []) ∷ [])
        (79 ∷ 75 ∷ [])
    ∷ []

received :
    read_loop always (print messages) (no_reply 0)
    ≡ event (67 ∷ 73 ∷ [])
      ∷ replied (pos 250) ((97 ∷ 61 ∷ 10 ∷ 46 ∷ 10 ∷ 46 ∷ 98 ∷ []) ∷ (79 ∷ 75 ∷ []) ∷ [])
      ∷ []
unfolding read_loop print
received = refl

-- One carriage return is dropped from a line, and a rest with no newline is a line.
cut_short :
    scan (79 ∷ 75 ∷ 13 ∷ 10 ∷ 65 ∷ 13 ∷ 13 ∷ 10 ∷ 66 ∷ [])
    ≡ (79 ∷ 75 ∷ []) ∷ (65 ∷ 13 ∷ []) ∷ (66 ∷ []) ∷ []
unfolding scan
cut_short = refl
