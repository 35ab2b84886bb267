-- ===== src/Control/Commands.antt =====
-- The commands of a control connection: control.command, newControl and Close of
-- internal/app/control.go, with the reader beside them. Many goroutines call `command`; a move is what
-- one of them, or the reader, does next, and a move that is not possible in a state leaves it
-- as it is. Tor answers commands in the order in which they are written, as its protocol documents.
pub mod Pairing
pub mod Lost
use tor_rotating_http_proxy.Prelude.{
  ℕ, suc, ◌+◌, Bool, true, false, not, ◌&&◌, ◌||◌, Option, none, some, List, [], ◌∷◌, ltb, ◌==◌,
  if◌then◌else◌,
}
use tor_rotating_http_proxy.Prelude.Bytes.{Bytes, codes, has_any}
use tor_rotating_http_proxy.Errors.{is_some}

-- controlReply, with the position of the command that it answers among all that were written.
pub record ControlReply : Type 0 where
  pub number : ℕ
  pub code : ℕ
  pub lines : List Bytes

-- What a call of `command` returns. A reply comes with the position of the call's own command, and
-- with whether `done` was still open when the call took its turn.
pub data Returned : Type 0 where
  invalid_command : Returned
  gets_lines gets_refusal : Bool → ℕ → ControlReply → Returned
  write_error : Returned
  context_error : Returned
  closed_error : Returned

-- The call whose value stands in the channel `commands`, with whether `done` was open when it took
-- its turn and, once it has written, the position of its command.
pub data CommandTurn : Type 0 where
  taken : Bool → CommandTurn
  sent : Bool → ℕ → CommandTurn

-- `turn` and `replies` are the channels of one place, `written` counts the commands written and
-- `answered` those whose reply the reader has put into `replies`. `done` says that the channel is
-- closed, `closed` that conn.Close has returned, `reading` that readLoop has not left its loop.
pub record Connection : Type 0 where
  pub turn : Option CommandTurn
  pub replies : Option ControlReply
  pub written : ℕ
  pub answered : ℕ
  pub done : Bool
  pub closed : Bool
  pub reading : Bool
  pub log : List Returned

-- newControl
abbrev pub new_control : Connection
new_control = record {
  turn = none;
  replies = none;
  written = 0;
  answered = 0;
  done = false;
  closed = false;
  reading = true;
  log = [];
}

pub data Move : Type 0 where
  takes : Bytes → Move
  gives_up : Move
  finds_done : Move
  sends_command : Move
  fails_to_write : Move
  receives : Move
  times_out : Move
  sees_done : Move
  answers : ℕ → List Bytes → Move
  ends_reading : Move
  closes : Move

-- Close, by the call whose turn it is: where the reader is inside once.Do, it waits for it.
abbrev pub close_control : Connection → Connection
close_control c = record c { done = true; closed = true }

-- The deferred receive from `commands`, with what the call returns
abbrev pub leave_turn : Returned → Connection → Connection
leave_turn r c = record c { turn = none; log = r ∷ c.log }

-- The first lines of `command`: the check of its text, and the send to `commands`
unfoldable pub take_turn : Bytes → Connection → Connection
take_turn text c =
    if has_any text (codes "\r\n")
    then record c { log = invalid_command ∷ c.log }
    else (if is_some c.turn then c else record c { turn = some (taken (not c.done)) })

-- The write, for the turn that it belongs to. A closed connection takes no more.
unfoldable pub write_command : Option CommandTurn → Connection → Connection
write_command none c = c
write_command (some (taken opened)) c =
    if c.closed
    then c
    else record c { turn = some (sent opened c.written); written = suc c.written }
write_command (some (sent opened k)) c = c

-- What is returned for a reply: its lines where the code is 250, an error with them otherwise
abbrev pub returned : Bool → ℕ → ControlReply → Returned
returned opened position r =
    if r.code == 250 then gets_lines opened position r else gets_refusal opened position r

abbrev pub take_reply : Bool → ℕ → Option ControlReply → Connection → Connection
take_reply opened position none c = c
take_reply opened position (some r) c =
    leave_turn (returned opened position r) (record c { replies = none })

unfoldable pub receive_reply : Option CommandTurn → Connection → Connection
receive_reply none c = c
receive_reply (some (taken opened)) c = c
receive_reply (some (sent opened k)) c = take_reply opened k c.replies c

abbrev pub has_written : Option CommandTurn → Bool
has_written none = false
has_written (some (taken opened)) = false
has_written (some (sent opened k)) = true

abbrev pub has_not_written : Option CommandTurn → Bool
has_not_written none = false
has_not_written (some (taken opened)) = true
has_not_written (some (sent opened k)) = false

-- The reader's send to `replies`
unfoldable pub send_reply : ℕ → List Bytes → Connection → Connection
send_reply code lines c =
    if c.reading && (ltb c.answered c.written && not (is_some c.replies))
    then record c {
      replies = some (record { number = c.answered; code = code; lines = lines });
      answered = suc c.answered;
    }
    else c

unfoldable pub control_move : Move → Connection → Connection
unfolding take_turn write_command receive_reply send_reply
control_move (takes text) c = take_turn text c
control_move gives_up c = record c { log = context_error ∷ c.log }
control_move finds_done c = if c.done then record c { log = closed_error ∷ c.log } else c
control_move sends_command c = write_command c.turn c
control_move fails_to_write c =
    if has_not_written c.turn then leave_turn write_error (close_control c) else c
control_move receives c = receive_reply c.turn c
control_move times_out c =
    if has_written c.turn then leave_turn context_error (close_control c) else c
control_move sees_done c = if has_written c.turn && c.done then leave_turn closed_error c else c
control_move (answers code lines) c = send_reply code lines c
control_move ends_reading c = if c.reading then record c { reading = false; done = true } else c
control_move closes c = if not c.reading && c.done then record c { closed = true } else c

unfoldable pub run_commands : List Move → Connection → Connection
unfolding control_move
run_commands [] c = c
run_commands (m ∷ ms) c = run_commands ms (control_move m c)
