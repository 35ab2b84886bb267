-- ===== src/Tests/Commands.antt =====
-- Tests of the commands of a control connection: two commands in turn, a command whose reply is
-- lost, and the short time in which `done` is closed and the connection is not yet.
use tor_rotating_http_proxy.Prelude.{◌≡◌, refl, true, false, List, [], ◌∷◌, All}
use tor_rotating_http_proxy.Prelude.Bytes.{codes}
use tor_rotating_http_proxy.Control.Commands.{
  Move, takes, sends_command, answers, receives, times_out, sees_done, ends_reading, gets_lines,
  gets_refusal, closed_error, new_control, run_commands, control_move,
}
use tor_rotating_http_proxy.Control.Commands.Pairing.{Own, commands_pair}
use tor_rotating_http_proxy.Control.Commands.Lost.{replies_in, lost_reply}

abbrev two_commands : List Move
two_commands =
    takes (codes "AUTHENTICATE")
    ∷ sends_command
    ∷ answers 250 []
    ∷ receives
    ∷ takes (codes "SIGNAL NEWNYM")
    ∷ sends_command
    ∷ answers 510 []
    ∷ receives
    ∷ []

answered :
    (run_commands two_commands new_control).log
    ≡ gets_refusal true 1 (record { number = 1; code = 510; lines = [] })
      ∷ gets_lines true 0 (record { number = 0; code = 250; lines = [] })
      ∷ []
unfolding run_commands
answered = refl

-- The first call returns as it sees `done`, with its reply in the channel; the second, whose turn
-- comes before the reader has closed the connection, gets that reply.
abbrev between : List Move
between =
    takes (codes "AUTHENTICATE")
    ∷ sends_command
    ∷ answers 250 []
    ∷ ends_reading
    ∷ sees_done
    ∷ takes (codes "SIGNAL NEWNYM")
    ∷ sends_command
    ∷ receives
    ∷ []

stale :
    (run_commands between new_control).log
    ≡ gets_lines false 1 (record { number = 0; code = 250; lines = [] }) ∷ closed_error ∷ []
unfolding run_commands
stale = refl

commands_pair_example : All Own (run_commands two_commands new_control).log
commands_pair_example = commands_pair two_commands

abbrev waiting : List Move
waiting = takes (codes "AUTHENTICATE") ∷ sends_command ∷ []

lost_reply_example :
    replies_in
      (run_commands two_commands (control_move times_out (run_commands waiting new_control))).log
    ≡ replies_in (run_commands waiting new_control).log
unfolding run_commands
lost_reply_example = lost_reply waiting two_commands refl
