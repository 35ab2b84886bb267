-- ===== src/Control/Commands/Lost.antt =====
-- What follows a reply that is lost: control.command of internal/app/control.go.
use tor_rotating_http_proxy.Prelude.{
  ℕ, suc, ◌≡◌, refl, true, false, Option, none, some, List, [], ◌∷◌, arith, Bool-cases, inl, inr,
}
use tor_rotating_http_proxy.Prelude.Bytes.{Bytes, codes, has_any}
use tor_rotating_http_proxy.Errors.{is_some}
use tor_rotating_http_proxy.Control.Commands.{
  Returned, invalid_command, gets_lines, gets_refusal, write_error, context_error, closed_error,
  CommandTurn, taken, sent, Connection, new_control, Move, takes, gives_up, finds_done,
  sends_command, fails_to_write, receives, times_out, sees_done, answers, ends_reading, closes,
  take_turn, write_command, receive_reply, has_written, send_reply, control_move, run_commands,
}

-- The replies among what was returned
abbrev pub replies_in : List Returned → ℕ
replies_in [] = 0
replies_in (gets_lines opened position r ∷ l) = suc (replies_in l)
replies_in (gets_refusal opened position r ∷ l) = suc (replies_in l)
replies_in (invalid_command ∷ l) = replies_in l
replies_in (write_error ∷ l) = replies_in l
replies_in (context_error ∷ l) = replies_in l
replies_in (closed_error ∷ l) = replies_in l

-- No command can be written any more, and none waits for its reply.
Shut : ℕ → Connection → Type 0
Shut n c = (c.closed ≡ true) × (has_written c.turn ≡ false) × (replies_in c.log ≡ n)

take_turn-Shut : (n : ℕ) (text : Bytes) (c : Connection) → Shut n c → Shut n (take_turn text c)
unfolding Shut take_turn
take_turn-Shut n text c h = elim (Bool-cases (has_any text (codes "\r\n"))) [
  | inl bad ↦ rw bad h
  | inr good ↦ elim (Bool-cases (is_some c.turn)) [
    | inl busy ↦ rw (good, busy) h
    | inr free ↦ rw (good, free) (h.0, refl, h.2)
  ]
]

write_command-Shut :
    (n : ℕ) (o : Option CommandTurn) (c : Connection) → Shut n c → Shut n (write_command o c)
unfolding Shut write_command
write_command-Shut n none c h = h
write_command-Shut n (some (taken opened)) c h = rw h.0 (refl, h.1, h.2)
write_command-Shut n (some (sent opened k)) c h = h

receive_reply-Shut :
    (n : ℕ) (o : Option CommandTurn) (c : Connection)
    → has_written o ≡ false
    → Shut n c
    → Shut n (receive_reply o c)
unfolding Shut receive_reply
receive_reply-Shut n none c e h = h
receive_reply-Shut n (some (taken opened)) c e h = h
receive_reply-Shut n (some (sent opened k)) c e h = cc

control_move-Shut : (n : ℕ) (m : Move) (c : Connection) → Shut n c → Shut n (control_move m c)
unfolding control_move Shut send_reply
control_move-Shut n (takes text) c h = unfold Shut in take_turn-Shut n text c h
control_move-Shut n gives_up c h = h
control_move-Shut n finds_done c h = ground (arith, h)
control_move-Shut n sends_command c h = write_command-Shut n c.turn c h
control_move-Shut n fails_to_write c h = ground (arith, h)
control_move-Shut n receives c h = receive_reply-Shut n c.turn c h.1 h
control_move-Shut n times_out c h = ground (arith, h)
control_move-Shut n sees_done c h = ground (arith, h)
control_move-Shut n (answers code lines) c h = ground (arith, h)
control_move-Shut n ends_reading c h = ground (arith, h)
control_move-Shut n closes c h = ground (arith, h)

run_commands-Shut :
    (n : ℕ) (ms : List Move) (c : Connection) → Shut n c → Shut n (run_commands ms c)
unfolding run_commands
run_commands-Shut n [] c h = h
run_commands-Shut n (m ∷ ms) c h =
    run_commands-Shut n ms (control_move m c) (control_move-Shut n m c h)

-- Once a call whose command is written returns because its context ended, no call returns a reply
-- from then on, whatever the calls and the reader do.
pub lost_reply :
    (ms later : List Move)
    → has_written (run_commands ms new_control).turn ≡ true
    → replies_in (run_commands later (control_move times_out (run_commands ms new_control))).log
      ≡ replies_in (run_commands ms new_control).log
unfolding control_move Shut
lost_reply ms later mine =
    let c = run_commands ms new_control in
    (run_commands-Shut (replies_in c.log) later (control_move times_out c)
      (rw mine (refl, refl, refl))).2
