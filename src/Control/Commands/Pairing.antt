-- ===== src/Control/Commands/Pairing.antt =====
-- Which reply a command gets: control.command of internal/app/control.go.
use tor_rotating_http_proxy.Prelude.{
  ℕ, suc, ◌<◌, ◌≡◌, refl, sym, ap, ◌∙◌, Bool, true, false, not, ◌&&◌, Option, none, some, List, [],
  ◌∷◌, arith, All, Bool-cases, Option-cases, inl, inr, ltb, ◌==◌,
}
use tor_rotating_http_proxy.Prelude.Bytes.{Bytes, codes, has_any}
use tor_rotating_http_proxy.Errors.{is_some}
use tor_rotating_http_proxy.Control.Commands.{
  ControlReply, Returned, invalid_command, gets_lines, gets_refusal, write_error, context_error,
  closed_error, CommandTurn, taken, sent, Connection, new_control, Move, takes, gives_up,
  finds_done, sends_command, fails_to_write, receives, times_out, sees_done, answers, ends_reading,
  closes, close_control, leave_turn, take_turn, write_command, returned, take_reply, receive_reply,
  has_written, has_not_written, send_reply, control_move, run_commands,
}

-- A reply to a call that took its turn while `done` was open answers the call's own command.
abbrev pub Own : Returned → Type 0
Own invalid_command = Unit
Own (gets_lines opened position r) = opened ≡ true → r.number ≡ position
Own (gets_refusal opened position r) = opened ≡ true → r.number ≡ position
Own write_error = Unit
Own context_error = Unit
Own closed_error = Unit

-- The reply to the last command, the one at `k`, is on its way, or stands in the channel.
abbrev Pending : ℕ → ℕ → Option ControlReply → Type 0
Pending k answered none = answered ≡ k
Pending k answered (some r) = (answered ≡ suc k) × (r.number ≡ k)

Settled : ℕ → ℕ → Option ControlReply → Type 0
Settled written answered replies = (written ≡ answered) × (replies ≡ none)

-- Of the turn, `done`, the two counts and the channel of replies
abbrev Paired : Option CommandTurn → Bool → ℕ → ℕ → Option ControlReply → Type 0
Paired none done written answered replies = done ≡ false → Settled written answered replies
Paired (some (taken opened)) done written answered replies =
    (opened ≡ false → done ≡ true) × (opened ≡ true → Settled written answered replies)
Paired (some (sent opened k)) done written answered replies =
    (opened ≡ false → done ≡ true)
    × (opened ≡ true → (written ≡ suc k) × Pending k answered replies)

Kept : Connection → Type 0
Kept c = Paired c.turn c.done c.written c.answered c.replies × All Own c.log

-- Where `done` is closed, a call may leave.
leave_turn-Kept :
    (r : Returned) (c : Connection) → Own r → c.done ≡ true → All Own c.log → Kept (leave_turn r c)
unfolding Kept
leave_turn-Kept r c own closed log = ((λ e. cc), (own, log))

taken-Paired :
    (done : Bool) (written answered : ℕ) (replies : Option ControlReply)
    → (done ≡ false → Settled written answered replies)
    → Paired (some (taken (not done))) done written answered replies
taken-Paired true written answered replies h = ((λ e. refl), λ e. cc)
taken-Paired false written answered replies h = ((λ e. cc), λ e. h refl)

take_turn-Kept : (text : Bytes) (c : Connection) → Kept c → Kept (take_turn text c)
unfolding Kept take_turn
take_turn-Kept text c h = elim (Bool-cases (has_any text (codes "\r\n"))) [
  | inl bad ↦ rw bad (h.0, (tt, h.1))
  | inr good ↦ elim (Option-cases c.turn) [
    | inl free ↦
        rw (good, free) (taken-Paired c.done c.written c.answered c.replies (rw free at h.0), h.1)
    | inr (t, e) ↦ rw (good, e) (rw e at h.0, h.1)
  ]
]

write_command-Kept :
    (o : Option CommandTurn) (c : Connection) → c.turn ≡ o → Kept c → Kept (write_command o c)
unfolding Kept write_command Settled
write_command-Kept none c e h = h
write_command-Kept (some (sent opened k)) c e h = h
write_command-Kept (some (taken opened)) c e h = elim (Bool-cases c.closed) [
  | inl no_more ↦ rw no_more h
  | inr alive ↦
      let (before, settled) = rw e at h.0 in
      rw alive ((before, λ o. (refl, rw (settled o).1 (sym (settled o).0))), h.1)
]

returned-Own :
    (opened : Bool) (k : ℕ) (r : ControlReply)
    → (opened ≡ true → r.number ≡ k)
    → Own (returned opened k r)
returned-Own opened k r h = elim (Bool-cases (r.code == 250)) [
  | inl fine ↦ rw fine h
  | inr failed ↦ rw failed h
]

received-Settled :
    (opened done : Bool) (k written answered : ℕ) (r : ControlReply)
    → Paired (some (sent opened k)) done written answered (some r)
    → done ≡ false
    → Settled written answered none
unfolding Settled
received-Settled true done k written answered r h e = ((h.1 refl).0 ∙ sym (h.1 refl).1.0, refl)
received-Settled false done k written answered r h e = cc (h.0 refl)

take_reply-Kept :
    (opened : Bool) (k : ℕ) (o : Option ControlReply) (c : Connection)
    → c.turn ≡ some (sent opened k)
    → c.replies ≡ o
    → Kept c
    → Kept (take_reply opened k o c)
unfolding Kept
take_reply-Kept opened k none c e f h = h
take_reply-Kept opened k (some r) c e f h =
    let before = rw (e, f) at h.0 in
    (
      received-Settled opened c.done k c.written c.answered r before,
      (returned-Own opened k r (λ o. (before.1 o).1.1), h.1),
    )

receive_reply-Kept :
    (o : Option CommandTurn) (c : Connection) → c.turn ≡ o → Kept c → Kept (receive_reply o c)
unfolding receive_reply
receive_reply-Kept none c e h = h
receive_reply-Kept (some (taken opened)) c e h = h
receive_reply-Kept (some (sent opened k)) c e h = take_reply-Kept opened k c.replies c e refl h

-- A reply that the reader sends, into an empty channel
sent-Paired :
    (o : Option CommandTurn) (done : Bool) (written answered : ℕ) (r : ControlReply)
    → answered < written
    → r.number ≡ answered
    → Paired o done written answered none
    → Paired o done written (suc answered) (some r)
unfolding Settled
sent-Paired none done written answered r lt n h = λ e. absurd (omega (arith, lt, (h e).0))
sent-Paired (some (taken opened)) done written answered r lt n h =
    (h.0, λ o. absurd (omega (arith, lt, (h.1 o).0)))
sent-Paired (some (sent opened k)) done written answered r lt n h =
    (h.0, λ o. ((h.1 o).0, (ap suc (h.1 o).1, n ∙ (h.1 o).1)))

send_reply-Kept :
    (code : ℕ) (lines : List Bytes) (c : Connection) → Kept c → Kept (send_reply code lines c)
unfolding Kept send_reply
send_reply-Kept code lines c h = elim (Option-cases c.replies) [
  | inr (r, full) ↦
      let shut : (c.reading && (ltb c.answered c.written && not (is_some c.replies))) ≡ false =
        rw full (ground arith) in
      rw shut h
  | inl empty ↦ elim (Bool-cases (c.reading && (ltb c.answered c.written && true))) [
    | inl go ↦
        rw (empty, go)
          (
            sent-Paired c.turn c.done c.written c.answered
                (record { number = c.answered; code = code; lines = lines }) (ground (arith, go))
                refl (rw empty at h.0),
            h.1,
          )
    | inr shut ↦ rw (empty, shut) (rw empty at h.0, h.1)
  ]
]

-- A move that leaves the counts and the channels and can only close `done`
done-Paired :
    (o : Option CommandTurn) (done : Bool) (written answered : ℕ) (replies : Option ControlReply)
    → Paired o done written answered replies
    → Paired o true written answered replies
done-Paired none done written answered replies h = λ e. cc
done-Paired (some (taken opened)) done written answered replies h = ((λ e. refl), h.1)
done-Paired (some (sent opened k)) done written answered replies h = ((λ e. refl), h.1)

control_move-Kept : (m : Move) (c : Connection) → Kept c → Kept (control_move m c)
unfolding control_move Kept
control_move-Kept (takes text) c h = take_turn-Kept text c h
control_move-Kept gives_up c h = unfold Kept in (h.0, (tt, h.1))
control_move-Kept finds_done c h = elim (Bool-cases c.done) [
  | inl over ↦ rw over (unfold Kept in (rw over at h.0, (tt, h.1)))
  | inr other ↦ rw other (unfold Kept in (rw other at h.0, h.1))
]
control_move-Kept sends_command c h = write_command-Kept c.turn c refl h
control_move-Kept fails_to_write c h = elim (Bool-cases (has_not_written c.turn)) [
  | inl mine ↦ rw mine (leave_turn-Kept write_error (close_control c) tt refl (unfold Kept in h.1))
  | inr other ↦ rw other h
]
control_move-Kept receives c h = receive_reply-Kept c.turn c refl h
control_move-Kept times_out c h = elim (Bool-cases (has_written c.turn)) [
  | inl mine ↦
      rw mine (leave_turn-Kept context_error (close_control c) tt refl (unfold Kept in h.1))
  | inr other ↦ rw other h
]
control_move-Kept sees_done c h = elim (Bool-cases (has_written c.turn && c.done)) [
  | inl mine ↦
      rw mine (leave_turn-Kept closed_error c tt (ground (arith, mine)) (unfold Kept in h.1))
  | inr other ↦ rw other h
]
control_move-Kept (answers code lines) c h = send_reply-Kept code lines c h
control_move-Kept ends_reading c h = elim (Bool-cases c.reading) [
  | inl reading ↦
      rw reading
        (unfold Kept in (done-Paired c.turn c.done c.written c.answered c.replies h.0, h.1))
  | inr over ↦ rw over h
]
control_move-Kept closes c h = elim (Bool-cases (not c.reading && c.done)) [
  | inl over ↦ rw over (unfold Kept in h)
  | inr other ↦ rw other h
]

run_commands-Kept : (ms : List Move) (c : Connection) → Kept c → Kept (run_commands ms c)
unfolding run_commands
run_commands-Kept [] c h = h
run_commands-Kept (m ∷ ms) c h = run_commands-Kept ms (control_move m c) (control_move-Kept m c h)

-- Whatever calls of `command` and the reader do on a new connection, in any order: every reply that
-- a call returns, where `done` was open when the call took its turn, answers the command which that
-- call wrote.
pub commands_pair : (ms : List Move) → All Own (run_commands ms new_control).log
unfolding Kept Settled
commands_pair ms = (run_commands-Kept ms new_control ((λ e. (refl, refl)), tt)).1
