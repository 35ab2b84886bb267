-- ===== src/Worker/Process/Reaped.antt =====
-- The processes of an instance, one after another.
use tor_rotating_http_proxy.Prelude.{
  ◌≡◌, refl, ◌∙◌, Bool, true, false, Option, none, some, List, [], ◌∷◌, ◌++◌, All,
}
use tor_rotating_http_proxy.Errors.{GoError, is_some}
use tor_rotating_http_proxy.Worker.{Policy}
use tor_rotating_http_proxy.Worker.Bootstrap.{supervise_tor}
use tor_rotating_http_proxy.Worker.Process.{
  Deed, makes_dir, removes_socket, writes_torrc, starts, terminates, kills, reaps, Moment,
  before_check, before_sigterm, before_kill, after_kill, Launch, Deeds, attempt, attempt_all,
  preparations, start_error, end_process, supervised, run_tor, run_instance,
}

-- Is there a process after these deeds? None where one was done out of place: a start or the removal
-- of a socket while there is a process, or the end of one while there is none. A signal may come at
-- any time, since the end of the process is not the signal's.
abbrev pub replay : Bool → List Deed → Option Bool
replay alive [] = some alive
replay alive (makes_dir ∷ ds) = replay alive ds
replay alive (writes_torrc ∷ ds) = replay alive ds
replay true (removes_socket ∷ ds) = none
replay false (removes_socket ∷ ds) = replay false ds
replay true (starts ∷ ds) = none
replay false (starts ∷ ds) = replay true ds
replay alive (terminates ∷ ds) = replay alive ds
replay alive (kills ∷ ds) = replay alive ds
replay true (reaps ∷ ds) = replay false ds
replay false (reaps ∷ ds) = none

-- Deeds that leave no process where none was before, and whatever follows
Clean : List Deed → Type 0
Clean ds = (more : List Deed) → replay false (ds ++ more) ≡ replay false more

-- The deeds of a started process, up to its end
end_process-replay :
    (m : Moment) (timed_out : Bool) (more : List Deed)
    → replay true (end_process m timed_out ++ more) ≡ replay false more
unfolding end_process
end_process-replay before_check timed_out more = refl
end_process-replay before_sigterm false more = refl
end_process-replay before_sigterm true more = refl
end_process-replay before_kill false more = refl
end_process-replay before_kill true more = refl
end_process-replay after_kill false more = refl
end_process-replay after_kill true more = refl

started-Clean :
    (l : Launch) (o e : Option GoError)
    → is_some (attempt starts o (supervised l e)).1 ≡ true
    → Clean (attempt starts o (supervised l e)).0
unfolding Clean
started-Clean l (some f) e h = λ more. refl
started-Clean l none none h = cc
started-Clean l none (some e) h = λ more. end_process-replay l.reaped l.timed_out more

-- A deed that does not matter where there is no process
Quiet : Deed → Type 0
Quiet d = (ds : List Deed) → Clean ds → Clean (d ∷ ds)

attempt_all-Clean :
    (ps : List (Deed × Option GoError)) (r : Deeds)
    → All (λ p. Quiet p.0) ps
    → (is_some r.1 ≡ true → Clean r.0)
    → is_some (attempt_all ps r).1 ≡ true
    → Clean (attempt_all ps r).0
unfolding Clean Quiet
attempt_all-Clean [] r quiet h returned = h returned
attempt_all-Clean ((d, some e) ∷ ps) r quiet h returned = λ more. refl
attempt_all-Clean ((d, none) ∷ ps) r quiet h returned =
    quiet.0 (attempt_all ps r).0 (attempt_all-Clean ps r quiet.1 h returned)

run_tor-Clean :
    (cfg : Policy) (l : Launch) → is_some (run_tor cfg l).1 ≡ true → Clean (run_tor cfg l).0
unfolding run_tor Quiet Clean
run_tor-Clean cfg l =
    let e = (supervise_tor cfg l.startup).1 in
    attempt_all-Clean (preparations l) (attempt starts (start_error l.start) (supervised l e))
      ((λ ds h. h), ((λ ds h. h), ((λ ds h. h), ((λ ds h. h), ((λ ds h. h), tt)))))
      (started-Clean l (start_error l.start) e)

-- Where each call of runTor returns, and whenever each process ends, by itself or by a signal: over
-- all of the calls, a process is started only while the instance has none, the sockets are removed
-- only then, and in the end no process is left.
pub run_instance_reaps :
    (cfg : Policy) (ls : List Launch)
    → All (λ l. is_some (run_tor cfg l).1 ≡ true) ls
    → replay false (run_instance cfg ls) ≡ some false
unfolding run_instance Clean
run_instance_reaps cfg [] h = refl
run_instance_reaps cfg (l ∷ ls) h =
    run_tor-Clean cfg l h.0 (run_instance cfg ls) ∙ run_instance_reaps cfg ls h.1
