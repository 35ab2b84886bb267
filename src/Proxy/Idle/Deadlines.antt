-- ===== src/Proxy/Idle/Deadlines.antt =====
-- The deadlines of an idle connection.
use tor_rotating_http_proxy.Prelude.{
  ℕ, ◌+◌, ◌≤◌, ◌≡◌, refl, ap, subst, ◌∙◌, Bool, true, false, ◌&&◌, Option, none, some, List, [],
  ◌∷◌, arith,
}
use tor_rotating_http_proxy.Proxy.Idle.{
  IdleConn, earlier, new_idle, Use, reads_or_writes, sets_deadline, sets_read_deadline,
  sets_write_deadline, use_conn, use_all,
}

-- A deadline that is no later than a limit
abbrev pub Within : Option ℕ → Option ℕ → Type 0
Within none deadline = Unit
Within (some l) none = true ≡ false
Within (some l) (some d) = d ≤ l

record Bounded (c : IdleConn) : Type 0 where
  pub read : Within c.read.limit c.read.deadline
  pub write : Within c.write.limit c.write.deadline

earlier-Within : (a : ℕ) (o : Option ℕ) → Within o (some (earlier a o))
unfolding earlier
earlier-Within a none = tt
earlier-Within a (some b) = ground arith

limited-Within : (t : Option ℕ) → Within t t
limited-Within none = tt
limited-Within (some t) = omega arith

-- Did the setters of the connection below succeed?
abbrev sets : Use → Bool
sets (reads_or_writes now r w) = true
sets (sets_deadline t set) = set
sets (sets_read_deadline t set) = set
sets (sets_write_deadline t set) = set

abbrev pub all_set : List Use → Bool
all_set [] = true
all_set (u ∷ us) = sets u && all_set us

-- The limit that a user who set `l` has, behind these uses, for reading
abbrev pub read_limit : Option ℕ → List Use → Option ℕ
read_limit l [] = l
read_limit l (reads_or_writes now r w ∷ us) = read_limit l us
read_limit l (sets_deadline t set ∷ us) = read_limit t us
read_limit l (sets_read_deadline t set ∷ us) = read_limit t us
read_limit l (sets_write_deadline t set ∷ us) = read_limit l us

-- And for writing
abbrev pub write_limit : Option ℕ → List Use → Option ℕ
write_limit l [] = l
write_limit l (reads_or_writes now r w ∷ us) = write_limit l us
write_limit l (sets_deadline t set ∷ us) = write_limit t us
write_limit l (sets_read_deadline t set ∷ us) = write_limit l us
write_limit l (sets_write_deadline t set ∷ us) = write_limit t us

use_all-limits :
    (us : List Use) (c : IdleConn)
    → ((use_all us c).read.limit ≡ read_limit c.read.limit us)
      × ((use_all us c).write.limit ≡ write_limit c.write.limit us)
unfolding use_all use_conn
use_all-limits [] c = (refl, refl)
use_all-limits (reads_or_writes now false w ∷ us) c = use_all-limits us _
use_all-limits (reads_or_writes now true false ∷ us) c = use_all-limits us _
use_all-limits (reads_or_writes now true true ∷ us) c = use_all-limits us _
use_all-limits (sets_deadline t set ∷ us) c = use_all-limits us _
use_all-limits (sets_read_deadline t set ∷ us) c = use_all-limits us _
use_all-limits (sets_write_deadline t set ∷ us) c = use_all-limits us _

use_conn-Bounded : (u : Use) (c : IdleConn) → sets u ≡ true → Bounded c → Bounded (use_conn u c)
unfolding use_conn
use_conn-Bounded (reads_or_writes now false w) c e h = h
use_conn-Bounded (reads_or_writes now true false) c e h = record {
  read = earlier-Within (now + c.timeout) c.read.limit;
  write = h.write;
}
use_conn-Bounded (reads_or_writes now true true) c e h = record {
  read = earlier-Within (now + c.timeout) c.read.limit;
  write = earlier-Within (now + c.timeout) c.write.limit;
}
use_conn-Bounded (sets_deadline t true) c e h = record {
  read = limited-Within t;
  write = limited-Within t;
}
use_conn-Bounded (sets_read_deadline t true) c e h = record {
  read = limited-Within t;
  write = h.write;
}
use_conn-Bounded (sets_write_deadline t true) c e h = record {
  read = h.read;
  write = limited-Within t;
}
use_conn-Bounded (sets_deadline t false) c e h = cc
use_conn-Bounded (sets_read_deadline t false) c e h = cc
use_conn-Bounded (sets_write_deadline t false) c e h = cc

use_all-Bounded :
    (us : List Use) (c : IdleConn) → all_set us ≡ true → Bounded c → Bounded (use_all us c)
unfolding use_all
use_all-Bounded [] c e h = h
use_all-Bounded (u ∷ us) c e h =
    use_all-Bounded us (use_conn u c) (ground (arith, e))
      (use_conn-Bounded u c (ground (arith, e)) h)

timeout-use_conn : (u : Use) (c : IdleConn) → (use_conn u c).timeout ≡ c.timeout
unfolding use_conn
timeout-use_conn (reads_or_writes now false w) c = refl
timeout-use_conn (reads_or_writes now true false) c = refl
timeout-use_conn (reads_or_writes now true true) c = refl
timeout-use_conn (sets_deadline t set) c = refl
timeout-use_conn (sets_read_deadline t set) c = refl
timeout-use_conn (sets_write_deadline t set) c = refl

timeout-use_all : (us : List Use) (c : IdleConn) → (use_all us c).timeout ≡ c.timeout
unfolding use_all
timeout-use_all [] c = refl
timeout-use_all (u ∷ us) c = timeout-use_all us (use_conn u c) ∙ timeout-use_conn u c

earlier-first : (a : ℕ) (o : Option ℕ) → earlier a o ≤ a
unfolding earlier
earlier-first a none = omega arith
earlier-first a (some b) = ground arith

-- A new connection, after these uses
abbrev pub used : ℕ → List Use → IdleConn
used timeout us = use_all us (new_idle timeout)

-- A time, where it counts
abbrev pub where_set : Bool → Option ℕ → Option ℕ
where_set true l = l
where_set false l = none

used-Bounded :
    (timeout : ℕ) (us : List Use) (b : Bool)
    → all_set us ≡ b
    → Within (where_set b (used timeout us).read.limit) (used timeout us).read.deadline
      × Within (where_set b (used timeout us).write.limit) (used timeout us).write.deadline
used-Bounded timeout us false e = (tt, tt)
used-Bounded timeout us true e =
    let h = use_all-Bounded us (new_idle timeout) e (record { read = tt; write = tt }) in
    (h.read, h.write)

-- Whatever an idleConn has been used for, in any order, with setters of the connection below that
-- fail or not: a read or a write that can set the deadlines leaves both directions with deadlines
-- which are no later than the last limit that the user has given for it, nor than its time and the
-- timeout together; and where no setter that the user called has failed, the deadlines are no later
-- than those limits at any time.
pub use_all_expires :
    (timeout now : ℕ) (us : List Use)
    → let c = use_conn (reads_or_writes now true true) (used timeout us) in
      Within (read_limit none us) c.read.deadline
      × Within (write_limit none us) c.write.deadline
      × Within (some (now + timeout)) c.read.deadline
      × Within (some (now + timeout)) c.write.deadline
      × Within (where_set (all_set us) (read_limit none us)) (used timeout us).read.deadline
      × Within (where_set (all_set us) (write_limit none us)) (used timeout us).write.deadline
unfolding use_conn
use_all_expires timeout now us =
    let c = used timeout us in
    let (read, write) = use_all-limits us (new_idle timeout) in
    let (read_before, write_before) = used-Bounded timeout us (all_set us) refl in
    let same : now + c.timeout ≡ now + timeout =
      ap (λ n. now + n) (timeout-use_all us (new_idle timeout)) in
    (
      subst (λ l. Within l (some (earlier (now + c.timeout) c.read.limit))) read
          (earlier-Within (now + c.timeout) c.read.limit),
      subst (λ l. Within l (some (earlier (now + c.timeout) c.write.limit))) write
          (earlier-Within (now + c.timeout) c.write.limit),
      rw same (earlier-first (now + timeout) _),
      rw same (earlier-first (now + timeout) _),
      subst (λ l. Within (where_set (all_set us) l) c.read.deadline) read read_before,
      subst (λ l. Within (where_set (all_set us) l) c.write.deadline) write write_before,
    )
