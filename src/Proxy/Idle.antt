-- ===== src/Proxy/Idle.antt =====
-- idleConn of internal/app/proxy.go: a connection whose deadlines move on with every read and write,
-- but not beyond those that its user sets. A time is a number; none is Go's zero time. A call that
-- the connection below fails is an argument; what it reads and writes is not modelled.
pub mod Deadlines
use tor_rotating_http_proxy.Prelude.{
  ℕ, ◌+◌, ◌≤◌, ◌≡◌, refl, Bool, true, false, Option, none, some, List, [], ◌∷◌, ap, ◌∙◌, arith, ltb,
  min, if◌then◌else◌, Bool-cases, Option-cases, inl, inr,
}

-- `limit` is what the user has set, `deadline` what the connection below has.
pub record Direction : Type 0 where
  pub limit : Option ℕ
  pub deadline : Option ℕ

pub record IdleConn : Type 0 where
  pub timeout : ℕ
  pub read : Direction
  pub write : Direction

-- earlier
unfoldable pub earlier : ℕ → Option ℕ → ℕ
earlier a none = a
earlier a (some b) = if ltb b a then b else a

abbrev pub new_idle : ℕ → IdleConn
new_idle timeout = record {
  timeout = timeout;
  read = record { limit = none; deadline = none };
  write = record { limit = none; deadline = none };
}

abbrev pub moved : ℕ → Direction → Direction
moved deadline d = record d { deadline = some (earlier deadline d.limit) }

-- The limit is stored, whether the connection below takes the deadline or not.
abbrev pub limited : Option ℕ → Bool → Direction → Direction
limited t set d = record { limit = t; deadline = if set then t else d.deadline }

-- touch, with whether the deadlines could be set
unfoldable pub touch : ℕ → Bool → Bool → IdleConn → IdleConn
unfolding earlier
touch now read_set write_set c =
    if read_set
    then (let d : IdleConn = record c { read = moved (now + c.timeout) c.read } in
        if write_set then record d { write = moved (now + c.timeout) c.write } else d)
    else c

pub data Use : Type 0 where
  reads_or_writes : ℕ → Bool → Bool → Use
  sets_deadline sets_read_deadline sets_write_deadline : Option ℕ → Bool → Use

-- Read and Write, which begin with touch, and the three setters, with whether the setter of the
-- connection below succeeds
unfoldable pub use_conn : Use → IdleConn → IdleConn
unfolding touch
use_conn (reads_or_writes now r w) c = touch now r w c
use_conn (sets_deadline t set) c = record c {
  read = limited t set c.read;
  write = limited t set c.write;
}
use_conn (sets_read_deadline t set) c = record c { read = limited t set c.read }
use_conn (sets_write_deadline t set) c = record c { write = limited t set c.write }

unfoldable pub use_all : List Use → IdleConn → IdleConn
unfolding use_conn
use_all [] c = c
use_all (u ∷ us) c = use_all us (use_conn u c)
