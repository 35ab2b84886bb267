-- ===== src/Store/Memory.antt =====
-- A table held in memory, on which no statement fails: what the parameter `Sqlite` asks for can be
-- met. The tests of the other modules run on it.
use tor_rotating_http_proxy.Prelude.{
  ℕ, String, ◌≡◌, refl, Bool, true, ◌&&◌, Option, none, some, [], arith, str_eq, if◌then◌else◌,
}
use tor_rotating_http_proxy.Errors.{GoError, Result, ok, err}
use tor_rotating_http_proxy.Store.{Sqlite, SqliteLaws, or_unused, selected, matched}

abbrev put : (String → Option Bool) → String → Bool → String → Option Bool
put t ip used j = if str_eq ip j then some used else t j

abbrev no_row : GoError
no_row = record { message = "sql: no rows in result set"; chain = [] }

abbrev read : Option Bool → Result Bool
read none = err no_row
read (some used) = ok used

abbrev pub memory : Sqlite
memory = record {
  Db = String → Option Bool;
  row = λ t ip. t ip;
  insert_ignore = λ t ip. (put t ip (or_unused (t ip)), none);
  select_used = λ t ip. (t, read (t ip));
  update_used = λ t unique ip. (
    λ j. (if selected unique (t ip) && str_eq ip j then some true else t j),
    ok (ok (matched (selected unique (t ip)))),
  );
}

read_ok : (o : Option Bool) (used : Bool) → read o ≡ ok used → o ≡ some used
read_ok o used h = ground arith

count_ok : (m n : ℕ) → ok (ok m) ≡ ok (ok n) → n ≡ m
count_ok m n h = ground arith

pub memory_laws : SqliteLaws memory
memory_laws = record {
  row-insert = λ db ip j. refl;
  row-select = λ db ip j. refl;
  select_reads = λ db ip {used} h. read_ok (db ip) used h;
  row-update = λ db unique ip j. refl;
  update_counts = λ db unique ip {n} h. count_ok (matched (selected unique (db ip))) n h;
}

-- No address is known.
abbrev pub empty : memory.Db
empty = λ ip. none
