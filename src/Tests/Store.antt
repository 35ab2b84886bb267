-- ===== src/Tests/Store.antt =====
-- Tests of the history of addresses, over the table in memory.
use tor_rotating_http_proxy.Prelude.{◌≡◌, refl, true, false, none}
use tor_rotating_http_proxy.Store.{observe, consume}
use tor_rotating_http_proxy.Store.Memory.{memory, empty}

-- 8.8.8.8 is known and unused.
abbrev observed : memory.Db
observed = (observe memory empty "8.8.8.8").0

abbrev claimed : memory.Db
claimed = (consume memory observed "8.8.8.8" true).0

claim_passes :
    ((consume memory observed "8.8.8.8" true).1 ≡ true)
    × ((consume memory observed "8.8.8.8" true).2 ≡ none)
unfolding observe consume
claim_passes = (refl, refl)

claim_fails :
    ((consume memory claimed "8.8.8.8" true).1 ≡ false)
    × ((consume memory claimed "8.8.8.8" true).2 ≡ none)
unfolding observe consume
claim_fails = (refl, refl)

still_unused : (observe memory observed "8.8.8.8").1 ≡ true
unfolding observe
still_unused = refl
