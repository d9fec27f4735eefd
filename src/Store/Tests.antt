-- ===== src/Store/Tests.antt =====
-- The theorems on the store at small inputs.
use devlegate.Prelude.{◌≡◌, ◌⊎◌, inr, refl, true, Option, none, some, [], ok, err}
use devlegate.Values.{Fields, obj, str, field, no_fields}
use devlegate.Values.Int.{pos}
use devlegate.Ipc.Known.{known, known-IsJson}
use devlegate.Store.Runtime.{probe, state_row, authority_row, replace}
use devlegate.Store.Runtime.Laws.{ready, Committed, replace-Committed}
use devlegate.Store.Runtime.{Authority, establish_systemd_authority, clear_systemd_authority}
use devlegate.Store.Runtime.Supervision.{Holds, document, establish-Holds, clear-Holds}
use devlegate.Store.Runtime.Schema.{probe-ready}
use devlegate.Store.Database.{
  StoreError, Cell, text, integer, Database, Calls, File, opened, AuthorityRow,
}

abbrev calls : Calls
calls = record {
  connects = true;
  creates_state = true;
  creates_authority = true;
  sets_version = true;
  begins = true;
  writes = true;
  commits = true;
}

abbrev state : Fields
state = field "phase" (str "idle") no_fields

abbrev row : Option (Cell × Cell)
row = some (text [], integer (pos 4))

replace-Committed_example :
    ((e : StoreError) × (replace (known (obj state)) calls state (some (ready row none))
        ≡ (err e, some (ready row none))))
    ⊎ ((db : Database) × (replace (known (obj state)) calls state (some (ready row none))
          ≡ (ok tt, some db))
        × Committed (known (obj state)) ⦃law = known-IsJson (obj state)⦄ state 5 none db)
replace-Committed_example =
    replace-Committed (known (obj state)) ⦃law = known-IsJson (obj state)⦄ calls state row none 4
      (inr (text [], refl))

probe_run : probe calls none ≡ (ok tt, some (ready none none))
unfolding probe
probe_run = refl

probe-ready_example :
    ◌≡◌ {A = File}
      (some (ready none none))
      (some (ready (state_row (opened none)) (authority_row (opened none))))
probe-ready_example = probe-ready calls none (some (ready none none)) probe_run

abbrev authority : Authority
authority = record { unit_name = "u"; state_key = "k"; env_file = "e"; repository = "r" }

-- Another authority, which is overwritten.
abbrev previous : AuthorityRow
previous = record {
  authority = some "systemd";
  unit_name = some "v";
  state_key = some "l";
  env_file = some "f";
  repository = some "s";
}

establish-Holds_example :
    Holds row
      (some previous)
      (some (document authority))
      (establish_systemd_authority calls authority (some (ready row (some previous))))
establish-Holds_example =
    establish-Holds calls authority row (some previous)
      (record { unit_name = refl; state_key = refl; env_file = refl; repository = refl })

clear-Holds_example :
    Holds row
      (some previous)
      none
      (clear_systemd_authority calls (some (ready row (some previous))))
clear-Holds_example = clear-Holds calls row (some previous)
