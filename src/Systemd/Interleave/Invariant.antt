-- ===== src/Systemd/Interleave/Invariant.antt =====
-- What every interleaving keeps true, and what a client ends up with.
use deployd.Prelude.{String, false, ◌≡◌, List, [], ◌∷◌, ◌++◌, elem}
use deployd.Prelude.GoMap.{lookup, set, keys_of}
use deployd.Systemd.{DbusUnitStatus, Row, Status}
use deployd.Systemd.Table.{or_else, latest}
use deployd.Systemd.Interleave.{Client, away, subscribed, following, World}

-- Each unit stands under its own name, once.
abbrev IsTable : Status → Type 0
IsTable [] = Unit
IsTable ((k, m) ∷ l) = (m.name ≡ k) × (elem k (keys_of l) ≡ false) × IsTable l

-- The units that still come to the client do not change what it knows of the table.
abbrev Agrees : List DbusUnitStatus → Status → Type 0
Agrees coming status = (k : String) → or_else (latest k coming) (lookup k status) ≡ lookup k status

abbrev ClientInvariant : Status → List DbusUnitStatus → Client → Type 0
ClientInvariant status pending away = Agrees pending status
ClientInvariant status pending (subscribed queue) = Agrees (queue ++ pending) status
ClientInvariant status pending (following received queue) =
    (k : String) → latest k (received ++ (queue ++ pending)) ≡ lookup k status

abbrev Invariant : World → Type 0
Invariant (status, pending, client) =
    IsTable status × Agrees pending status × ClientInvariant status pending client

-- A client that keeps each row under its key, the later over the earlier one.
unfoldable pub keep : List (Row DbusUnitStatus) → Status → Status
keep [] table = table
keep (r ∷ rows) table = keep rows (set r.key r.row_data table)
