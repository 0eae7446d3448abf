-- ===== src/Systemd/Interleave.antt =====
-- The interleaving of the listener (systemd.go) with one client (systemd_http.go). The listener stores a
-- unit under the lock and broadcasts it after it gave the lock back; the client subscribes first, then
-- gets the table under the lock, then the rows broadcast since it subscribed.
pub mod Invariant
use deployd.Prelude.{List, [], ◌∷◌, ◌++◌}
use deployd.Prelude.GoMap.{set, values_of}
use deployd.Systemd.{DbusUnitStatus, Status}

-- `received` and `queue` are the units of the rows that the client has, and of those that wait for it.
pub data Client : Type 0 where
  away : Client
  subscribed : (queue : List DbusUnitStatus) → Client
  following : (received queue : List DbusUnitStatus) → Client

-- The table, the units that are stored and not yet broadcast, and the client.
abbrev pub World : Type 0
World = Status × List DbusUnitStatus × Client

pub data Action : Type 0 where
  save : DbusUnitStatus → Action
  broadcast subscribe send_table deliver : Action

-- The topic hands a row to the client if it has subscribed.
abbrev pub enqueue : DbusUnitStatus → Client → Client
enqueue m away = away
enqueue m (subscribed queue) = subscribed (queue ++ (m ∷ []))
enqueue m (following received queue) = following received (queue ++ (m ∷ []))

-- One step; a step whose turn it is not changes nothing.
abbrev pub act : Action → World → World
act (save m) (status, [], client) = (set m.name m status, m ∷ [], client)
act broadcast (status, m ∷ ms, client) = (status, ms, enqueue m client)
act subscribe (status, pending, away) = (status, pending, subscribed [])
act send_table (status, pending, subscribed queue) =
    (status, pending, following (values_of status) queue)
act deliver (status, pending, following received (m ∷ queue)) =
    (status, pending, following (received ++ (m ∷ [])) queue)
act _ w = w

unfoldable pub run : List Action → World → World
run [] w = w
run (a ∷ actions) w = run actions (act a w)

-- Nothing is known yet, and no client is there.
abbrev pub start : World
start = ([], [], away)
