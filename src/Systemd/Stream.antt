-- ===== src/Systemd/Stream.antt =====
-- The websocket handler (internal/src/systemd/systemd_http.go): StreamUnit, which sends the table and
-- then every row broadcast, and the commands that a client sends. The connection and the D-Bus library
-- are parameters.
use deployd.Prelude.{
  String, Bool, false, ◌⊎◌, inl, inr, Option, none, some, List, [], ◌∷◌, ◌==◌, if◌then◌else◌,
}
use deployd.Systemd.{DbusUnitStatus, Row, Status, row_for}

abbrev pub Fault : Type 0
Fault = String

-- What goes over the connection, each as its JSON.
pub data Frame : Type 0 where
  row : Row DbusUnitStatus → Frame
  server_closed : Frame

-- What comes from the subscription: a row, or a value of another type.
pub data Message : Type 0 where
  is_row : Row DbusUnitStatus → Message
  is_other : Message

-- The connection in a state `C`: whether the publisher's context has ended, the write, whether
-- CloseStatus of an error is -1, and the closing with its reason.
pub record Connection (C : Type 0) : Type 0 where
  pub ended : C → Bool
  pub write : Frame → C → Option Fault × C
  pub no_close_status : Fault → Bool
  pub close : C → C

module _ {C : Type 0} (conn : Connection C) where
  -- sendToClient; a frame has a JSON.
  abbrev pub send_to_client : Frame → C → Option Fault × C
  send_to_client f c = if conn.ended c then (some "context canceled", c) else conn.write f c

  -- The rows of the table, until the first error, which leaves this function only.
  unfoldable pub send_initial : Status → C → C
  send_initial [] c = c
  send_initial ((k, m) ∷ status) c =
      let sent = send_to_client (row (row_for m)) c in
      let rest = send_initial status sent.1 in after_initial sent.0 sent.1 rest
    where
      after_initial : Option Fault → C → C → C
      after_initial none c rest = rest
      after_initial (some e) c rest = c

  -- What StreamUnit does with the error of a write outside of the initial list.
  abbrev pub fails : Option Fault → Bool
  fails none = false
  fails (some e) = conn.no_close_status e

  -- After the loop: nothing where the client is gone, otherwise the goodbye and the closing.
  unfoldable pub goodbye : C → C
  goodbye c =
      if conn.ended c
      then c
      else let sent = send_to_client server_closed c in
        if fails sent.0 then sent.1 else conn.close sent.1

  -- The loop over the subscription, whose channel ends with the list.
  unfoldable pub listen : List Message → C → C
  unfolding goodbye
  listen [] c = goodbye c
  listen (is_other ∷ messages) c =
      let rest = listen messages c in if conn.ended c then goodbye c else rest
  listen (is_row r ∷ messages) c =
      let sent = send_to_client (row r) c in
      let rest = listen messages sent.1 in
      if conn.ended c then goodbye c else if fails sent.0 then sent.1 else rest

  -- StreamUnit once the connection is accepted: `early` says that it was closed within 100 ms, and
  -- `subscribed` is the answer of the topic.
  unfoldable pub stream_unit : Bool → Fault ⊎ List Message → Status → C → C
  unfolding listen send_initial
  stream_unit early (inl e) status c = c
  stream_unit early (inr messages) status c =
      if early then c else listen messages (send_initial status c)

-- The commands of a client.
pub record Command (Bytes : Type 0) : Type 0 where
  pub name : String
  pub payload : Bytes

pub record DbusCommand : Type 0 where
  pub action : String
  pub unit : String

-- The calls of the D-Bus library, in mode "replace", each with its error.
pub data Call : Type 0 where
  start_unit stop_unit : String → Call

module _ (dbus : Call → Option Fault) where
  -- The error and the call made, if any.
  unfoldable pub run_dbus_command : DbusCommand → Option Fault × Option Call
  run_dbus_command cmd =
      let start = start_unit cmd.unit in
      let stop = stop_unit cmd.unit in
      if cmd.action == "start"
      then (dbus start, some start)
      else if cmd.action == "stop"
      then (dbus stop, some stop)
      else (none, none)

  abbrev pub handle_dbus_command : Fault ⊎ DbusCommand → Option Fault × Option Call
  handle_dbus_command (inl e) = (some e, none)
  handle_dbus_command (inr cmd) = run_dbus_command cmd

  module _ {Bytes : Type 0} (parse_dbus : Bytes → Fault ⊎ DbusCommand) where
    abbrev pub handle_command : Fault ⊎ Command Bytes → Option Fault × Option Call
    handle_command (inl e) = (some e, none)
    handle_command (inr cmd) =
        if cmd.name == "dbus" then handle_dbus_command (parse_dbus cmd.payload) else (none, none)

    -- parseMessage
    unfoldable pub parse_message :
        (Bytes → Fault ⊎ Command Bytes) → Bytes → Option Fault × Option Call
    unfolding run_dbus_command
    parse_message parse message = handle_command (parse message)
