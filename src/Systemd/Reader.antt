-- ===== src/Systemd/Reader.antt =====
-- The reader of a websocket connection (internal/src/systemd/systemd_http.go, StreamUnit): what the client
-- sends, until the connection ends.
use deployd.Prelude.{Bool, true, false, ◌≡◌, refl, ◌⊎◌, Option, none, some, List, [], ◌∷◌, arith}
use deployd.Systemd.Stream.{Fault, Command, DbusCommand, Call, parse_message}

-- The answers of c.Read: a text, a binary message, an error with a close status, and another error.
pub data Received (Bytes : Type 0) : Type 0 where
  text binary : Bytes → Received Bytes
  closed : Received Bytes
  failed : Fault → Received Bytes

-- The calls of systemd that the client has caused, and whether both contexts are cancelled at the end.
pub record Reading : Type 0 where
  pub calls : List Call
  pub cancelled : Bool

module _ {Bytes : Type 0} (handle : Bytes → Option Fault × Option Call) where
  abbrev caused : Option Call → Reading → Reading
  caused none r = r
  caused (some c) r = record r { calls = c ∷ r.calls }

  -- The loop over what is received; an error of a command is logged only. Where nothing more is received
  -- the loop still waits.
  unfoldable pub read_loop : List (Received Bytes) → Reading
  read_loop [] = record { calls = []; cancelled = false }
  read_loop (closed ∷ received) = record { calls = []; cancelled = true }
  read_loop (failed e ∷ received) = record { calls = []; cancelled = true }
  read_loop (binary payload ∷ received) = read_loop received
  read_loop (text payload ∷ received) = caused (handle payload).1 (read_loop received)

  -- The commands before the connection ends.
  pub commands : List (Received Bytes) → List Bytes
  commands [] = []
  commands (closed ∷ received) = []
  commands (failed e ∷ received) = []
  commands (binary payload ∷ received) = commands received
  commands (text payload ∷ received) = payload ∷ commands received

  pub ends : List (Received Bytes) → Bool
  ends [] = false
  ends (closed ∷ received) = true
  ends (failed e ∷ received) = true
  ends (binary payload ∷ received) = ends received
  ends (text payload ∷ received) = ends received

  pub calls_of : List Bytes → List Call
  calls_of [] = []
  calls_of (payload ∷ rest) = with (handle payload).1 (calls_of rest)
    where
      with : Option Call → List Call → List Call
      with none calls = calls
      with (some c) calls = c ∷ calls

  -- Each text that is received before the connection ends is handled, in order, whatever the errors of
  -- the others; and the contexts are cancelled exactly where the connection has ended.
  pub read_loop-handles :
      (received : List (Received Bytes))
      → ((read_loop received).calls ≡ calls_of (commands received))
        × ((read_loop received).cancelled ≡ ends received)
  unfolding read_loop commands ends calls_of
  read_loop-handles [] = (refl, refl)
  read_loop-handles (closed ∷ received) = (refl, refl)
  read_loop-handles (failed e ∷ received) = (refl, refl)
  read_loop-handles (binary payload ∷ received) = read_loop-handles received
  read_loop-handles (text payload ∷ received) = ground (arith, read_loop-handles received)

-- The goroutine, whose handler is parseMessage.
pub read_client :
    {Bytes : Type 0}
    → (Call → Option Fault)
    → (Bytes → Fault ⊎ DbusCommand)
    → (Bytes → Fault ⊎ Command Bytes)
    → List (Received Bytes)
    → Reading
read_client dbus parse_dbus parse = read_loop (parse_message dbus parse_dbus parse)
