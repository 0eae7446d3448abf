-- ===== src/Systemd/Follow.antt =====
-- A client that follows the table: the frames that StreamUnit writes, and the interleaving of the
-- listener (systemd.go), the subscription and the initial list, which hold the lock one at a time.
use deployd.Prelude.{false, ◌≡◌, refl, ap, ◌∙◌, none, List, [], ◌∷◌, ◌++◌, inr}
use deployd.Systemd.{DbusUnitStatus, Row, Status, row_for}
use deployd.Systemd.Stream.{
  Frame, row, server_closed, Message, is_row, is_other, Connection, send_initial, goodbye, listen,
  stream_unit,
}

abbrev pub rows_of : Status → List (Row DbusUnitStatus)
rows_of [] = []
rows_of ((k, m) ∷ status) = row_for m ∷ rows_of status

-- The frames of a whole stream: the table, the rows broadcast, and the goodbye.
abbrev pub frames_of : List (Row DbusUnitStatus) → List Frame → List Frame
frames_of [] later = later
frames_of (r ∷ rows) later = row r ∷ frames_of rows later

abbrev pub broadcast_rows : List Message → List (Row DbusUnitStatus)
broadcast_rows [] = []
broadcast_rows (is_row r ∷ messages) = r ∷ broadcast_rows messages
broadcast_rows (is_other ∷ messages) = broadcast_rows messages

module _ {C : Type 0} (conn : Connection C) where
  pub write_all : List Frame → C → C
  write_all [] c = c
  write_all (f ∷ frames) c = write_all frames (conn.write f c).1

  module _ (alive : (c : C) → conn.ended c ≡ false)
      (writes : (f : Frame) (c : C) → (conn.write f c).0 ≡ none) where
    listen-writes :
        (messages : List Message) (c : C)
        → listen conn messages c
          ≡ conn.close (write_all (frames_of (broadcast_rows messages) (server_closed ∷ [])) c)
    unfolding listen goodbye write_all
    listen-writes [] c = simp (alive c, writes server_closed c)
    listen-writes (is_other ∷ messages) c = rw (alive c) (listen-writes messages c)
    listen-writes (is_row r ∷ messages) c =
        rw (alive c, writes (row r) c) (listen-writes messages _)

    send_initial-writes :
        (status : Status) (rows : List (Row DbusUnitStatus)) (last : List Frame) (c : C)
        → write_all (frames_of rows last) (send_initial conn status c)
          ≡ write_all (frames_of (rows_of status ++ rows) last) c
    unfolding send_initial write_all
    send_initial-writes [] rows last c = refl
    send_initial-writes ((k, m) ∷ status) rows last c =
        rw (alive c, writes (row (row_for m)) c) (send_initial-writes status rows last _)

    -- While the client stays connected and no write fails, the handler writes the whole table, then
    -- every row that the subscription delivers, in that order and nothing in between, then the goodbye
    -- once the subscription ends, and then it closes the connection.
    pub stream_unit-writes :
        (messages : List Message) (status : Status) (c : C)
        → stream_unit conn false (inr messages) status c
          ≡ conn.close (
              write_all
                (frames_of (rows_of status ++ broadcast_rows messages) (server_closed ∷ []))
                c)
    unfolding stream_unit
    stream_unit-writes messages status c =
        listen-writes messages (send_initial conn status c)
        ∙ ap conn.close
            (send_initial-writes status (broadcast_rows messages) (server_closed ∷ []) c)
