-- ===== src/Systemd/Examples.antt =====
-- Two services and a timer, reported by name and state.
use deployd.Prelude.{
  String, Bool, true, false, ◌≡◌, refl, none, some, List, [], ◌∷◌, ◌++◌, map, inr,
}
use deployd.Prelude.GoMap.{lookup, set}
use deployd.Systemd.{
  DbusUnitStatus, UnitFields, Event, changes, error, done, row_for, to_model, is_service,
  list_units, changed_units, watch, initialize_listener,
}
use deployd.Systemd.Table.{latest, services, reported, initialize_listener-Follows}
use deployd.Systemd.Stream.{
  Frame, server_closed, is_row, is_other, Connection, stream_unit, start_unit, parse_message,
  run_dbus_command,
}
use deployd.Systemd.Follow.{rows_of, frames_of, broadcast_rows, write_all, stream_unit-writes}
use deployd.Systemd.Interleave.{Action, save, broadcast, subscribe, send_table, deliver}

abbrev fields : UnitFields (String × String)
fields = record {
  name = λ u. u.0;
  description = λ _. "";
  load_state = λ _. "loaded";
  active_state = λ u. u.1;
  sub_state = λ _. "";
  followed = λ _. "";
  path = λ _. "/";
  job_id = λ _. 0;
  job_type = λ _. "";
  job_path = λ _. "/";
}

abbrev listed : List (String × String)
listed = ("a.service", "active") ∷ ("b.timer", "active") ∷ ("c.service", "inactive") ∷ []

abbrev later : List (Event (String × String))
later =
    changes (some ("a.service", "failed") ∷ none ∷ [])
    ∷ error "lost"
    ∷ changes (some ("c.service", "active") ∷ [])
    ∷ done
    ∷ []

table_test :
    (initialize_listener fields listed later).0
    ≡ ("a.service", to_model fields ("a.service", "failed"))
      ∷ ("c.service", to_model fields ("c.service", "active"))
      ∷ []
unfolding initialize_listener list_units watch changed_units is_service lookup set
table_test = refl

initialize_listener-Follows_example :
    let seen = services fields (listed ++ reported fields later) in
    (lookup "a.service" (initialize_listener fields listed later).0 ≡ latest "a.service" seen)
    × ((initialize_listener fields listed later).1 ≡ map row_for seen)
initialize_listener-Follows_example = initialize_listener-Follows fields listed later "a.service"

-- A connection that keeps what is written, the last frame first.
abbrev paper : Connection (List Frame × Bool)
paper = record {
  ended = λ _. false;
  write = λ f c. (none, (f ∷ c.0, c.1));
  no_close_status = λ _. true;
  close = λ c. (c.0, true);
}

abbrev unit_a : DbusUnitStatus
unit_a = to_model fields ("a.service", "active")

abbrev unit_a' : DbusUnitStatus
unit_a' = to_model fields ("a.service", "failed")

stream_unit-writes_example :
    stream_unit paper false
      (inr (is_row (row_for unit_a') ∷ is_other ∷ []))
      (("a.service", unit_a) ∷ [])
      ([], false)
    ≡ paper.close (
        write_all paper
          (frames_of
            (rows_of (("a.service", unit_a) ∷ [])
              ++ broadcast_rows (is_row (row_for unit_a') ∷ is_other ∷ []))
            (server_closed ∷ []))
          ([], false))
stream_unit-writes_example =
    stream_unit-writes paper (λ _. refl) (λ f c. refl) (is_row (row_for unit_a') ∷ is_other ∷ [])
      (("a.service", unit_a) ∷ []) ([], false)

-- The client subscribes between a store and its broadcast.
abbrev turns : List Action
turns = save unit_a ∷ subscribe ∷ broadcast ∷ save unit_a' ∷ send_table ∷ broadcast ∷ deliver ∷ []

-- Any unit may be started, a service of the table or not.
parse_message_test :
    parse_message
      (λ _. none)
      (λ d. inr d)
      (λ d. inr (record { name = "dbus"; payload = d }))
      (record { action = "start"; unit = "b.timer" })
    ≡ (none, some (start_unit "b.timer"))
unfolding parse_message run_dbus_command
parse_message_test = refl
