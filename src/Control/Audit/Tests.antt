-- ===== src/Control/Audit/Tests.antt =====
-- An audit trail at concrete inputs.
use mathlib.Core.List.{reverse}
use lan_commander.Base.{ℕ, ◌+◌, ◌≡◌, refl, true, some, inl, List, [], ◌∷◌, ◌++◌, length, take, map}
use lan_commander.Base.Int.{pos}
use lan_commander.Base.Text.{codes}
use lan_commander.Control.Audit.{
  Message, Entry, inserted, Database, Logger, new_logger, new_logger_with_capacity, get_recent,
  Call, log_call, calls, logged, last, clamp,
}
use lan_commander.Control.Audit.Recent.{contents, recent_from_memory}
use lan_commander.Control.Audit.Persisted.{IsTable, recent_from_database}

-- A table as the list of its rows.
abbrev table : Database (List Entry)
table = record {
  insert = λ m rows.
      let id = pos (length rows + 1) in
      (inserted id, rows ++ (record { id = id; content = m } ∷ []));
  delete_all = λ rows. [];
  select = λ n rows. some (take n (reverse rows));
}

table-IsTable : IsTable table (λ rows. rows)
table-IsTable = record {
  insert_appends = λ m rows. (pos (length rows + 1), refl, refl);
  delete_empties = λ rows. refl;
  select_newest = λ n rows. refl;
}

abbrev message : ℕ → Message
message n = record {
  timestamp = n;
  action = codes "exec_command";
  agent_id = codes "pc-7";
  user = codes "ana";
  details = codes "dir";
  status = [];
}

abbrev day : List Call
day = log_call (message 1) ∷ log_call (message 2) ∷ log_call (message 3) ∷ []

last_two_kept :
    map
      (λ (m : Message). m.timestamp)
      (contents (get_recent table (pos 9) (calls table day (new_logger_with_capacity (pos 2), []))))
    ≡ 2 ∷ 3 ∷ []
unfolding new_logger_with_capacity get_recent calls
last_two_kept = refl

recent_from_memory_example :
    contents (get_recent table (pos 9) (calls table day (new_logger_with_capacity (pos 2), [])))
    ≡ last (clamp (new_logger_with_capacity (pos 2)).capacity (pos 9)) (logged day [])
unfolding new_logger_with_capacity calls
recent_from_memory_example = recent_from_memory table (pos 2) (pos 9) day [] (inl refl)

abbrev opened : Logger
opened = record new_logger { db = true; db_enabled = true }

recent_from_database_example :
    contents (
      get_recent table
        (pos 2)
        (calls table day (opened, record { id = pos 1; content = message 0 } ∷ [])))
    ≡ last
        (clamp 1000 (pos 2))
        (logged day (contents (record { id = pos 1; content = message 0 } ∷ [])))
recent_from_database_example =
    recent_from_database table (λ rows. rows) table-IsTable opened
      (record { id = pos 1; content = message 0 } ∷ []) (pos 2) day refl refl (tt, (tt, (tt, tt)))
