-- ===== src/Control/Sessions/Tests.antt =====
-- Sessions at concrete inputs: a token is protected by a character in front of it.
use lan_commander.Base.{ℕ, Option, none, some, List, [], ◌∷◌, true, false, Bool}
use lan_commander.Base.Text.{Text, codes, is_empty}
use lan_commander.Control.Sessions.{Session, Row, Db, Store}
use lan_commander.Control.Sessions.Roundtrip.{open_manager}
use lan_commander.Control.Sessions.Invariant.{Sound}
use lan_commander.Control.Sessions.Calls.{
  save_call, delete_call, load_host_call, calls, calls-Sound,
}

abbrev uncover : Text → Option Text
uncover [] = none
uncover (c ∷ t) = some t

abbrev store : Store
store = record { protect = λ t. some (0 ∷ t); unprotect = uncover }

abbrev unwrap : Option Text → Text
unwrap none = []
unwrap (some t) = t

abbrev empty_or : Option Text → Bool
empty_or none = true
empty_or (some t) = is_empty t

abbrev open_option : Option Text → Option Text
open_option none = none
open_option (some t) = uncover t

abbrev session : Session
session = record {
  id = 0;
  name = codes "lab";
  host = codes "10.0.0.7";
  port = 9474;
  auth_token = codes "s3cret";
  tls = false;
  ca_file = [];
  server_name = [];
  created_at = 0;
  last_connected = 0;
}

abbrev older : Row
older = record {
  session = record session { id = 4; auth_token = []; created_at = 2 };
  auth_token_protected = [];
}

calls-Sound_example :
    Sound
      (some store)
      (calls
        (open_manager store)
        (save_call 9 session ∷ load_host_call (codes "10.0.0.7") 9474 ∷ delete_call 1 ∷ [])
        (record { rows = []; sequence = 0; last_insert_id = 0; refusals = false ∷ true ∷ [] })).rows
calls-Sound_example =
    calls-Sound (open_manager store)
      (save_call 9 session ∷ load_host_call (codes "10.0.0.7") 9474 ∷ delete_call 1 ∷ [])
      (false ∷ true ∷ [])
