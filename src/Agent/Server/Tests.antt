-- ===== src/Agent/Server/Tests.antt =====
-- A server at concrete inputs.
use lan_commander.Base.{
  ◌≤◌, ◌≡◌, refl, String, true, false, none, some, List, [], ◌∷◌, arith, inl, string_eq, list_eq,
  nat_eq, length,
}
use lan_commander.Base.Dict
use lan_commander.Base.Exec.{err}
use lan_commander.Base.Text.{codes}
use lan_commander.Os.Disk.{Disk}
use lan_commander.Os.Path.Elements.{All}
use lan_commander.Agent.IpGuard.{new_ip_guard, active_of}
use lan_commander.Agent.IpGuard.Invariant.{new_ip_guard-Inv}
use lan_commander.Agent.Executor.{Run}
use lan_commander.Agent.Server.{
  Client, Session, ScreenshotData, max_clients, auth_required, send_msg,
}
use lan_commander.Agent.Server.Handlers.{
  Env, Message, AuthPayload, handle_message, auth_kind, list_dir_kind, system_info_kind,
}
use lan_commander.Agent.Server.Gate.{handle_message-Barred}
use lan_commander.Agent.Server.Limits.{Within, Follows, handle_message-Kept}
use lan_commander.Agent.Server.Connections.{
  Action, connects, upgrades, receives, leaves, releases, new_client, new_server, serve,
}
use lan_commander.Agent.Server.Connections.Slots.{Admitted, holders}
use lan_commander.Agent.Server.Connections.Reachable.{serve-new_server-Sound}

abbrev machine : Disk
machine = record { files = λ q. none; faults = [] }

abbrev nothing_run : Run
nothing_run = record {
  out = [];
  err_out = [];
  failure = none;
  deadline_exceeded = false;
  duration = 0;
}

-- Payloads of authentication alone.
abbrev env : Env AuthPayload
env = record {
  auth_token = codes "secret";
  host = record { cwd = none; digest = λ b. b };
  windows = false;
  run = λ c d. (nothing_run, d);
  capture = λ d. err [];
  as_auth = λ p. some p;
  as_exec = λ p. none;
  as_list_dir = λ p. none;
  as_get_file = λ p. none;
  as_send_file = λ p. none;
  as_cancel_file = λ p. none;
}

abbrev guess : Message AuthPayload
guess = record {
  id = codes "1";
  kind = auth_kind;
  payload = record { token = codes "guess"; username = codes "eve" };
}

abbrev right : Message AuthPayload
right = record {
  id = codes "2";
  kind = auth_kind;
  payload = record { token = codes "secret"; username = codes "ann" };
}

abbrev arrived : Session
arrived = record {
  client = new_client (codes "c") (codes "10.0.0.9:4000") "10.0.0.9";
  guard = new_ip_guard;
  audit = [];
  disk = machine;
}

handle_message-Barred_example :
    ((handle_message env 5 guess arrived).disk ≡ machine)
    × ((handle_message env 5 guess arrived).client.authed ≡ false)
unfolding list_eq nat_eq
handle_message-Barred_example = handle_message-Barred env refl 5 guess arrived refl refl

handle_message-Kept_example :
    Within (handle_message env 5 guess arrived).client
    × Follows arrived (handle_message env 5 guess arrived)
handle_message-Kept_example =
    handle_message-Kept env 5 guess arrived
      (record { queue = omega arith; attempts = inl (omega arith) }) new_ip_guard-Inv

abbrev actions : List (Action AuthPayload)
actions =
    connects 1 "10.0.0.9" (codes "10.0.0.9:4000") (codes "c")
    ∷ upgrades 0 true
    ∷ receives 0 2 guess
    ∷ receives 0 3 right
    ∷ connects 4 "10.0.0.8" (codes "10.0.0.8:4000") (codes "d")
    ∷ upgrades 0 true
    ∷ leaves 1
    ∷ connects 5 "10.0.0.8" (codes "10.0.0.8:4001") (codes "e")
    ∷ releases 0
    ∷ []

serve-new_server-Sound_example :
    let s = serve env actions (new_server machine) in
    ((ip : String) → (active_of s.guard ip ≡ holders ip s) × (holders ip s ≤ 16))
    × (length s.clients ≤ max_clients)
    × All Admitted s.clients
serve-new_server-Sound_example = serve-new_server-Sound env machine actions

one_is_left : length (serve env actions (new_server machine)).clients ≡ 1
unfolding serve string_eq list_eq nat_eq Dict.lookup lan_commander.Agent.Server.Handlers.handle_kind
    lan_commander.Agent.Server.Handlers.handle_auth lan_commander.Agent.Server.Handlers.auth_denied
    lan_commander.Agent.Server.send_error lan_commander.Agent.Server.Handlers.auth_accepted
    lan_commander.Agent.Server.send_agent_info lan_commander.Agent.Server.send_response Dict.erase
    Dict.insert
one_is_left = refl
