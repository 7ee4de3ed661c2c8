-- ===== src/Agent/Server/Connections.antt =====
-- The connections of agent/internal/server/server.go: `handleWebSocket`, `register`, `unregister`, the
-- two pumps and the authentication deadline. A connection is named by its position in its list; an action
-- is what one goroutine does with the guard, the table of clients or a message between two points at
-- which others are let in here: before and after the upgrade, between a refused `register` and the
-- release of the slot, and between the two parts of `unregister`.
pub mod Count
pub mod Slots
pub mod Entry
pub mod Reachable
use lan_commander.Base.{
  ℕ, zero, suc, Bool, true, false, not, ◌||◌, Option, none, some, List, [], ◌∷◌, ◌++◌,
  if◌then◌else◌, leb, length, String,
}
use lan_commander.Base.Text.{Text, codes, is_empty}
use lan_commander.Os.Disk.{Disk}
use lan_commander.Agent.IpGuard.{IpGuard, Refusal, new_ip_guard, admit, release}
use lan_commander.Agent.Server.{
  Client, Session, Event, Reply, AuditResult, result_denied, max_clients, auth_required, agent_info,
  send_msg, close, push_system_update, record_event, identify,
}
use lan_commander.Agent.Server.Handlers.{Env, Message, handle_message}

-- Server, and the connections that hold a slot outside its table: those that are being upgraded, those
-- that `register` refused, and those that `unregister` took from the table.
pub record Server : Type 0 where
  pub clients : List Client
  pub upgrading : List Client
  pub rejected : List Client
  pub leaving : List Client
  pub guard : IpGuard
  pub audit : List Event
  pub disk : Disk

abbrev pub new_server : Disk → Server
new_server disk = record {
  clients = [];
  upgrading = [];
  rejected = [];
  leaving = [];
  guard = new_ip_guard;
  audit = [];
  disk = disk;
}

abbrev pub client_at : ℕ → List Client → Option Client
client_at i [] = none
client_at zero (c ∷ cs) = some c
client_at (suc i) (c ∷ cs) = client_at i cs

abbrev pub set_at : ℕ → Client → List Client → List Client
set_at i c [] = []
set_at zero c (x ∷ xs) = c ∷ xs
set_at (suc i) c (x ∷ xs) = x ∷ set_at i c xs

abbrev pub remove_at : ℕ → List Client → List Client
remove_at i [] = []
remove_at zero (c ∷ cs) = cs
remove_at (suc i) (c ∷ cs) = c ∷ remove_at i cs

-- The new connection of `handleWebSocket`.
abbrev pub new_client : Text → Text → String → Client
new_client id remote ip = record {
  id = id;
  remote = remote;
  ip = ip;
  ip_tracked = true;
  user = [];
  authed = false;
  auth_attempts = 0;
  send = [];
  closed = false;
}

abbrev pub denied_event : Text → Event
denied_event remote = record {
  action = codes "connect";
  result = result_denied;
  remote = remote;
  client = [];
  user = [];
}

-- The first message: with a token, that it is required; without one, the client is let in.
unfoldable pub greet : Text → Client → Client
unfolding send_msg
greet token c =
    if is_empty token
    then send_msg (record { id = []; body = agent_info true })
        (identify c.user true c.auth_attempts c)
    else send_msg (record { id = []; body = auth_required }) c

-- `register`, with what `handleWebSocket` does after it.
unfoldable pub accept : Text → Client → Server → Server
unfolding greet
accept token c s =
    if leb max_clients (length s.clients)
    then record s { rejected = c ∷ s.rejected }
    else record s { clients = greet token c ∷ s.clients }

-- The rest of `handleWebSocket` where `register` refuses.
abbrev pub turn_away : Option Client → ℕ → Server → Server
turn_away none i s = s
turn_away (some c) i s = record s {
  rejected = remove_at i s.rejected;
  guard = release s.guard c.ip;
  audit = s.audit ++ (denied_event c.remote ∷ []);
}

unfoldable pub reject : ℕ → Server → Server
unfolding release
reject i s = turn_away (client_at i s.rejected) i s

-- What the guard says.
abbrev pub entering : Client → Option Refusal → Server → Server
entering c (some reason) s = record s { audit = s.audit ++ (denied_event c.remote ∷ []) }
entering c none s = record s { upgrading = c ∷ s.upgrading }

-- `handleWebSocket` up to the upgrade.
unfoldable pub handle_web_socket : ℕ → String → Text → Text → Server → Server
unfolding admit
handle_web_socket now ip remote id s =
    let (guard, refusal) = admit s.guard ip now in
    entering (new_client id remote ip) refusal (record s { guard = guard })

-- And from the upgrade on, which may fail.
abbrev pub upgraded : Text → Bool → Option Client → ℕ → Server → Server
upgraded token succeeds none i s = s
upgraded token succeeds (some c) i s =
    let s' = record s { upgrading = remove_at i s.upgrading } in
    if succeeds then accept token c s' else record s' { guard = release s'.guard c.ip }

unfoldable pub upgrade : Text → Bool → ℕ → Server → Server
unfolding accept release
upgrade token succeeds i s = upgraded token succeeds (client_at i s.upgrading) i s

-- `unregister`, by the read pump as it ends: the table first, and then the guard.
abbrev pub forget : Option Client → ℕ → Server → Server
forget none i s = s
forget (some c) i s = record s { clients = remove_at i s.clients; leaving = c ∷ s.leaving }

unfoldable pub unregister : ℕ → Server → Server
unregister i s = forget (client_at i s.clients) i s

abbrev pub let_go : Option Client → ℕ → Server → Server
let_go none i s = s
let_go (some c) i s = record s {
  leaving = remove_at i s.leaving;
  guard = if c.ip_tracked then release s.guard c.ip else s.guard;
}

unfoldable pub release_slot : ℕ → Server → Server
unfolding release
release_slot i s = let_go (client_at i s.leaving) i s

abbrev pub on_client : (Client → Client) → Option Client → ℕ → Server → Server
on_client f none i s = s
on_client f (some c) i s = record s { clients = set_at i (f c) s.clients }

abbrev pub session_of : Client → Server → Session
session_of c s = record { client = c; guard = s.guard; audit = s.audit; disk = s.disk }

abbrev pub put_session : ℕ → Session → Server → Server
put_session i t s = record s {
  clients = set_at i t.client s.clients;
  guard = t.guard;
  audit = t.audit;
  disk = t.disk;
}

-- The write pump: the first message of the queue is written, or fails to be, which closes the
-- connection; every two seconds an authenticated client gets an update.
abbrev pub unsent : List Reply → List Reply
unsent [] = []
unsent (r ∷ rs) = rs

abbrev pub write_first : Bool → Client → Client
write_first true c = record c { send = unsent c.send }
write_first false c = close (record c { send = unsent c.send })

unfoldable pub pump : Bool → Client → Client
unfolding close
pump writes c = if c.closed then c else write_first writes c

unfoldable pub tick : Client → Client
unfolding push_system_update
tick c = if c.authed then push_system_update c else c

-- `enforceAuthDeadline`, when its timer fires.
unfoldable pub auth_deadline : Session → Session
unfolding record_event close
auth_deadline s =
    let noted = record_event (codes "auth") result_denied s in
    if s.client.closed || s.client.authed then s else record noted { client = close noted.client }

module _ {Json : Type 0} (env : Env Json) where
  -- The read pump, when a message arrives. A closed connection delivers none.
  abbrev pub deliver_to : Option Client → ℕ → ℕ → Message Json → Server → Server
  deliver_to none i now msg s = s
  deliver_to (some c) i now msg s =
      if c.closed then s else put_session i (handle_message env now msg (session_of c s)) s

  abbrev pub expire : Option Client → ℕ → Server → Server
  expire none i s = s
  expire (some c) i s = put_session i (auth_deadline (session_of c s)) s

pub data Action (Json : Type 0) : Type 0 where
  connects : (now : ℕ) (ip : String) (remote id : Text) → Action Json
  upgrades : (i : ℕ) (succeeds : Bool) → Action Json
  rejects : (i : ℕ) → Action Json
  receives : (i now : ℕ) (msg : Message Json) → Action Json
  writes : (i : ℕ) (succeeds : Bool) → Action Json
  ticks : (i : ℕ) → Action Json
  times_out : (i : ℕ) → Action Json
  leaves : (i : ℕ) → Action Json
  releases : (i : ℕ) → Action Json

module _ {Json : Type 0} (env : Env Json) where
  unfoldable pub act : Action Json → Server → Server
  unfolding handle_web_socket upgrade reject unregister release_slot pump tick auth_deadline
      handle_message
  act (connects now ip remote id) s = handle_web_socket now ip remote id s
  act (upgrades i succeeds) s = upgrade env.auth_token succeeds i s
  act (rejects i) s = reject i s
  act (receives i now msg) s = deliver_to env (client_at i s.clients) i now msg s
  act (writes i succeeds) s = on_client (pump succeeds) (client_at i s.clients) i s
  act (ticks i) s = on_client tick (client_at i s.clients) i s
  act (times_out i) s = expire env (client_at i s.clients) i s
  act (leaves i) s = unregister i s
  act (releases i) s = release_slot i s

  unfoldable pub serve : List (Action Json) → Server → Server
  unfolding act
  serve [] s = s
  serve (a ∷ rest) s = serve rest (act a s)
