-- ===== src/Control/Client/Manager.antt =====
-- `Manager` of control-center/backend/client/client.go: the connections to the agents, the requests
-- that wait for an answer, and the goroutines, each action of which is one step between two waits.
use lan_commander.Base.{
  ℕ, ◌+◌, Bool, true, false, ◌&&◌, ◌||◌, Option, none, some, List, [], ◌∷◌, if◌then◌else◌, ◌==◌,
  list_eq, nat_eq,
}
use lan_commander.Base.Dict
use lan_commander.Base.Dict.{Dict}
use lan_commander.Base.Exec.{Result, ok, err}
use lan_commander.Base.Text.{Text, is_empty}
use lan_commander.Control.Client.Protocol.{Message}
use lan_commander.Control.Client.Agent.{
  AgentInfo, AgentConnection, ConnectOptions, same_connect_options, stop, tls_enabled,
}

-- connectionGeneration: a WebSocket, and the channel that ends its goroutines.
pub record Generation : Type 0 where
  pub is_open : Bool
  pub done : Bool

-- `connection` and `generation` are memory: what was allocated stays there. `pumps` are the read pumps
-- that run; `reconnecting` are the reconnections that wait out a delay, and `dialling` those in a dial
-- or a handshake, each with its generation and its connection.
-- `replies` are the channels of the requests, of one place each, `forwarded` what the callback got, and
-- `written` what went out, by generation.
pub record Manager (Json : Type 0) : Type 0 where
  pub agents : Dict Text ℕ
  pub connection : ℕ → Option AgentConnection
  pub connections : ℕ
  pub generation : ℕ → Option Generation
  pub generations : ℕ
  pub pumps : Dict ℕ ℕ
  pub reconnecting : Dict ℕ ℕ
  pub dialling : Dict ℕ ℕ
  pub pending : Dict Text (Unit {0})
  pub replies : Dict Text (Message Json)
  pub forwarded : List (Text × Message Json)
  pub written : List (ℕ × Text)
  pub shut_down : Bool

pub data ClientError : Type 0 where
  different_options invalid_options cannot_connect handshake_failed shutting_down : ClientError
  not_found not_connected write_failed timed_out : ClientError
  agent_error : Text → ClientError

unfoldable pub new_manager : {Json : Type 0} → Manager Json
new_manager = record {
  agents = [];
  connection = λ h. none;
  connections = 0;
  generation = λ g. none;
  generations = 0;
  pumps = [];
  reconnecting = [];
  dialling = [];
  pending = [];
  replies = [];
  forwarded = [];
  written = [];
  shut_down = false;
}

abbrev pub update : {A : Type 0} → ℕ → A → (ℕ → Option A) → ℕ → Option A
update k a f j = if j == k then some a else f j

-- The connected agent at an endpoint, if there is one.
abbrev pub is_at : Text → ℕ → AgentInfo → Bool
is_at host port i = i.host == host && i.port == port && i.connected

abbrev pub pick :
    Text → ℕ → Option AgentConnection → Option AgentConnection → Option AgentConnection
pick host port none rest = rest
pick host port (some ac) rest = if is_at host port ac.info then some ac else rest

abbrev pub answer_existing : AgentConnection → ConnectOptions → Result ClientError Text
answer_existing ac options =
    if same_connect_options ac.options options then ok ac.info.id else err different_options

-- `newConnectionGeneration`, and the goroutines of a generation.
abbrev pub new_generation : Generation
new_generation = record { is_open = true; done = false }

abbrev pub new_connection : Text → Text → ℕ → ConnectOptions → ℕ → ℕ → AgentConnection
new_connection id host port options generation now = record {
  info = record {
    id = id;
    host = host;
    port = port;
    auth_token = options.auth_token;
    name = [];
    os = [];
    arch = [];
    connected = true;
    last_seen = now;
    system_info = none;
  };
  options = options;
  generation = generation;
  closed = false;
  cancelled = false;
}

-- `CAFile` and `ServerName` want TLS.
abbrev pub allows : ConnectOptions → Bool
allows o = tls_enabled o || is_empty o.ca_file && is_empty o.server_name

module _ {Json : Type 0} where
  abbrev pub put_connection : ℕ → AgentConnection → Manager Json → Manager Json
  put_connection h ac m = record m { connection = update h ac m.connection }

  abbrev pub changed :
      Option AgentConnection → ℕ → (AgentConnection → AgentConnection) → Manager Json → Manager Json
  changed none h f m = m
  changed (some ac) h f m = put_connection h (f ac) m

  -- A method of a connection.
  unfoldable pub with_connection :
      ℕ → (AgentConnection → AgentConnection) → Manager Json → Manager Json
  with_connection h f m = changed (m.connection h) h f m

  abbrev pub put_generation : ℕ → Generation → Manager Json → Manager Json
  put_generation g x m = record m { generation = update g x m.generation }

  abbrev pub closing : Option Generation → ℕ → Manager Json → Manager Json
  closing none g m = m
  closing (some x) g m = put_generation g (record x { is_open = false }) m

  -- `closeConn`, which closes once.
  unfoldable pub close_conn : ℕ → Manager Json → Manager Json
  close_conn g m = closing (m.generation g) g m

  abbrev pub finishing : Option Generation → ℕ → Manager Json → Manager Json
  finishing none g m = m
  finishing (some x) g m = put_generation g (record x { done = true }) m

  unfoldable pub finish : ℕ → Manager Json → Manager Json
  finish g m = finishing (m.generation g) g m

  unfoldable pub find_endpoint : Text → ℕ → Dict Text ℕ → Manager Json → Option AgentConnection
  find_endpoint host port [] m = none
  find_endpoint host port ((id, h) ∷ r) m =
      pick host port (m.connection h) (find_endpoint host port r m)

  abbrev pub start_pump : ℕ → ℕ → Manager Json → Manager Json
  start_pump g h m = record m {
    generation = update g new_generation m.generation;
    generations = m.generations + 1;
    pumps = Dict.insert g h m.pumps;
  }

  unfoldable pub register : Text → Text → ℕ → ConnectOptions → ℕ → Manager Json → Manager Json
  register id host port options now m = start_pump m.generations m.connections (record m {
    agents = Dict.insert id m.connections m.agents;
    connection =
        update m.connections (new_connection id host port options m.generations now) m.connection;
    connections = m.connections + 1;
  })

  -- The second part of `ConnectWithOptions`, after the handshake.
  abbrev pub settled :
      Option AgentConnection
      → Text
      → Text
      → ℕ
      → ConnectOptions
      → ℕ
      → Manager Json
      → Result ClientError Text × Manager Json
  settled (some ac) id host port options now m = (answer_existing ac options, m)
  settled none id host port options now m =
      if m.shut_down then (err shutting_down, m) else (ok id, register id host port options now m)

  unfoldable pub install :
      Text → Text → ℕ → ConnectOptions → ℕ → Manager Json → Result ClientError Text × Manager Json
  unfolding find_endpoint register
  install id host port options now m =
      settled (find_endpoint host port m.agents m) id host port options now m

  abbrev pub dialled :
      Option ClientError
      → Text
      → Text
      → ℕ
      → ConnectOptions
      → ℕ
      → Manager Json
      → Result ClientError Text × Manager Json
  dialled (some e) id host port options now m = (err e, m)
  dialled none id host port options now m = install id host port options now m

  abbrev pub begun :
      Option AgentConnection
      → Option ClientError
      → (Manager Json → Manager Json)
      → Text
      → Text
      → ℕ
      → ConnectOptions
      → ℕ
      → Manager Json
      → Result ClientError Text × Manager Json
  begun (some ac) dial others id host port options now m = (answer_existing ac options, m)
  begun none dial others id host port options now m =
      if allows options
      then dialled dial id host port options now (others m)
      else (err invalid_options, m)

  -- `dial` is the error of the connection or of the handshake; the `others` go on meanwhile.
  unfoldable pub connect_with_options :
      Option ClientError
      → (Manager Json → Manager Json)
      → Text
      → Text
      → ℕ
      → ConnectOptions
      → ℕ
      → Manager Json
      → Result ClientError Text × Manager Json
  unfolding find_endpoint install
  connect_with_options dial others id host port options now m =
      begun (find_endpoint host port m.agents m) dial others id host port options now m

  abbrev pub halted : Option AgentConnection → ℕ → Manager Json → Manager Json
  halted none h m = m
  halted (some ac) h m = close_conn ac.generation (put_connection h (stop ac) m)

  unfoldable pub stop_connection : ℕ → Manager Json → Manager Json
  unfolding stop close_conn
  stop_connection h m = halted (m.connection h) h m

  abbrev pub left : Option ℕ → Text → Manager Json → Result ClientError (Unit {0}) × Manager Json
  left none id m = (err not_found, m)
  left (some h) id m = (ok tt, stop_connection h (record m { agents = Dict.erase id m.agents }))

  unfoldable pub disconnect : Text → Manager Json → Result ClientError (Unit {0}) × Manager Json
  unfolding stop_connection
  disconnect id m = left (Dict.lookup id m.agents) id m

  unfoldable pub stop_all : Dict Text ℕ → Manager Json → Manager Json
  unfolding stop_connection
  stop_all [] m = m
  stop_all ((id, h) ∷ r) m = stop_all r (stop_connection h m)

  unfoldable pub close_all : Manager Json → Manager Json
  unfolding stop_all
  close_all m = stop_all m.agents (record m { agents = []; shut_down = true; pending = [] })
