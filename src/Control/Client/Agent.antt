-- ===== src/Control/Client/Agent.antt =====
-- `AgentInfo`, `ConnectOptions` and `AgentConnection` of control-center/backend/client/client.go, each
-- method of a connection as a function of it. A context is a Boolean, whether it is cancelled.
use lan_commander.Base.{
  ℕ, Bool, true, false, not, ◌&&◌, ◌||◌, Option, none, some, if◌then◌else◌, ◌==◌, list_eq, nat_eq,
}
use lan_commander.Base.Text.{Text, is_empty}
use lan_commander.Control.Client.Protocol.{AgentInfoPayload, SystemInfoPayload}

pub record AgentInfo : Type 0 where
  pub id : Text
  pub host : Text
  pub port : ℕ
  pub auth_token : Text
  pub name : Text
  pub os : Text
  pub arch : Text
  pub connected : Bool
  pub last_seen : ℕ
  pub system_info : Option SystemInfoPayload

pub record ConnectOptions : Type 0 where
  pub auth_token : Text
  pub tls : Bool
  pub use_tls : Bool
  pub ca_file : Text
  pub server_name : Text

abbrev pub tls_enabled : ConnectOptions → Bool
tls_enabled o = o.tls || o.use_tls

abbrev eq_bool : Bool → Bool → Bool
eq_bool true b = b
eq_bool false b = not b

unfoldable pub same_connect_options : ConnectOptions → ConnectOptions → Bool
same_connect_options a b =
    a.auth_token == b.auth_token
    && eq_bool (tls_enabled a) (tls_enabled b)
    && a.ca_file == b.ca_file
    && a.server_name == b.server_name

-- A connection is never without its info. `generation` is a position in the manager's table.
pub record AgentConnection : Type 0 where
  pub info : AgentInfo
  pub options : ConnectOptions
  pub generation : ℕ
  pub closed : Bool
  pub cancelled : Bool

abbrev pub set_connected : Bool → AgentInfo → AgentInfo
set_connected b i = record i { connected = b }

unfoldable pub current_generation : AgentConnection → Option ℕ
current_generation ac = if ac.closed || not ac.info.connected then none else some ac.generation

-- `shut_down` is the manager's context, of which the connection's own is a child.
unfoldable pub install_generation : Bool → ℕ → ℕ → AgentConnection → Option (ℕ × AgentConnection)
install_generation shut_down generation now ac =
    if ac.closed || (ac.cancelled || shut_down)
    then none
    else some (
      ac.generation,
      record ac {
        generation = generation;
        info = record ac.info { connected = true; last_seen = now };
      },
    )

unfoldable pub mark_disconnected : ℕ → AgentConnection → AgentConnection
mark_disconnected generation ac =
    if ac.generation == generation then record ac { info = set_connected false ac.info } else ac

unfoldable pub update_last_seen : ℕ → ℕ → AgentConnection → AgentConnection
update_last_seen generation now ac =
    if ac.generation == generation
    then record ac { info = record ac.info { last_seen = now } }
    else ac

-- `if s != "" { field = s }`
abbrev or_else : Text → Text → Text
or_else s old = if is_empty s then old else s

unfoldable pub update_agent_info : ℕ → AgentInfoPayload → AgentConnection → AgentConnection
update_agent_info generation p ac =
    if not (ac.generation == generation) || ac.closed then ac else record ac {
      info = record ac.info {
        name = or_else p.hostname ac.info.name;
        os = or_else p.os ac.info.os;
        arch = or_else p.arch ac.info.arch;
      };
    }

unfoldable pub update_system_info : ℕ → SystemInfoPayload → AgentConnection → AgentConnection
update_system_info generation p ac =
    if not (ac.generation == generation) || ac.closed then ac else record ac {
      info = record ac.info {
        system_info = some p;
        name = or_else p.hostname ac.info.name;
        os = or_else p.os ac.info.os;
        arch = or_else p.arch ac.info.arch;
      };
    }

unfoldable pub should_reconnect : Bool → ℕ → AgentConnection → Bool
should_reconnect shut_down generation ac =
    ac.generation == generation && not ac.closed && not (ac.cancelled || shut_down)

unfoldable pub stop : AgentConnection → AgentConnection
stop ac = record ac { closed = true; cancelled = true; info = set_connected false ac.info }
