-- ===== src/Agent/Server.antt =====
-- The state of agent/internal/server/server.go and the calls that every handler makes: a connection's
-- send queue, its closing, and the local audit trail. Timestamps are left out, and so is the JSON of
-- the messages that are sent, whose types always marshal.
pub mod Handlers
pub mod Steady
pub mod Gate
pub mod Limits
pub mod Connections
mod Tests
use lan_commander.Base.{
  ℕ, Bool, true, false, Option, none, some, List, [], ◌∷◌, ◌++◌, if◌then◌else◌, ltb, length, String,
}
use lan_commander.Base.Int.{ℤ}
use lan_commander.Base.Text.{Text, codes}
use lan_commander.Os.Disk.{Bytes, Disk}
use lan_commander.Agent.IpGuard.{IpGuard}
use lan_commander.Agent.Files.Host.{FileError}
use lan_commander.Agent.Files.Listing.{DirContents}
use lan_commander.Agent.Executor.{CommandResult}

abbrev pub max_clients : ℕ
max_clients = 128

abbrev pub max_auth_attempts : ℕ
max_auth_attempts = 5

-- The capacity of a client's send channel.
abbrev pub send_queue_size : ℕ
send_queue_size = 64

-- FileChunkPayload
pub record FileChunk : Type 0 where
  pub path : Text
  pub content : Bytes
  pub offset : ℤ
  pub total_size : ℕ
  pub final : Bool
  pub checksum : Text

pub record ScreenshotData : Type 0 where
  pub content : Bytes
  pub width : ℕ
  pub height : ℕ

-- The acknowledgement of a chunk; `committed` is left out for a client without a transfer id.
pub record FileAck : Type 0 where
  pub path : Text
  pub offset : ℤ
  pub final : Bool
  pub committed : Option Bool

-- The text of an error message, by what it says. Execute reports no error, so there is none for it.
pub data Failure : Type 0 where
  authentication_required unknown_type invalid_payload invalid_token : Failure
  list_dir_error get_file_error checksum_error send_file_error cancel_file_error :
      FileError → Failure
  screenshot_error : Failure

-- The payloads of the messages that the agent sends.
pub data Body : Type 0 where
  auth_required auth_ok : Body
  agent_info : Bool → Body
  error_body : Failure → Body
  command_result : CommandResult → Body
  dir_contents : DirContents → Body
  file_chunk : FileChunk → Body
  file_ack : FileAck → Body
  cancel_ack : Text → Body
  screenshot_data : ScreenshotData → Body
  system_update : Body

pub record Reply : Type 0 where
  pub id : Text
  pub body : Body

pub data AuditResult : Type 0 where
  result_ok result_error result_denied : AuditResult

-- audit.Event, without its detail.
pub record Event : Type 0 where
  pub action : Text
  pub result : AuditResult
  pub remote : Text
  pub client : Text
  pub user : Text

-- Client. `closed` is that `done` is closed and the connection with it.
pub record Client : Type 0 where
  pub id : Text
  pub remote : Text
  pub ip : String
  pub ip_tracked : Bool
  pub user : Text
  pub authed : Bool
  pub auth_attempts : ℕ
  pub send : List Reply
  pub closed : Bool

-- What a handler of one client can change.
pub record Session : Type 0 where
  pub client : Client
  pub guard : IpGuard
  pub audit : List Event
  pub disk : Disk

abbrev pub with_client : Client → Session → Session
with_client c s = record { client = c; guard = s.guard; audit = s.audit; disk = s.disk }

abbrev pub with_guard : IpGuard → Session → Session
with_guard g s = record { client = s.client; guard = g; audit = s.audit; disk = s.disk }

abbrev pub with_disk : Disk → Session → Session
with_disk d s = record { client = s.client; guard = s.guard; audit = s.audit; disk = d }

unfoldable pub close : Client → Client
close c = record {
  id = c.id;
  remote = c.remote;
  ip = c.ip;
  ip_tracked = c.ip_tracked;
  user = c.user;
  authed = c.authed;
  auth_attempts = c.auth_attempts;
  send = c.send;
  closed = true;
}

abbrev pub enqueue : Reply → Client → Client
enqueue r c = record {
  id = c.id;
  remote = c.remote;
  ip = c.ip;
  ip_tracked = c.ip_tracked;
  user = c.user;
  authed = c.authed;
  auth_attempts = c.auth_attempts;
  send = c.send ++ (r ∷ []);
  closed = c.closed;
}

abbrev pub identify : Text → Bool → ℕ → Client → Client
identify user authed attempts c = record {
  id = c.id;
  remote = c.remote;
  ip = c.ip;
  ip_tracked = c.ip_tracked;
  user = user;
  authed = authed;
  auth_attempts = attempts;
  send = c.send;
  closed = c.closed;
}

-- `sendMsg`: a full queue closes the connection. Where a channel has room and the connection is closed
-- too, Go's `select` may take either; the message is never read in that case.
unfoldable pub send_msg : Reply → Client → Client
unfolding close
send_msg r c =
    if c.closed then c else if ltb (length c.send) send_queue_size then enqueue r c else close c

abbrev pub sends : Text → Body → Session → Session
sends id body s = with_client (send_msg (record { id = id; body = body }) s.client) s

unfoldable pub send_error : Text → Failure → Session → Session
unfolding send_msg
send_error id f s = sends id (error_body f) s

unfoldable pub send_response : Text → Body → Session → Session
unfolding send_msg
send_response id body s = sends id body s

unfoldable pub send_agent_info : Session → Session
unfolding send_msg
send_agent_info s = sends [] (agent_info s.client.authed) s

-- `record`
unfoldable pub record_event : Text → AuditResult → Session → Session
record_event action result s = record {
  client = s.client;
  guard = s.guard;
  audit =
      s.audit
      ++ (record {
        action = action;
        result = result;
        remote = s.client.remote;
        client = s.client.id;
        user = s.client.user;
      }
          ∷ []);
  disk = s.disk;
}

-- `pushSystemUpdate`: a full queue skips the update.
unfoldable pub push_system_update : Client → Client
push_system_update c =
    if c.closed
    then c
    else if ltb (length c.send) send_queue_size
    then enqueue (record { id = []; body = system_update }) c
    else c
