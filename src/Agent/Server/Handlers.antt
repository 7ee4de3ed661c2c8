-- ===== src/Agent/Server/Handlers.antt =====
-- agent/internal/server/handlers.go. The decoding of payloads by encoding/json, the run of a process,
-- the digest and the screenshot are fields of the environment.
use lan_commander.Base.{
  ℕ, ◌+◌, Bool, true, not, ◌&&◌, ◌||◌, Option, none, some, List, [], if◌then◌else◌, leb, length,
  ◌==◌, list_eq, nat_eq,
}
use lan_commander.Base.Int.{ℤ, pos, leb_ℤ, ltb_ℤ, ◌+64◌}
use lan_commander.Base.Exec.{Result, ok, err}
use lan_commander.Base.Text.{Text, codes, is_empty}
use lan_commander.Os.Disk.{Bytes, Disk}
use lan_commander.Agent.IpGuard.{fail, succeed}
use lan_commander.Agent.Files.Host.{
  Host, FileError, default_chunk_size, max_chunk_size, file_sha256,
}
use lan_commander.Agent.Files.Listing.{DirContents, list_dir}
use lan_commander.Agent.Files.Chunks.{read_file_chunk, write_file_chunk}
use lan_commander.Agent.Files.Upload.{eq_ℤ, write_atomic_upload_chunk, cancel_atomic_upload}
use lan_commander.Agent.Executor.{ShellCommand, Run, execute}
use lan_commander.Agent.Server.{
  Session, FileChunk, ScreenshotData, max_auth_attempts, authentication_required, unknown_type,
  invalid_payload, invalid_token, list_dir_error, get_file_error, checksum_error, send_file_error,
  cancel_file_error, screenshot_error, auth_ok, command_result, dir_contents, file_chunk, file_ack,
  cancel_ack, screenshot_data, system_update, result_ok, result_error, result_denied, with_client,
  with_guard, with_disk, identify, close, send_error, send_response, send_agent_info, record_event,
}

-- The request payloads of agent/internal/protocol/types.go.
pub record AuthPayload : Type 0 where
  pub token : Text
  pub username : Text

pub record ExecCommand : Type 0 where
  pub command : Text
  pub args : List Text
  pub timeout : ℤ
  pub shell : Text

pub record ListDir : Type 0 where
  pub path : Text
  pub offset : ℤ
  pub limit : ℤ

pub record GetFile : Type 0 where
  pub path : Text
  pub offset : ℤ
  pub chunk_size : ℤ

pub record SendFile : Type 0 where
  pub path : Text
  pub content : Bytes
  pub offset : ℤ
  pub total_size : ℤ
  pub final : Bool
  pub checksum : Text
  pub transfer_id : Text

pub record CancelFile : Type 0 where
  pub path : Text
  pub transfer_id : Text

-- What the code takes from elsewhere: `none` is a payload that does not decode.
pub record Env (Json : Type 0) : Type 0 where
  pub auth_token : Text
  pub host : Host
  pub windows : Bool
  pub run : ShellCommand → Disk → Run × Disk
  pub capture : Disk → Result Text ScreenshotData
  pub as_auth : Json → Option AuthPayload
  pub as_exec : Json → Option ExecCommand
  pub as_list_dir : Json → Option ListDir
  pub as_get_file : Json → Option GetFile
  pub as_send_file : Json → Option SendFile
  pub as_cancel_file : Json → Option CancelFile

pub data Kind : Type 0 where
  exec_command_kind list_dir_kind get_file_kind send_file_kind cancel_file_kind : Kind
  screenshot_kind system_info_kind auth_kind keep_alive_kind other_kind : Kind

pub record Message (Json : Type 0) : Type 0 where
  pub id : Text
  pub kind : Kind
  pub payload : Json

-- A handler's payload, or its error.
abbrev pub decoded : {A : Type 0} → Option A → Text → (A → Session → Session) → Session → Session
decoded none id f s = send_error id invalid_payload s
decoded (some a) id f s = f a s

-- ConstantTimeCompare of the bytes; an empty token asks for none.
abbrev pub refuses : Text → Text → Bool
refuses token given = not (is_empty token) && not (given == token)

abbrev pub attempts_close : Session → Session
attempts_close s =
    if leb max_auth_attempts s.client.auth_attempts then with_client (close s.client) s else s

unfoldable pub auth_denied : ℕ → Text → AuthPayload → Session → Session
unfolding fail
auth_denied now id auth s =
    let c = s.client in
    let counted = with_client (identify c.user c.authed (c.auth_attempts + 1) c) s in
    let failed = with_guard (fail s.guard c.ip now) counted in
    let c' = failed.client in
    let named = with_client (identify auth.username c'.authed c'.auth_attempts c') failed in
    attempts_close (send_error id invalid_token (record_event (codes "auth") result_denied named))

unfoldable pub auth_accepted : Text → AuthPayload → Session → Session
unfolding succeed
auth_accepted id auth s =
    let c = s.client in
    let opened =
      with_guard (succeed s.guard c.ip)
        (with_client (identify auth.username true c.auth_attempts c) s) in
    send_agent_info (send_response id auth_ok (record_event (codes "auth") result_ok opened))

module _ {Json : Type 0} (env : Env Json) where
  unfoldable pub handle_auth : ℕ → Message Json → Session → Session
  handle_auth now msg = decoded (env.as_auth msg.payload) msg.id (λ auth.
      if refuses env.auth_token auth.token
      then auth_denied now msg.id auth
      else auth_accepted msg.id auth)

  unfoldable pub handle_exec_command : Message Json → Session → Session
  handle_exec_command msg = decoded (env.as_exec msg.payload) msg.id (λ e s.
      let (result, disk) = execute env.run env.windows e.command e.args e.timeout e.shell s.disk in
      send_response msg.id (command_result result)
        (record_event (codes "exec_command") result_ok (with_disk disk s)))

  abbrev pub list_dir_reply : Text → ListDir → Result FileError DirContents → Session → Session
  list_dir_reply id p (err e) s =
      send_error id (list_dir_error e) (record_event (codes "list_dir") result_error s)
  list_dir_reply id p (ok contents) s =
      let first = record_event (codes "list_dir") result_ok s in
      send_response id (dir_contents contents) (if eq_ℤ p.offset (pos 0) then first else s)

  unfoldable pub handle_list_dir : Message Json → Session → Session
  handle_list_dir msg = decoded (env.as_list_dir msg.payload) msg.id (λ p s.
      let (r, disk) = list_dir env.host p.path p.offset p.limit s.disk in
      list_dir_reply msg.id p r (with_disk disk s))

  abbrev pub request_chunk_size : ℤ → ℤ
  request_chunk_size size =
      if leb_ℤ size (pos 0)
      then pos default_chunk_size
      else if ltb_ℤ (pos max_chunk_size) size
      then pos max_chunk_size
      else size

  abbrev pub final_reply : Text → FileChunk → Result FileError Text → Session → Session
  final_reply id chunk (err e) s = send_error id (checksum_error e) s
  final_reply id chunk (ok sum) s =
      send_response id
        (file_chunk (record {
          path = chunk.path;
          content = chunk.content;
          offset = chunk.offset;
          total_size = chunk.total_size;
          final = chunk.final;
          checksum = sum;
        }))
        s

  -- The chunk, with the checksum of the whole file if it is the last.
  unfoldable pub chunk_reply : Text → FileChunk → Session → Session
  chunk_reply id chunk s =
      let (r, disk) = file_sha256 env.host chunk.path s.disk in
      if chunk.final
      then final_reply id chunk r (with_disk disk s)
      else send_response id (file_chunk chunk) s

  abbrev pub get_file_reply : Text → GetFile → Result FileError (Bytes × ℕ) → Session → Session
  get_file_reply id p (err e) s =
      send_error id (get_file_error e) (record_event (codes "get_file") result_error s)
  get_file_reply id p (ok (content, total)) s =
      let first = record_event (codes "get_file") result_ok s in
      chunk_reply id
        (record {
          path = p.path;
          content = content;
          offset = p.offset;
          total_size = total;
          final = leb_ℤ (pos total) (p.offset +64 pos (length content));
          checksum = [];
        })
        (if eq_ℤ p.offset (pos 0) then first else s)

  unfoldable pub handle_get_file : Message Json → Session → Session
  handle_get_file msg = decoded (env.as_get_file msg.payload) msg.id (λ p s.
      let (r, disk) =
        read_file_chunk env.host p.path p.offset (request_chunk_size p.chunk_size) s.disk in
      get_file_reply msg.id p r (with_disk disk s))

  abbrev pub send_file_reply : Text → SendFile → Result FileError (Unit {0}) → Session → Session
  send_file_reply id p (err e) s = send_error id (send_file_error e) s
  send_file_reply id p (ok _) s =
      let noted = record_event (codes "send_file") result_ok s in
      send_response id
        (file_ack (record {
          path = p.path;
          offset = p.offset;
          final = p.final;
          committed = if is_empty p.transfer_id then none else some p.final;
        }))
        (if eq_ℤ p.offset (pos 0) || p.final then noted else s)

  -- Without a transfer id the chunk is written in place.
  unfoldable pub store_chunk : SendFile → Disk → Result FileError (Unit {0}) × Disk
  store_chunk p =
      if is_empty p.transfer_id
      then write_file_chunk env.host p.path p.content p.offset
      else write_atomic_upload_chunk env.host p.path p.transfer_id p.content p.offset p.total_size
          p.final p.checksum

  unfoldable pub handle_send_file : Message Json → Session → Session
  handle_send_file msg =
      decoded (env.as_send_file msg.payload) msg.id (λ p s.
        let (r, disk) = store_chunk p s.disk in send_file_reply msg.id p r (with_disk disk s))

  abbrev pub cancel_file_reply : Text → CancelFile → Result FileError (Unit {0}) → Session → Session
  cancel_file_reply id p (err e) s =
      send_error id (cancel_file_error e) (record_event (codes "cancel_file") result_error s)
  cancel_file_reply id p (ok _) s =
      send_response id (cancel_ack p.path) (record_event (codes "cancel_file") result_ok s)

  unfoldable pub handle_cancel_file : Message Json → Session → Session
  handle_cancel_file msg = decoded (env.as_cancel_file msg.payload) msg.id (λ p s.
      let (r, disk) = cancel_atomic_upload env.host p.path p.transfer_id s.disk in
      cancel_file_reply msg.id p r (with_disk disk s))

  abbrev pub screenshot_reply : Text → Result Text ScreenshotData → Session → Session
  screenshot_reply id (err e) s =
      send_error id screenshot_error (record_event (codes "screenshot") result_error s)
  screenshot_reply id (ok shot) s =
      send_response id (screenshot_data shot) (record_event (codes "screenshot") result_ok s)

  unfoldable pub handle_screenshot : Message Json → Session → Session
  handle_screenshot msg s = screenshot_reply msg.id (env.capture s.disk) s

  unfoldable pub handle_system_info : Message Json → Session → Session
  handle_system_info msg s = send_response msg.id system_update s

  -- The `switch` of an authenticated client.
  unfoldable pub dispatch : Kind → Message Json → Session → Session
  dispatch exec_command_kind msg s = handle_exec_command msg s
  dispatch list_dir_kind msg s = handle_list_dir msg s
  dispatch get_file_kind msg s = handle_get_file msg s
  dispatch send_file_kind msg s = handle_send_file msg s
  dispatch cancel_file_kind msg s = handle_cancel_file msg s
  dispatch screenshot_kind msg s = handle_screenshot msg s
  dispatch system_info_kind msg s = handle_system_info msg s
  dispatch auth_kind msg s = send_error msg.id unknown_type s
  dispatch keep_alive_kind msg s = send_error msg.id unknown_type s
  dispatch other_kind msg s = send_error msg.id unknown_type s

  -- `auth` and `keep_alive` are always allowed.
  unfoldable pub handle_kind : Kind → ℕ → Message Json → Session → Session
  handle_kind auth_kind now msg s = handle_auth now msg s
  handle_kind keep_alive_kind now msg s = s
  handle_kind kind now msg s =
      if s.client.authed then dispatch kind msg s else send_error msg.id authentication_required s

  unfoldable pub handle_message : ℕ → Message Json → Session → Session
  handle_message now msg s = handle_kind msg.kind now msg s
