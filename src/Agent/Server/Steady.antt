-- ===== src/Agent/Server/Steady.antt =====
-- Properties of a session that every handler of an authenticated client keeps.
use lan_commander.Base.{
  ℕ, ◌≢◌, refl, Bool, true, false, Option, none, some, if◌then◌else◌, list_eq, nat_eq,
}
use lan_commander.Base.Exec.{Result, ok, err}
use lan_commander.Base.Text.{Text}
use lan_commander.Os.Disk.{Bytes, Disk}
use lan_commander.Agent.Files.Host.{FileError, file_sha256}
use lan_commander.Agent.Server.{
  Session, Reply, AuditResult, Failure, Body, FileChunk, with_client, with_disk, send_msg,
  send_error, send_response, record_event,
}
use lan_commander.Agent.Server.Handlers.{
  Env, Message, Kind, GetFile, decoded, dispatch, handle_kind, handle_exec_command, handle_list_dir,
  handle_get_file, handle_send_file, handle_cancel_file, handle_screenshot, handle_system_info,
  list_dir_reply, get_file_reply, chunk_reply, final_reply, send_file_reply, cancel_file_reply,
  screenshot_reply, exec_command_kind, list_dir_kind, get_file_kind, send_file_kind,
  cancel_file_kind, screenshot_kind, system_info_kind, auth_kind, keep_alive_kind, other_kind,
}

-- A property of a session that the calls of every handler keep.
pub record Steady (P : Session → Type 0) : Type 0 where
  pub on_disk : (d : Disk) (s : Session) → P s → P (with_disk d s)
  pub on_send : (r : Reply) (s : Session) → P s → P (with_client (send_msg r s.client) s)
  pub on_record : (a : Text) (r : AuditResult) (s : Session) → P s → P (record_event a r s)

module _ {P : Session → Type 0} (st : Steady P) where
  pub on_error : (id : Text) (f : Failure) (s : Session) → P s → P (send_error id f s)
  unfolding send_error
  on_error id f s h = st.on_send _ s h

  pub on_response : (id : Text) (b : Body) (s : Session) → P s → P (send_response id b s)
  unfolding send_response
  on_response id b s h = st.on_send _ s h

  on_if : (b : Bool) (s t : Session) → P s → P t → P (if b then s else t)
  on_if true s t hs ht = hs
  on_if false s t hs ht = ht

  pub on_decoded :
      {A : Type 0} (o : Option A) (id : Text) (f : A → Session → Session) (s : Session)
      → ((a : A) → P (f a s))
      → P s
      → P (decoded o id f s)
  on_decoded none id f s k h = on_error id _ s h
  on_decoded (some a) id f s k h = k a

  module _ {Json : Type 0} (env : Env Json) (msg : Message Json) (s : Session) (h : P s) where
    on_exec_command : P (handle_exec_command env msg s)
    unfolding handle_exec_command
    on_exec_command =
        on_decoded (env.as_exec msg.payload) msg.id _ s
          (λ e. on_response _ _ _ (st.on_record _ _ _ (st.on_disk _ s h))) h

    on_list_dir : P (handle_list_dir env msg s)
    unfolding handle_list_dir
    on_list_dir =
        on_decoded (env.as_list_dir msg.payload) msg.id _ s (λ p. go p _ (st.on_disk _ s h)) h
      where
        go : (p : _) (r : Result _ _) {t : Session} → P t → P (list_dir_reply env msg.id p r t)
        go p (err e) k = on_error _ _ _ (st.on_record _ _ _ k)
        go p (ok c) k = on_response _ _ _ (on_if _ _ _ (st.on_record _ _ _ k) k)

    on_chunk_reply : (c : FileChunk) (t : Session) → P t → P (chunk_reply env msg.id c t)
    unfolding chunk_reply
    on_chunk_reply c t k =
        on_if c.final _ _ (sum (file_sha256 env.host c.path t.disk).0 (st.on_disk _ t k))
          (on_response _ _ t k)
      where
        sum : (r : Result FileError Text) {u : Session} → P u → P (final_reply env msg.id c r u)
        sum (err e) k = on_error _ _ _ k
        sum (ok x) k = on_response _ _ _ k

    on_get_file : P (handle_get_file env msg s)
    unfolding handle_get_file
    on_get_file =
        on_decoded (env.as_get_file msg.payload) msg.id _ s (λ p. go p _ (st.on_disk _ s h)) h
      where
        go :
            (p : GetFile) (r : Result FileError (Bytes × ℕ)) {t : Session}
            → P t
            → P (get_file_reply env msg.id p r t)
        go p (err e) k = on_error _ _ _ (st.on_record _ _ _ k)
        go p (ok (b, n)) k = on_chunk_reply _ _ (on_if _ _ _ (st.on_record _ _ _ k) k)

    on_send_file : P (handle_send_file env msg s)
    unfolding handle_send_file
    on_send_file =
        on_decoded (env.as_send_file msg.payload) msg.id _ s (λ p. go p _ (st.on_disk _ s h)) h
      where
        go : (p : _) (r : Result _ _) {t : Session} → P t → P (send_file_reply env msg.id p r t)
        go p (err e) k = on_error _ _ _ k
        go p (ok c) k = on_response _ _ _ (on_if _ _ _ (st.on_record _ _ _ k) k)

    on_cancel_file : P (handle_cancel_file env msg s)
    unfolding handle_cancel_file
    on_cancel_file =
        on_decoded (env.as_cancel_file msg.payload) msg.id _ s (λ p. go p _ (st.on_disk _ s h)) h
      where
        go : (p : _) (r : Result _ _) {t : Session} → P t → P (cancel_file_reply env msg.id p r t)
        go p (err e) k = on_error _ _ _ (st.on_record _ _ _ k)
        go p (ok c) k = on_response _ _ _ (st.on_record _ _ _ k)

    on_screenshot : P (handle_screenshot env msg s)
    unfolding handle_screenshot
    on_screenshot = go (env.capture s.disk)
      where
        go : (r : Result _ _) → P (screenshot_reply env msg.id r s)
        go (err e) = on_error _ _ _ (st.on_record _ _ _ h)
        go (ok c) = on_response _ _ _ (st.on_record _ _ _ h)

    -- Every message of an authenticated client.
    pub on_dispatch : (k : Kind) → P (dispatch env k msg s)
    unfolding dispatch handle_system_info
    on_dispatch exec_command_kind = on_exec_command
    on_dispatch list_dir_kind = on_list_dir
    on_dispatch get_file_kind = on_get_file
    on_dispatch send_file_kind = on_send_file
    on_dispatch cancel_file_kind = on_cancel_file
    on_dispatch screenshot_kind = on_screenshot
    on_dispatch system_info_kind = on_response _ _ s h
    on_dispatch auth_kind = on_error _ _ s h
    on_dispatch keep_alive_kind = on_error _ _ s h
    on_dispatch other_kind = on_error _ _ s h

    -- Every message but those that authenticate.
    pub on_kind : (k : Kind) (now : ℕ) → k ≢ auth_kind → P (handle_kind env k now msg s)
    unfolding handle_kind
    on_kind exec_command_kind now ne =
        on_if _ _ _ (on_dispatch exec_command_kind) (on_error _ _ s h)
    on_kind list_dir_kind now ne = on_if _ _ _ (on_dispatch list_dir_kind) (on_error _ _ s h)
    on_kind get_file_kind now ne = on_if _ _ _ (on_dispatch get_file_kind) (on_error _ _ s h)
    on_kind send_file_kind now ne = on_if _ _ _ (on_dispatch send_file_kind) (on_error _ _ s h)
    on_kind cancel_file_kind now ne = on_if _ _ _ (on_dispatch cancel_file_kind) (on_error _ _ s h)
    on_kind screenshot_kind now ne = on_if _ _ _ (on_dispatch screenshot_kind) (on_error _ _ s h)
    on_kind system_info_kind now ne = on_if _ _ _ (on_dispatch system_info_kind) (on_error _ _ s h)
    on_kind auth_kind now ne = absurd (ne refl)
    on_kind keep_alive_kind now ne = h
    on_kind other_kind now ne = on_if _ _ _ (on_dispatch other_kind) (on_error _ _ s h)
