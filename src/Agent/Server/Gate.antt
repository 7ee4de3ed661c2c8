-- ===== src/Agent/Server/Gate.antt =====
-- What a connection can do before it authenticates, and the limits that every handler keeps.
use lan_commander.Base.{
  ℕ, ◌+◌, ◌≡◌, refl, ◌∙◌, Bool, true, false, Option, none, some, arith, if◌then◌else◌, leb, ◌==◌,
  list_eq, nat_eq,
}
use lan_commander.Base.Text.{Text, is_empty}
use lan_commander.Os.Disk.{Disk}
use lan_commander.Agent.IpGuard.{fail}
use lan_commander.Agent.Server.{
  Client, Session, Reply, AuditResult, authentication_required, with_client, send_msg,
  max_auth_attempts, send_error, record_event, close, identify,
}
use lan_commander.Agent.Server.Handlers.{
  Env, Message, Kind, AuthPayload, decoded, refuses, dispatch, handle_kind, handle_message,
  handle_auth, auth_denied, auth_accepted, attempts_close, exec_command_kind, list_dir_kind,
  get_file_kind, send_file_kind, cancel_file_kind, screenshot_kind, system_info_kind, auth_kind,
  keep_alive_kind, other_kind,
}

-- A message that presents the token.
abbrev pub is_token : Text → Option AuthPayload → Bool
is_token token none = false
is_token token (some a) = a.token == token

abbrev pub presents : {Json : Type 0} → Env Json → Kind → Option AuthPayload → Bool
presents env auth_kind a = is_token env.auth_token a
presents env _ a = false

send_msg-authed : (r : Reply) (c : Client) → (send_msg r c).authed ≡ c.authed
unfolding send_msg
send_msg-authed r c = ground arith

-- A denied authentication: what its calls keep, it keeps.
module _ (P Q : Session → Type 0)
    (on_send : (r : Reply) (s : Session) → P s → P (with_client (send_msg r s.client) s))
    (on_record : (a : Text) (r : AuditResult) (s : Session) → P s → P (record_event a r s))
    (on_last : (s : Session) → P s → Q (attempts_close s)) where
  pub denied_keeps :
      (now : ℕ) (id : Text) (a : AuthPayload) (s : Session)
      → P (record {
        client = identify a.username s.client.authed (s.client.auth_attempts + 1) s.client;
        guard = fail s.guard s.client.ip now;
        audit = s.audit;
        disk = s.disk;
      })
      → Q (auth_denied now id a s)
  unfolding auth_denied send_error
  denied_keeps now id a s h = on_last _ (on_send _ _ (on_record _ _ _ h))

-- Nothing has changed that an unauthenticated client must not change.
abbrev Barred : Disk → Session → Type 0
Barred d s = (s.disk ≡ d) × (s.client.authed ≡ false)

Barred-send :
    (d : Disk) (r : Reply) (s : Session)
    → Barred d s
    → Barred d (with_client (send_msg r s.client) s)
Barred-send d r s (e, a) = (e, send_msg-authed r s.client ∙ a)

Barred-record :
    (d : Disk) (a : Text) (r : AuditResult) (s : Session)
    → Barred d s
    → Barred d (record_event a r s)
unfolding record_event
Barred-record d a r s h = h

Barred-last : (d : Disk) (s : Session) → Barred d s → Barred d (attempts_close s)
unfolding close
Barred-last d s h = go (leb max_auth_attempts s.client.auth_attempts)
  where
    go : (b : Bool) → Barred d (if b then with_client (close s.client) s else s)
    go true = h
    go false = h

outside :
    (d : Disk) (s t : Session) (id : Text) (authed : Bool)
    → authed ≡ false
    → Barred d s
    → Barred d (if authed then t else send_error id authentication_required s)
unfolding send_error
outside d s t id true e h = absurd cc
outside d s t id false e h = Barred-send d _ s h

module _ {Json : Type 0} (env : Env Json) (required : is_empty env.auth_token ≡ false) where
  Barred-auth :
      (o : Option AuthPayload) (now : ℕ) (id : Text) (d : Disk) (s : Session)
      → is_token env.auth_token o ≡ false
      → Barred d s
      → Barred d (
          decoded o id
            (λ auth.
              if refuses env.auth_token auth.token
              then auth_denied now id auth
              else auth_accepted id auth)
            s)
  unfolding send_error
  Barred-auth none now id d s wrong h = Barred-send d _ s h
  Barred-auth (some a) now id d s wrong h =
      rw (required, wrong)
        (denied_keeps (Barred d) (Barred d) (Barred-send d) (Barred-record d) (Barred-last d) now id
          a s h)

  Barred-kind :
      (k : Kind) (now : ℕ) (msg : Message Json) (d : Disk) (s : Session)
      → presents env k (env.as_auth msg.payload) ≡ false
      → Barred d s
      → Barred d (handle_kind env k now msg s)
  unfolding handle_kind handle_auth send_error
  Barred-kind auth_kind now msg d s wrong h = Barred-auth _ now msg.id d s wrong h
  Barred-kind keep_alive_kind now msg d s wrong h = h
  Barred-kind exec_command_kind now msg d s wrong h =
      outside d s (dispatch env exec_command_kind msg s) msg.id _ h.1 h
  Barred-kind list_dir_kind now msg d s wrong h =
      outside d s (dispatch env list_dir_kind msg s) msg.id _ h.1 h
  Barred-kind get_file_kind now msg d s wrong h =
      outside d s (dispatch env get_file_kind msg s) msg.id _ h.1 h
  Barred-kind send_file_kind now msg d s wrong h =
      outside d s (dispatch env send_file_kind msg s) msg.id _ h.1 h
  Barred-kind cancel_file_kind now msg d s wrong h =
      outside d s (dispatch env cancel_file_kind msg s) msg.id _ h.1 h
  Barred-kind screenshot_kind now msg d s wrong h =
      outside d s (dispatch env screenshot_kind msg s) msg.id _ h.1 h
  Barred-kind system_info_kind now msg d s wrong h =
      outside d s (dispatch env system_info_kind msg s) msg.id _ h.1 h
  Barred-kind other_kind now msg d s wrong h =
      outside d s (dispatch env other_kind msg s) msg.id _ h.1 h

  -- Where the agent has a token, a client that has not authenticated changes nothing on the machine,
  -- whatever it sends, and stays unauthenticated, unless the message is one of authentication with
  -- the token.
  pub handle_message-Barred :
      (now : ℕ) (msg : Message Json) (s : Session)
      → presents env msg.kind (env.as_auth msg.payload) ≡ false
      → s.client.authed ≡ false
      → ((handle_message env now msg s).disk ≡ s.disk)
        × ((handle_message env now msg s).client.authed ≡ false)
  unfolding handle_message
  handle_message-Barred now msg s wrong out =
      Barred-kind msg.kind now msg s.disk s wrong (refl, out)
