-- ===== src/Control/Client/Handshake.antt =====
-- `handshake` of control-center/backend/client/client.go. A connection is what it is going to deliver
-- before the deadline, `none` where a read fails or the message does not parse; after the last one a
-- read fails too.
pub mod Exchange
pub mod Token
mod Tests
use lan_commander.Base.{Bool, true, false, Option, none, some, List, [], ◌∷◌, ◌++◌, if◌then◌else◌}
use lan_commander.Base.Exec.{Exec, Result, ok, err, pure, raise, ◌>>=◌, ◌>>◌, refuse_if}
use lan_commander.Base.Text.{Text, is_empty}
use lan_commander.Control.Client.Protocol.{
  MessageType, Message, msg_agent_info, msg_auth_required, msg_auth_ok, msg_error,
  msg_system_update, other_type,
}

pub data HandshakeError : Type 0 where
  no_deadline no_greeting auth_required unexpected_greeting : HandshakeError
  cannot_send_credentials no_response unexpected_response : HandshakeError
  authentication_failed : Text → HandshakeError

-- `sent` are the tokens that were written to the connection.
pub record Conn (Json : Type 0) : Type 0 where
  pub takes_deadline : Bool
  pub incoming : List (Option (Message Json))
  pub takes_writes : Bool
  pub sent : List Text

abbrev pub Talk : Type 0 → Type 0 → Type 0
Talk Json A = Exec HandshakeError (Conn Json) A

-- What an answer to the credentials means; `none` is to read on.
abbrev pub verdict : MessageType → Text → Option (Result HandshakeError (Unit {0}))
verdict msg_auth_ok detail = some (ok tt)
verdict msg_error detail = some (err (authentication_failed detail))
verdict msg_agent_info detail = none
verdict msg_auth_required detail = some (err unexpected_response)
verdict msg_system_update detail = some (err unexpected_response)
verdict other_type detail = some (err unexpected_response)

module _ {Json : Type 0} where
  abbrev arrived : Option (Message Json) → HandshakeError → Result HandshakeError (Message Json)
  arrived none e = err e
  arrived (some m) e = ok m

  -- `conn.ReadJSON`
  abbrev pub next :
      List (Option (Message Json))
      → HandshakeError
      → Conn Json
      → Result HandshakeError (Message Json) × Conn Json
  next [] e c = (err e, c)
  next (m ∷ ms) e c = (arrived m e, record c { incoming = ms })

  unfoldable pub read_json : HandshakeError → Talk Json (Message Json)
  read_json e c = next c.incoming e c

  abbrev pub set_deadline : Talk Json (Unit {0})
  set_deadline c = (if c.takes_deadline then ok tt else err no_deadline, c)

  -- `conn.WriteJSON` of the credentials.
  unfoldable pub send_credentials : Text → Talk Json (Unit {0})
  send_credentials token c =
      if c.takes_writes
      then (ok tt, record c { sent = c.sent ++ (token ∷ []) })
      else (err cannot_send_credentials, c)

  -- The `for` loop. Each round takes one message.
  abbrev pub decided :
      Option (Result HandshakeError (Unit {0}))
      → List (Option (Message Json))
      → Result HandshakeError (Unit {0}) × List (Option (Message Json))
      → Result HandshakeError (Unit {0}) × List (Option (Message Json))
  decided none ms rest = rest
  decided (some r) ms rest = (r, ms)

  unfoldable pub await_verdict :
      List (Option (Message Json)) → Result HandshakeError (Unit {0}) × List (Option (Message Json))
  await_verdict [] = (err no_response, [])
  await_verdict (none ∷ ms) = (err no_response, ms)
  await_verdict (some m ∷ ms) = decided (verdict m.kind m.error) ms (await_verdict ms)

  unfoldable pub read_verdict : Talk Json (Unit {0})
  unfolding await_verdict
  read_verdict c = let (r, ms) = await_verdict c.incoming in (r, record c { incoming = ms })

  unfoldable pub authenticate : Text → Talk Json (Unit {0})
  unfolding send_credentials read_verdict
  authenticate token = send_credentials token >> read_verdict

  -- The `switch` on the greeting.
  abbrev pub answer : MessageType → Text → Talk Json (Unit {0})
  answer msg_agent_info token = pure tt
  answer msg_auth_required token =
      if is_empty token then raise auth_required else authenticate token
  answer msg_auth_ok token = raise unexpected_greeting
  answer msg_error token = raise unexpected_greeting
  answer msg_system_update token = raise unexpected_greeting
  answer other_type token = raise unexpected_greeting

  unfoldable pub handshake : Text → Talk Json (Unit {0})
  unfolding read_json authenticate
  handshake token = do set_deadline; greeting ← read_json no_greeting; answer greeting.kind token
