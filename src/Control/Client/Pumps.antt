-- ===== src/Control/Client/Pumps.antt =====
-- The traffic of control-center/backend/client/client.go: `SendMessage`, `SendRequest`, the read pump,
-- the heartbeat and `reconnect`, and the manager as these run in any order.
use lan_commander.Base.{
  ℕ, Bool, false, ◌&&◌, ◌||◌, Option, none, some, [], ◌∷◌, ◌++◌, if◌then◌else◌, list_eq, nat_eq,
}
use lan_commander.Base.Dict
use lan_commander.Base.Dict.{Dict}
use lan_commander.Base.Exec.{Result, ok, err}
use lan_commander.Base.Text.{Text, is_empty}
use lan_commander.Control.Client.Protocol.{
  MessageType, Message, AgentInfoPayload, SystemInfoPayload, msg_agent_info, msg_auth_required,
  msg_auth_ok, msg_error, msg_system_update, other_type,
}
use lan_commander.Control.Client.Agent.{
  AgentConnection, current_generation, install_generation, mark_disconnected, update_last_seen,
  update_agent_info, update_system_info, should_reconnect,
}
use lan_commander.Control.Client.Manager.{
  Manager, Generation, ClientError, not_found, not_connected, write_failed, timed_out,
  shutting_down, agent_error, put_connection, with_connection, close_conn, finish, start_pump,
  allows,
}

-- What the code takes from elsewhere: a payload that does not decode is `none`.
pub record Decoder (Json : Type 0) : Type 0 where
  pub as_agent_info : Json → Option AgentInfoPayload
  pub as_system_info : Json → Option SystemInfoPayload

-- What `SendRequest` returns on: the reply in the channel, the timer, or the end of the manager. A reply
-- that never comes is the timer's.
pub data Wait : Type 0 where
  replied expired ended : Wait

-- What a read gives: an error, bytes that do not parse, or a message.
pub data Incoming (Json : Type 0) : Type 0 where
  failed garbled : Incoming Json
  message : Message Json → Incoming Json

-- What the dial and the handshake of a round of `reconnect` come to.
pub data Dial : Type 0 where
  unreachable rejected connected : Dial

abbrev pub generation_of : Option AgentConnection → Option ℕ
generation_of none = none
generation_of (some ac) = current_generation ac

-- The cancellation that the pump looks for before each read.
abbrev pub is_over : Option AgentConnection → Bool → Bool
is_over none shut_down = shut_down
is_over (some ac) shut_down = ac.cancelled || shut_down

abbrev pub wants_reconnection : Option AgentConnection → Bool → ℕ → Bool
wants_reconnection none shut_down g = false
wants_reconnection (some ac) shut_down g = should_reconnect shut_down g ac

abbrev pub agent_id : Option AgentConnection → Text
agent_id none = []
agent_id (some ac) = ac.info.id

abbrev pub options_of : Option AgentConnection → Bool
options_of none = false
options_of (some ac) = allows ac.options

-- A closed connection takes nothing.
abbrev pub is_writable : Option Generation → Bool
is_writable none = false
is_writable (some x) = x.is_open

module _ {Json : Type 0} where
  -- `writeJSON`
  unfoldable pub write_json :
      ℕ → Text → Bool → Manager Json → Result ClientError (Unit {0}) × Manager Json
  write_json g id writes m =
      if writes && is_writable (m.generation g)
      then (ok tt, record m { written = m.written ++ ((g, id) ∷ []) })
      else (err write_failed, m)

  abbrev pub written_to :
      Option ℕ → Text → Bool → Manager Json → Result ClientError (Unit {0}) × Manager Json
  written_to none id writes m = (err not_connected, m)
  written_to (some g) id writes m = write_json g id writes m

  abbrev pub sent_to :
      Option ℕ → Text → Bool → Manager Json → Result ClientError (Unit {0}) × Manager Json
  sent_to none id writes m = (err not_found, m)
  sent_to (some h) id writes m = written_to (generation_of (m.connection h)) id writes m

  -- The message goes by its id here.
  unfoldable pub send_message :
      Text → Text → Bool → Manager Json → Result ClientError (Unit {0}) × Manager Json
  unfolding write_json current_generation
  send_message agent id writes m = sent_to (Dict.lookup agent m.agents) id writes m

  -- The three parts of `SendRequest`: what precedes the wait, its result, and the deferred function.
  unfoldable pub begin_request :
      Text → Text → Bool → Manager Json → Result ClientError (Unit {0}) × Manager Json
  unfolding send_message
  begin_request agent id writes m =
      send_message agent id writes (record m { pending = Dict.insert id tt m.pending })

  abbrev pub reply : Message Json → Result ClientError (Message Json)
  reply msg = if is_empty msg.error then ok msg else err (agent_error msg.error)

  abbrev pub from_channel : Option (Message Json) → Result ClientError (Message Json)
  from_channel none = err timed_out
  from_channel (some msg) = reply msg

  abbrev pub awaited : Wait → Option (Message Json) → Result ClientError (Message Json)
  awaited replied o = from_channel o
  awaited expired o = err timed_out
  awaited ended o = err shutting_down

  abbrev pub end_request : Text → Manager Json → Manager Json
  end_request id m = record m { pending = Dict.erase id m.pending }

  abbrev pub waiting :
      Result ClientError (Unit {0})
      → Text
      → Wait
      → (Manager Json → Manager Json)
      → Manager Json
      → Result ClientError (Message Json) × Manager Json
  waiting (err e) id wait others m = (err e, end_request id m)
  waiting (ok u) id wait others m =
      let m' = others m in (awaited wait (Dict.lookup id m'.replies), end_request id m')

  -- The id is a new one. The `others` go on during the wait.
  unfoldable pub send_request :
      Text
      → Text
      → Bool
      → Wait
      → (Manager Json → Manager Json)
      → Manager Json
      → Result ClientError (Message Json) × Manager Json
  unfolding begin_request
  send_request agent id writes wait others m =
      let (r, m') = begin_request agent id writes m in waiting r id wait others m'

  abbrev pub forget_pump : ℕ → Manager Json → Manager Json
  forget_pump g m = record m { pumps = Dict.erase g m.pumps }

  -- The deferred function of the read pump.
  unfoldable pub pump_ends : ℕ → ℕ → Manager Json → Manager Json
  unfolding with_connection mark_disconnected close_conn finish
  pump_ends g h m =
      finish g (close_conn g (forget_pump g (with_connection h (mark_disconnected g) m)))

  abbrev pub checked : Option ℕ → ℕ → Manager Json → Manager Json
  checked none g m = m
  checked (some h) g m = if is_over (m.connection h) m.shut_down then pump_ends g h m else m

  unfoldable pub pump_fails : ℕ → ℕ → Manager Json → Manager Json
  unfolding pump_ends should_reconnect
  pump_fails g h m =
      if wants_reconnection (m.connection h) m.shut_down g
      then pump_ends g h (record m { reconnecting = Dict.insert g h m.reconnecting })
      else pump_ends g h m

  abbrev pub forward : ℕ → Message Json → Manager Json → Manager Json
  forward h msg m = record m { forwarded = m.forwarded ++ ((agent_id (m.connection h), msg) ∷ []) }

  -- The send that does not block: a channel that is full keeps what it has.
  abbrev pub offer : Option (Message Json) → Message Json → Manager Json → Manager Json
  offer none msg m = record m { replies = Dict.insert msg.id msg m.replies }
  offer (some first) msg m = m

  abbrev pub matched : Option (Unit {0}) → ℕ → Message Json → Manager Json → Manager Json
  matched none h msg m = forward h msg m
  matched (some u) h msg m = offer (Dict.lookup msg.id m.replies) msg m

  unfoldable pub deliver : ℕ → Message Json → Manager Json → Manager Json
  deliver h msg m =
      if is_empty msg.id then forward h msg m else matched (Dict.lookup msg.id m.pending) h msg m

module _ {Json : Type 0} (decoder : Decoder Json) where
  -- `handleAgentInfo` and `handleSystemUpdate`
  abbrev pub described : Option AgentInfoPayload → ℕ → ℕ → Manager Json → Manager Json
  described none g h m = m
  described (some p) g h m = with_connection h (update_agent_info g p) m

  abbrev pub measured : Option SystemInfoPayload → ℕ → ℕ → Manager Json → Manager Json
  measured none g h m = m
  measured (some p) g h m = with_connection h (update_system_info g p) m

  abbrev pub handled : MessageType → Json → ℕ → ℕ → Manager Json → Manager Json
  handled msg_agent_info p g h m = described (decoder.as_agent_info p) g h m
  handled msg_system_update p g h m = measured (decoder.as_system_info p) g h m
  handled msg_auth_required p g h m = m
  handled msg_auth_ok p g h m = m
  handled msg_error p g h m = m
  handled other_type p g h m = m

  -- One read of the pump, and what follows it.
  unfoldable pub pump_reads : ℕ → ℕ → ℕ → Incoming Json → Manager Json → Manager Json
  unfolding with_connection pump_fails deliver update_last_seen update_agent_info update_system_info
  pump_reads g h now failed m = pump_fails g h m
  pump_reads g h now garbled m = with_connection h (update_last_seen g now) m
  pump_reads g h now (message msg) m =
      deliver h msg
        (handled msg.kind msg.payload g h (with_connection h (update_last_seen g now) m))

  abbrev pub pumped : Option ℕ → ℕ → ℕ → Incoming Json → Manager Json → Manager Json
  pumped none g now i m = m
  pumped (some h) g now i m = pump_reads g h now i m

module _ {Json : Type 0} where
  -- A connection was made: it takes the place of the failed one, which is closed, unless the agent was
  -- given up meanwhile.
  abbrev pub replaced : Option (ℕ × AgentConnection) → ℕ → Manager Json → Manager Json
  replaced none h m = m
  replaced (some (old, ac)) h m =
      close_conn old (start_pump m.generations h (put_connection h ac m))

  abbrev pub installed : Option AgentConnection → ℕ → ℕ → Manager Json → Manager Json
  installed none h now m = m
  installed (some ac) h now m = replaced (install_generation m.shut_down m.generations now ac) h m

  -- The first half of a round, after its delay: up to the dial. Without one the reconnection is over.
  abbrev pub may_dial : ℕ → ℕ → Manager Json → Bool
  may_dial g h m = wants_reconnection (m.connection h) m.shut_down g && options_of (m.connection h)

  unfoldable pub start_dial : ℕ → ℕ → Manager Json → Manager Json
  unfolding should_reconnect
  start_dial g h m =
      let leaves = record m { reconnecting = Dict.erase g m.reconnecting } in
      if may_dial g h m then record leaves { dialling = Dict.insert g h m.dialling } else leaves

  -- The second half, when the dial and the handshake return: others have had their turn meanwhile.
  abbrev pub redialled : Dial → ℕ → ℕ → ℕ → Manager Json → Manager Json
  redialled unreachable g h now m = record m { reconnecting = Dict.insert g h m.reconnecting }
  redialled rejected g h now m = record m { reconnecting = Dict.insert g h m.reconnecting }
  redialled connected g h now m = installed (m.connection h) h now m

  unfoldable pub end_dial : ℕ → ℕ → Dial → ℕ → Manager Json → Manager Json
  unfolding install_generation close_conn
  end_dial g h dial now m = redialled dial g h now (record m { dialling = Dict.erase g m.dialling })

  -- After the last round.
  unfoldable pub give_up : ℕ → ℕ → Manager Json → Manager Json
  unfolding with_connection mark_disconnected
  give_up g h m = with_connection h (mark_disconnected g) m
