-- ===== src/Control/Client/Actions/Reads.antt =====
-- What a read pump reads keeps what holds of the manager.
use lan_commander.Base.{ℕ, ◌≡◌, refl, Option, none, some, list_eq, nat_eq}
use lan_commander.Base.Dict
use lan_commander.Base.Dict.{Dict}
use lan_commander.Control.Client.Protocol.{
  MessageType, AgentInfoPayload, SystemInfoPayload, msg_agent_info, msg_auth_required, msg_auth_ok,
  msg_error, msg_system_update, other_type,
}
use lan_commander.Control.Client.Agent.{update_last_seen, update_agent_info, update_system_info}
use lan_commander.Control.Client.Manager.{Manager}
use lan_commander.Control.Client.Pumps.{
  Decoder, Incoming, failed, garbled, message, described, measured, handled, pump_reads, pumped,
}
use lan_commander.Control.Client.Actions.Sound.{IsSound}
use lan_commander.Control.Client.Actions.Traffic.{
  with_connection-IsSound, update_last_seen-Mild, update_agent_info-Mild, update_system_info-Mild,
  pump_fails-IsSound, deliver-IsSound,
}

module _ {Json : Type 0} (decoder : Decoder Json) where
  handled-IsSound :
      (k : MessageType) (p : Json) (g h : ℕ) (m : Manager Json)
      → IsSound m
      → IsSound (handled decoder k p g h m)
  handled-IsSound msg_agent_info p g h m v = go (decoder.as_agent_info p)
    where
      go : (o : Option AgentInfoPayload) → IsSound (described decoder o g h m)
      go none = v
      go (some i) =
          with_connection-IsSound h (update_agent_info g i) m (update_agent_info-Mild g i) v
  handled-IsSound msg_system_update p g h m v = go (decoder.as_system_info p)
    where
      go : (o : Option SystemInfoPayload) → IsSound (measured decoder o g h m)
      go none = v
      go (some i) =
          with_connection-IsSound h (update_system_info g i) m (update_system_info-Mild g i) v
  handled-IsSound msg_auth_required p g h m v = v
  handled-IsSound msg_auth_ok p g h m v = v
  handled-IsSound msg_error p g h m v = v
  handled-IsSound other_type p g h m v = v

  pump_reads-IsSound :
      (g h now : ℕ) (i : Incoming Json) (m : Manager Json)
      → IsSound m
      → Dict.lookup g m.pumps ≡ some h
      → IsSound (pump_reads decoder g h now i m)
  unfolding pump_reads
  pump_reads-IsSound g h now failed m v runs = pump_fails-IsSound g h m v runs
  pump_reads-IsSound g h now garbled m v runs =
      with_connection-IsSound h (update_last_seen g now) m (update_last_seen-Mild g now) v
  pump_reads-IsSound g h now (message msg) m v runs = deliver-IsSound h msg _ (
      handled-IsSound msg.kind msg.payload g h _
        (with_connection-IsSound h (update_last_seen g now) m (update_last_seen-Mild g now) v))

  pub pumped-IsSound :
      (g now : ℕ) (i : Incoming Json) (m : Manager Json)
      → IsSound m
      → IsSound (pumped decoder (Dict.lookup g m.pumps) g now i m)
  pumped-IsSound g now i m v = go (Dict.lookup g m.pumps) refl
    where
      go : (o : Option ℕ) → Dict.lookup g m.pumps ≡ o → IsSound (pumped decoder o g now i m)
      go none e = v
      go (some h) e = pump_reads-IsSound g h now i m v e
