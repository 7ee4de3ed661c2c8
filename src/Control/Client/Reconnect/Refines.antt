-- ===== src/Control/Client/Reconnect/Refines.antt =====
-- The reconnection of an agent as actions of the manager.
use lan_commander.Base.{ℕ, ◌&&◌, if◌then◌else◌, nat_eq, list_eq}
use lan_commander.Base.Dict
use lan_commander.Control.Client.Manager.{Manager}
use lan_commander.Control.Client.Pumps.{Decoder, may_dial, is_over, start_dial, end_dial}
use lan_commander.Control.Client.Actions.{reconnected}
use lan_commander.Control.Client.Reconnect.{Round, onwards}
use lan_commander.Control.Client.Reconnect.Course.{Course}

module _ {Json : Type 0} (decoder : Decoder Json) (g h : ℕ) where
  -- A round, when the others had their turn.
  abbrev turn : Round Json → (Manager Json → Manager Json) → Manager Json → Manager Json
  turn r rest m =
      if r.interrupted && is_over (m.connection h) m.shut_down
      then reconnected g m
      else if may_dial g h m
      then onwards r.dial rest (end_dial g h r.dial r.now (r.meanwhile (start_dial g h m)))
      else start_dial g h m
