-- ===== src/Control/Client/Handshake/Tests.antt =====
-- A handshake at a concrete exchange.
use lan_commander.Base.{◌≡◌, refl, true, Option, some, List, [], ◌∷◌, ◌↔◌, ◌⊎◌}
use lan_commander.Base.Exec.{ok}
use lan_commander.Base.Text.{Text, codes}
use lan_commander.Control.Client.Protocol.{
  MessageType, Message, msg_agent_info, msg_auth_required, msg_auth_ok,
}
use lan_commander.Control.Client.Handshake.{Conn, handshake}
use lan_commander.Control.Client.Handshake.Exchange.{Exchange, handshake_iff}
use lan_commander.Control.Client.Handshake.Token.{Asked, token_on_demand}

abbrev of_kind : MessageType → Option (Message (Unit {0}))
of_kind k = some (record { id = []; kind = k; payload = tt; error = [] })

abbrev conn : Conn (Unit {0})
conn = record {
  takes_deadline = true;
  incoming = of_kind msg_auth_required ∷ of_kind msg_agent_info ∷ of_kind msg_auth_ok ∷ [];
  takes_writes = true;
  sent = [];
}

handshake_iff_example :
    ((handshake (codes "t") conn).0 ≡ ok tt)
    ↔ ((t : List Text) × Exchange (codes "t") conn.incoming t)
handshake_iff_example = handshake_iff (codes "t") conn refl refl

token_on_demand_example :
    ((handshake (codes "t") conn).1.sent ≡ [])
    ⊎ (((handshake (codes "t") conn).1.sent ≡ codes "t" ∷ []) × Asked (codes "t") conn.incoming)
token_on_demand_example = token_on_demand (codes "t") conn
