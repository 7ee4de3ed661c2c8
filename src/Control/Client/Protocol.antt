-- ===== src/Control/Client/Protocol.antt =====
-- Messages as the control center reads them: control-center/backend/protocol/types.go.
use lan_commander.Base.Text.{Text}

-- The types of message that the connection itself looks at.
pub data MessageType : Type 0 where
  msg_agent_info msg_auth_required msg_auth_ok msg_error msg_system_update other_type : MessageType

pub record Message (Json : Type 0) : Type 0 where
  pub id : Text
  pub kind : MessageType
  pub payload : Json
  pub error : Text

pub record AgentInfoPayload : Type 0 where
  pub hostname : Text
  pub os : Text
  pub arch : Text

-- The measures are `measures`.
pub record SystemInfoPayload : Type 0 where
  pub hostname : Text
  pub os : Text
  pub arch : Text
  pub measures : Text
