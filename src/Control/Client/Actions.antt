-- ===== src/Control/Client/Actions.antt =====
-- The manager of control-center/backend/client/client.go while its callers and goroutines run: an action
-- is what one of them does between two waits, and they come in any order.
pub mod Sound
pub mod Sockets
pub mod Traffic
pub mod Reads
pub mod Reachable
pub mod Lasting
pub mod Stopped
pub mod Requests
pub mod Replaced
mod Tests
use lan_commander.Base.{
  ℕ, zero, suc, ◌+◌, Bool, true, false, Option, none, some, List, [], ◌∷◌, ◌++◌, if◌then◌else◌,
  ◌==◌, list_eq, nat_eq,
}
use lan_commander.Base.Dict
use lan_commander.Base.Dict.{Dict}
use lan_commander.Base.Text.{Text}
use lan_commander.Control.Client.Agent.{AgentConnection, ConnectOptions}
use lan_commander.Control.Client.Manager.{Manager, Generation, install, disconnect, close_all}
use lan_commander.Control.Client.Pumps.{
  Decoder, Incoming, Dial, write_json, begin_request, end_request, checked, pump_reads, pumped,
  is_over, start_dial, end_dial, give_up,
}

pub data Action (Json : Type 0) : Type 0 where
  installs : (id host : Text) (port : ℕ) (options : ConnectOptions) (now : ℕ) → Action Json
  disconnects : (id : Text) → Action Json
  closes_all : Action Json
  begins_request : (agent id : Text) (writes : Bool) → Action Json
  ends_request : (id : Text) → Action Json
  beats : (g : ℕ) (writes : Bool) → Action Json
  checks : (g : ℕ) → Action Json
  reads : (g now : ℕ) (incoming : Incoming Json) → Action Json
  redials : (g : ℕ) → Action Json
  dial_ends : (g : ℕ) (dial : Dial) (now : ℕ) → Action Json
  interrupts : (g : ℕ) → Action Json
  gives_up : (g : ℕ) → Action Json

module _ {Json : Type 0} where
  -- The heartbeat of a generation, until its channel closes.
  abbrev pub beating : Option Generation → ℕ → Bool → Manager Json → Manager Json
  beating none g writes m = m
  beating (some x) g writes m = if x.done then m else (write_json g [] writes m).1

  -- The end of a reconnection.
  abbrev pub reconnected : ℕ → Manager Json → Manager Json
  reconnected g m = record m { reconnecting = Dict.erase g m.reconnecting }

  abbrev pub redialling : Option ℕ → ℕ → Manager Json → Manager Json
  redialling none g m = m
  redialling (some h) g m = start_dial g h m

  abbrev pub dial_ending : Option ℕ → ℕ → Dial → ℕ → Manager Json → Manager Json
  dial_ending none g dial now m = m
  dial_ending (some h) g dial now m = end_dial g h dial now m

  abbrev pub interrupting : Option ℕ → ℕ → Manager Json → Manager Json
  interrupting none g m = m
  interrupting (some h) g m = if is_over (m.connection h) m.shut_down then reconnected g m else m

  abbrev pub giving_up : Option ℕ → ℕ → Manager Json → Manager Json
  giving_up none g m = m
  giving_up (some h) g m = reconnected g (give_up g h m)

module _ {Json : Type 0} (decoder : Decoder Json) where
  unfoldable pub act : Action Json → Manager Json → Manager Json
  unfolding install disconnect close_all begin_request write_json pump_reads start_dial end_dial
      give_up
  act (installs id host port options now) m = (install id host port options now m).1
  act (disconnects id) m = (disconnect id m).1
  act closes_all m = close_all m
  act (begins_request agent id writes) m = (begin_request agent id writes m).1
  act (ends_request id) m = end_request id m
  act (beats g writes) m = beating (m.generation g) g writes m
  act (checks g) m = checked (Dict.lookup g m.pumps) g m
  act (reads g now incoming) m = pumped decoder (Dict.lookup g m.pumps) g now incoming m
  act (redials g) m = redialling (Dict.lookup g m.reconnecting) g m
  act (dial_ends g dial now) m = dial_ending (Dict.lookup g m.dialling) g dial now m
  act (interrupts g) m = interrupting (Dict.lookup g m.reconnecting) g m
  act (gives_up g) m = giving_up (Dict.lookup g m.reconnecting) g m

  unfoldable pub run : List (Action Json) → Manager Json → Manager Json
  unfolding act
  run [] m = m
  run (a ∷ rest) m = run rest (act a m)
