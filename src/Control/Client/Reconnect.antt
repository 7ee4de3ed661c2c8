-- ===== src/Control/Client/Reconnect.antt =====
-- `reconnect` of control-center/backend/client/client.go as a whole, and what it is to the manager.
pub mod Course
pub mod Refines
mod Tests
use lan_commander.Base.{
  ℕ, zero, suc, Bool, true, false, ◌&&◌, Option, none, some, List, [], ◌∷◌, if◌then◌else◌,
}
use lan_commander.Control.Client.Agent.{AgentConnection}
use lan_commander.Control.Client.Manager.{Manager}
use lan_commander.Control.Client.Pumps.{
  Dial, unreachable, rejected, connected, wants_reconnection, is_over, may_dial, start_dial,
  end_dial, give_up,
}
use lan_commander.Control.Client.Actions.{reconnected}

abbrev pub max_reconnect_retries : ℕ
max_reconnect_retries = 5

-- A round: what the others do during the delay, whether the `select` takes a cancellation, which there
-- must be for it, what the others do during the dial and the handshake, what these come to, and the
-- time.
pub record Round (Json : Type 0) : Type 0 where
  pub others : Manager Json → Manager Json
  pub interrupted : Bool
  pub meanwhile : Manager Json → Manager Json
  pub dial : Dial
  pub now : ℕ

module _ {Json : Type 0} where
  -- A dial that failed goes on to the next round.
  abbrev pub onwards : Dial → (Manager Json → Manager Json) → Manager Json → Manager Json
  onwards unreachable rest m = rest m
  onwards rejected rest m = rest m
  onwards connected rest m = m

  -- The `for` loop, on the rounds left.
  unfoldable pub reconnect_loop : ℕ → (ℕ → Round Json) → ℕ → ℕ → Manager Json → Manager Json
  unfolding start_dial end_dial give_up
  reconnect_loop zero rounds g h m = reconnected g (give_up g h m)
  reconnect_loop (suc n) rounds g h m =
      let r = rounds 0 in
      let m' = r.others m in
      let started = start_dial g h m' in
      let rest = reconnect_loop n (λ i. rounds (suc i)) g h in
      if r.interrupted && is_over (m'.connection h) m'.shut_down
      then reconnected g m'
      else if may_dial g h m'
      then onwards r.dial rest (end_dial g h r.dial r.now (r.meanwhile started))
      else started

  unfoldable pub reconnect : (ℕ → Round Json) → ℕ → ℕ → Manager Json → Manager Json
  unfolding reconnect_loop
  reconnect rounds g h m =
      if wants_reconnection (m.connection h) m.shut_down g
      then reconnect_loop max_reconnect_retries rounds g h m
      else reconnected g m
