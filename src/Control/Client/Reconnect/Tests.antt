-- ===== src/Control/Client/Reconnect/Tests.antt =====
-- A reconnection at a concrete state.
use lan_commander.Base.{ℕ, zero, suc, ◌≡◌, refl, false, none, List, [], ◌∷◌, list_eq, nat_eq}
use lan_commander.Base.Dict
use lan_commander.Base.Text.{codes}
use lan_commander.Control.Client.Agent.{ConnectOptions}
use lan_commander.Control.Client.Manager.{Manager, new_manager}
use lan_commander.Control.Client.Pumps.{Decoder, Dial, unreachable, rejected, connected, failed}
use lan_commander.Control.Client.Actions.{Action, installs, reads, run}
use lan_commander.Control.Client.Reconnect.{Round, reconnect}
use lan_commander.Control.Client.Reconnect.Course.{Course}

abbrev decoder : Decoder (Unit {0})
decoder = record { as_agent_info = λ p. none; as_system_info = λ p. none }

abbrev options : ConnectOptions
options = record {
  auth_token = codes "t";
  tls = false;
  use_tls = false;
  ca_file = [];
  server_name = [];
}

-- An agent connects and loses its socket.
abbrev history : List (Action (Unit {0}))
history = installs (codes "a") (codes "h") 9474 options 5 ∷ reads 0 6 failed ∷ []

abbrev lost : Manager (Unit {0})
lost = run decoder history new_manager

-- Nobody answers, then the agent refuses, then it is there again.
abbrev answers : ℕ → Dial
answers zero = unreachable
answers (suc zero) = rejected
answers (suc (suc i)) = connected

-- Nothing else goes on.
abbrev rounds : ℕ → Round (Unit {0})
rounds i = record {
  others = λ m. m;
  interrupted = false;
  meanwhile = λ m. m;
  dial = answers i;
  now = i;
}

-- In the third round it is connected again.
connected_again : (reconnect rounds 0 0 lost).generations ≡ 2
unfolding run Dict.lookup list_eq nat_eq new_manager Dict.insert reconnect
connected_again = refl
