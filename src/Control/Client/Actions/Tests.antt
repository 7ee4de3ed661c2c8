-- ===== src/Control/Client/Actions/Tests.antt =====
-- The manager in concrete runs.
use lan_commander.Base.{
  ℕ, ◌≡◌, refl, ap, true, false, Option, none, some, List, [], ◌∷◌, arith, list_eq, nat_eq,
}
use lan_commander.Base.Dict
use lan_commander.Base.Exec.{ok}
use lan_commander.Base.Text.{codes, is_empty}
use lan_commander.Control.Client.Protocol.{Message, other_type}
use lan_commander.Control.Client.Agent.{AgentConnection, ConnectOptions}
use lan_commander.Control.Client.Manager.{new_manager, disconnect}
use lan_commander.Control.Client.Pumps.{
  Decoder, failed, message, replied, connected, begin_request, pump_reads, send_request,
}
use lan_commander.Control.Client.Actions.{Action, installs, reads, redials, dial_ends, run}
use lan_commander.Control.Client.Actions.Sound.{IsSound}
use lan_commander.Control.Client.Actions.Reachable.{run-IsSound}
use lan_commander.Control.Client.Actions.Lasting.{IsStopped}
use lan_commander.Control.Client.Actions.Stopped.{disconnect_for_good}
use lan_commander.Control.Client.Actions.Requests.{SentTo, send_request_ok}
use lan_commander.Control.Client.Actions.Replaced.{old_socket_harmless}

abbrev decoder : Decoder (Unit {0})
decoder = record { as_agent_info = λ p. none; as_system_info = λ p. none }

abbrev options : ConnectOptions
options = record {
  auth_token = codes "t";
  tls = false;
  use_tls = false;
  ca_file = [];
  server_name = [];
}

-- An agent connects, loses its socket, and connects again.
abbrev history : List (Action (Unit {0}))
history =
    installs (codes "a") (codes "h") 9474 options 5
    ∷ reads 0 6 failed
    ∷ redials 0
    ∷ dial_ends 0 connected 7
    ∷ []

abbrev socket : Option AgentConnection → ℕ
socket none = 0
socket (some ac) = ac.generation

abbrev answer : Message (Unit {0})
answer = record { id = codes "q"; kind = other_type; payload = tt; error = [] }

run-IsSound_example : IsSound (run decoder history new_manager)
run-IsSound_example = run-IsSound decoder history

listed : Dict.lookup (codes "a") (run decoder history new_manager).agents ≡ some 0
unfolding run Dict.lookup list_eq nat_eq new_manager Dict.insert
listed = refl

-- It has lost its socket, and the dial is under way.
abbrev dialling : List (Action (Unit {0}))
dialling = installs (codes "a") (codes "h") 9474 options 5 ∷ reads 0 6 failed ∷ redials 0 ∷ []

still_listed : Dict.lookup (codes "a") (run decoder dialling new_manager).agents ≡ some 0
unfolding run Dict.lookup list_eq nat_eq new_manager Dict.insert
still_listed = refl

under_way :
    Dict.lookup 0 (disconnect (codes "a") (run decoder dialling new_manager)).1.dialling ≡ some 0
unfolding run Dict.lookup list_eq nat_eq new_manager Dict.insert disconnect
under_way = refl

disconnect_for_good_example :
    ((disconnect (codes "a") (run decoder dialling new_manager)).0 ≡ ok tt)
    × IsStopped (
        (run decoder
            (dial_ends 0 connected 9 ∷ [])
            (disconnect (codes "a") (run decoder dialling new_manager)).1).connection
          0)
disconnect_for_good_example =
    disconnect_for_good decoder (codes "a") 0 (dial_ends 0 connected 9 ∷ [])
      (run decoder dialling new_manager) (run-IsSound decoder dialling) still_listed

answered :
    (send_request
      (codes "a")
      (codes "q")
      true
      replied
      (run decoder (reads 1 8 (message answer) ∷ []))
      (run decoder history new_manager)).0
    ≡ ok answer
unfolding run Dict.lookup list_eq nat_eq new_manager send_request Dict.insert Dict.erase
answered = refl

send_request_ok_example :
    SentTo
      (codes "a")
      (codes "q")
      (run decoder history new_manager)
      (begin_request (codes "a") (codes "q") true (run decoder history new_manager)).1
    × (answer.id ≡ codes "q")
    × (is_empty answer.error ≡ true)
send_request_ok_example =
    send_request_ok decoder (codes "a") (codes "q") true replied (reads 1 8 (message answer) ∷ [])
      (run decoder history new_manager) answer (run-IsSound decoder history) answered

now_second : socket ((run decoder history new_manager).connection 0) ≡ 1
unfolding run Dict.lookup list_eq nat_eq new_manager Dict.insert
now_second = refl

old_socket_harmless_example :
    (pump_reads decoder 0 0 9 failed (run decoder history new_manager)).connection 0
    ≡ (run decoder history new_manager).connection 0
old_socket_harmless_example =
    old_socket_harmless 0 0 decoder 9 failed (run decoder history new_manager)
      (λ ac e h. omega (arith, now_second, ap socket e)) 0
