-- ===== src/Control/Client/Actions/Requests.antt =====
-- What a request goes out on, and what it returns.
use lan_commander.Base.{
  ℕ, ◌≡◌, refl, Bool, true, false, not, ◌||◌, Option, none, some, List, [], ◌∷◌, ◌++◌,
  if◌then◌else◌, list_eq, nat_eq, arith,
}
use lan_commander.Base.Dict
use lan_commander.Base.Exec.{Result, ok, err}
use lan_commander.Base.Text.{Text, is_empty}
use lan_commander.Control.Client.Protocol.{Message}
use lan_commander.Control.Client.Agent.{AgentConnection, current_generation}
use lan_commander.Control.Client.Manager.{
  Manager, Generation, ClientError, changed, with_connection, closing, close_conn, finishing,
  finish,
}
use lan_commander.Control.Client.Pumps.{
  Decoder, Wait, replied, expired, ended, write_json, written_to, sent_to, send_message,
  generation_of, begin_request, awaited, waiting, send_request,
}
use lan_commander.Control.Client.Actions.{Action, begins_request, act, run}
use lan_commander.Control.Client.Actions.Sound.{IsSound, Registered}
use lan_commander.Control.Client.Actions.Traffic.{begin_request-IsSound}
use lan_commander.Control.Client.Actions.Reachable.{run-keeps-IsSound}

module _ {Json : Type 0} where
  -- The agent is listed and connected, and the message went out on its socket and nowhere else.
  abbrev pub SentTo : Text → Text → Manager Json → Manager Json → Type 0
  SentTo agent id m m' =
      (h : ℕ) × (ac : AgentConnection) × (Dict.lookup agent m.agents ≡ some h)
      × (m.connection h ≡ some ac)
      × (ac.info.id ≡ agent)
      × (ac.info.connected ≡ true)
      × (m'.written ≡ m.written ++ ((ac.generation, id) ∷ []))

  write_json_ok :
      (g : ℕ) (id : Text) (writes : Bool) (m : Manager Json) {u : Unit {0}}
      → (write_json g id writes m).0 ≡ ok u
      → (write_json g id writes m).1.written ≡ m.written ++ ((g, id) ∷ [])
  unfolding write_json
  write_json_ok g id writes m e = ground arith

  send_message_ok :
      (agent id : Text) (writes : Bool) (m : Manager Json) {u : Unit {0}}
      → IsSound m
      → (send_message agent id writes m).0 ≡ ok u
      → SentTo agent id m (send_message agent id writes m).1
  unfolding send_message current_generation
  send_message_ok agent id writes m {u} v e = listed (Dict.lookup agent m.agents) refl e
    where
      on :
          (h : ℕ) (ac : AgentConnection)
          → Dict.lookup agent m.agents ≡ some h
          → m.connection h ≡ some ac
          → Registered agent (some ac)
          → (b : Bool) → (ac.closed || not ac.info.connected) ≡ b
          → (written_to (if b then none else some ac.generation) id writes m).0 ≡ ok u
          → SentTo agent id m (written_to (if b then none else some ac.generation) id writes m).1
      on h ac l a r true c e = absurd cc
      on h ac l a r false c e =
          (h, ac, l, a, r.0, ground arith, write_json_ok ac.generation id writes m e)

      at :
          (h : ℕ) (o : Option AgentConnection)
          → Dict.lookup agent m.agents ≡ some h
          → m.connection h ≡ o
          → Registered agent o
          → (written_to (generation_of o) id writes m).0 ≡ ok u
          → SentTo agent id m (written_to (generation_of o) id writes m).1
      at h none l a r e = absurd r
      at h (some ac) l a r e = on h ac l a r (ac.closed || not ac.info.connected) refl e

      listed :
          (o : Option ℕ)
          → Dict.lookup agent m.agents ≡ o
          → (sent_to o id writes m).0 ≡ ok u
          → SentTo agent id m (sent_to o id writes m).1
      listed none l e = absurd cc
      listed (some h) l e = at h (m.connection h) l refl (v.registered agent h l) e

  awaited_ok :
      (wait : Wait) (o : Option (Message Json)) (msg : Message Json)
      → awaited wait o ≡ ok msg
      → (o ≡ some msg) × (is_empty msg.error ≡ true)
  awaited_ok replied none msg e = absurd cc
  awaited_ok replied (some x) msg e = go (is_empty x.error) refl e
    where
      go :
          (b : Bool)
          → is_empty x.error ≡ b
          → (if b then ok x else err (lan_commander.Control.Client.Manager.agent_error x.error))
            ≡ ok msg
          → (some x ≡ some msg) × (is_empty msg.error ≡ true)
      go true f e = (cc, cc)
      go false f e = absurd cc
  awaited_ok expired o msg e = absurd cc
  awaited_ok ended o msg e = absurd cc

  -- If a request returns an answer, then it went out on the socket of the agent that it was for, which
  -- was connected, and the answer has the request's id and no error, whatever went on meanwhile.
  pub send_request_ok :
      (decoder : Decoder Json) (agent id : Text) (writes : Bool) (wait : Wait)
      (actions : List (Action Json)) (m : Manager Json) (msg : Message Json)
      → IsSound m
      → (send_request agent id writes wait (run decoder actions) m).0 ≡ ok msg
      → SentTo agent id m (begin_request agent id writes m).1
        × (msg.id ≡ id)
        × (is_empty msg.error ≡ true)
  unfolding send_request begin_request
  send_request_ok decoder agent id writes wait actions m msg v e =
      go (begin_request agent id writes m).0 refl e
    where
      m0 : Manager Json
      m0 = record m { pending = Dict.insert id tt m.pending }

      v0 : IsSound m0
      v0 =
          lan_commander.Control.Client.Actions.Sound.beside-IsSound m m.reconnecting m.dialling
            (Dict.insert id tt m.pending) m.forwarded m.written m.shut_down v

      m1 : Manager Json
      m1 = (begin_request agent id writes m).1

      v2 : IsSound (run decoder actions m1)
      v2 = run-keeps-IsSound decoder actions m1 (begin_request-IsSound agent id writes m v)

      go :
          (r : Result ClientError (Unit {0}))
          → (begin_request agent id writes m).0 ≡ r
          → (waiting r id wait (run decoder actions) m1).0 ≡ ok msg
          → SentTo agent id m m1 × (msg.id ≡ id) × (is_empty msg.error ≡ true)
      go (err x) f e = absurd cc
      go (ok u) f e =
          let (found, fine) =
            awaited_ok wait (Dict.lookup id (run decoder actions m1).replies) msg e in
          (send_message_ok agent id writes m0 v0 f, v2.answers id msg found, fine)
