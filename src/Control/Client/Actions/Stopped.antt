-- ===== src/Control/Client/Actions/Stopped.antt =====
-- A connection that was stopped stays so.
use lan_commander.Base.{
  ℕ, ◌≡◌, refl, sym, ap, subst, true, Option, none, some, List, [], ◌∷◌, list_eq, nat_eq, arith,
}
use lan_commander.Base.Dict
use lan_commander.Base.Dict.{Dict}
use lan_commander.Base.Exec.{ok}
use lan_commander.Base.Text.{Text}
use lan_commander.Control.Client.Protocol.{
  MessageType, AgentInfoPayload, SystemInfoPayload, msg_agent_info, msg_auth_required, msg_auth_ok,
  msg_error, msg_system_update, other_type,
}
use lan_commander.Control.Client.Agent.{
  AgentConnection, stop, update_last_seen, update_agent_info, update_system_info,
}
use lan_commander.Control.Client.Manager.{
  Manager, put_connection, with_connection, find_endpoint, install, halted, stop_connection, left,
  disconnect, close_all,
}
use lan_commander.Control.Client.Pumps.{
  Decoder, Incoming, failed, garbled, message, described, measured, handled, pump_reads, pumped,
}
use lan_commander.Control.Client.Actions.{
  Action, installs, disconnects, closes_all, begins_request, ends_request, beats, checks, reads,
  redials, dial_ends, interrupts, gives_up, act, run,
}
use lan_commander.Control.Client.Actions.Sound.{IsSound, Registered}
use lan_commander.Control.Client.Actions.Traffic.{
  update_last_seen-Mild, update_agent_info-Mild, update_system_info-Mild,
}
use lan_commander.Control.Client.Actions.Reachable.{act-IsSound}
use lan_commander.Control.Client.Actions.Lasting.{
  IsStopped, Stays, Mild-Final, with_connection-Stays, close_conn-Stays, pump_fails-Stays,
  checked-Stays, deliver-Stays, begin_request-Stays, stop_all-Stays, left-Stays, settled-Stays,
  redialling-Stays, dial_ending-Stays, interrupting-Stays, giving_up-Stays, beating-Stays,
}

module _ {Json : Type 0} (decoder : Decoder Json) (k : ℕ) where
  handled-Stays :
      (t : MessageType) (p : Json) (g h : ℕ) (m : Manager Json)
      → Stays k m (handled decoder t p g h m)
  handled-Stays msg_agent_info p g h m = go (decoder.as_agent_info p)
    where
      go : (o : Option AgentInfoPayload) → Stays k m (described decoder o g h m)
      go none s = s
      go (some i) s =
          with_connection-Stays k h (update_agent_info g i) m
            (Mild-Final (update_agent_info g i) (update_agent_info-Mild g i)) s
  handled-Stays msg_system_update p g h m = go (decoder.as_system_info p)
    where
      go : (o : Option SystemInfoPayload) → Stays k m (measured decoder o g h m)
      go none s = s
      go (some i) s =
          with_connection-Stays k h (update_system_info g i) m
            (Mild-Final (update_system_info g i) (update_system_info-Mild g i)) s
  handled-Stays msg_auth_required p g h m = λ s. s
  handled-Stays msg_auth_ok p g h m = λ s. s
  handled-Stays msg_error p g h m = λ s. s
  handled-Stays other_type p g h m = λ s. s

  seen-Stays :
      (g h now : ℕ) (m : Manager Json) → Stays k m (with_connection h (update_last_seen g now) m)
  seen-Stays g h now m =
      with_connection-Stays k h (update_last_seen g now) m
        (Mild-Final (update_last_seen g now) (update_last_seen-Mild g now))

  pumped-Stays :
      (o : Option ℕ) (g now : ℕ) (i : Incoming Json) (m : Manager Json)
      → Stays k m (pumped decoder o g now i m)
  unfolding pump_reads
  pumped-Stays none g now i m s = s
  pumped-Stays (some h) g now failed m s = pump_fails-Stays k g h m s
  pumped-Stays (some h) g now garbled m s = seen-Stays g h now m s
  pumped-Stays (some h) g now (message msg) m s =
      let m1 = with_connection h (update_last_seen g now) m in
      deliver-Stays k h msg (handled decoder msg.kind msg.payload g h m1)
        (handled-Stays msg.kind msg.payload g h m1 (seen-Stays g h now m s))

  act-Stays : (a : Action Json) (m : Manager Json) → IsSound m → Stays k m (act decoder a m)
  unfolding act install disconnect close_all
  act-Stays (installs id host port options now) m v =
      settled-Stays k (find_endpoint host port m.agents m) id host port options now m v
  act-Stays (disconnects id) m v = left-Stays k (Dict.lookup id m.agents) id m
  act-Stays closes_all m v =
      stop_all-Stays k m.agents (record m { agents = []; shut_down = true; pending = [] })
  act-Stays (begins_request agent id writes) m v = begin_request-Stays k agent id writes m
  act-Stays (ends_request id) m v = λ s. s
  act-Stays (beats g writes) m v = beating-Stays k (m.generation g) g writes m
  act-Stays (checks g) m v = checked-Stays k (Dict.lookup g m.pumps) g m
  act-Stays (reads g now i) m v = pumped-Stays (Dict.lookup g m.pumps) g now i m
  act-Stays (redials g) m v = redialling-Stays k (Dict.lookup g m.reconnecting) g m
  act-Stays (dial_ends g dial now) m v = dial_ending-Stays k (Dict.lookup g m.dialling) g dial now m
  act-Stays (interrupts g) m v = interrupting-Stays k (Dict.lookup g m.reconnecting) g m
  act-Stays (gives_up g) m v = giving_up-Stays k (Dict.lookup g m.reconnecting) g m

  run-Stays :
      (actions : List (Action Json)) (m : Manager Json)
      → IsSound m
      → Stays k m (run decoder actions m)
  unfolding run
  run-Stays [] m v s = s
  run-Stays (a ∷ rest) m v s =
      run-Stays rest (act decoder a m) (act-IsSound decoder a m v) (act-Stays a m v s)

module _ {Json : Type 0} where
  halted-IsStopped :
      (h : ℕ) (m : Manager Json) (ac : AgentConnection)
      → m.connection h ≡ some ac
      → IsStopped ((stop_connection h m).connection h)
  unfolding stop_connection stop
  halted-IsStopped h m ac e =
      subst (λ (o : Option AgentConnection). IsStopped ((halted o h m).connection h)) (sym e)
        (close_conn-Stays h ac.generation (put_connection h (stop ac) m) (ground arith))

  -- Of an agent that the manager lists, in a state with the invariant of run-IsSound, Disconnect
  -- stops the connection, and nothing that happens afterwards, the end of a dial that was under way
  -- included, connects it again.
  pub disconnect_for_good :
      (decoder : Decoder Json) (id : Text) (h : ℕ) (actions : List (Action Json)) (m : Manager Json)
      → IsSound m
      → Dict.lookup id m.agents ≡ some h
      → ((disconnect id m).0 ≡ ok tt)
        × IsStopped ((run decoder actions (disconnect id m).1).connection h)
  unfolding disconnect act
  disconnect_for_good decoder id h actions m v e = (
    ap (λ (o : Option ℕ). (left o id m).0) e,
    run-Stays decoder h actions (disconnect id m).1 (act-IsSound decoder (disconnects id) m v) (
        subst (λ (o : Option ℕ). IsStopped ((left o id m).1.connection h)) (sym e)
          (stopped (m.connection h) refl (v.registered id h e))),
  )
    where
      stopped :
          (o : Option AgentConnection)
          → m.connection h ≡ o
          → Registered id o
          → IsStopped
              ((stop_connection h (record m { agents = Dict.erase id m.agents })).connection h)
      stopped none f r = absurd r
      stopped (some ac) f r = halted-IsStopped h (record m { agents = Dict.erase id m.agents }) ac f
