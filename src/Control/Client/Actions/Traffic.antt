-- ===== src/Control/Client/Actions/Traffic.antt =====
-- The read pumps and the requests keep what holds of the manager.
use lan_commander.Base.{
  ℕ, ◌≡◌, refl, ap, ◌∙◌, Bool, true, false, Option, none, some, [], ◌∷◌, if◌then◌else◌, list_eq,
  nat_eq, arith, inl, inr, ◌++◌, ◌&&◌,
}
use lan_commander.Base.Dict
use lan_commander.Base.Dict.{Dict}
use lan_commander.Base.Text.{Text, is_empty}
use lan_commander.Control.Client.Protocol.{Message, AgentInfoPayload, SystemInfoPayload}
use lan_commander.Control.Client.Agent.{
  AgentConnection, mark_disconnected, update_last_seen, update_agent_info, update_system_info,
}
use lan_commander.Control.Client.Manager.{
  Manager, Generation, changed, with_connection, closing, close_conn, finishing, finish,
}
use lan_commander.Control.Client.Pumps.{
  write_json, written_to, sent_to, send_message, generation_of, is_writable, begin_request,
  pump_ends, forget_pump, checked, wants_reconnection, pump_fails, forward, offer, matched, deliver,
  is_over,
}
use lan_commander.Control.Client.Actions.Sound.{
  IsSound, put_connection-IsSound, beside-IsSound, answer-IsSound,
}
use lan_commander.Control.Client.Actions.Sockets.{Unused, put_generation-IsSound, end_pump-IsSound}

-- A method that neither names, nor stops, nor connects, nor moves a connection.
abbrev pub Mild : (AgentConnection → AgentConnection) → Type 0
Mild f =
    (ac : AgentConnection)
    → ((f ac).info.id ≡ ac.info.id)
      × ((f ac).generation ≡ ac.generation)
      × ((f ac).closed ≡ ac.closed)
      × ((f ac).info.connected ≡ true → ac.info.connected ≡ true)

pub mark_disconnected-Mild : (g : ℕ) → Mild (mark_disconnected g)
unfolding mark_disconnected
mark_disconnected-Mild g ac = ground arith

pub update_last_seen-Mild : (g now : ℕ) → Mild (update_last_seen g now)
unfolding update_last_seen
update_last_seen-Mild g now ac = ground arith

pub update_agent_info-Mild : (g : ℕ) (p : AgentInfoPayload) → Mild (update_agent_info g p)
unfolding update_agent_info
update_agent_info-Mild g p ac = ground arith

pub update_system_info-Mild : (g : ℕ) (p : SystemInfoPayload) → Mild (update_system_info g p)
unfolding update_system_info
update_system_info-Mild g p ac = ground arith

module _ {Json : Type 0} where
  pub with_connection-IsSound :
      (h : ℕ) (f : AgentConnection → AgentConnection) (m : Manager Json)
      → Mild f
      → IsSound m
      → IsSound (with_connection h f m)
  unfolding with_connection
  with_connection-IsSound h f m mild v = go (m.connection h) refl
    where
      go : (o : Option AgentConnection) → m.connection h ≡ o → IsSound (changed o h f m)
      go none e = v
      go (some ac) e =
          let (i, g, c, k) = mild ac in put_connection-IsSound h ac (f ac) m v e i g c k

  pub close_conn-IsSound :
      (g : ℕ) (m : Manager Json) → IsSound m → Unused g m → IsSound (close_conn g m)
  unfolding close_conn
  close_conn-IsSound g m v unused = go (m.generation g) refl
    where
      go : (o : Option Generation) → m.generation g ≡ o → IsSound (closing o g m)
      go none e = v
      go (some x) e =
          put_generation-IsSound g x (record x { is_open = false }) m v e unused (inl refl)

  pub finish-IsSound :
      (g : ℕ) (m : Manager Json)
      → IsSound m
      → Unused g m
      → Dict.lookup g m.pumps ≡ none
      → IsSound (finish g m)
  unfolding finish
  finish-IsSound g m v unused quiet = go (m.generation g) refl
    where
      go : (o : Option Generation) → m.generation g ≡ o → IsSound (finishing o g m)
      go none e = v
      go (some x) e = put_generation-IsSound g x (record x { done = true }) m v e unused (inr quiet)

  -- After `markDisconnected` nothing uses the socket of the read pump.
  marked-Unused :
      (g h : ℕ) (m : Manager Json)
      → IsSound m
      → Dict.lookup g m.pumps ≡ some h
      → Unused g (with_connection h (mark_disconnected g) m)
  unfolding with_connection mark_disconnected
  marked-Unused g h m v runs = go (m.connection h) refl
    where
      go :
          (o : Option AgentConnection)
          → m.connection h ≡ o
          → Unused g (changed o h (mark_disconnected g) m)
      go none e k x is conn same = ground (arith, v.steady k x is)
      go (some ac) e k x is conn same = ground (arith, v.steady k x)

  pub close_conn-Unused : (g j : ℕ) (m : Manager Json) → Unused j m → Unused j (close_conn g m)
  unfolding close_conn
  close_conn-Unused g j m u = go (m.generation g)
    where
      go : (o : Option Generation) → Unused j (closing o g m)
      go none = u
      go (some x) = u

  close_conn-pumps : (g : ℕ) (m : Manager Json) → (close_conn g m).pumps ≡ m.pumps
  unfolding close_conn
  close_conn-pumps g m = go (m.generation g)
    where
      go : (o : Option Generation) → (closing o g m).pumps ≡ m.pumps
      go none = refl
      go (some x) = refl

  pump_ends-IsSound :
      (g h : ℕ) (m : Manager Json)
      → IsSound m
      → Dict.lookup g m.pumps ≡ some h
      → IsSound (pump_ends g h m)
  unfolding pump_ends
  pump_ends-IsSound g h m v runs =
      let m1 = with_connection h (mark_disconnected g) m in
      let u : Unused g m1 = marked-Unused g h m v runs in
      let m2 = forget_pump g m1 in
      let v2 =
        end_pump-IsSound g m1
          (with_connection-IsSound h (mark_disconnected g) m (mark_disconnected-Mild g) v) u in
      finish-IsSound g (close_conn g m2) (close_conn-IsSound g m2 v2 u) (close_conn-Unused g g m2 u)
        (ap (Dict.lookup g) (close_conn-pumps g m2)
          ∙ ground (arith, Dict.lookup-erase g g m1.pumps))

  pub checked-IsSound :
      (g : ℕ) (m : Manager Json) → IsSound m → IsSound (checked (Dict.lookup g m.pumps) g m)
  checked-IsSound g m v = go (Dict.lookup g m.pumps) refl
    where
      go : (o : Option ℕ) → Dict.lookup g m.pumps ≡ o → IsSound (checked o g m)
      go none e = v
      go (some h) e = over_or_not (is_over (m.connection h) m.shut_down)
        where
          over_or_not : (b : Bool) → IsSound (if b then pump_ends g h m else m)
          over_or_not true = pump_ends-IsSound g h m v e
          over_or_not false = v

  pub pump_fails-IsSound :
      (g h : ℕ) (m : Manager Json)
      → IsSound m
      → Dict.lookup g m.pumps ≡ some h
      → IsSound (pump_fails g h m)
  unfolding pump_fails
  pump_fails-IsSound g h m v runs = go (wants_reconnection (m.connection h) m.shut_down g)
    where
      go :
          (b : Bool)
          → IsSound (
              if b
              then pump_ends g h (record m { reconnecting = Dict.insert g h m.reconnecting })
              else pump_ends g h m)
      go true =
          pump_ends-IsSound g h _
            (beside-IsSound m (Dict.insert g h m.reconnecting) m.dialling m.pending m.forwarded
              m.written m.shut_down v)
            runs
      go false = pump_ends-IsSound g h m v runs

  forward-IsSound :
      (h : ℕ) (msg : Message Json) (m : Manager Json) → IsSound m → IsSound (forward h msg m)
  forward-IsSound h msg m v =
      beside-IsSound m m.reconnecting m.dialling m.pending (forward h msg m).forwarded m.written
        m.shut_down v

  pub deliver-IsSound :
      (h : ℕ) (msg : Message Json) (m : Manager Json) → IsSound m → IsSound (deliver h msg m)
  unfolding deliver
  deliver-IsSound h msg m v = go (is_empty msg.id)
    where
      offered : (o : Option (Message Json)) → IsSound (offer o msg m)
      offered none = answer-IsSound msg m v
      offered (some x) = v

      met : (o : Option (Unit {0})) → IsSound (matched o h msg m)
      met none = forward-IsSound h msg m v
      met (some u) = offered (Dict.lookup msg.id m.replies)

      go :
          (b : Bool)
          → IsSound (if b then forward h msg m else matched (Dict.lookup msg.id m.pending) h msg m)
      go true = forward-IsSound h msg m v
      go false = met (Dict.lookup msg.id m.pending)

  pub either-IsSound :
      {A : Type 0} (b : Bool) (x y : A × Manager Json)
      → IsSound x.1
      → IsSound y.1
      → IsSound (if◌then◌else◌ {A = A × Manager Json} b x y).1
  either-IsSound true x y v w = v
  either-IsSound false x y v w = w

  pub write_json-IsSound :
      (g : ℕ) (id : Text) (writes : Bool) (m : Manager Json)
      → IsSound m
      → IsSound (write_json g id writes m).1
  unfolding write_json
  write_json-IsSound g id writes m v =
      either-IsSound (writes && is_writable (m.generation g)) _ _
        (beside-IsSound m m.reconnecting m.dialling m.pending m.forwarded
          (m.written ++ ((g, id) ∷ [])) m.shut_down v)
        v

  send_message-IsSound :
      (agent id : Text) (writes : Bool) (m : Manager Json)
      → IsSound m
      → IsSound (send_message agent id writes m).1
  unfolding send_message
  send_message-IsSound agent id writes m v = to (Dict.lookup agent m.agents)
    where
      on : (o : Option ℕ) → IsSound (written_to o id writes m).1
      on none = v
      on (some g) = write_json-IsSound g id writes m v

      to : (o : Option ℕ) → IsSound (sent_to o id writes m).1
      to none = v
      to (some h) = on (generation_of (m.connection h))

  pub begin_request-IsSound :
      (agent id : Text) (writes : Bool) (m : Manager Json)
      → IsSound m
      → IsSound (begin_request agent id writes m).1
  unfolding begin_request
  begin_request-IsSound agent id writes m v = send_message-IsSound agent id writes _ (
      beside-IsSound m m.reconnecting m.dialling (Dict.insert id tt m.pending) m.forwarded m.written
        m.shut_down v)
