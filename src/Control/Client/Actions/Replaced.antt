-- ===== src/Control/Client/Actions/Replaced.antt =====
-- What the goroutines of a replaced socket do.
use lan_commander.Base.{
  ℕ, ◌≡◌, ◌≢◌, refl, sym, ◌∙◌, Bool, true, false, Option, none, some, if◌then◌else◌, list_eq,
  nat_eq, arith,
}
use lan_commander.Base.Dict
use lan_commander.Base.Text.{is_empty}
use lan_commander.Control.Client.Protocol.{
  MessageType, Message, AgentInfoPayload, SystemInfoPayload, msg_agent_info, msg_auth_required,
  msg_auth_ok, msg_error, msg_system_update, other_type,
}
use lan_commander.Control.Client.Agent.{
  AgentConnection, mark_disconnected, update_last_seen, update_agent_info, update_system_info,
}
use lan_commander.Control.Client.Manager.{
  Manager, Generation, changed, with_connection, closing, close_conn, finishing, finish,
}
use lan_commander.Control.Client.Pumps.{
  Decoder, Incoming, failed, garbled, message, forget_pump, pump_ends, wants_reconnection,
  pump_fails, forward, offer, matched, deliver, described, measured, handled, pump_reads,
}

-- A goroutine of a socket that is not the connection's any more leaves the connection as it is.
abbrev Inert : ℕ → (AgentConnection → AgentConnection) → Type 0
Inert g f = (ac : AgentConnection) → g ≢ ac.generation → f ac ≡ ac

mark_disconnected-Inert : (g : ℕ) → Inert g (mark_disconnected g)
unfolding mark_disconnected
mark_disconnected-Inert g ac ne = ground arith

update_last_seen-Inert : (g now : ℕ) → Inert g (update_last_seen g now)
unfolding update_last_seen
update_last_seen-Inert g now ac ne = ground arith

update_agent_info-Inert : (g : ℕ) (p : AgentInfoPayload) → Inert g (update_agent_info g p)
unfolding update_agent_info
update_agent_info-Inert g p ac ne = ground arith

update_system_info-Inert : (g : ℕ) (p : SystemInfoPayload) → Inert g (update_system_info g p)
unfolding update_system_info
update_system_info-Inert g p ac ne = ground arith

module _ {Json : Type 0} (g h : ℕ) where
  -- The socket was replaced.
  abbrev pub Replaced : Manager Json → Type 0
  Replaced m = (ac : AgentConnection) → m.connection h ≡ some ac → g ≢ ac.generation

  abbrev pub SameConnections : Manager Json → Manager Json → Type 0
  SameConnections m m' = (k : ℕ) → m'.connection k ≡ m.connection k

  with_connection-Same :
      (f : AgentConnection → AgentConnection) (m : Manager Json)
      → Inert g f
      → Replaced m
      → SameConnections m (with_connection h f m)
  unfolding with_connection
  with_connection-Same f m inert old = go (m.connection h) refl
    where
      go : (o : Option AgentConnection) → m.connection h ≡ o → SameConnections m (changed o h f m)
      go none e k = refl
      go (some ac) e k = ground (arith, inert ac (old ac e))

  close_conn-Same : (j : ℕ) (m : Manager Json) → SameConnections m (close_conn j m)
  unfolding close_conn
  close_conn-Same j m = go (m.generation j)
    where
      go : (o : Option Generation) → SameConnections m (closing o j m)
      go none k = refl
      go (some x) k = refl

  finish-Same : (j : ℕ) (m : Manager Json) → SameConnections m (finish j m)
  unfolding finish
  finish-Same j m = go (m.generation j)
    where
      go : (o : Option Generation) → SameConnections m (finishing o j m)
      go none k = refl
      go (some x) k = refl

  pump_ends-Same : (m : Manager Json) → Replaced m → SameConnections m (pump_ends g h m)
  unfolding pump_ends
  pump_ends-Same m old k =
      let m1 = with_connection h (mark_disconnected g) m in
      finish-Same g (close_conn g (forget_pump g m1)) k
      ∙ close_conn-Same g (forget_pump g m1) k
      ∙ with_connection-Same (mark_disconnected g) m (mark_disconnected-Inert g) old k

  pump_fails-Same : (m : Manager Json) → Replaced m → SameConnections m (pump_fails g h m)
  unfolding pump_fails
  pump_fails-Same m old = go (wants_reconnection (m.connection h) m.shut_down g)
    where
      go :
          (b : Bool)
          → SameConnections m (
              if b
              then pump_ends g h (record m { reconnecting = Dict.insert g h m.reconnecting })
              else pump_ends g h m)
      go true = pump_ends-Same (record m { reconnecting = Dict.insert g h m.reconnecting }) old
      go false = pump_ends-Same m old

  deliver-Same : (msg : Message Json) (m : Manager Json) → SameConnections m (deliver h msg m)
  unfolding deliver
  deliver-Same msg m = go (is_empty msg.id)
    where
      offered : (o : Option (Message Json)) → SameConnections m (offer o msg m)
      offered none k = refl
      offered (some x) k = refl

      met : (o : Option (Unit {0})) → SameConnections m (matched o h msg m)
      met none = λ k. refl
      met (some u) = offered (Dict.lookup msg.id m.replies)

      go :
          (b : Bool)
          → SameConnections m
              (if b then forward h msg m else matched (Dict.lookup msg.id m.pending) h msg m)
      go true = λ k. refl
      go false = met (Dict.lookup msg.id m.pending)

  handled-Same :
      (decoder : Decoder Json) (t : MessageType) (p : Json) (m : Manager Json)
      → Replaced m
      → SameConnections m (handled decoder t p g h m)
  handled-Same decoder msg_agent_info p m old = go (decoder.as_agent_info p)
    where
      go : (o : Option AgentInfoPayload) → SameConnections m (described decoder o g h m)
      go none = λ k. refl
      go (some i) = with_connection-Same (update_agent_info g i) m (update_agent_info-Inert g i) old
  handled-Same decoder msg_system_update p m old = go (decoder.as_system_info p)
    where
      go : (o : Option SystemInfoPayload) → SameConnections m (measured decoder o g h m)
      go none = λ k. refl
      go (some i) =
          with_connection-Same (update_system_info g i) m (update_system_info-Inert g i) old
  handled-Same decoder msg_auth_required p m old = λ k. refl
  handled-Same decoder msg_auth_ok p m old = λ k. refl
  handled-Same decoder msg_error p m old = λ k. refl
  handled-Same decoder other_type p m old = λ k. refl

  -- Once the socket of a connection was replaced, nothing that the old one still delivers, or fails to,
  -- changes what the manager knows of any agent.
  pub old_socket_harmless :
      (decoder : Decoder Json) (now : ℕ) (i : Incoming Json) (m : Manager Json)
      → Replaced m
      → (k : ℕ) → (pump_reads decoder g h now i m).connection k ≡ m.connection k
  unfolding pump_reads
  old_socket_harmless decoder now failed m old k = pump_fails-Same m old k
  old_socket_harmless decoder now garbled m old k =
      with_connection-Same (update_last_seen g now) m (update_last_seen-Inert g now) old k
  old_socket_harmless decoder now (message msg) m old k =
      let m1 = with_connection h (update_last_seen g now) m in
      let same : SameConnections m m1 =
        with_connection-Same (update_last_seen g now) m (update_last_seen-Inert g now) old in
      deliver-Same msg (handled decoder msg.kind msg.payload g h m1) k
      ∙ handled-Same decoder msg.kind msg.payload m1 (λ ac e. old ac (sym (same h) ∙ e)) k
      ∙ same k
