-- ===== src/Control/Client/Actions/Lasting.antt =====
-- The single changes leave a stopped connection stopped.
use lan_commander.Base.{
  ℕ, ◌≡◌, refl, subst, Bool, true, false, Option, none, some, [], ◌∷◌, if◌then◌else◌, list_eq,
  nat_eq, arith, ◌&&◌, ◌||◌,
}
use lan_commander.Base.Dict
use lan_commander.Base.Dict.{Dict}
use lan_commander.Base.Text.{Text, is_empty}
use lan_commander.Control.Client.Protocol.{Message}
use lan_commander.Control.Client.Agent.{
  AgentConnection, ConnectOptions, stop, install_generation, mark_disconnected,
}
use lan_commander.Control.Client.Manager.{
  Manager, Generation, put_connection, changed, with_connection, closing, close_conn, finishing,
  finish, start_pump, register, settled, halted, stop_connection, left, stop_all,
}
use lan_commander.Control.Client.Pumps.{
  Dial, unreachable, rejected, connected, write_json, written_to, sent_to, send_message,
  generation_of, is_writable, begin_request, pump_ends, forget_pump, checked, wants_reconnection,
  pump_fails, offer, matched, deliver, is_over, replaced, installed, redialled, may_dial,
  start_dial, end_dial, give_up,
}
use lan_commander.Control.Client.Actions.{beating, redialling, dial_ending, interrupting, giving_up}
use lan_commander.Control.Client.Actions.Sound.{IsSound}
use lan_commander.Control.Client.Actions.Traffic.{Mild, mark_disconnected-Mild}

abbrev pub IsStopped : Option AgentConnection → Type 0
IsStopped none = ⊥
IsStopped (some ac) = (ac.closed ≡ true) × (ac.info.connected ≡ false)

-- A method that does not bring a connection back.
abbrev pub Final : (AgentConnection → AgentConnection) → Type 0
Final f =
    (ac : AgentConnection)
    → ac.closed ≡ true
    → ac.info.connected ≡ false
    → ((f ac).closed ≡ true) × ((f ac).info.connected ≡ false)

pub Mild-Final : (f : AgentConnection → AgentConnection) → Mild f → Final f
Mild-Final f mild ac c d = ground (arith, mild ac)

pub stop-Final : Final stop
unfolding stop
stop-Final ac c d = (refl, refl)

module _ {Json : Type 0} (k : ℕ) where
  abbrev pub Stays : Manager Json → Manager Json → Type 0
  Stays m m' = IsStopped (m.connection k) → IsStopped (m'.connection k)

  pub put-Stays :
      (h : ℕ) (ac : AgentConnection) (f : AgentConnection → AgentConnection) (m : Manager Json)
      → m.connection h ≡ some ac
      → Final f
      → Stays m (put_connection h (f ac) m)
  put-Stays h ac f m e final s = ground (arith, final ac)

  pub with_connection-Stays :
      (h : ℕ) (f : AgentConnection → AgentConnection) (m : Manager Json)
      → Final f
      → Stays m (with_connection h f m)
  unfolding with_connection
  with_connection-Stays h f m final = go (m.connection h) refl
    where
      go : (o : Option AgentConnection) → m.connection h ≡ o → Stays m (changed o h f m)
      go none e s = s
      go (some ac) e s = put-Stays h ac f m e final s

  pub close_conn-Stays : (g : ℕ) (m : Manager Json) → Stays m (close_conn g m)
  unfolding close_conn
  close_conn-Stays g m = go (m.generation g)
    where
      go : (o : Option Generation) → Stays m (closing o g m)
      go none s = s
      go (some x) s = s

  finish-Stays : (g : ℕ) (m : Manager Json) → Stays m (finish g m)
  unfolding finish
  finish-Stays g m = go (m.generation g)
    where
      go : (o : Option Generation) → Stays m (finishing o g m)
      go none s = s
      go (some x) s = s

  pump_ends-Stays : (g h : ℕ) (m : Manager Json) → Stays m (pump_ends g h m)
  unfolding pump_ends
  pump_ends-Stays g h m s =
      let m1 = with_connection h (mark_disconnected g) m in
      finish-Stays g (close_conn g (forget_pump g m1)) (
        close_conn-Stays g (forget_pump g m1) (
          with_connection-Stays h (mark_disconnected g) m
            (Mild-Final (mark_disconnected g) (mark_disconnected-Mild g)) s))

  if-Stays :
      (b : Bool) (m x y : Manager Json) → Stays m x → Stays m y → Stays m (if b then x else y)
  if-Stays true m x y s t = s
  if-Stays false m x y s t = t

  pick-Stays :
      {A : Type 0} (b : Bool) (m : Manager Json) (x y : A × Manager Json)
      → Stays m x.1
      → Stays m y.1
      → Stays m (if◌then◌else◌ {A = A × Manager Json} b x y).1
  pick-Stays true m x y s t = s
  pick-Stays false m x y s t = t

  pub pump_fails-Stays : (g h : ℕ) (m : Manager Json) → Stays m (pump_fails g h m)
  unfolding pump_fails
  pump_fails-Stays g h m =
      if-Stays (wants_reconnection (m.connection h) m.shut_down g) m _ _
        (pump_ends-Stays g h (record m { reconnecting = Dict.insert g h m.reconnecting }))
        (pump_ends-Stays g h m)

  pub checked-Stays : (o : Option ℕ) (g : ℕ) (m : Manager Json) → Stays m (checked o g m)
  checked-Stays none g m s = s
  checked-Stays (some h) g m s =
      if-Stays (is_over (m.connection h) m.shut_down) m _ _ (pump_ends-Stays g h m) (λ t. t) s

  pub deliver-Stays : (h : ℕ) (msg : Message Json) (m : Manager Json) → Stays m (deliver h msg m)
  unfolding deliver
  deliver-Stays h msg m s =
      if-Stays (is_empty msg.id) m _ _ (λ t. t) (met (Dict.lookup msg.id m.pending)) s
    where
      offered : (o : Option (Message Json)) → Stays m (offer o msg m)
      offered none t = t
      offered (some x) t = t

      met : (o : Option (Unit {0})) → Stays m (matched o h msg m)
      met none t = t
      met (some u) t = offered (Dict.lookup msg.id m.replies) t

  pub write_json-Stays :
      (g : ℕ) (id : Text) (writes : Bool) (m : Manager Json) → Stays m (write_json g id writes m).1
  unfolding write_json
  write_json-Stays g id writes m =
      pick-Stays (writes && is_writable (m.generation g)) m _ _ (λ t. t) (λ t. t)

  pub begin_request-Stays :
      (agent id : Text) (writes : Bool) (m : Manager Json)
      → Stays m (begin_request agent id writes m).1
  unfolding begin_request send_message
  begin_request-Stays agent id writes m s = to (Dict.lookup agent m.agents) s
    where
      m' : Manager Json
      m' = record m { pending = Dict.insert id tt m.pending }

      on : (o : Option ℕ) → Stays m' (written_to o id writes m').1
      on none t = t
      on (some g) t = write_json-Stays g id writes m' t

      to : (o : Option ℕ) → Stays m' (sent_to o id writes m').1
      to none t = t
      to (some h) t = on (generation_of (m'.connection h)) t

  pub stop_connection-Stays : (h : ℕ) (m : Manager Json) → Stays m (stop_connection h m)
  unfolding stop_connection
  stop_connection-Stays h m = go (m.connection h) refl
    where
      go : (o : Option AgentConnection) → m.connection h ≡ o → Stays m (halted o h m)
      go none e s = s
      go (some ac) e s =
          close_conn-Stays ac.generation (put_connection h (stop ac) m)
            (put-Stays h ac stop m e stop-Final s)

  pub stop_all-Stays : (l : Dict Text ℕ) (m : Manager Json) → Stays m (stop_all l m)
  unfolding stop_all
  stop_all-Stays [] m s = s
  stop_all-Stays ((id, h) ∷ l) m s =
      stop_all-Stays l (stop_connection h m) (stop_connection-Stays h m s)

  pub left-Stays : (o : Option ℕ) (id : Text) (m : Manager Json) → Stays m (left o id m).1
  left-Stays none id m s = s
  left-Stays (some h) id m s =
      stop_connection-Stays h (record m { agents = Dict.erase id m.agents }) s

  -- A new connection has a place of its own.
  pub settled-Stays :
      (o : Option AgentConnection) (id host : Text) (port : ℕ) (options : ConnectOptions) (now : ℕ)
      (m : Manager Json)
      → IsSound m
      → Stays m (settled o id host port options now m).1
  unfolding register
  settled-Stays (some ac) id host port options now m v s = s
  settled-Stays none id host port options now m v s =
      pick-Stays m.shut_down m _ _ (λ t. t) (apart (m.connection k) refl) s
    where
      apart :
          (o : Option AgentConnection)
          → m.connection k ≡ o
          → Stays m (register id host port options now m)
      apart none e t = absurd (subst IsStopped e t)
      apart (some ac) e t = ground (arith, v.allocated k ac e)

  -- A stopped connection is not given another socket.
  installed-Stays : (h now : ℕ) (m : Manager Json) → Stays m (installed (m.connection h) h now m)
  unfolding install_generation
  installed-Stays h now m = go (m.connection h) refl
    where
      go : (o : Option AgentConnection) → m.connection h ≡ o → Stays m (installed o h now m)
      go none e s = s
      go (some ac) e s = renewed ac.closed refl (ac.cancelled || m.shut_down) s
        where
          ad : AgentConnection
          ad = record ac {
            generation = m.generations;
            info = record ac.info { connected = true; last_seen = now };
          }

          renewed :
              (b : Bool)
              → ac.closed ≡ b
              → (d : Bool)
              → Stays m (replaced (if b || d then none else some (ac.generation, ad)) h m)
          renewed true c d t = t
          renewed false c true t = t
          renewed false c false t =
              close_conn-Stays ac.generation (start_pump m.generations h (put_connection h ad m))
                (ground (arith, t))

  pub redialling-Stays : (o : Option ℕ) (g : ℕ) (m : Manager Json) → Stays m (redialling o g m)
  unfolding start_dial
  redialling-Stays none g m s = s
  redialling-Stays (some h) g m s = if-Stays (may_dial g h m) m _ _ (λ t. t) (λ t. t) s

  pub dial_ending-Stays :
      (o : Option ℕ) (g : ℕ) (dial : Dial) (now : ℕ) (m : Manager Json)
      → Stays m (dial_ending o g dial now m)
  unfolding end_dial
  dial_ending-Stays none g dial now m s = s
  dial_ending-Stays (some h) g dial now m s = go dial
    where
      m' : Manager Json
      m' = record m { dialling = Dict.erase g m.dialling }

      go : (d : Dial) → IsStopped ((redialled d g h now m').connection k)
      go unreachable = s
      go rejected = s
      go connected = installed-Stays h now m' s

  pub interrupting-Stays : (o : Option ℕ) (g : ℕ) (m : Manager Json) → Stays m (interrupting o g m)
  interrupting-Stays none g m s = s
  interrupting-Stays (some h) g m s =
      if-Stays (is_over (m.connection h) m.shut_down) m _ _ (λ t. t) (λ t. t) s

  pub giving_up-Stays : (o : Option ℕ) (g : ℕ) (m : Manager Json) → Stays m (giving_up o g m)
  unfolding give_up
  giving_up-Stays none g m s = s
  giving_up-Stays (some h) g m s =
      with_connection-Stays h (mark_disconnected g) m
        (Mild-Final (mark_disconnected g) (mark_disconnected-Mild g)) s

  pub beating-Stays :
      (o : Option Generation) (g : ℕ) (writes : Bool) (m : Manager Json)
      → Stays m (beating o g writes m)
  beating-Stays none g writes m s = s
  beating-Stays (some x) g writes m s =
      if-Stays x.done m _ _ (λ t. t) (write_json-Stays g [] writes m) s
