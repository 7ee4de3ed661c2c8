-- ===== src/Control/Client/Actions/Reachable.antt =====
-- Every action of the manager keeps what holds of it.
use lan_commander.Base.{
  ℕ, ◌≡◌, ◌≢◌, refl, ap, ◌∙◌, Bool, true, false, Option, none, some, List, [], ◌∷◌, if◌then◌else◌,
  list_eq, nat_eq, arith, ◌||◌,
}
use lan_commander.Base.Dict
use lan_commander.Base.Dict.{Dict}
use lan_commander.Base.Text.{Text}
use lan_commander.Control.Client.Agent.{
  AgentConnection, ConnectOptions, stop, install_generation, mark_disconnected,
}
use lan_commander.Control.Client.Manager.{
  Manager, Generation, new_manager, put_connection, closing, close_conn, start_pump, register,
  settled, find_endpoint, install, halted, stop_connection, left, disconnect, stop_all, close_all,
  new_connection,
}
use lan_commander.Control.Client.Pumps.{
  Decoder, Dial, unreachable, rejected, connected, write_json, is_over, replaced, installed,
  redialled, may_dial, start_dial, end_dial, give_up,
}
use lan_commander.Control.Client.Actions.{
  Action, installs, disconnects, closes_all, begins_request, ends_request, beats, checks, reads,
  redials, dial_ends, interrupts, gives_up, beating, reconnected, redialling, dial_ending,
  interrupting, giving_up, act, run,
}
use lan_commander.Control.Client.Actions.Sound.{
  IsSound, Registered, new_manager-IsSound, stop-IsSound, unlist-IsSound, beside-IsSound,
}
use lan_commander.Control.Client.Actions.Sockets.{Unused, register-IsSound, renew-IsSound}
use lan_commander.Control.Client.Actions.Traffic.{
  either-IsSound, mark_disconnected-Mild, with_connection-IsSound, close_conn-IsSound,
  checked-IsSound, write_json-IsSound, begin_request-IsSound,
}
use lan_commander.Control.Client.Actions.Reads.{pumped-IsSound}

module _ {Json : Type 0} where
  install-IsSound :
      (id host : Text) (port : ℕ) (options : ConnectOptions) (now : ℕ) (m : Manager Json)
      → IsSound m
      → IsSound (install id host port options now m).1
  unfolding install register
  install-IsSound id host port options now m v = go (find_endpoint host port m.agents m)
    where
      go : (o : Option AgentConnection) → IsSound (settled o id host port options now m).1
      go none = either-IsSound m.shut_down _ _ v (
          register-IsSound id (new_connection id host port options m.generations now) m v refl refl
            refl)
      go (some ac) = v

  stopped-Unused :
      (h : ℕ) (ac : AgentConnection) (m : Manager Json)
      → IsSound m
      → m.connection h ≡ some ac
      → Unused ac.generation (put_connection h (stop ac) m)
  unfolding stop
  stopped-Unused h ac m v at k x is conn same = ground (arith, v.own h k ac x at)

  stop_connection-IsSound :
      (h : ℕ) (m : Manager Json)
      → IsSound m
      → ((id : Text) → Dict.lookup id m.agents ≢ some h)
      → IsSound (stop_connection h m)
  unfolding stop_connection
  stop_connection-IsSound h m v unlisted = go (m.connection h) refl
    where
      go : (o : Option AgentConnection) → m.connection h ≡ o → IsSound (halted o h m)
      go none e = v
      go (some ac) e =
          close_conn-IsSound ac.generation (put_connection h (stop ac) m)
            (stop-IsSound h ac m v e unlisted) (stopped-Unused h ac m v e)

  -- A connection is listed under its id alone.
  listed_once :
      (id j : Text) (h : ℕ) (m : Manager Json)
      → IsSound m
      → Dict.lookup id m.agents ≡ some h
      → Dict.lookup j m.agents ≡ some h
      → j ≡ id
  listed_once id j h m v e f = go (m.connection h) (v.registered id h e) (v.registered j h f)
    where
      go : (o : Option AgentConnection) → Registered id o → Registered j o → j ≡ id
      go none r s = absurd r
      go (some ac) r s = cc

  disconnect-IsSound : (id : Text) (m : Manager Json) → IsSound m → IsSound (disconnect id m).1
  unfolding disconnect
  disconnect-IsSound id m v = go (Dict.lookup id m.agents) refl
    where
      go : (o : Option ℕ) → Dict.lookup id m.agents ≡ o → IsSound (left o id m).1
      go none e = v
      go (some h) e =
          stop_connection-IsSound h (record m { agents = Dict.erase id m.agents })
            (unlist-IsSound id m v)
            (λ j f. ground (arith, Dict.lookup-erase j id m.agents, listed_once id j h m v e))

  stop_connection-agents : (h : ℕ) (m : Manager Json) → (stop_connection h m).agents ≡ m.agents
  unfolding stop_connection close_conn
  stop_connection-agents h m = go (m.connection h)
    where
      closed :
          (o : Option Generation) (g : ℕ) (m : Manager Json) → (closing o g m).agents ≡ m.agents
      closed none g m = refl
      closed (some x) g m = refl

      go : (o : Option AgentConnection) → (halted o h m).agents ≡ m.agents
      go none = refl
      go (some ac) =
          closed (m.generation ac.generation) ac.generation (put_connection h (stop ac) m)

  stop_all-IsSound :
      (l : Dict Text ℕ) (m : Manager Json) → IsSound m → m.agents ≡ [] → IsSound (stop_all l m)
  unfolding stop_all Dict.lookup
  stop_all-IsSound [] m v e = v
  stop_all-IsSound ((id, h) ∷ l) m v e =
      stop_all-IsSound l (stop_connection h m)
        (stop_connection-IsSound h m v (λ j f. absurd (ground (arith, ap (Dict.lookup j) e))))
        (stop_connection-agents h m ∙ e)

  close_all-IsSound : (m : Manager Json) → IsSound m → IsSound (close_all m)
  unfolding close_all Dict.lookup
  close_all-IsSound m v = stop_all-IsSound m.agents _ none_listed refl
    where
      none_listed : IsSound (record m { agents = []; shut_down = true; pending = [] })
      none_listed = record {
        registered = λ id h e. absurd cc;
        steady = v.steady;
        own = v.own;
        allocated = v.allocated;
        pumped = v.pumped;
        answers = v.answers;
      }

  -- The socket that was replaced.
  replaced-Unused :
      (h : ℕ) (ac ad : AgentConnection) (m : Manager Json)
      → IsSound m
      → m.connection h ≡ some ac
      → ad.generation ≡ m.generations
      → Unused ac.generation (start_pump m.generations h (put_connection h ad m))
  replaced-Unused h ac ad m v at gen k x is conn same =
      ground (arith, v.own h k ac x at, v.allocated h ac at)

  installed-IsSound :
      (h now : ℕ) (m : Manager Json) → IsSound m → IsSound (installed (m.connection h) h now m)
  unfolding install_generation
  installed-IsSound h now m v = go (m.connection h) refl
    where
      go : (o : Option AgentConnection) → m.connection h ≡ o → IsSound (installed o h now m)
      go none e = v
      go (some ac) e = renewed ac.closed refl (ac.cancelled || m.shut_down)
        where
          ad : AgentConnection
          ad = record ac {
            generation = m.generations;
            info = record ac.info { connected = true; last_seen = now };
          }

          renewed :
              (b : Bool)
              → ac.closed ≡ b
              → (d : Bool)
              → IsSound (replaced (if b || d then none else some (ac.generation, ad)) h m)
          renewed true c d = v
          renewed false c true = v
          renewed false c false =
              close_conn-IsSound ac.generation _ (renew-IsSound h ac ad m v e c refl c refl)
                (replaced-Unused h ac ad m v e refl)

  start_dial-IsSound : (g h : ℕ) (m : Manager Json) → IsSound m → IsSound (start_dial g h m)
  unfolding start_dial
  start_dial-IsSound g h m v = go (may_dial g h m)
    where
      leaves : Manager Json
      leaves = record m { reconnecting = Dict.erase g m.reconnecting }

      go :
          (b : Bool)
          → IsSound (if b then record leaves { dialling = Dict.insert g h m.dialling } else leaves)
      go true =
          beside-IsSound m (Dict.erase g m.reconnecting) (Dict.insert g h m.dialling) m.pending
            m.forwarded m.written m.shut_down v
      go false =
          beside-IsSound m (Dict.erase g m.reconnecting) m.dialling m.pending m.forwarded m.written
            m.shut_down v

  end_dial-IsSound :
      (g h : ℕ) (dial : Dial) (now : ℕ) (m : Manager Json)
      → IsSound m
      → IsSound (end_dial g h dial now m)
  unfolding end_dial
  end_dial-IsSound g h dial now m v = go dial
    where
      m' : Manager Json
      m' = record m { dialling = Dict.erase g m.dialling }

      waits : IsSound (record m {
        reconnecting = Dict.insert g h m.reconnecting;
        dialling = Dict.erase g m.dialling;
      })
      waits =
          beside-IsSound m (Dict.insert g h m.reconnecting) (Dict.erase g m.dialling) m.pending
            m.forwarded m.written m.shut_down v

      go : (d : Dial) → IsSound (redialled d g h now m')
      go unreachable = waits
      go rejected = waits
      go connected = installed-IsSound h now m' (
          beside-IsSound m m.reconnecting (Dict.erase g m.dialling) m.pending m.forwarded m.written
            m.shut_down v)

  reconnected-IsSound : (g : ℕ) (m : Manager Json) → IsSound m → IsSound (reconnected g m)
  reconnected-IsSound g m v =
      beside-IsSound m (Dict.erase g m.reconnecting) m.dialling m.pending m.forwarded m.written
        m.shut_down v

  redialling-IsSound :
      (o : Option ℕ) (g : ℕ) (m : Manager Json) → IsSound m → IsSound (redialling o g m)
  redialling-IsSound none g m v = v
  redialling-IsSound (some h) g m v = start_dial-IsSound g h m v

  dial_ending-IsSound :
      (o : Option ℕ) (g : ℕ) (dial : Dial) (now : ℕ) (m : Manager Json)
      → IsSound m
      → IsSound (dial_ending o g dial now m)
  dial_ending-IsSound none g dial now m v = v
  dial_ending-IsSound (some h) g dial now m v = end_dial-IsSound g h dial now m v

  interrupting-IsSound :
      (o : Option ℕ) (g : ℕ) (m : Manager Json) → IsSound m → IsSound (interrupting o g m)
  interrupting-IsSound none g m v = v
  interrupting-IsSound (some h) g m v = go (is_over (m.connection h) m.shut_down)
    where
      go : (b : Bool) → IsSound (if b then reconnected g m else m)
      go true = reconnected-IsSound g m v
      go false = v

  giving_up-IsSound :
      (o : Option ℕ) (g : ℕ) (m : Manager Json) → IsSound m → IsSound (giving_up o g m)
  unfolding give_up
  giving_up-IsSound none g m v = v
  giving_up-IsSound (some h) g m v =
      reconnected-IsSound g _
        (with_connection-IsSound h (mark_disconnected g) m (mark_disconnected-Mild g) v)

  beating-IsSound :
      (g : ℕ) (writes : Bool) (m : Manager Json)
      → IsSound m
      → IsSound (beating (m.generation g) g writes m)
  beating-IsSound g writes m v = go (m.generation g)
    where
      on : (x : Bool) → IsSound (if x then m else (write_json g [] writes m).1)
      on true = v
      on false = write_json-IsSound g [] writes m v

      go : (o : Option Generation) → IsSound (beating o g writes m)
      go none = v
      go (some x) = on x.done

module _ {Json : Type 0} (decoder : Decoder Json) where
  pub act-IsSound : (a : Action Json) (m : Manager Json) → IsSound m → IsSound (act decoder a m)
  unfolding act
  act-IsSound (installs id host port options now) m v = install-IsSound id host port options now m v
  act-IsSound (disconnects id) m v = disconnect-IsSound id m v
  act-IsSound closes_all m v = close_all-IsSound m v
  act-IsSound (begins_request agent id writes) m v = begin_request-IsSound agent id writes m v
  act-IsSound (ends_request id) m v =
      beside-IsSound m m.reconnecting m.dialling (Dict.erase id m.pending) m.forwarded m.written
        m.shut_down v
  act-IsSound (beats g writes) m v = beating-IsSound g writes m v
  act-IsSound (checks g) m v = checked-IsSound g m v
  act-IsSound (reads g now i) m v = pumped-IsSound decoder g now i m v
  act-IsSound (redials g) m v = redialling-IsSound (Dict.lookup g m.reconnecting) g m v
  act-IsSound (dial_ends g dial now) m v =
      dial_ending-IsSound (Dict.lookup g m.dialling) g dial now m v
  act-IsSound (interrupts g) m v = interrupting-IsSound (Dict.lookup g m.reconnecting) g m v
  act-IsSound (gives_up g) m v = giving_up-IsSound (Dict.lookup g m.reconnecting) g m v

  pub run-keeps-IsSound :
      (actions : List (Action Json)) (m : Manager Json)
      → IsSound m
      → IsSound (run decoder actions m)
  unfolding run
  run-keeps-IsSound [] m v = v
  run-keeps-IsSound (a ∷ rest) m v = run-keeps-IsSound rest (act decoder a m) (act-IsSound a m v)

  -- Whatever the callers, the agents and the network do, in whichever order, before, during and
  -- after the dials of a reconnection: no agent that the manager lists was stopped; no stopped
  -- connection counts as connected; one that does has a socket of its own that is open, and a read
  -- pump; the channel of a socket is closed once at most, after the pump; and the answer that a
  -- request gets has the request's id.
  pub run-IsSound : (actions : List (Action Json)) → IsSound (run decoder actions new_manager)
  run-IsSound actions = run-keeps-IsSound actions new_manager new_manager-IsSound
