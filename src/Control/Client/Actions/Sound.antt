-- ===== src/Control/Client/Actions/Sound.antt =====
-- What holds of the manager between two actions, and the single changes that keep it.
use lan_commander.Base.{
  ℕ, ◌<◌, ◌≡◌, ◌≢◌, Bool, true, false, Option, none, some, List, list_eq, nat_eq, arith,
}
use lan_commander.Base.Dict
use lan_commander.Base.Dict.{Dict}
use lan_commander.Base.Text.{Text}
use lan_commander.Control.Client.Protocol.{Message}
use lan_commander.Control.Client.Agent.{AgentConnection, stop}
use lan_commander.Control.Client.Manager.{
  Manager, Generation, new_generation, new_manager, put_connection,
}

abbrev pub Registered : Text → Option AgentConnection → Type 0
Registered id none = ⊥
Registered id (some ac) = (ac.info.id ≡ id) × (ac.closed ≡ false)

-- A stopped connection is not connected; a connected one has a socket that is open, and a read pump.
abbrev pub Steady : (ℕ → Option Generation) → Dict ℕ ℕ → ℕ → AgentConnection → Type 0
Steady generation pumps h ac =
    (ac.closed ≡ true → ac.info.connected ≡ false)
    × (ac.info.connected ≡ true
        → (generation ac.generation ≡ some new_generation)
          × (Dict.lookup ac.generation pumps ≡ some h))

-- `registered`: what the manager lists are connections that nobody stopped. `own`: no two connections
-- share a socket. `pumped`: the channel of a read pump that runs is not closed, so that no channel is
-- closed twice. `answers`: a request's channel holds an answer with its own id.
pub record IsSound {Json : Type 0} (m : Manager Json) : Type 0 where
  pub registered :
      (id : Text) (h : ℕ) → Dict.lookup id m.agents ≡ some h → Registered id (m.connection h)
  pub steady :
      (h : ℕ) (ac : AgentConnection) → m.connection h ≡ some ac → Steady m.generation m.pumps h ac
  pub own :
      (h k : ℕ) (ac ad : AgentConnection)
      → m.connection h ≡ some ac
      → m.connection k ≡ some ad
      → ac.generation ≡ ad.generation
      → h ≡ k
  pub allocated :
      (h : ℕ) (ac : AgentConnection)
      → m.connection h ≡ some ac
      → (h < m.connections) × (ac.generation < m.generations)
  pub pumped :
      (g h : ℕ)
      → Dict.lookup g m.pumps ≡ some h
      → (g < m.generations) × ((x : Generation) × (m.generation g ≡ some x) × (x.done ≡ false))
  pub answers : (id : Text) (msg : Message Json) → Dict.lookup id m.replies ≡ some msg → msg.id ≡ id

module _ {Json : Type 0} where
  pub new_manager-IsSound : IsSound {Json = Json} new_manager
  unfolding new_manager Dict.lookup
  new_manager-IsSound = record {
    registered = λ id h e. absurd cc;
    steady = λ h ac e. absurd cc;
    own = λ h k ac ad e f g. absurd cc;
    allocated = λ h ac e. absurd cc;
    pumped = λ g h e. absurd cc;
    answers = λ id msg e. absurd cc;
  }

  -- A connection changes, and gains nothing by it.
  pub put_connection-IsSound :
      (h : ℕ) (ac ad : AgentConnection) (m : Manager Json)
      → IsSound m
      → m.connection h ≡ some ac
      → ad.info.id ≡ ac.info.id
      → ad.generation ≡ ac.generation
      → ad.closed ≡ ac.closed
      → (ad.info.connected ≡ true → ac.info.connected ≡ true)
      → IsSound (put_connection h ad m)
  put_connection-IsSound h ac ad m v at same_id same_gen same_closed conn = record {
    registered = λ id k e. ground (arith, v.registered id k e);
    steady = λ k x e. ground (arith, v.steady h ac at, v.steady k x);
    own = λ j k x y e f g.
        ground (arith, v.own j k x y, v.own h k ac y, v.own j h x ac, v.own h h ac ac);
    allocated = λ k x e. ground (arith, v.allocated h ac at, v.allocated k x);
    pumped = v.pumped;
    answers = v.answers;
  }

  -- A connection that is not listed is stopped.
  pub stop-IsSound :
      (h : ℕ) (ac : AgentConnection) (m : Manager Json)
      → IsSound m
      → m.connection h ≡ some ac
      → ((id : Text) → Dict.lookup id m.agents ≢ some h)
      → IsSound (put_connection h (stop ac) m)
  unfolding stop
  stop-IsSound h ac m v at unlisted = record {
    registered = λ id k e. ground (arith, v.registered id k e, unlisted id);
    steady = λ k x e. ground (arith, v.steady h ac at, v.steady k x);
    own = λ j k x y e f g.
        ground (arith, v.own j k x y, v.own h k ac y, v.own j h x ac, v.own h h ac ac);
    allocated = λ k x e. ground (arith, v.allocated h ac at, v.allocated k x);
    pumped = v.pumped;
    answers = v.answers;
  }

  pub unlist-IsSound :
      (id : Text) (m : Manager Json)
      → IsSound m
      → IsSound (record m { agents = Dict.erase id m.agents })
  unlist-IsSound id m v = record {
    registered = λ j h e. v.registered j h (ground (arith, Dict.lookup-erase j id m.agents));
    steady = v.steady;
    own = v.own;
    allocated = v.allocated;
    pumped = v.pumped;
    answers = v.answers;
  }

  -- What the invariant does not speak of.
  pub beside-IsSound :
      (m : Manager Json) (reconnecting dialling : Dict ℕ ℕ) (pending : Dict Text (Unit {0}))
      (forwarded : List (Text × Message Json)) (written : List (ℕ × Text)) (shut_down : Bool)
      → IsSound m
      → IsSound (record m {
        reconnecting = reconnecting;
        dialling = dialling;
        pending = pending;
        forwarded = forwarded;
        written = written;
        shut_down = shut_down;
      })
  beside-IsSound m r d p f w s v = record {
    registered = v.registered;
    steady = v.steady;
    own = v.own;
    allocated = v.allocated;
    pumped = v.pumped;
    answers = v.answers;
  }

  -- An answer goes into the channel of its id.
  pub answer-IsSound :
      (msg : Message Json) (m : Manager Json)
      → IsSound m
      → IsSound (record m { replies = Dict.insert msg.id msg m.replies })
  answer-IsSound msg m v = record {
    registered = v.registered;
    steady = v.steady;
    own = v.own;
    allocated = v.allocated;
    pumped = v.pumped;
    answers = λ id x e. ground (arith, v.answers id x, Dict.lookup-insert id msg.id msg m.replies);
  }
