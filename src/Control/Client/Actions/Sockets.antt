-- ===== src/Control/Client/Actions/Sockets.antt =====
-- The changes of sockets that keep what holds of the manager.
use lan_commander.Base.{
  ℕ, ◌+◌, ◌<◌, ◌≡◌, ◌≢◌, refl, true, false, Option, none, some, ◌==◌, list_eq, nat_eq, arith,
  Bool-cases, ◌⊎◌, inl, inr,
}
use lan_commander.Base.Dict
use lan_commander.Base.Dict.{Dict}
use lan_commander.Base.Text.{Text}
use lan_commander.Control.Client.Agent.{AgentConnection}
use lan_commander.Control.Client.Manager.{
  Manager, Generation, new_generation, put_generation, update,
}
use lan_commander.Control.Client.Actions.Sound.{IsSound, Registered}

module _ {Json : Type 0} where
  -- No connected agent uses the socket.
  abbrev pub Unused : ℕ → Manager Json → Type 0
  Unused g m =
      (k : ℕ) (ac : AgentConnection)
      → m.connection k ≡ some ac
      → ac.info.connected ≡ true
      → ac.generation ≢ g

  -- A socket that is not used changes. Its channel is closed only if no read pump runs on it.
  pub put_generation-IsSound :
      (g : ℕ) (x y : Generation) (m : Manager Json)
      → IsSound m
      → m.generation g ≡ some x
      → Unused g m
      → (y.done ≡ x.done) ⊎ (Dict.lookup g m.pumps ≡ none)
      → IsSound (put_generation g y m)
  put_generation-IsSound g x y m v at unused quiet = record {
    registered = v.registered;
    steady = λ k ac e. ground (arith, v.steady k ac e, unused k ac e);
    own = v.own;
    allocated = v.allocated;
    pumped = λ j h e. go j h e (v.pumped j h e) quiet (Bool-cases (j == g));
    answers = v.answers;
  }
    where
      go :
          (j h : ℕ)
          → Dict.lookup j m.pumps ≡ some h
          → (j < m.generations) × ((z : Generation) × (m.generation j ≡ some z) × (z.done ≡ false))
          → (y.done ≡ x.done) ⊎ (Dict.lookup g m.pumps ≡ none)
          → ((j == g) ≡ true) ⊎ ((j == g) ≡ false)
          → (j < m.generations)
            × ((z : Generation) × (update g y m.generation j ≡ some z) × (z.done ≡ false))
      go j h e (lt, (z, is, undone)) (inl same) (inl eq) =
          (lt, (y, ground (arith, eq), ground (arith, eq)))
      go j h e (lt, (z, is, undone)) (inr ended) (inl eq) = absurd (ground (arith, eq))
      go j h e (lt, (z, is, undone)) q (inr ne) = (lt, (z, ground (arith, ne), undone))

  -- A read pump ends, on a socket that no connected agent uses.
  pub end_pump-IsSound :
      (g : ℕ) (m : Manager Json)
      → IsSound m
      → Unused g m
      → IsSound (record m { pumps = Dict.erase g m.pumps })
  end_pump-IsSound g m v unused = record {
    registered = v.registered;
    steady = λ k ac e.
        ground (arith, v.steady k ac e, unused k ac e, Dict.lookup-erase ac.generation g m.pumps);
    own = v.own;
    allocated = v.allocated;
    pumped = λ j h e. v.pumped j h (ground (arith, Dict.lookup-erase j g m.pumps));
    answers = v.answers;
  }

  -- A new connection, under an id that may have been listed before.
  pub register-IsSound :
      (id : Text) (ac : AgentConnection) (m : Manager Json)
      → IsSound m
      → ac.info.id ≡ id
      → ac.closed ≡ false
      → ac.generation ≡ m.generations
      → IsSound (record m {
        agents = Dict.insert id m.connections m.agents;
        connection = update m.connections ac m.connection;
        connections = m.connections + 1;
        generation = update m.generations new_generation m.generation;
        generations = m.generations + 1;
        pumps = Dict.insert m.generations m.connections m.pumps;
      })
  register-IsSound id ac m v is_id fresh gen = record {
    registered = λ j h e. listed j h (m.connection h) refl e (Bool-cases (j == id));
    steady = λ k x e. ground (
      arith,
      v.steady k x,
      v.allocated k x,
      Dict.lookup-insert x.generation m.generations m.connections m.pumps,
    );
    own = λ j k x y e f g. ground (arith, v.own j k x y, v.allocated j x, v.allocated k y);
    allocated = λ k x e. ground (arith, v.allocated k x);
    pumped = λ j h e. running j h e (Bool-cases (j == m.generations));
    answers = v.answers;
  }
    where
      old :
          (j : Text) (h : ℕ) (o : Option AgentConnection)
          → m.connection h ≡ o
          → Registered j o
          → Registered j (update m.connections ac m.connection h)
      old j h none e r = absurd r
      old j h (some x) e r = ground (arith, v.allocated h x e)

      listed :
          (j : Text) (h : ℕ) (o : Option AgentConnection)
          → m.connection h ≡ o
          → Dict.lookup j (Dict.insert id m.connections m.agents) ≡ some h
          → ((j == id) ≡ true) ⊎ ((j == id) ≡ false)
          → Registered j (update m.connections ac m.connection h)
      listed j h o e l (inl eq) = ground (arith, eq, Dict.lookup-insert j id m.connections m.agents)
      listed j h o e l (inr ne) =
          old j h (m.connection h) refl
            (v.registered j h (ground (arith, ne, Dict.lookup-insert j id m.connections m.agents)))

      running :
          (j h : ℕ)
          → Dict.lookup j (Dict.insert m.generations m.connections m.pumps) ≡ some h
          → ((j == m.generations) ≡ true) ⊎ ((j == m.generations) ≡ false)
          → (j < m.generations + 1)
            × ((x : Generation) × (update m.generations new_generation m.generation j ≡ some x)
                × (x.done ≡ false))
      running j h e (inl eq) = (ground (arith, eq), (new_generation, ground (arith, eq), refl))
      running j h e (inr ne) =
          let (lt, (x, is, undone)) =
            v.pumped j h
              (ground (arith, ne, Dict.lookup-insert j m.generations m.connections m.pumps)) in
          (omega arith, (x, ground (arith, ne), undone))

  -- A connection goes over to a new socket.
  pub renew-IsSound :
      (h : ℕ) (ac ad : AgentConnection) (m : Manager Json)
      → IsSound m
      → m.connection h ≡ some ac
      → ac.closed ≡ false
      → ad.info.id ≡ ac.info.id
      → ad.closed ≡ false
      → ad.generation ≡ m.generations
      → IsSound (record m {
        connection = update h ad m.connection;
        generation = update m.generations new_generation m.generation;
        generations = m.generations + 1;
        pumps = Dict.insert m.generations h m.pumps;
      })
  renew-IsSound h ac ad m v at live same_id fresh gen = record {
    registered = λ id k e. ground (arith, v.registered id k e);
    steady = λ k x e. ground (
      arith,
      v.steady k x,
      v.allocated k x,
      Dict.lookup-insert x.generation m.generations h m.pumps,
    );
    own = λ j k x y e f g. ground (arith, v.own j k x y, v.allocated j x, v.allocated k y);
    allocated = λ k x e. ground (arith, v.allocated k x, v.allocated h ac at);
    pumped = λ j k e. running j k e (Bool-cases (j == m.generations));
    answers = v.answers;
  }
    where
      running :
          (j k : ℕ)
          → Dict.lookup j (Dict.insert m.generations h m.pumps) ≡ some k
          → ((j == m.generations) ≡ true) ⊎ ((j == m.generations) ≡ false)
          → (j < m.generations + 1)
            × ((x : Generation) × (update m.generations new_generation m.generation j ≡ some x)
                × (x.done ≡ false))
      running j k e (inl eq) = (ground (arith, eq), (new_generation, ground (arith, eq), refl))
      running j k e (inr ne) =
          let (lt, (x, is, undone)) =
            v.pumped j k (ground (arith, ne, Dict.lookup-insert j m.generations h m.pumps)) in
          (omega arith, (x, ground (arith, ne), undone))
