-- ===== src/Control/Client/Reconnect/Course.antt =====
-- What a reconnection is in terms of the actions of the manager.
use lan_commander.Base.{
  ℕ, zero, suc, ◌≡◌, ◌≢◌, ◌==◌, ◌∷◌, Bool, true, false, some, List, [], nat_eq, list_eq,
}
use lan_commander.Base.Dict
use lan_commander.Control.Client.Manager.{Manager}
use lan_commander.Control.Client.Pumps.{Decoder, Dial, connected, may_dial, is_over}
use lan_commander.Control.Client.Actions.{
  Action, redials, dial_ends, interrupts, gives_up, act, run,
}
use lan_commander.Control.Client.Reconnect.{Round}

module _ {Json : Type 0} where
  -- The steps of the reconnection of a generation itself.
  abbrev pub is_own : ℕ → Action Json → Bool
  is_own g (redials k) = k == g
  is_own g (dial_ends k dial now) = k == g
  is_own g (interrupts k) = k == g
  is_own g (gives_up k) = k == g
  is_own g _ = false

  abbrev pub AllOthers : ℕ → List (Action Json) → Type 0
  AllOthers g [] = Unit {0}
  AllOthers g (a ∷ rest) = (is_own g a ≡ false) × AllOthers g rest

  -- The reconnection waits out its delay, or its dial is under way.
  abbrev pub Trying : ℕ → ℕ → Manager Json → Type 0
  Trying g h m = Dict.lookup g m.reconnecting ≡ some h

  abbrev pub Dialling : ℕ → ℕ → Manager Json → Type 0
  Dialling g h m = Dict.lookup g m.dialling ≡ some h

module _ {Json : Type 0} (decoder : Decoder Json) where
  -- What the others do is actions of theirs, and leaves the reconnection where it is.
  abbrev pub Apart : ℕ → (Manager Json → Type 0) → (Manager Json → Manager Json) → Type 0
  Apart g P f =
      (m : Manager Json)
      → P m
      → P (f m) × ((xs : List (Action Json)) × AllOthers g xs × (f m ≡ run decoder xs m))

  -- The state when a dial begins, before which the others had their turn, and when one ends.
  abbrev pub before_dial : ℕ → List (Action Json) → Manager Json → Manager Json
  before_dial g xs m = act decoder (redials g) (run decoder xs m)

  abbrev pub after_dial :
      ℕ → List (Action Json) → List (Action Json) → Dial → ℕ → Manager Json → Manager Json
  after_dial g xs ys dial now m =
      act decoder (dial_ends g dial now) (run decoder ys (before_dial g xs m))

-- The others had their turn during the delay of a reconnection, and during its dial.
pub record Waited {Json : Type 0} (decoder : Decoder Json) (g h : ℕ) (xs : List (Action Json))
    (m : Manager Json) : Type 0 where
  pub apart : AllOthers g xs
  pub trying : Trying g h (run decoder xs m)

pub record Dialled {Json : Type 0} (decoder : Decoder Json) (g h : ℕ) (xs ys : List (Action Json))
    (m : Manager Json) : Type 0 where
  pub waited : Waited decoder g h xs m
  pub allowed : may_dial g h (run decoder xs m) ≡ true
  pub aside : AllOthers g ys
  pub dialling : Dialling g h (run decoder ys (before_dial decoder g xs m))

-- A reconnection from a state to the one at its end, with as many rounds left.
pub data Course {Json : Type 0} (decoder : Decoder Json) (g h : ℕ)
    : ℕ → (ℕ → Round Json) → Manager Json → Manager Json → Type 0 where
  exhausted :
      (rounds : ℕ → Round Json) (m m' : Manager Json)
      → m' ≡ act decoder (gives_up g) m
      → Course decoder g h zero rounds m m'
  broken_off :
      (n : ℕ) (rounds : ℕ → Round Json) (m m' : Manager Json) (xs : List (Action Json))
      → Waited decoder g h xs m
      → (rounds 0).interrupted ≡ true
      → is_over ((run decoder xs m).connection h) (run decoder xs m).shut_down ≡ true
      → m' ≡ act decoder (interrupts g) (run decoder xs m)
      → Course decoder g h (suc n) rounds m m'
  not_dialled :
      (n : ℕ) (rounds : ℕ → Round Json) (m m' : Manager Json) (xs : List (Action Json))
      → Waited decoder g h xs m
      → may_dial g h (run decoder xs m) ≡ false
      → m' ≡ act decoder (redials g) (run decoder xs m)
      → Course decoder g h (suc n) rounds m m'
  arrived :
      (n : ℕ) (rounds : ℕ → Round Json) (m m' : Manager Json) (xs ys : List (Action Json))
      → Dialled decoder g h xs ys m
      → (rounds 0).dial ≡ connected
      → m' ≡ after_dial decoder g xs ys (rounds 0).dial (rounds 0).now m
      → Course decoder g h (suc n) rounds m m'
  failed_once :
      (n : ℕ) (rounds : ℕ → Round Json) (m m' : Manager Json) (xs ys : List (Action Json))
      → Dialled decoder g h xs ys m
      → (rounds 0).dial ≢ connected
      → Course decoder g h n
          (λ i. rounds (suc i))
          (after_dial decoder g xs ys (rounds 0).dial (rounds 0).now m)
          m'
      → Course decoder g h (suc n) rounds m m'
