-- ===== src/Base/Dict.antt =====
-- Go's maps, as association lists in insertion order.
use lan_commander.Base.Tests.{if◌then◌else◌}
use lan_commander.Base.Equality.{Eq, ◌==◌}
use lan_commander.Base.Lists.{length}
use Prim.Native.Nat.{ℕ, ◌+◌, ◌≤◌}
use mathlib.Core.Path.{◌≡◌, refl}
use mathlib.Core.Bool.{Bool}
use mathlib.Core.Option.{Option, none, some}
use mathlib.Core.List.{List, [], ◌∷◌}
use native.Mathlib.Omega.{arith}

abbrev pub Dict {ℓ κ} : Type ℓ → Type κ → Type (ℓ ⊔ κ)
Dict K V = List (K × V)

module _ {ℓ κ} {K : Type ℓ} {V : Type κ} where
  -- `len(m)`
  abbrev pub size : Dict K V → ℕ
  size m = length m

  -- The loop that deletes the entries which meet a test.
  unfoldable pub discard : (K → V → Bool) → Dict K V → Dict K V
  discard p [] = []
  discard p ((k, v) ∷ m) = let rest = discard p m in if p k v then rest else (k, v) ∷ rest

module _ {ℓ κ} {K : Type ℓ} {V : Type κ} ⦃e : Eq K⦄ where
  -- `m[k]`
  unfoldable pub lookup : K → Dict K V → Option V
  lookup k [] = none
  lookup k ((j, v) ∷ m) = if k == j then some v else lookup k m

  -- `m[k] = v`
  unfoldable pub insert : K → V → Dict K V → Dict K V
  insert k v [] = (k, v) ∷ []
  insert k v ((j, w) ∷ m) = if k == j then (k, v) ∷ m else (j, w) ∷ insert k v m

  -- `delete(m, k)`
  unfoldable pub erase : K → Dict K V → Dict K V
  erase k [] = []
  erase k ((j, w) ∷ m) = let rest = erase k m in if k == j then rest else (j, w) ∷ rest

  -- No key stands twice, as in any Go map.
  abbrev pub NodupKeys : Dict K V → Type κ
  NodupKeys [] = Unit
  NodupKeys ((k, _) ∷ m) = (lookup k m ≡ none) × NodupKeys m

  pub lookup-nil : (k : K) → lookup k [] ≡ none
  unfolding lookup
  lookup-nil k = refl

  pub lookup-insert :
      (j k : K) (v : V) (m : Dict K V)
      → lookup j (insert k v m) ≡ (if j == k then some v else lookup j m)
  unfolding insert lookup
  lookup-insert j k v [] = refl
  lookup-insert j k v (_ ∷ m) = ground (arith, lookup-insert j k v m)

  pub lookup-erase :
      (j k : K) (m : Dict K V) → lookup j (erase k m) ≡ (if j == k then none else lookup j m)
  unfolding erase lookup
  lookup-erase j k [] = ground arith
  lookup-erase j k (_ ∷ m) = ground (arith, lookup-erase j k m)

  pub insert-NodupKeys : (k : K) (v : V) (m : Dict K V) → NodupKeys m → NodupKeys (insert k v m)
  unfolding insert
  insert-NodupKeys k v [] _ = (lookup-nil k, tt)
  insert-NodupKeys k v ((j, _) ∷ m) (fresh, u) =
      ground (arith, insert-NodupKeys k v m u, lookup-insert j k v m)

  pub erase-NodupKeys : (k : K) (m : Dict K V) → NodupKeys m → NodupKeys (erase k m)
  unfolding erase
  erase-NodupKeys k [] _ = tt
  erase-NodupKeys k ((j, _) ∷ m) (fresh, u) =
      ground (arith, erase-NodupKeys k m u, lookup-erase j k m)

  pub discard_absent :
      (p : K → V → Bool) (k : K) (m : Dict K V) → lookup k m ≡ none → lookup k (discard p m) ≡ none
  unfolding lookup discard
  discard_absent p k [] h = refl
  discard_absent p k ((j, v) ∷ m) h = ground (arith, discard_absent p k m)

  pub discard-NodupKeys : (p : K → V → Bool) (m : Dict K V) → NodupKeys m → NodupKeys (discard p m)
  unfolding discard
  discard-NodupKeys p [] u = tt
  discard-NodupKeys p ((j, v) ∷ m) (fresh, u) =
      ground (arith, discard-NodupKeys p m u, discard_absent p j m fresh)

  -- An entry stays exactly if it fails the test.
  pub lookup-discard :
      (p : K → V → Bool) (k : K) (m : Dict K V)
      → NodupKeys m
      → lookup k (discard p m)
        ≡ elim (lookup k m) [ none ↦ none | some v ↦ if p k v then none else some v ]
  unfolding lookup discard
  lookup-discard p k [] u = refl
  lookup-discard p k ((j, v) ∷ m) (fresh, u) =
      ground (arith, lookup-discard p k m u, discard_absent p j m fresh)

  pub size-insert : (k : K) (v : V) (m : Dict K V) → size (insert k v m) ≤ size m + 1
  unfolding insert
  size-insert k v [] = omega arith
  size-insert k v (_ ∷ m) = ground (arith, size-insert k v m)

pub ruleset dict_laws = (lookup-nil, lookup-insert, lookup-erase)
