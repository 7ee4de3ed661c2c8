-- ===== src/Base/Exec/Ends.antt =====
-- Actions that clean up: a property that holds while they go on, and one that holds when they fail.
use mathlib.Core.Bool.{Bool, true, false}
use lan_commander.Base.Tests.{if◌then◌else◌}
use lan_commander.Base.Exec.{
  Result, ok, err, Exec, pure, raise, ◌>>=◌, ◌>>◌, catch, ignore, refuse_if, must, continue, resume,
}
use lan_commander.Base.Exec.Keeps.{Keeps}

-- `P` at the state of a return, `R` at that of a failure.
abbrev pub Outcome : {E S A : Type 0} → (S → Type 0) → (S → Type 0) → Result E A → S → Type 0
Outcome P R (ok a) s = P s
Outcome P R (err e) s = R s

pub record Ends {E S A : Type 0} (P R : S → Type 0) (m : Exec E S A) : Type 0 where
  pub at : (s : S) → P s → Outcome P R (m s).0 (m s).1

-- An action that leads from `P` to `R`.
pub record Leads {E S A : Type 0} (P R : S → Type 0) (m : Exec E S A) : Type 0 where
  pub at : (s : S) → P s → R (m s).1

module _ {E S A : Type 0} {P R : S → Type 0} where
  pub Ends-pure : (a : A) → Ends {E = E} P R (pure a)
  unfolding pure
  Ends-pure a = record { at = λ s h. h }

  pub Ends-if :
      (b : Bool) (m n : Exec E S A) → Ends P R m → Ends P R n → Ends P R (if b then m else n)
  Ends-if true m n km kn = km
  Ends-if false m n km kn = kn

module _ {E S A B : Type 0} {P R : S → Type 0} where
  pub Ends-bind :
      (m : Exec E S A) (f : A → Exec E S B)
      → Ends P R m
      → ((a : A) → Ends P R (f a))
      → Ends P R (m >>= f)
  unfolding ◌>>=◌
  Ends-bind m f km kf = record { at = λ s h. go (m s).0 (m s).1 (km.at s h) }
    where
      go :
          (r : Result E A) (s' : S)
          → Outcome P R r s'
          → Outcome P R (continue r f s').0 (continue r f s').1
      go (ok a) s' h = (kf a).at s' h
      go (err e) s' h = h

module _ {E S : Type 0} {P R : S → Type 0} where
  pub Ends-refuse_if :
      (b : Bool) (undo : Exec E S (Unit {0})) (e : E)
      → Leads P R undo
      → Ends P R (refuse_if b undo e)
  unfolding refuse_if ◌>>=◌ raise pure
  Ends-refuse_if true undo e k = record { at = λ s h. go (undo s).0 (undo s).1 (k.at s h) }
    where
      go :
          (r : Result E (Unit {0})) (s' : S)
          → R s'
          → let o = continue {B = Unit {0}} r (λ _ t. (err e, t)) s' in Outcome P R o.0 o.1
      go (ok a) s' h = h
      go (err x) s' h = h
  Ends-refuse_if false undo e k = record { at = λ s h. h }

module _ {E F S A : Type 0} {P R : S → Type 0} where
  pub Ends-must :
      (m : Exec F S A) (undo : Exec E S (Unit {0})) (e : E)
      → Keeps P m
      → Leads P R undo
      → Ends P R (must m undo e)
  unfolding must catch ◌>>=◌ raise
  Ends-must m undo e km k = record { at = λ s h. go (m s).0 (m s).1 (km.at s h) }
    where
      after :
          (r : Result E (Unit {0})) (s' : S)
          → R s'
          → let o = continue {B = A} r (λ _ t. (err e, t)) s' in Outcome P R o.0 o.1
      after (ok a) s' h = h
      after (err x) s' h = h

      go :
          (r : Result F A) (s' : S)
          → P s'
          → let o = resume r (λ _. undo >> raise e) s' in Outcome P R o.0 o.1
      go (ok a) s' h = h
      go (err x) s' h = after (undo s').0 (undo s').1 (k.at s' h)

module _ {E F S A : Type 0} {P R : S → Type 0} where
  pub Ends-ignore : (m : Exec E S A) → Keeps P m → Ends {E = F} P R (ignore m)
  unfolding ignore
  Ends-ignore m k = record { at = k.at }

pub ruleset ends_rules = (Ends-pure, Ends-if, Ends-bind, Ends-refuse_if, Ends-must, Ends-ignore)
