-- ===== src/Base/Exec/Keeps.antt =====
-- Invariants of actions: one rule for each way in which an action is built.
use mathlib.Core.Bool.{Bool, true, false}
use lan_commander.Base.Tests.{if◌then◌else◌}
use lan_commander.Base.Exec.{
  Result, ok, err, Exec, pure, raise, lift, gets, ◌>>=◌, ◌>>◌, catch, ignore, refuse_if, must,
}

-- `m` keeps `P`, whether it returns or fails.
pub record Keeps {E S A : Type 0} (P : S → Type 0) (m : Exec E S A) : Type 0 where
  pub at : (s : S) → P s → P (m s).1

module _ {E S A : Type 0} {P : S → Type 0} where
  pub Keeps-pure : (a : A) → Keeps {E = E} P (pure a)
  unfolding pure
  Keeps-pure a = record { at = λ s h. h }

  pub Keeps-raise : (e : E) → Keeps {A = A} P (raise e)
  unfolding raise
  Keeps-raise e = record { at = λ s h. h }

  pub Keeps-lift : (r : Result E A) → Keeps P (lift r)
  unfolding lift
  Keeps-lift r = record { at = λ s h. h }

  pub Keeps-gets : (f : S → A) → Keeps {E = E} P (gets f)
  unfolding gets
  Keeps-gets f = record { at = λ s h. h }

  pub Keeps-if :
      (b : Bool) (m n : Exec E S A) → Keeps P m → Keeps P n → Keeps P (if b then m else n)
  Keeps-if true m n km kn = km
  Keeps-if false m n km kn = kn

module _ {E S A B : Type 0} {P : S → Type 0} where
  pub Keeps-bind :
      (m : Exec E S A) (f : A → Exec E S B)
      → Keeps P m
      → ((a : A) → Keeps P (f a))
      → Keeps P (m >>= f)
  unfolding ◌>>=◌
  Keeps-bind m f km kf = record { at = λ s h. go (m s).0 (m s).1 (km.at s h) }
    where
      go : (r : Result E A) (s' : S) → P s' → P (lan_commander.Base.Exec.continue r f s').1
      go (ok a) s' h = (kf a).at s' h
      go (err e) s' h = h

module _ {E F S A : Type 0} {P : S → Type 0} where
  pub Keeps-catch :
      (m : Exec E S A) (h : E → Exec F S A)
      → Keeps P m
      → ((e : E) → Keeps P (h e))
      → Keeps P (catch m h)
  unfolding catch
  Keeps-catch m h km kh = record { at = λ s p. go (m s).0 (m s).1 (km.at s p) }
    where
      go : (r : Result E A) (s' : S) → P s' → P (lan_commander.Base.Exec.resume r h s').1
      go (ok a) s' p = p
      go (err e) s' p = (kh e).at s' p

  pub Keeps-ignore : (m : Exec E S A) → Keeps P m → Keeps {E = F} P (ignore m)
  unfolding ignore
  Keeps-ignore m km = record { at = km.at }

module _ {E S : Type 0} {P : S → Type 0} where
  pub Keeps-refuse_if :
      (b : Bool) (undo : Exec E S (Unit {0})) (e : E) → Keeps P undo → Keeps P (refuse_if b undo e)
  unfolding refuse_if
  Keeps-refuse_if true undo e k = Keeps-bind undo (λ _. raise e) k (λ _. Keeps-raise e)
  Keeps-refuse_if false undo e k = Keeps-pure tt

module _ {E F S A : Type 0} {P : S → Type 0} where
  pub Keeps-must :
      (m : Exec F S A) (undo : Exec E S (Unit {0})) (e : E)
      → Keeps P m
      → Keeps P undo
      → Keeps P (must m undo e)
  unfolding must
  Keeps-must m undo e km k =
      Keeps-catch m (λ _. undo >> raise e) km
        (λ _. Keeps-bind undo (λ _. raise e) k (λ _. Keeps-raise e))

pub ruleset keeps_rules = (
  Keeps-pure, Keeps-raise, Keeps-lift, Keeps-gets, Keeps-if, Keeps-bind, Keeps-ignore,
  Keeps-refuse_if, Keeps-must,
)
