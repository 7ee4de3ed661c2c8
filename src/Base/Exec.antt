-- ===== src/Base/Exec.antt =====
-- Results with an error, and actions that change a state and may fail. What an action changed before
-- it failed stays changed, so the state comes back beside the error too.
pub mod Keeps
pub mod Outcome
pub mod Ends
use mathlib.Core.Path.{◌≡◌, refl}
use mathlib.Core.Bool.{Bool, true, false}
use lan_commander.Base.Tests.{if◌then◌else◌}

pub data Result {ℓ κ} (E : Type κ) (A : Type ℓ) : Type (ℓ ⊔ κ) where
  ok : A → Result E A
  err : E → Result E A

abbrev pub Exec : Type 0 → Type 0 → Type 0 → Type 0
Exec E S A = S → Result E A × S

module _ {E S A : Type 0} where
  unfoldable pub pure : A → Exec E S A
  pure a s = (ok a, s)

  unfoldable pub raise : E → Exec E S A
  raise e s = (err e, s)

  unfoldable pub lift : Result E A → Exec E S A
  lift r s = (r, s)

  unfoldable pub gets : (S → A) → Exec E S A
  gets f s = (ok (f s), s)

module _ {E S A B : Type 0} where
  abbrev pub continue : Result E A → (A → Exec E S B) → Exec E S B
  continue (ok a) f s = f a s
  continue (err e) f s = (err e, s)

  infixl 10 ◌>>=◌ ◌>>◌
  unfoldable pub ◌>>=◌ : Exec E S A → (A → Exec E S B) → Exec E S B
  unfolding pure raise lift gets
  ◌>>=◌ m f s = let (r, s') = m s in continue r f s'

  abbrev pub ◌>>◌ : Exec E S A → Exec E S B → Exec E S B
  m >> n = m >>= λ _. n

module _ {E F S A : Type 0} where
  abbrev pub resume : Result E A → (E → Exec F S A) → Exec F S A
  resume (ok a) h s = (ok a, s)
  resume (err e) h s = h e s

  -- The caller handles the error of `m`.
  unfoldable pub catch : Exec E S A → (E → Exec F S A) → Exec F S A
  catch m h s = let (r, s') = m s in resume r h s'

module _ {E F S A : Type 0} where
  -- `_ = m`: the result and the error are dropped.
  unfoldable pub ignore : Exec E S A → Exec F S (Unit {0})
  ignore m s = (ok tt, (m s).1)

module _ {E S : Type 0} where
  -- `if b { undo(); return e }`
  unfoldable pub refuse_if : Bool → Exec E S (Unit {0}) → E → Exec E S (Unit {0})
  unfolding pure raise ◌>>=◌
  refuse_if b undo e = if b then undo >> raise e else pure tt

module _ {E F S A : Type 0} where
  -- `if err := m; err != nil { undo(); return e }`
  unfoldable pub must : Exec F S A → Exec E S (Unit {0}) → E → Exec E S A
  unfolding catch raise ◌>>=◌
  must m undo e = catch m (λ _. undo >> raise e)
