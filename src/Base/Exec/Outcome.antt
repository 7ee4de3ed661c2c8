-- ===== src/Base/Exec/Outcome.antt =====
-- What the outcome of an action says of its parts, and the cases of an outcome.
use mathlib.Core.Path.{◌≡◌, refl, ap, ◌∙◌}
use mathlib.Core.Bool.{Bool, true, false}
use lan_commander.Base.Exec.{
  Result, ok, err, Exec, raise, ◌>>=◌, ◌>>◌, catch, refuse_if, must, continue, resume,
}

module _ {E S A B : Type 0} where
  -- A bind that returned, taken apart.
  pub ok_bind :
      (m : Exec E S A) (f : A → Exec E S B) (s : S) {b : B} {t : S}
      → (m >>= f) s ≡ (ok b, t)
      → (a : A) × (s' : S) × (m s ≡ (ok a, s')) × (f a s' ≡ (ok b, t))
  unfolding ◌>>=◌
  ok_bind m f s {b} {t} h = go (m s).0 (m s).1 refl h
    where
      go :
          (r : Result E A) (s' : S)
          → m s ≡ (r, s')
          → continue r f s' ≡ (ok b, t)
          → (a : A) × (s' : S) × (m s ≡ (ok a, s')) × (f a s' ≡ (ok b, t))
      go (ok a) s' e h = (a, s', e, h)
      go (err x) s' e h = cc

  -- The cases of a bind.
  pub bind_cases {ℓ} :
      (Q : Result E B × S → Type ℓ) (m : Exec E S A) (f : A → Exec E S B) (s : S)
      → ((e : E) (s' : S) → m s ≡ (err e, s') → Q (err e, s'))
      → ((a : A) (s' : S) → m s ≡ (ok a, s') → Q (f a s'))
      → Q ((m >>= f) s)
  unfolding ◌>>=◌
  bind_cases Q m f s bad good = go (m s).0 (m s).1 refl
    where
      go : (r : Result E A) (s' : S) → m s ≡ (r, s') → Q (continue r f s')
      go (ok a) s' e = good a s' e
      go (err x) s' e = bad x s' e

  -- A step that returned, before the rest.
  pub bind_ok :
      (m : Exec E S A) (f : A → Exec E S B) (s : S) (a : A) (s' : S)
      → m s ≡ (ok a, s')
      → (m >>= f) s ≡ f a s'
  unfolding ◌>>=◌
  bind_ok m f s a s' e = cc (ap (λ (r : Result E A × S). continue r.0 f r.1) e)

module _ {E S A : Type 0} where
  undo_not_ok :
      (undo : Exec E S (Unit {0})) (e : E) (s : S) {a : A} {t : S}
      → (undo >> raise e) s ≡ (ok a, t)
      → ⊥
  unfolding raise
  undo_not_ok undo e s h = let (_, s', _, r) = ok_bind undo (λ _. raise e) s h in cc r

module _ {E S : Type 0} where
  pub ok_refuse_if :
      (b : Bool) (undo : Exec E S (Unit {0})) (e : E) (s : S) {u : Unit {0}} {t : S}
      → refuse_if b undo e s ≡ (ok u, t)
      → (b ≡ false) × (s ≡ t)
  unfolding refuse_if
  ok_refuse_if true undo e s h = absurd (undo_not_ok undo e s h)
  ok_refuse_if false undo e s h = (refl, cc h)

  pub refuse_if_ok :
      (b : Bool) (undo : Exec E S (Unit {0})) (e : E) (s : S)
      → b ≡ false
      → refuse_if b undo e s ≡ (ok tt, s)
  unfolding refuse_if
  refuse_if_ok b undo e s h = rw h refl

module _ {E F S A : Type 0} where
  pub ok_must :
      (m : Exec F S A) (undo : Exec E S (Unit {0})) (e : E) (s : S) {a : A} {t : S}
      → must m undo e s ≡ (ok a, t)
      → m s ≡ (ok a, t)
  unfolding must
  ok_must m undo e s {a} {t} h = go (m s).0 (m s).1 refl h
    where
      go :
          (r : Result F A) (s' : S)
          → m s ≡ (r, s')
          → resume r (λ _. undo >> raise e) s' ≡ (ok a, t)
          → m s ≡ (ok a, t)
      go (ok b) s' q h = q ∙ cc h
      go (err x) s' q h = absurd (undo_not_ok undo e s' h)

  pub must_ok :
      (m : Exec F S A) (undo : Exec E S (Unit {0})) (e : E) (s : S) (a : A) (t : S)
      → m s ≡ (ok a, t)
      → must m undo e s ≡ (ok a, t)
  unfolding must
  must_ok m undo e s a t q =
      cc (ap (λ (r : Result F A × S). resume r.0 (λ _. undo >> raise e) r.1) q)

  pub catch_ok :
      (m : Exec F S A) (h : F → Exec E S A) (s : S) (a : A) (t : S)
      → m s ≡ (ok a, t)
      → catch m h s ≡ (ok a, t)
  unfolding catch
  catch_ok m h s a t q = cc (ap (λ (r : Result F A × S). resume r.0 h r.1) q)

  pub ok_catch-raise :
      (m : Exec F S A) (e : E) (s : S) {a : A} {t : S}
      → catch m (λ _. raise e) s ≡ (ok a, t)
      → m s ≡ (ok a, t)
  unfolding catch raise
  ok_catch-raise m e s {a} {t} h = go (m s).0 (m s).1 refl h
    where
      go :
          (r : Result F A) (s' : S)
          → m s ≡ (r, s')
          → resume r (λ _. raise e) s' ≡ (ok a, t)
          → m s ≡ (ok a, t)
      go (ok b) s' q h = q ∙ cc h
      go (err x) s' q h = absurd cc

  -- The cases of a guarded call.
  pub must_cases {ℓ} :
      (Q : Result E A × S → Type ℓ) (m : Exec F S A) (undo : Exec E S (Unit {0})) (e : E) (s : S)
      → ((x : F) (s' : S) → m s ≡ (err x, s') → Q ((undo >> raise e) s'))
      → ((a : A) (s' : S) → m s ≡ (ok a, s') → Q (ok a, s'))
      → Q (must m undo e s)
  unfolding must
  must_cases Q m undo e s bad good = go (m s).0 (m s).1 refl
    where
      go : (r : Result F A) (s' : S) → m s ≡ (r, s') → Q (resume r (λ _. undo >> raise e) s')
      go (ok a) s' q = good a s' q
      go (err x) s' q = bad x s' q
