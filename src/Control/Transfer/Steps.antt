-- ===== src/Control/Transfer/Steps.antt =====
-- The steps of a transfer that returned, whatever the requester and the local system did besides.
use lan_commander.Base.{
  ◌≡◌, sym, ap, ◌∙◌, Bool, true, false, Option, none, some, ℕ, [], ◌∷◌, ◌++◌, length, length-append,
  drop, drop-append_left, append_assoc, append-nil, arith,
}
use lan_commander.Base.Exec.{pure, Result, ok, raise}
use lan_commander.Base.Exec.Outcome.{ok_bind, ok_refuse_if}
use lan_commander.Base.Text.{Text}
use lan_commander.Os.Disk.{Bytes, Sys}
use lan_commander.Control.Transfer.{
  TransferError, World, local, remotely, check_ctx, present, first_answer, later_answers,
  cancelled_or_not, validate_request,
}

module _ {S : Type 0} where
  pub local_inv :
      {A : Type 0} (m : Sys A) (w v : World S) {a : A}
      → local m w ≡ (ok a, v)
      → (m w.disk ≡ (ok a, v.disk)) × (v.remote ≡ w.remote)
  unfolding local
  local_inv m w v h = (λ i. ((h i).0, (h i).1.disk), λ i. (sym h i).1.remote)

  pub remotely_inv :
      {A : Type 0} (m : S → Result (Unit {0}) A × S) (w v : World S) {a : A}
      → remotely m w ≡ (ok a, v)
      → (m w.remote ≡ (ok a, v.remote)) × (v.disk ≡ w.disk)
  unfolding remotely
  remotely_inv m w v h = (λ i. ((h i).0, (h i).1.remote), λ i. (sym h i).1.disk)

  pub check_ctx_inv :
      (w v : World S) {u : Unit {0}}
      → check_ctx w ≡ (ok u, v)
      → (v.disk ≡ w.disk) × (v.remote ≡ w.remote)
  unfolding check_ctx
  check_ctx_inv w v h =
      go (first_answer w.ctx)
        (record { disk = w.disk; remote = w.remote; ctx = later_answers w.ctx }) h
    where
      go :
          (b : Bool) (x : World S)
          → cancelled_or_not b x ≡ (ok _, v)
          → (v.disk ≡ x.disk) × (v.remote ≡ x.remote)
      go true x h = absurd cc
      go false x h = (
        ap (λ (o : Result _ _ × World S). o.1.disk) (sym h),
        ap (λ (o : Result _ _ × World S). o.1.remote) (sym h),
      )

  pub present_inv :
      {A : Type 0} (o : Option A) (e : TransferError) (w v : World S) {a : A}
      → present o e w ≡ (ok a, v)
      → (o ≡ some a) × (w ≡ v)
  unfolding raise pure
  present_inv none e w v h = absurd cc
  present_inv (some a) e w v h = (cc, cc)

  pub validate_request_same :
      (agent first second : Text) (w v : World S) {u : Unit {0}}
      → validate_request agent first second w ≡ (ok u, v)
      → w ≡ v
  unfolding validate_request
  validate_request_same agent first second w v h =
      let (_, w1, e1, h1) = ok_bind _ _ w h in
      let (_, w2, e2, h2) = ok_bind _ _ w1 h1 in
      (ok_refuse_if _ _ _ w e1).1 ∙ (ok_refuse_if _ _ _ w1 e2).1 ∙ (ok_refuse_if _ _ _ w2 h2).1

-- A prefix of the length of the whole is the whole.
pub all_there : (b x rest : Bytes) → b ≡ x ++ rest → length x ≡ length b → x ≡ b
all_there b x [] e h = sym (e ∙ append-nil x)
all_there b x (r ∷ rs) e h = absurd (omega (arith, ap length e, length-append x (r ∷ rs)))

-- One piece further.
pub goes_on :
    (b : Bytes) (o : ℕ) (seen rest c more : Bytes)
    → o ≡ length seen
    → b ≡ seen ++ rest
    → drop o b ≡ c ++ more
    → b ≡ (seen ++ c) ++ more
goes_on b o seen rest c more at split follows =
    split
    ∙ ap (λ (x : Bytes). seen ++ x)
        (sym (drop-append_left seen rest) ∙ (λ i. drop (sym at i) (sym split i)) ∙ follows)
    ∙ sym (append_assoc seen c more)
