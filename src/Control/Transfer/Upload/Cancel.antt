-- ===== src/Control/Transfer/Upload/Cancel.antt =====
-- What a failed upload leaves on the agent.
use lan_commander.Base.{
  ℕ, ◌≡◌, refl, subst, Bool, true, false, [], if◌then◌else◌, ◌⊎◌, inl, inr, nat_eq,
}
use lan_commander.Base.Exec.{Result, ok, err, ◌>>=◌, catch, refuse_if, resume}
use lan_commander.Base.Exec.Keeps.{Keeps, keeps_rules}
use lan_commander.Base.Exec.Outcome.{bind_cases}
use lan_commander.Base.Text.{Text}
use lan_commander.Os.Disk.{Bytes, stat, open_read}
use lan_commander.Agent.Files.Host.{is_directory, node_size}
use lan_commander.Control.Transfer.{
  TransferError, Requester, World, Transfer, nothing, validate_request,
}
use lan_commander.Control.Transfer.Upload.{Sending, or_cancel, upload}
use lan_commander.Control.Transfer.Upload.Marks.{Silent, Marked, Silent-os, Marked-send_all}

module _ {S : Type 0} (s : S) (digest : Bytes → Text) (requester : Requester S) where
  -- The outcomes of an upload.
  abbrev Ended : Text → Text → Result TransferError (Unit {0}) × World S → Type 0
  Ended remote id o =
      (o.0 ≡ ok tt) ⊎ Silent s o.1 ⊎ ((t : S) × (o.1.remote ≡ requester.cancel_file remote id t))

  Ended-bind :
      {A : Type 0} (remote id : Text) (m : Transfer S A) (f : A → Transfer S (Unit {0}))
      (w : World S)
      → Keeps (Silent s) m
      → Silent s w
      → ((a : A) (v : World S) → Silent s v → Ended remote id (f a v))
      → Ended remote id ((m >>= f) w)
  Ended-bind remote id m f w k h rest =
      bind_cases (Ended remote id) m f w
        (λ e v q.
          inr (inl (subst (λ (o : Result TransferError _ × World S). Silent s o.1) q (k.at w h))))
        (λ a v q.
          rest a v (subst (λ (o : Result TransferError _ × World S). Silent s o.1) q (k.at w h)))

  Ended-or_cancel :
      (remote id : Text) (m : Sending S) (w : World S)
      → Marked s (m w)
      → Ended remote id (or_cancel digest requester remote id m w)
  unfolding or_cancel catch
  Ended-or_cancel remote id m w k = go (m w).0 (m w).1 k
    where
      undo : Bool × TransferError → Transfer S (Unit {0})
      undo e w = (
        err e.1,
        record {
          disk = w.disk;
          remote = if e.0 then requester.cancel_file remote id w.remote else w.remote;
          ctx = w.ctx;
        },
      )

      go :
          (r : Result (Bool × TransferError) (Unit {0})) (v : World S)
          → Marked s (r, v)
          → Ended remote id (resume r undo v)
      go (ok u) v k = inl refl
      go (err (true, e)) v k = inr (inr (v.remote, refl))
      go (err (false, e)) v k = inr (inl k)

-- An upload that fails, for whichever reason, on either machine or by a cancelled context, has either
-- requested nothing or ended with the request to cancel it.
pub upload_cancels :
    {S : Type 0} (digest : Bytes → Text) (requester : Requester S) (fuel : ℕ)
    (id agent source remote : Text) (w : World S)
    → let o = upload digest requester fuel id agent source remote w in
      (o.0 ≡ ok tt)
      ⊎ (o.1.remote ≡ w.remote)
      ⊎ ((t : S) × (o.1.remote ≡ requester.cancel_file remote id t))
unfolding upload
upload_cancels {S} digest requester fuel id agent source remote w =
    let s = w.remote in
    Ended-bind s digest requester remote id (validate_request agent source remote) _ w
      silent_validate refl
      (λ _ v h.
        Ended-bind s digest requester remote id _ _ v (Silent-os s (open_read source) _) h (λ _ v h.
          Ended-bind s digest requester remote id _ _ v (Silent-os s (stat source) _) h (λ info v h.
            Ended-bind s digest requester remote id _ _ v (silent_check (is_directory info) _) h
              (λ _ v h. Ended-or_cancel s digest requester remote id _ v (
                Marked-send_all s digest requester fuel source remote id (node_size info) false 0 []
                  v h)))))
  where
    silent_validate : Keeps (Silent w.remote) (validate_request agent source remote)
    silent_validate = unfold validate_request in search keeps_rules depth 8

    silent_check : (b : Bool) (e : TransferError) → Keeps (Silent w.remote) (refuse_if b nothing e)
    silent_check b e = search keeps_rules depth 8
