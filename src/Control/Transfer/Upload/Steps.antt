-- ===== src/Control/Transfer/Upload/Steps.antt =====
-- The steps of an upload that returned.
use lan_commander.Base.{if◌then◌else◌, ◌≡◌, sym, ap, subst, ◌∙◌, Bool, some}
use lan_commander.Base.Exec.{catch, Exec, Result, ok, err, raise, resume}
use lan_commander.Base.Exec.Outcome.{ok_bind, ok_must, ok_refuse_if}
use lan_commander.Base.Text.{Text}
use lan_commander.Os.Disk.{Bytes}
use lan_commander.Control.Transfer.{TransferError, SendFile, Ack, Requester, World, Transfer}
use lan_commander.Control.Transfer.Upload.{Sending, or_cancel, tagged, check_ack, send_upload_chunk}
use lan_commander.Control.Transfer.Steps.{remotely_inv, check_ctx_inv, present_inv}

module _ {S : Type 0} where
  abbrev again : {A : Type 0} → Bool → TransferError → Exec (Bool × TransferError) (World S) A
  again sent e = raise (sent, e)

  pub ok_tagged :
      {A : Type 0} (sent : Bool) (m : Transfer S A) (w : World S) {a : A} {v : World S}
      → tagged sent m w ≡ (ok a, v)
      → m w ≡ (ok a, v)
  unfolding tagged raise catch
  ok_tagged {A} sent m w {a} {v} h = go (m w).0 (m w).1 h
    where
      go :
          (r : Result TransferError A) (x : World S)
          → resume r (again sent) x ≡ (ok a, v)
          → ◌≡◌ {A = Result TransferError A × World S} (r, x) (ok a, v)
      go (ok b) x h = cc
      go (err e) x h = absurd cc

  module _ (digest : Bytes → Text) (requester : Requester S) where
    check_ack_same :
        (p : SendFile) (a : Ack) (w v : World S) {u : Unit {0}}
        → check_ack digest requester p a w ≡ (ok u, v)
        → w ≡ v
    unfolding check_ack
    check_ack_same p a w v h =
        let (_, w1, e1, h1) = ok_bind _ _ w h in
        let (_, w2, e2, h2) = ok_bind _ _ w1 h1 in
        let (_, w3, e3, h3) = ok_bind _ _ w2 h2 in
        (ok_refuse_if _ _ _ w e1).1
        ∙ (ok_refuse_if _ _ _ w1 e2).1
        ∙ (ok_refuse_if _ _ _ w2 e3).1
        ∙ (ok_refuse_if _ _ _ w3 h3).1

    -- A chunk that was sent was acknowledged.
    pub send_upload_chunk_ok :
        (p : SendFile) (w v : World S) {u : Unit {0}}
        → send_upload_chunk digest requester p w ≡ (ok u, v)
        → (a : Ack) × (requester.send_file p w.remote ≡ (ok (some a), v.remote)) × (v.disk ≡ w.disk)
    unfolding send_upload_chunk
    send_upload_chunk_ok p w v h =
        let (_, w1, e1, h1) = ok_bind _ _ w h in
        let (response, w2, e2, h2) = ok_bind _ _ w1 h1 in
        let (a, w3, e3, h3) = ok_bind _ _ w2 h2 in
        let (disk1, remote1) = check_ctx_inv w w1 e1 in
        let (sent, disk2) = remotely_inv (requester.send_file p) w1 w2 (ok_must _ _ _ w1 e2) in
        let (answered, same) = present_inv response _ w2 w3 e3 in
        let acked = check_ack_same p a w3 v h3 in
        (
          a,
          subst (λ (s : S). requester.send_file p s ≡ (ok (some a), v.remote)) remote1
              (sent ∙ λ i. (ok (answered i), ((same ∙ acked) i).remote)),
          ap (λ (x : World S). x.disk) (sym (same ∙ acked)) ∙ disk2 ∙ disk1,
        )

    pub ok_or_cancel :
        (remote id : Text) (m : Sending S) (w : World S) {u : Unit {0}} {v : World S}
        → or_cancel digest requester remote id m w ≡ (ok u, v)
        → m w ≡ (ok u, v)
    unfolding or_cancel catch
    ok_or_cancel remote id m w {u} {v} h = go (m w).0 (m w).1 h
      where
        undo : Bool × TransferError → Transfer S (Unit {0})
        undo e x = (
          err e.1,
          record {
            disk = x.disk;
            remote = if e.0 then requester.cancel_file remote id x.remote else x.remote;
            ctx = x.ctx;
          },
        )

        go :
            (r : Result (Bool × TransferError) (Unit {0})) (x : World S)
            → resume r undo x ≡ (ok u, v)
            → ◌≡◌ {A = Result (Bool × TransferError) (Unit {0}) × World S} (r, x) (ok u, v)
        go (ok a) x h = cc
        go (err e) x h = absurd cc
