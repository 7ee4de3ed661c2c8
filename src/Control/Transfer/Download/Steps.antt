-- ===== src/Control/Transfer/Download/Steps.antt =====
-- The steps of a download that returned.
use lan_commander.Base.{ℕ, ◌≡◌, sym, ap, ◌∙◌, false, not, arith, nat_eq}
use lan_commander.Base.Int.{ℤ, pos}
use lan_commander.Base.Exec.{Result, ok, err, raise, ◌>>◌, catch, ignore, resume}
use lan_commander.Base.Exec.Outcome.{ok_bind, ok_must, ok_refuse_if}
use lan_commander.Base.Text.{Text}
use lan_commander.Os.Disk.{flush, remove}
use lan_commander.Os.Disk.Frame.{Keeps-read_file}
use lan_commander.Os.Disk.Effect.{kept}
use lan_commander.Agent.Files.Upload.{eq_ℤ}
use lan_commander.Control.Transfer.{TransferError, local, Chunk, Requester, World, Transfer}
use lan_commander.Control.Transfer.Steps.{local_inv}
use lan_commander.Control.Transfer.Download.{
  Local, verify_checksum, check_chunk, check_final, or_remove,
}

eq_ℤ_pos : (m n : ℕ) → not (eq_ℤ (pos m) (pos n)) ≡ false → m ≡ n
eq_ℤ_pos m n h = ground arith

module _ {S : Type 0} (l : Local) (requester : Requester S) where
  pub check_chunk_same :
      (offset total : ℤ) (c : Chunk) (w v : World S) {u : Unit {0}}
      → check_chunk l requester offset total c w ≡ (ok u, v)
      → w ≡ v
  unfolding check_chunk
  check_chunk_same offset total c w v h =
      let (_, w1, e1, h1) = ok_bind _ _ w h in
      let (_, w2, e2, h2) = ok_bind _ _ w1 h1 in
      let (_, w3, e3, h3) = ok_bind _ _ w2 h2 in
      let (_, w4, e4, h4) = ok_bind _ _ w3 h3 in
      (ok_refuse_if _ _ _ w e1).1
      ∙ (ok_refuse_if _ _ _ w1 e2).1
      ∙ (ok_refuse_if _ _ _ w2 e3).1
      ∙ (ok_refuse_if _ _ _ w3 e4).1
      ∙ (ok_refuse_if _ _ _ w4 h4).1

  verify_checksum_keeps :
      (part sum q : Text) (w v : World S) {u : Unit {0}}
      → verify_checksum l requester part sum w ≡ (ok u, v)
      → (v.disk.files q ≡ w.disk.files q) × (v.remote ≡ w.remote)
  unfolding verify_checksum
  verify_checksum_keeps part sum q w v h =
      let (_, w1, e1, h1) = ok_bind _ _ w h in
      let (run, remote1) = local_inv _ w w1 (ok_must _ _ _ w e1) in
      let (_, same) = ok_refuse_if _ _ _ w1 h1 in
      (
        ap (λ (x : World S). x.disk.files q) (sym same) ∙ kept (Keeps-read_file part) run,
        ap (λ (x : World S). x.remote) (sym same) ∙ remote1,
      )

  -- The final chunk ends at its total size.
  pub check_final_ok :
      (part q : Text) (n : ℕ) (total : ℕ) (c : Chunk) (w v : World S) {u : Unit {0}}
      → c.total_size ≡ pos total
      → check_final l requester part (pos n) c w ≡ (ok u, v)
      → (n ≡ total) × (v.disk.files q ≡ w.disk.files q) × (v.remote ≡ w.remote)
  unfolding check_final
  check_final_ok part q n total c w v size h =
      let (_, w1, e1, h1) = ok_bind _ _ w h in
      let (_, w2, e2, h2) = ok_bind _ _ w1 h1 in
      let (ended, same1) = ok_refuse_if _ _ _ w e1 in
      let (_, same2) = ok_refuse_if _ _ _ w1 e2 in
      let (files, remote) = verify_checksum_keeps part c.checksum q w2 v h2 in
      (
        eq_ℤ_pos n total (ap (λ (z : ℤ). not (eq_ℤ (pos n) z)) (sym size) ∙ ended),
        files ∙ ap (λ (x : World S). x.disk.files q) (sym (same1 ∙ same2)),
        remote ∙ ap (λ (x : World S). x.remote) (sym (same1 ∙ same2)),
      )

  pub or_remove_ok :
      (part : Text) (m : Transfer S (Unit {0})) (w v : World S) {u : Unit {0}}
      → or_remove l requester part m w ≡ (ok u, v)
      → m w ≡ (ok u, v)
  unfolding or_remove catch raise
  or_remove_ok part m w v {u} h = go (m w).0 (m w).1 h
    where
      undo : TransferError → Transfer S (Unit {0})
      undo e = ignore (local flush) >> ignore (local (remove part)) >> raise e

      go :
          (r : Result TransferError (Unit {0})) (x : World S)
          → resume r undo x ≡ (ok u, v)
          → ◌≡◌ {A = Result TransferError (Unit {0}) × World S} (r, x) (ok u, v)
      go (ok a) x h = cc
      go (err e) x h = let (_, x1, e1, h1) = ok_bind _ _ x h in absurd (cc h1)
