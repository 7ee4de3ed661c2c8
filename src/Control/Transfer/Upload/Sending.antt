-- ===== src/Control/Transfer/Upload/Sending.antt =====
-- An upload to an agent that acknowledges every chunk.
use lan_commander.Base.{ℕ, ◌<◌, ◌≡◌, refl, some, List, [], length, list_eq, nat_eq}
use lan_commander.Base.Exec.{ok}
use lan_commander.Base.Text.{Text}
use lan_commander.Os.Disk.{Bytes, file, Files}
use lan_commander.Control.Transfer.{SendFile, validate_request}
use lan_commander.Control.Transfer.Download.Served.{calm_world}
use lan_commander.Control.Transfer.Upload.{upload}
use lan_commander.Control.Transfer.Upload.Log.{
  recorder, contents, Sequence, Logged, LoggedAll, recorder-Accepts,
}
use lan_commander.Control.Transfer.Upload.Rounds.{upload_accepted}

-- To an agent that acknowledges every chunk, from a local disk that refuses nothing and without a
-- cancellation, an upload of a file of `b` returns, in as many rounds as `b` has bytes and one more at
-- most. What was sent are chunks for the remote path with one transfer id and the size of `b`, each
-- from where the one before ended, which together are `b`; the last one alone is final, with the
-- checksum of `b`.
pub upload_sends :
    (digest : Bytes → Text) (id agent source remote : Text) (b : Bytes) (files : Files) (fuel : ℕ)
    → validate_request {S = List SendFile} agent source remote (calm_world files [])
      ≡ (ok tt, calm_world files [])
    → files source ≡ some (file b)
    → length b < fuel
    → (log : List SendFile) × (upload digest recorder fuel id agent source remote
          (calm_world files [])
        ≡ (ok tt, calm_world files log))
      × Sequence remote id (length b) (digest b) 0 log
      × (contents log ≡ b)
upload_sends digest id agent source remote b files fuel valid there enough =
    let (log, run, (seq, whole)) =
      upload_accepted digest recorder source remote id files (Logged remote id (digest b) b)
        (LoggedAll remote id (digest b) b) agent b fuel [] there
        (recorder-Accepts digest remote id b) valid enough ((λ rest seq. seq), refl) in
    (log, run, seq, whole)
