-- ===== src/Control/Transfer/Upload/Tests.antt =====
-- An upload at a concrete input.
use lan_commander.Base.{
  ◌≡◌, refl, some, none, List, [], ◌∷◌, ◌++◌, ◌==◌, list_eq, nat_eq, if◌then◌else◌, arith,
}
use lan_commander.Base.Exec.{ok, ◌>>=◌, refuse_if}
use lan_commander.Base.Text.{Text, codes, trim_space}
use lan_commander.Os.Disk.{Bytes, Files, file}
use lan_commander.Control.Transfer.{SendFile, validate_request}
use lan_commander.Control.Transfer.Download.Served.{calm_world}
use lan_commander.Control.Transfer.Upload.{upload}
use lan_commander.Control.Transfer.Upload.Log.{recorder, contents, Sequence}
use lan_commander.Control.Transfer.Upload.Sending.{upload_sends}
use lan_commander.Control.Transfer.Upload.Cancel.{upload_cancels}
use lan_commander.Control.Transfer.{Requester}
use lan_commander.Base.{◌⊎◌, ℕ, ◌+◌}
use lan_commander.Base.Exec.{err}

abbrev b : Bytes
b = 1 ∷ 2 ∷ 3 ∷ []

abbrev sum : Bytes → Text
sum c = codes "d" ++ c

abbrev files : Files
files q = if q == codes "/a" then some (file b) else none

upload_sends_example :
    (log : List SendFile) × (upload sum recorder 4
        (codes "7")
        (codes "pc")
        (codes "/a")
        (codes "/r")
        (calm_world files [])
      ≡ (ok tt, calm_world files log))
    × Sequence (codes "/r") (codes "7") 3 (codes "d" ++ b) 0 log
    × (contents log ≡ b)
unfolding list_eq nat_eq validate_request ◌>>=◌ refuse_if trim_space
upload_sends_example =
    upload_sends sum (codes "7") (codes "pc") (codes "/a") (codes "/r") b files 4 refl refl
      (omega arith)

-- It counts the requests, and refuses every chunk.
abbrev unreachable : Requester ℕ
unreachable = record {
  get_file = λ p o n s. (err tt, s + 1);
  send_file = λ p s. (err tt, s + 1);
  cancel_file = λ p i s. s + 100;
}

upload_cancels_example :
    let o =
      upload sum unreachable 4
        (codes "7")
        (codes "pc")
        (codes "/a")
        (codes "/r")
        (calm_world files 5) in
    (o.0 ≡ ok tt) ⊎ (o.1.remote ≡ 5) ⊎ ((t : ℕ) × (o.1.remote ≡ t + 100))
upload_cancels_example =
    upload_cancels sum unreachable 4 (codes "7") (codes "pc") (codes "/a") (codes "/r")
      (calm_world files 5)
