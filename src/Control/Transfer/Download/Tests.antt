-- ===== src/Control/Transfer/Download/Tests.antt =====
-- Downloads at a concrete input.
use lan_commander.Base.{
  ◌≡◌, ◌≢◌, refl, Option, none, some, [], ◌∷◌, ◌++◌, if◌then◌else◌, ◌==◌, list_eq, nat_eq,
  ne_of_==_false, ◌⊎◌,
}
use lan_commander.Base.Int.{ℤ, pos, negsuc}
use lan_commander.Base.Exec.{ok, err}
use lan_commander.Base.Text.{Text, codes}
use lan_commander.Os.Disk.{Bytes, Files, pass, tear, file, directory}
use lan_commander.Control.Transfer.{Requester, World, Chunk}
use lan_commander.Control.Transfer.Download.{Local, download}
use lan_commander.Control.Transfer.Download.Served.{served}
use lan_commander.Control.Transfer.Download.Destination.{download_keeps_destination}

abbrev b : Bytes
b = 1 ∷ 2 ∷ 3 ∷ []

abbrev machine : Local
machine = record {
  digest = λ c. codes "d" ++ c;
  absolute = λ p. some p;
  temp_name = λ d. codes "/.t";
}

abbrev answer : ℤ → Option Chunk
answer (pos o) = some (served (λ c. codes "d" ++ c) b o)
answer (negsuc n) = none

abbrev agent : Requester (Unit {0})
agent = record {
  get_file = λ p z n s. (ok (answer z), s);
  send_file = λ p s. (err tt, s);
  cancel_file = λ p i s. s;
}

abbrev target : Text
target = codes "/a"

abbrev files : Files
files q =
    if q == codes "/"
    then some (directory 0 [])
    else if q == target
    then some (file (9 ∷ []))
    else none

-- The first write of a chunk fails after one byte.
abbrev faulty : World (Unit {0})
faulty = record {
  disk = record { files = files; faults = pass ∷ pass ∷ tear 1 ∷ [] };
  remote = tt;
  ctx = [];
}

target_not_temp : target ≢ codes "/.t"
unfolding list_eq nat_eq
target_not_temp = ne_of_==_false target (codes "/.t") refl

download_keeps_destination_example :
    let o = download machine agent 5 (codes "pc") (codes "/r") target faulty in
    (o.1.disk.files target ≡ some (file (9 ∷ []))) ⊎ (o.0 ≡ ok tt)
unfolding list_eq nat_eq
download_keeps_destination_example =
    download_keeps_destination machine agent 5 (codes "pc") (codes "/r") target target faulty refl
      target_not_temp
