-- ===== src/Agent/Files/Upload/Machine.antt =====
-- A machine, a destination and a transfer id to test uploads with.
use lan_commander.Base.{
  ◌≡◌, ◌≢◌, refl, ap, none, some, [], ◌∷◌, ◌++◌, list_eq, nat_eq, if◌then◌else◌, ◌==◌,
  ne_of_==_false, subst, sym,
}
use lan_commander.Base.Exec.{ok}
use lan_commander.Base.Text.{Text, codes, fields_func}
use lan_commander.Os.Disk.{file, Disk}
use lan_commander.Agent.Files.SafePath.{safe_path}
use lan_commander.Agent.Files.Host.{Host}
use lan_commander.Agent.Files.Upload.{temp_path, meta_path}
use lan_commander.Os.Path.{clean, dir, join}

abbrev pub machine : Host
machine = record { cwd = none; digest = λ b. codes "d" ++ b }

abbrev pub target : Text
target = codes "/a"

abbrev pub transfer : Text
transfer = codes "7"

abbrev pub temp : Text
temp = codes "/.lan-commander-upload-7.part"

abbrev pub meta : Text
meta = codes "/.lan-commander-upload-7.part.meta"

abbrev pub other : Text
other = codes "/b"

abbrev pub fresh : Disk
fresh = record { files = λ q. if q == target then some (file (9 ∷ [])) else none; faults = [] }

pub temp_is : temp_path target transfer ≡ temp
unfolding temp_path dir join list_eq nat_eq
temp_is = refl

pub resolves : safe_path none target ≡ ok target
unfolding safe_path list_eq nat_eq fields_func clean
resolves = refl

pub temp_not_target : temp_path target transfer ≢ target
unfolding list_eq nat_eq
temp_not_target = subst (λ (x : Text). x ≢ target) (sym temp_is) (ne_of_==_false temp target refl)

pub meta_is : meta_path target transfer ≡ meta
unfolding meta_path
meta_is = ap (λ (x : Text). x ++ codes ".meta") temp_is

pub not_meta : target ≢ meta_path target transfer
unfolding list_eq nat_eq
not_meta = subst (λ (x : Text). target ≢ x) (sym meta_is) (ne_of_==_false target meta refl)

pub own_temp : safe_path none temp ≡ ok temp
unfolding safe_path list_eq nat_eq fields_func clean
own_temp = refl

pub own : safe_path none (temp_path target transfer) ≡ ok (temp_path target transfer)
own = subst (λ (x : Text). safe_path none x ≡ ok x) (sym temp_is) own_temp
