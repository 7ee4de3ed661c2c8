-- ===== src/Control/Listing/Tests.antt =====
-- A listing at a concrete input.
use lan_commander.Base.{
  ℕ, ◌≡◌, refl, Bool, false, Option, none, some, List, [], ◌∷◌, if◌then◌else◌, ◌==◌, list_eq,
  nat_eq, length, arith,
}
use lan_commander.Base.Int.{pos}
use lan_commander.Base.Exec.{ok}
use lan_commander.Base.Text.{Text, codes}
use lan_commander.Os.Disk.{Files, DirItem, directory, calm_disk}
use lan_commander.Agent.Files.SafePath.{safe_path}
use lan_commander.Agent.Files.Host.{Host}
use lan_commander.Agent.Files.Listing.{DirContents, list_dir}
use lan_commander.Control.Listing.{list_dir_pages}
use lan_commander.Control.Listing.Complete.{Whole, list_dir_pages-Whole}

abbrev host : Host
host = record { cwd = none; digest = λ b. b }

abbrev path : Text
path = codes "/a"

abbrev items : List DirItem
items =
    record { name = codes "x"; is_dir = false; info = none }
    ∷ record {
      name = codes "y";
      is_dir = false;
      info = some (record { size = 3; mode = []; mod_time = [] });
    }
    ∷ []

abbrev files : Files
files q = if q == path then some (directory 4096 items) else none

list_dir_pages-Whole_example :
    (c : DirContents) × (list_dir_pages
        (λ o l. list_dir host path (pos o) (pos l))
        (calm_disk files)
      ≡ (ok (some c), calm_disk files))
    × Whole path items c
unfolding safe_path list_eq nat_eq lan_commander.Base.Text.fields_func lan_commander.Os.Path.clean
list_dir_pages-Whole_example =
    list_dir_pages-Whole host path path 4096 items files refl refl (omega arith)
