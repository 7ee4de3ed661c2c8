-- ===== src/Control/Scripts/Tests.antt =====
-- Scripts at concrete inputs: JSON is a line for each field here, with numbers as one code point.
use lan_commander.Base.{
  ℕ, ◌+◌, ◌≡◌, ◌≢◌, refl, false, Option, none, some, inl, List, [], ◌∷◌, ◌++◌, length, take, drop,
  ap, sym, ne_of_==_false, if◌then◌else◌, ◌==◌, nat_eq, list_eq,
}
use lan_commander.Base.Int.{pos}
use lan_commander.Base.Dict.{lookup, insert}
use lan_commander.Base.Exec.{ok, ◌>>=◌, refuse_if, must, ignore}
use lan_commander.Base.Text.{Text, codes}
use lan_commander.Os.Disk.{
  Bytes, DirItem, Files, directory, calm_disk, mkdir_all, open_create, flush, write_at, rename,
  remove,
}
use lan_commander.Os.Path.Elements.{absolute, IsPlain}
use lan_commander.Control.Scripts.{
  Script, Host, World, script_path, save, new_engine_with_path, validate_script_name, loadable,
  set_scripts, save_to_disk, on_disk, then_remove, write_script,
}
use lan_commander.Control.Scripts.Execute.{Template, CommandExecutor}
use lan_commander.Control.Scripts.Names.{script_path_contained}
use lan_commander.Control.Scripts.Named.{Named, empty, save_call, delete_call, calls, engine-Named}
use lan_commander.Control.Scripts.Saving.{SaveOutcome, saved, save_whole}
use lan_commander.Control.Scripts.Loading.{load_saved}

-- The name and the content are measured by what stands in front.
abbrev encode : Script → Option Bytes
encode s = some (s.created_at ∷ s.updated_at ∷ length s.name ∷ s.name ++ s.content)

abbrev decode : Bytes → Option Script
decode (c ∷ u ∷ n ∷ rest) =
    some (record { name = take n rest; content = drop n rest; created_at = c; updated_at = u })
decode _ = none

abbrev host : Host
host = record {
  base_path = codes "/s";
  encode = encode;
  decode = decode;
  temp_name = λ dir. dir ++ codes "/.script-1.tmp";
  is_symlink = λ item. false;
}

abbrev listing : List DirItem
listing = record { name = codes "up.json"; is_dir = false; info = none } ∷ []

abbrev files : Files
files p = if p == codes "/s" then some (directory 0 listing) else none

abbrev start : World
start = record { scripts = []; disk = calm_disk files }

abbrev content : Text
content = codes "# both\nuptime\n\n false"

abbrev after : World
after = (save host (codes "up") content 5 start).1

path_runs : script_path host (codes "up") ≡ codes "/s/up.json"
unfolding script_path nat_eq list_eq
path_runs = refl

script_path_contained_example :
    (script_path host (codes "up")
      ≡ absolute ((codes "s" ∷ []) ++ (codes "up" ++ codes ".json") ∷ []))
    × IsPlain (codes "up" ++ codes ".json")
unfolding validate_script_name nat_eq list_eq
script_path_contained_example =
    script_path_contained host (codes "s" ∷ []) (codes "up") refl
      (
        (
          ne_of_==_false _ _ refl,
          ne_of_==_false _ _ refl,
          ne_of_==_false _ _ refl,
          (ne_of_==_false _ _ refl, tt),
        ),
        tt,
      )
      refl

engine-Named_example :
    Named
      (calls host
        (save_call (codes "up") content 5 ∷ delete_call (codes "down") ∷ [])
        (new_engine_with_path host start.disk)).scripts
engine-Named_example =
    engine-Named host (save_call (codes "up") content 5 ∷ delete_call (codes "down") ∷ [])
      start.disk

not_temp : script_path host (codes "up") ≢ host.temp_name host.base_path
unfolding script_path nat_eq list_eq
not_temp = ne_of_==_false _ _ refl

not_base : script_path host (codes "up") ≢ host.base_path
unfolding script_path nat_eq list_eq
not_base = ne_of_==_false _ _ refl

save_whole_example :
    SaveOutcome host
      (codes "up")
      (saved (codes "up") content 5 start)
      (start.disk.files (script_path host (codes "up")))
      (save host (codes "up") content 5 start)
save_whole_example = save_whole host (codes "up") content 5 not_temp not_base start

abbrev decode_option : Option Bytes → Option Script
decode_option none = none
decode_option (some b) = decode b

saves : (save host (codes "up") content 5 start).0 ≡ ok tt
unfolding save nat_eq list_eq ◌>>=◌ refuse_if set_scripts save_to_disk must on_disk mkdir_all lookup
    insert open_create then_remove write_script flush write_at rename script_path ignore remove
saves = refl

reads_back :
    (b : Bytes)
    → host.encode (saved (codes "up") content 5 start) ≡ some b
    → host.decode b ≡ some (saved (codes "up") content 5 start)
unfolding lookup
reads_back b e = ap decode_option (sym e)

keeps_listing : after.disk.files (codes "/s") ≡ some (directory 0 listing)
unfolding save nat_eq list_eq ◌>>=◌ refuse_if set_scripts save_to_disk must on_disk mkdir_all lookup
    insert open_create then_remove write_script flush write_at rename script_path ignore remove
keeps_listing = refl

load_saved_example :
    lookup (codes "up") (new_engine_with_path host (calm_disk after.disk.files)).scripts
    ≡ some (saved (codes "up") content 5 start)
unfolding loadable nat_eq list_eq
load_saved_example =
    load_saved host (codes "up") content 5 start after.disk.files 0 listing not_temp not_base empty
      saves reads_back refl keeps_listing (inl (refl, refl)) (inl refl, tt)

-- Every command is echoed, and "false" fails.
abbrev echo : CommandExecutor ℕ
echo command n = (
  ok (record {
    line_number = 0;
    command = [];
    stdout = command;
    stderr = [];
    exit_code = if command == codes "false" then pos 1 else pos 0;
    duration = pos 1;
  }),
  n + 1,
)

abbrev fixed : Script
fixed = record { name = codes "up"; content = content; created_at = 5; updated_at = 5 }

abbrev template : Template
template vars command = ok command
