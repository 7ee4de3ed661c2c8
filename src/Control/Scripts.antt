-- ===== src/Control/Scripts.antt =====
-- control-center/backend/scripting/engine.go. JSON, the clock, the names that os.CreateTemp chooses and
-- symbolic links are arguments. A script is a value here: that a caller of Get shares it with the
-- engine is not modelled.
pub mod Execute
pub mod Names
pub mod Saving
pub mod Named
pub mod Loading
mod Tests
use lan_commander.Base.{
  ℕ, Bool, true, not, ◌||◌, ◌&&◌, Option, none, some, List, [], ◌∷◌, ◌++◌, map, if◌then◌else◌, ◌==◌,
  nat_eq, list_eq,
}
use lan_commander.Base.Dict.{Dict, lookup, insert, erase}
use lan_commander.Base.Exec.{
  Exec, Result, ok, err, pure, raise, lift, gets, ◌>>=◌, ◌>>◌, catch, ignore, must, refuse_if,
}
use lan_commander.Base.Text.{Text, codes, is_empty, any, trim_space, has_suffix}
use lan_commander.Os.Path.{is_abs, base, dot, dotdot, join}
use lan_commander.Os.Disk.{
  Bytes, Disk, DirItem, OsError, not_exist, failed, Sys, mkdir_all, read_dir, read_file,
  open_create, write_at, flush, rename, remove,
}

-- Script
pub record Script : Type 0 where
  pub name : Text
  pub content : Text
  pub created_at : ℕ
  pub updated_at : ℕ

pub data ScriptError : Type 0 where
  empty_name invalid_name empty_content not_found : ScriptError
  cannot_create_directory cannot_read_directory cannot_marshal cannot_create_temp : ScriptError
  cannot_chmod cannot_write cannot_close cannot_rename cannot_delete : ScriptError

-- The directory of the scripts, and what is outside: json.MarshalIndent and json.Unmarshal, which may
-- fail, the name of a temporary file in a directory, and whether an entry is a symbolic link.
pub record Host : Type 0 where
  pub base_path : Text
  pub encode : Script → Option Bytes
  pub decode : Bytes → Option Script
  pub temp_name : Text → Text
  pub is_symlink : DirItem → Bool

-- The scripts of an engine, and the disk.
pub record World : Type 0 where
  pub scripts : Dict Text Script
  pub disk : Disk

abbrev pub Op : Type 0 → Type 0
Op A = Exec ScriptError World A

abbrev pub nothing : Op (Unit {0})
nothing = pure tt

abbrev is_slash_or_backslash : ℕ → Bool
is_slash_or_backslash c = c == b'/' || c == b'\\'

-- On Unix, filepath.VolumeName is always empty.
unfoldable pub validate_script_name : Text → Result ScriptError (Unit {0})
unfolding trim_space any base
validate_script_name name =
    if is_empty (trim_space name)
    then err empty_name
    else if name == dot || name == dotdot || any is_slash_or_backslash name || is_abs name
    then err invalid_name
    else if not (base name == name)
    then err invalid_name
    else ok tt

-- A call on the disk of the world.
unfoldable pub on_disk : {A : Type 0} → Sys A → Exec OsError World A
on_disk m w = let (r, d) = m w.disk in (r, record w { disk = d })

unfoldable pub set_scripts : (Dict Text Script → Dict Text Script) → Op (Unit {0})
set_scripts f w = (ok tt, record w { scripts = f w.scripts })

-- `return fmt.Errorf(...)` without cleanup.
abbrev pub fails_as : {A : Type 0} → Sys A → ScriptError → Op A
fails_as m e = must (on_disk m) nothing e

abbrev pub present : {A : Type 0} → Option A → ScriptError → Op A
present none e = raise e
present (some a) e = pure a

abbrev script_after : Text → Text → ℕ → Option Script → Script
script_after name content now none = record {
  name = name;
  content = content;
  created_at = now;
  updated_at = now;
}
script_after name content now (some s) = record s { content = content; updated_at = now }

module _ (h : Host) where
  -- filepath.Join(e.basePath, name+".json")
  unfoldable pub script_path : Text → Text
  unfolding join
  script_path name = join h.base_path (name ++ codes ".json")

  -- From the write to the rename. Permissions are not modelled: Chmod is a call that may fail.
  unfoldable pub write_script : Text → Text → Bytes → Op (Unit {0})
  write_script temp path content = do
    must (on_disk flush) (ignore (on_disk flush)) cannot_chmod
    must (on_disk (write_at temp content 0)) (ignore (on_disk flush)) cannot_write
    fails_as flush cannot_close
    fails_as (rename temp path) cannot_rename

  -- The deferred removal, whatever happened.
  unfoldable pub then_remove : Text → Op (Unit {0}) → Op (Unit {0})
  then_remove temp m w =
      let (r, v) = m w in (r, (ignore {F = ScriptError} (on_disk (remove temp)) v).1)

  unfoldable pub save_to_disk : Text → Op (Unit {0})
  unfolding validate_script_name
  save_to_disk name = do
    lift (validate_script_name name)
    fails_as (mkdir_all h.base_path) cannot_create_directory
    found ← gets (λ w. lookup name w.scripts)
    script ← present found not_found
    content ← present (h.encode script) cannot_marshal
    let path = script_path name
    let temp = h.temp_name h.base_path
    fails_as (open_create temp true) cannot_create_temp
    then_remove temp (write_script temp path content)

  unfoldable pub save : Text → Text → ℕ → Op (Unit {0})
  unfolding validate_script_name
  save name content now = do
    lift (validate_script_name name)
    refuse_if (is_empty (trim_space content)) nothing empty_content
    set_scripts (λ m. insert name (script_after name content now (lookup name m)) m)
    save_to_disk name

  unfoldable pub get : Text → Op Script
  unfolding validate_script_name
  get name = do
    lift (validate_script_name name)
    found ← gets (λ w. lookup name w.scripts)
    present found not_found

  -- `List`: the scripts without their keys.
  unfoldable pub list : World → List Script
  list w = map (λ entry. entry.1) w.scripts

  -- A file that is gone already is no error.
  abbrev pub unless_absent : OsError → Op (Unit {0})
  unless_absent not_exist = pure tt
  unless_absent failed = raise cannot_delete

  unfoldable pub delete : Text → Op (Unit {0})
  unfolding validate_script_name
  delete name = do
    lift (validate_script_name name)
    found ← gets (λ w. lookup name w.scripts)
    present found not_found
    set_scripts (λ m. erase name m)
    catch (on_disk (remove (script_path name))) unless_absent

  -- The entries that loadFromDisk reads.
  unfoldable pub loadable : DirItem → Bool
  unfolding has_suffix
  loadable item = not item.is_dir && not (h.is_symlink item) && has_suffix (codes ".json") item.name

  abbrev pub add_script : Option Script → Dict Text Script → Dict Text Script
  add_script none m = m
  add_script (some script) m = elim (validate_script_name script.name) [
    | ok _ ↦ insert script.name script m
    | err _ ↦ m
  ]

  abbrev pub add_content : Option Bytes → Dict Text Script → Dict Text Script
  add_content none m = m
  add_content (some content) m = add_script (h.decode content) m

  -- One turn of the loop; a file that cannot be read or parsed is skipped.
  unfoldable pub load_item : DirItem → Op (Unit {0})
  unfolding loadable
  load_item item = do
    content ←
        if loadable item
        then catch (on_disk (read_file (join h.base_path item.name)) >>= λ b. pure (some b))
            (λ _. pure none)
        else pure none
    set_scripts (add_content content)

  unfoldable pub load_items : List DirItem → Op (Unit {0})
  unfolding load_item
  load_items [] = nothing
  load_items (item ∷ items) = load_item item >> load_items items

  unfoldable pub load_from_disk : Op (Unit {0})
  load_from_disk = do
    fails_as (mkdir_all h.base_path) cannot_create_directory
    items ← fails_as (read_dir h.base_path) cannot_read_directory
    load_items items

  -- NewEngineWithPath: what could not be loaded is only logged.
  unfoldable pub new_engine_with_path : Disk → World
  unfolding load_from_disk
  new_engine_with_path d = (load_from_disk (record { scripts = []; disk = d })).1
