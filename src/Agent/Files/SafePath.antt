-- ===== src/Agent/Files/SafePath.antt =====
-- `safePath` of agent/internal/filesystem/fs.go. The working directory is an argument: `none` where
-- os.Getwd fails.
pub mod Containment
mod Tests
use lan_commander.Base.{
  ℕ, Bool, true, false, ◌||◌, Option, none, some, List, [], ◌∷◌, if◌then◌else◌, ◌==◌, nat_eq,
  list_eq,
}
use lan_commander.Base.Exec.{Result, ok, err}
use lan_commander.Base.Text.{Text, fields_func}
use lan_commander.Os.Path.{is_abs, dotdot, slash, clean, join}

pub data PathError : Type 0 where
  path_traversal no_working_directory : PathError

abbrev pub is_separator : ℕ → Bool
is_separator c = c == slash || c == b'\\'

unfoldable pub has_dotdot : List Text → Bool
has_dotdot [] = false
has_dotdot (e ∷ es) = e == dotdot || has_dotdot es

-- filepath.Abs of a path that is relative.
abbrev pub resolve : Option Text → Text → Result PathError Text
resolve none cleaned = err no_working_directory
resolve (some cwd) cleaned = ok (join cwd cleaned)

unfoldable pub safe_path : Option Text → Text → Result PathError Text
unfolding has_dotdot
safe_path cwd path =
    if has_dotdot (fields_func is_separator path)
    then err path_traversal
    else if is_abs (clean path)
    then ok (clean path)
    else resolve cwd (clean path)
