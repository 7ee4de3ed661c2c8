-- ===== src/Agent/Files/Listing.antt =====
-- `ListDir` of agent/internal/filesystem/fs.go, with the payload of agent/internal/protocol/types.go.
pub mod Pages
use lan_commander.Base.{
  ℕ, ◌+◌, Bool, true, false, not, Option, none, some, List, [], ◌∷◌, if◌then◌else◌, ltb, length,
  slice,
}
use lan_commander.Base.Int.{ℤ, pos, pos_part, ltb_ℤ, leb_ℤ}
use lan_commander.Base.Exec.{Result, pure, raise, ◌>>=◌, ◌>>◌, refuse_if}
use lan_commander.Base.Text.{Text}
use lan_commander.Os.Path.{join}
use lan_commander.Os.Disk.{FileInfo, DirItem, Disk, stat, read_dir}
use lan_commander.Agent.Files.Host.{
  Host, invalid_offset, cannot_access, not_a_directory, cannot_read_directory, Op, is_directory,
  or_fail, resolve_path,
}

-- DirEntry
pub record DirEntry : Type 0 where
  pub name : Text
  pub path : Text
  pub is_dir : Bool
  pub size : ℕ
  pub mode : Text
  pub mod_time : Text

pub record DirContents : Type 0 where
  pub path : Text
  pub entries : List DirEntry
  pub total : ℕ
  pub next_offset : ℕ
  pub has_more : Bool

abbrev pub default_dir_entries : ℕ
default_dir_entries = 50

abbrev pub max_dir_entries : ℕ
max_dir_entries = 1000

abbrev pub limit_of : ℤ → ℕ
limit_of limit =
    if leb_ℤ limit (pos 0)
    then default_dir_entries
    else if ltb max_dir_entries (pos_part limit)
    then max_dir_entries
    else pos_part limit

-- The bounds of the page.
abbrev pub page_start : ℕ → ℕ → ℕ
page_start offset total = if ltb total offset then total else offset

abbrev pub page_end : ℕ → ℕ → ℕ → ℕ
page_end start limit total = if ltb total (start + limit) then total else start + limit

abbrev pub entry_of : Text → DirItem → FileInfo → DirEntry
entry_of safe e fi = record {
  name = e.name;
  path = join safe e.name;
  is_dir = e.is_dir;
  size = fi.size;
  mode = fi.mode;
  mod_time = fi.mod_time;
}

abbrev keep : Text → DirItem → Option FileInfo → List DirEntry → List DirEntry
keep safe e none rest = rest
keep safe e (some fi) rest = entry_of safe e fi ∷ rest

-- An item whose Info fails is left out.
unfoldable pub describe : Text → List DirItem → List DirEntry
describe safe [] = []
describe safe (e ∷ es) = keep safe e e.info (describe safe es)

unfoldable pub page : Text → List DirItem → ℕ → ℕ → DirContents
unfolding describe join
page safe entries offset limit =
    let total = length entries in
    let start = page_start offset total in
    let end = page_end start limit total in
    record {
      path = safe;
      entries = describe safe (slice start end entries);
      total = total;
      next_offset = end;
      has_more = ltb end total;
    }

unfoldable pub list_dir : Host → Text → ℤ → ℤ → Op DirContents
list_dir h path offset limit = do
  safe ← resolve_path h path
  refuse_if (ltb_ℤ offset (pos 0)) (pure tt) invalid_offset
  info ← or_fail (stat safe) cannot_access
  refuse_if (not (is_directory info)) (pure tt) not_a_directory
  entries ← or_fail (read_dir safe) cannot_read_directory
  pure (page safe entries (pos_part offset) (limit_of limit))
