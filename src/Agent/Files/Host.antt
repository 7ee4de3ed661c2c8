-- ===== src/Agent/Files/Host.antt =====
-- What the operations of agent/internal/filesystem/fs.go share: the machine, the errors, and the
-- operations that only inspect a path.
pub mod Resolve
use lan_commander.Base.{ℕ, Bool, true, false, not, ◌&&◌, Option, none, some, if◌then◌else◌, length}
use lan_commander.Base.Exec.{Result, ok, err, Exec, pure, raise, lift, ◌>>=◌, ◌>>◌, catch}
use lan_commander.Base.Text.{Text}
use lan_commander.Os.Disk.{
  Bytes, Node, file, directory, Disk, OsError, not_exist, failed, stat, open_read, read_file,
}
use lan_commander.Agent.Files.SafePath.{PathError, safe_path}

-- The working directory, and the hexadecimal SHA-256 digest, which is any function here.
pub record Host : Type 0 where
  pub cwd : Option Text
  pub digest : Bytes → Text

pub data FileError : Type 0 where
  bad_path : PathError → FileError
  invalid_offset cannot_access not_a_directory cannot_read_directory : FileError
  cannot_open cannot_stat beyond_file_size read_error : FileError
  cannot_open_for_writing cannot_extend write_error short_write : FileError
  empty_transfer_id invalid_transfer_id invalid_bounds chunk_too_large exceeds_total_size :
      FileError
  empty_chunk final_too_short reaches_total_size : FileError
  cannot_create_temp cannot_create_meta cannot_read_meta total_size_changed cannot_resume :
      FileError
  offset_mismatch cannot_open_temp cannot_write_chunk cannot_flush cannot_close : FileError
  missing_checksum cannot_checksum checksum_mismatch cannot_finalize cannot_remove : FileError

-- An operation of the package.
abbrev pub Op : Type 0 → Type 0
Op A = Exec FileError Disk A

abbrev pub default_chunk_size : ℕ
default_chunk_size = 65536

abbrev pub max_chunk_size : ℕ
max_chunk_size = 4194304

abbrev pub checked {ℓ} : {A : Type ℓ} → Result PathError A → Result FileError A
checked (ok a) = ok a
checked (err e) = err (bad_path e)

unfoldable pub resolve_path : Host → Text → Op Text
unfolding safe_path lift
resolve_path h path = lift (checked (safe_path h.cwd path))

-- os.FileInfo.Size
abbrev pub node_size : Node → ℕ
node_size (file b) = length b
node_size (directory z l) = z

abbrev pub is_directory : Node → Bool
is_directory (file b) = false
is_directory (directory z l) = true

-- An error that needs no cleanup.
abbrev pub or_fail : {A : Type 0} → Exec OsError Disk A → FileError → Op A
or_fail m e = catch m (λ _. raise e)

-- io.Copy of the whole file into the hash.
unfoldable pub file_sha256 : Host → Text → Op Text
file_sha256 h path = do
  safe ← resolve_path h path
  or_fail (open_read safe) cannot_open
  bytes ← or_fail (read_file safe) cannot_checksum
  pure (h.digest bytes)

unfoldable pub file_size : Host → Text → Op ℕ
file_size h path = do
  safe ← resolve_path h path
  node ← or_fail (stat safe) cannot_stat
  pure (node_size node)

-- An absent path is an answer, any other failure an error.
abbrev absence : OsError → Op (Option Node)
absence not_exist = pure none
absence failed = raise cannot_access

abbrev judge_path : Bool → Option Node → Op Bool
judge_path must_be_dir none = pure false
judge_path must_be_dir (some node) =
    if must_be_dir && not (is_directory node) then raise not_a_directory else pure true

unfoldable pub path_exists : Host → Text → Bool → Op Bool
path_exists h path must_be_dir = do
  safe ← resolve_path h path
  found ← catch (stat safe >>= λ node. pure (some node)) absence
  judge_path must_be_dir found
