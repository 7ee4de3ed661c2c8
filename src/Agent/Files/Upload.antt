-- ===== src/Agent/Files/Upload.antt =====
-- `WriteAtomicUploadChunk` and `CancelAtomicUpload` of agent/internal/filesystem/fs.go. An upload
-- grows in a temporary file beside the destination, with its total size in a second file, until the
-- final chunk is verified and the temporary file renamed.
pub mod Frame
pub mod Bounds
pub mod Receive
pub mod Commit
pub mod Assembly
pub mod Cleanup
pub mod Stored
pub mod Success
pub mod Machine
mod Tests
use lan_commander.Base.{
  ℕ, Bool, true, false, not, ◌&&◌, ◌||◌, Option, none, some, List, [], ◌∷◌, ◌++◌, if◌then◌else◌,
  ltb, ◌==◌, nat_eq, length,
}
use lan_commander.Base.Int.{ℤ, pos, pos_part, ltb_ℤ, leb_ℤ, ◌+64◌}
use lan_commander.Base.Decimal.{format_int, parse_int}
use lan_commander.Base.Exec.{
  Exec, Result, ok, err, pure, raise, ◌>>=◌, ◌>>◌, catch, ignore, refuse_if, must,
}
use lan_commander.Base.Text.{Text, codes, is_empty, trim_space, any, contains, equal_fold}
use lan_commander.Os.Path.{dotdot, dir, join}
use lan_commander.Os.Disk.{
  Bytes, Node, Disk, Sys, OsError, not_exist, failed, stat, read_file, open_write, flush,
  write_file, write_at, remove, rename,
}
use lan_commander.Agent.Files.SafePath.{is_separator}
use lan_commander.Agent.Files.Host.{
  Host, FileError, empty_transfer_id, invalid_transfer_id, invalid_bounds, chunk_too_large,
  exceeds_total_size, empty_chunk, final_too_short, reaches_total_size, cannot_create_temp,
  cannot_create_meta, cannot_read_meta, total_size_changed, cannot_resume, offset_mismatch,
  cannot_open_temp, cannot_write_chunk, short_write, cannot_flush, cannot_close, missing_checksum,
  cannot_checksum, checksum_mismatch, cannot_finalize, cannot_remove, Op, default_chunk_size,
  node_size, resolve_path, file_sha256,
}

abbrev pub eq_ℤ : ℤ → ℤ → Bool
eq_ℤ a b = leb_ℤ a b && leb_ℤ b a

abbrev pub nothing : Op (Unit {0})
nothing = pure tt

unfoldable pub check_transfer_id : Text → Op (Unit {0})
check_transfer_id id = do
  refuse_if (is_empty (trim_space id)) nothing empty_transfer_id
  refuse_if (any is_separator id || contains dotdot id) nothing invalid_transfer_id

unfoldable pub temp_path : Text → Text → Text
temp_path safe id = join (dir safe) (codes ".lan-commander-upload-" ++ id ++ codes ".part")

unfoldable pub meta_path : Text → Text → Text
meta_path safe id = temp_path safe id ++ codes ".meta"

-- The closure `cleanup`.
unfoldable pub cleanup : Text → Text → Op (Unit {0})
cleanup temp meta = ignore (remove temp) >> ignore (remove meta)

-- The arguments, and what to undo where they are refused.
unfoldable pub check_bounds : Op (Unit {0}) → Bytes → ℤ → ℤ → Bool → Op (Unit {0})
check_bounds undo chunk offset total final = do
  let reach = offset +64 pos (length chunk)
  refuse_if (ltb_ℤ offset (pos 0) || ltb_ℤ total (pos 0)) undo invalid_bounds
  refuse_if (ltb default_chunk_size (length chunk)) undo chunk_too_large
  refuse_if (ltb_ℤ total reach) undo exceeds_total_size
  refuse_if (not final && is_empty chunk) undo empty_chunk
  refuse_if (final && not (eq_ℤ reach total)) undo final_too_short
  refuse_if (not final && leb_ℤ total reach) undo reaches_total_size

-- `offset == 0`: a new upload.
unfoldable pub begin : Text → Text → ℤ → Op (Unit {0})
begin temp meta total = do
  must (write_file temp []) (cleanup temp meta) cannot_create_temp
  must (write_file meta (format_int total)) (cleanup temp meta) cannot_create_meta

abbrev pub is_total : Option ℤ → ℤ → Bool
is_total none total = false
is_total (some expected) total = eq_ℤ expected total

unfoldable pub continue_upload : Text → Text → ℤ → ℤ → Op (Unit {0})
continue_upload temp meta offset total = do
  metadata ← must (read_file meta) (cleanup temp meta) cannot_read_meta
  refuse_if (not (is_total (parse_int (trim_space metadata)) total)) (cleanup temp meta)
      total_size_changed
  node ← must (stat temp) (cleanup temp meta) cannot_resume
  refuse_if (not (eq_ℤ (pos (node_size node)) offset)) (cleanup temp meta) offset_mismatch

-- `file.Close()` without a look at its error, before the cleanup.
unfoldable pub close_cleanup : Text → Text → Op (Unit {0})
close_cleanup temp meta = ignore flush >> cleanup temp meta

unfoldable pub write_chunk : Text → Text → Bytes → ℕ → Op (Unit {0})
write_chunk temp meta chunk offset = if is_empty chunk then nothing else do
  n ← must (write_at temp chunk offset) (close_cleanup temp meta) cannot_write_chunk
  refuse_if (not (n == length chunk)) (close_cleanup temp meta) short_write

-- Sync and Close are two calls.
unfoldable pub store : Text → Text → Bytes → ℕ → Op (Unit {0})
store temp meta chunk offset = do
  must (open_write temp) (cleanup temp meta) cannot_open_temp
  write_chunk temp meta chunk offset
  must flush (close_cleanup temp meta) cannot_flush
  must flush (cleanup temp meta) cannot_close

unfoldable pub verify : Host → Text → Text → Text → Op (Unit {0})
verify h temp meta checksum = do
  refuse_if (is_empty (trim_space checksum)) (cleanup temp meta) missing_checksum
  actual ← must (file_sha256 h temp) (cleanup temp meta) cannot_checksum
  refuse_if (not (equal_fold actual checksum)) (cleanup temp meta) checksum_mismatch

unfoldable pub finalize : Text → Text → Text → Op (Unit {0})
finalize temp meta safe = do
  must (rename temp safe) (cleanup temp meta) cannot_finalize
  ignore (remove meta)

-- All that comes before the final chunk is verified.
unfoldable pub receive : Text → Text → Bytes → ℤ → ℤ → Bool → Op (Unit {0})
receive temp meta chunk offset total final = do
  check_bounds (cleanup temp meta) chunk offset total final
  if eq_ℤ offset (pos 0) then begin temp meta total else continue_upload temp meta offset total
  store temp meta chunk (pos_part offset)

-- What follows the resolution of the path.
unfoldable pub deliver : Host → Text → Text → Text → Bytes → ℤ → ℤ → Bool → Text → Op (Unit {0})
deliver h safe temp meta chunk offset total final checksum = do
  receive temp meta chunk offset total final
  if final then verify h temp meta checksum >> finalize temp meta safe else nothing

unfoldable pub write_atomic_upload_chunk :
    Host → Text → Text → Bytes → ℤ → ℤ → Bool → Text → Op (Unit {0})
write_atomic_upload_chunk h path id chunk offset total final checksum = do
  check_transfer_id id
  safe ← resolve_path h path
  deliver h safe (temp_path safe id) (meta_path safe id) chunk offset total final checksum

-- An absent file is no error here.
abbrev tolerate : OsError → Op (Unit {0})
tolerate not_exist = pure tt
tolerate failed = raise cannot_remove

unfoldable pub cancel_atomic_upload : Host → Text → Text → Op (Unit {0})
cancel_atomic_upload h path id = do
  check_transfer_id id
  safe ← resolve_path h path
  catch (remove (temp_path safe id)) tolerate
  catch (remove (meta_path safe id)) tolerate
