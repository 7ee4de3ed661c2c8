-- ===== src/Control/Transfer/Download.antt =====
-- `Download` of control-center/backend/transfer/transfer.go.
pub mod Served
pub mod Rounds
pub mod Destination
pub mod Delivery
pub mod Steps
pub mod Arrival
mod Tests
use lan_commander.Base.{
  ℕ, zero, suc, ◌+◌, Bool, true, false, not, ◌&&◌, ◌||◌, Option, none, some, List, [], ◌∷◌,
  if◌then◌else◌, ltb, length, ◌==◌, nat_eq,
}
use lan_commander.Base.Int.{ℤ, pos, negsuc, ltb_ℤ, leb_ℤ, ◌+64◌}
use lan_commander.Base.Exec.{
  Exec, Result, ok, err, pure, raise, ◌>>=◌, ◌>>◌, catch, ignore, refuse_if, must,
}
use lan_commander.Base.Text.{Text, is_empty, equal_fold}
use lan_commander.Os.Path.{dir}
use lan_commander.Os.Disk.{
  Bytes, Disk, OsError, stat, open_create, write_at, read_file, flush, rename, remove,
}
use lan_commander.Agent.Files.Host.{is_directory}
use lan_commander.Agent.Files.Upload.{eq_ℤ}
use lan_commander.Control.Transfer.{
  TransferError, cancelled, bad_local_path, no_parent, parent_not_directory, cannot_create_temp,
  request_failed, invalid_response, offset_mismatch, chunk_too_large, size_changed,
  invalid_chunk_size, empty_chunk, cannot_write, final_too_early, final_too_late, missing_checksum,
  cannot_verify, checksum_mismatch, cannot_flush, cannot_close, cannot_finalize, out_of_fuel, Chunk,
  Requester, World, default_chunk_size, Transfer, local, remotely, check_ctx, nothing, fails_as,
  present, validate_request,
}

-- The digest, and what the system decides: the absolute form of the local path, `none` where there is
-- none, and the name of the temporary file, which no file has.
pub record Local : Type 0 where
  pub digest : Bytes → Text
  pub absolute : Text → Option Text
  pub temp_name : Text → Text

module _ {S : Type 0} (l : Local) (requester : Requester S) where
  unfoldable pub verify_checksum : Text → Text → Transfer S (Unit {0})
  verify_checksum part expected = do
    content ← fails_as (local (read_file part)) cannot_verify
    refuse_if (not (equal_fold (l.digest content) expected)) nothing checksum_mismatch

  -- The guards on a chunk, with the total size known before it, negative for the first chunk.
  unfoldable pub check_chunk : ℤ → ℤ → Chunk → Transfer S (Unit {0})
  check_chunk offset total chunk = do
    refuse_if (not (eq_ℤ chunk.offset offset)) nothing offset_mismatch
    refuse_if (ltb default_chunk_size (length chunk.content)) nothing chunk_too_large
    refuse_if (not (ltb_ℤ total (pos 0)) && not (eq_ℤ chunk.total_size total)) nothing size_changed
    refuse_if
        (ltb_ℤ chunk.total_size (pos 0)
          || ltb_ℤ chunk.total_size (offset +64 pos (length chunk.content)))
        nothing invalid_chunk_size
    refuse_if (not chunk.final && is_empty chunk.content) nothing empty_chunk

  -- The end of the loop, after the final chunk.
  unfoldable pub check_final : Text → ℤ → Chunk → Transfer S (Unit {0})
  check_final part offset chunk = do
    refuse_if (not (eq_ℤ offset chunk.total_size)) nothing final_too_early
    refuse_if (is_empty chunk.checksum) nothing missing_checksum
    verify_checksum part chunk.checksum

  -- The `for` loop, on fuel: one more than the bytes that are left is enough. `written` is the position
  -- of the temporary file.
  unfoldable pub fetch : ℕ → Text → Text → ℕ → ℤ → ℤ → Transfer S (Unit {0})
  fetch zero remote part written offset total = raise out_of_fuel
  fetch (suc fuel) remote part written offset total = do
    check_ctx
    response ←
        fails_as (remotely (requester.get_file remote offset default_chunk_size)) request_failed
    chunk ← present response invalid_response
    check_chunk offset total chunk
    fails_as (local (write_at part chunk.content written)) cannot_write
    let next = offset +64 pos (length chunk.content)
    let rest = fetch fuel remote part (written + length chunk.content) next chunk.total_size
    if chunk.final
        then check_final part next chunk
        else (refuse_if (leb_ℤ chunk.total_size next) nothing final_too_late >> rest)

  -- Everything from the creation of the temporary file to the rename.
  unfoldable pub receive_file : ℕ → Text → Text → Text → Transfer S (Unit {0})
  receive_file fuel remote part destination = do
    fetch fuel remote part 0 (pos 0) (negsuc 0)
    fails_as (local flush) cannot_flush
    fails_as (local flush) cannot_close
    fails_as (local (rename part destination)) cannot_finalize

  -- The deferred removal of the temporary file.
  unfoldable pub or_remove : Text → Transfer S (Unit {0}) → Transfer S (Unit {0})
  or_remove part m = catch m (λ e. ignore (local flush) >> ignore (local (remove part)) >> raise e)

  -- What follows the resolution of the local path.
  unfoldable pub download_to : ℕ → Text → Text → Transfer S (Unit {0})
  download_to fuel remote destination = do
    info ← fails_as (local (stat (dir destination))) no_parent
    refuse_if (not (is_directory info)) nothing parent_not_directory
    let part = l.temp_name destination
    fails_as (local (open_create part true)) cannot_create_temp
    or_remove part (receive_file fuel remote part destination)

  unfoldable pub download : ℕ → Text → Text → Text → Transfer S (Unit {0})
  download fuel agent remote path = do
    validate_request agent remote path
    destination ← present (l.absolute path) bad_local_path
    download_to fuel remote destination
