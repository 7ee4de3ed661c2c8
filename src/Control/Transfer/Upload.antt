-- ===== src/Control/Transfer/Upload.antt =====
-- `Upload` and `sendUploadChunk` of control-center/backend/transfer/transfer.go. An error carries
-- whether a chunk had been sent before it.
pub mod Log
pub mod Steps
pub mod Chunk
pub mod Rounds
pub mod Sending
pub mod Marks
pub mod Cancel
mod Tests
use lan_commander.Base.{
  ℕ, zero, suc, ◌+◌, Bool, true, false, not, ◌&&◌, Option, none, some, [], ◌++◌, if◌then◌else◌,
  length, ◌==◌, nat_eq, list_eq,
}
use lan_commander.Base.Int.{pos}
use lan_commander.Base.Exec.{Exec, err, pure, raise, ◌>>=◌, ◌>>◌, catch, refuse_if}
use lan_commander.Base.Text.{Text, is_empty}
use lan_commander.Os.Disk.{Bytes, open_read, stat, read}
use lan_commander.Agent.Files.Host.{is_directory, node_size}
use lan_commander.Agent.Files.Upload.{eq_ℤ}
use lan_commander.Control.Transfer.{
  TransferError, cannot_open_source, cannot_stat_source, not_regular, cannot_read_source,
  source_ended, request_failed, invalid_ack, ack_path_mismatch, ack_offset_mismatch,
  ack_final_mismatch, not_committed, out_of_fuel, Ack, SendFile, Requester, World, Transfer,
  default_chunk_size, local, remotely, check_ctx, nothing, fails_as, present, validate_request,
}

abbrev pub denies : Option Bool → Bool
denies none = false
denies (some committed) = not committed

abbrev pub Sending : Type 0 → Type 0
Sending S = Exec (Bool × TransferError) (World S) (Unit {0})

module _ {S : Type 0} where
  unfoldable pub tagged :
      {A : Type 0} → Bool → Transfer S A → Exec (Bool × TransferError) (World S) A
  tagged sent m = catch m (λ e. raise (sent, e))

module _ {S : Type 0} (digest : Bytes → Text) (requester : Requester S) where
  -- The acknowledgement of a payload.
  unfoldable pub check_ack : SendFile → Ack → Transfer S (Unit {0})
  check_ack p ack = do
    refuse_if (not (is_empty ack.path) && not (ack.path == p.path)) nothing ack_path_mismatch
    refuse_if (not (eq_ℤ ack.offset p.offset)) nothing ack_offset_mismatch
    refuse_if (not (eq_bool ack.final p.final)) nothing ack_final_mismatch
    refuse_if (p.final && denies ack.committed) nothing not_committed
    where
      eq_bool : Bool → Bool → Bool
      eq_bool true b = b
      eq_bool false b = not b

  unfoldable pub send_upload_chunk : SendFile → Transfer S (Unit {0})
  send_upload_chunk p = do
    check_ctx
    response ← fails_as (remotely (requester.send_file p)) request_failed
    ack ← present response invalid_ack
    check_ack p ack

  -- The payload of a chunk at an offset, `seen` what was hashed with it.
  abbrev pub payload : Text → Text → ℕ → ℕ → Bytes → Bytes → SendFile
  payload remote id total offset chunk seen = record {
    path = remote;
    content = chunk;
    offset = pos offset;
    total_size = pos total;
    final = offset + length chunk == total;
    checksum = if offset + length chunk == total then digest seen else [];
    transfer_id = id;
  }

  -- `io.EOF`
  unfoldable pub source_end : Text → Text → ℕ → Bool → Bytes → Sending S
  source_end remote id total sent seen =
      if total == 0
      then tagged true (send_upload_chunk (payload remote id 0 0 [] seen))
      else raise (sent, source_ended)

  -- The `for` loop, on fuel: one more than the bytes of the source is enough.
  unfoldable pub send_all : ℕ → Text → Text → Text → ℕ → Bool → ℕ → Bytes → Sending S
  send_all zero source remote id total sent offset seen = raise (sent, out_of_fuel)
  send_all (suc fuel) source remote id total sent offset seen = do
    tagged sent check_ctx
    chunk ←
        tagged sent (fails_as (local (read source offset default_chunk_size)) cannot_read_source)
    let rest = send_all fuel source remote id total true (offset + length chunk) (seen ++ chunk)
    if is_empty chunk
        then source_end remote id total sent seen
        else (tagged true (send_upload_chunk (payload remote id total offset chunk (seen ++ chunk)))
            >> (if offset + length chunk == total then pure tt else rest))

  -- The deferred cancellation, after an error.
  unfoldable pub or_cancel : Text → Text → Sending S → Transfer S (Unit {0})
  or_cancel remote id m = catch m (λ (e : Bool × TransferError) (w : World S). (
    err e.1,
    record {
      disk = w.disk;
      remote = if e.0 then requester.cancel_file remote id w.remote else w.remote;
      ctx = w.ctx;
    },
  ))

  unfoldable pub upload : ℕ → Text → Text → Text → Text → Transfer S (Unit {0})
  upload fuel id agent source remote = do
    validate_request agent source remote
    fails_as (local (open_read source)) cannot_open_source
    info ← fails_as (local (stat source)) cannot_stat_source
    refuse_if (is_directory info) nothing not_regular
    or_cancel remote id (send_all fuel source remote id (node_size info) false 0 [])
