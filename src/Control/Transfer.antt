-- ===== src/Control/Transfer.antt =====
-- control-center/backend/transfer/transfer.go. The agent is a requester: an action on a state of its
-- own that may fail. `ctx.Err()` takes one answer from a list, so that the context may be cancelled
-- between any two steps.
pub mod Steps
pub mod Download
pub mod Upload
pub mod Remote
use lan_commander.Base.{
  ℕ, Bool, true, false, not, ◌&&◌, ◌||◌, Option, none, some, List, [], ◌∷◌, if◌then◌else◌, ltb,
  length,
}
use lan_commander.Base.Int.{ℤ, pos, ltb_ℤ, leb_ℤ}
use lan_commander.Base.Exec.{
  Exec, Result, ok, err, pure, raise, ◌>>=◌, ◌>>◌, catch, refuse_if, must,
}
use lan_commander.Base.Text.{Text, is_empty, trim_space}
use lan_commander.Os.Disk.{Bytes, Disk, OsError, Sys}

pub data TransferError : Type 0 where
  no_agent no_path no_destination cancelled : TransferError
  bad_local_path no_parent parent_not_directory cannot_create_temp : TransferError
  request_failed invalid_response offset_mismatch chunk_too_large size_changed invalid_chunk_size :
      TransferError
  empty_chunk cannot_write final_too_early final_too_late missing_checksum : TransferError
  cannot_verify checksum_mismatch cannot_flush cannot_close cannot_finalize : TransferError
  cannot_open_source cannot_stat_source not_regular cannot_read_source source_ended : TransferError
  invalid_ack ack_path_mismatch ack_offset_mismatch ack_final_mismatch not_committed : TransferError
  out_of_fuel : TransferError

-- fileChunkPayload
pub record Chunk : Type 0 where
  pub content : Bytes
  pub offset : ℤ
  pub total_size : ℤ
  pub final : Bool
  pub checksum : Text

-- sendFilePayload
pub record SendFile : Type 0 where
  pub path : Text
  pub content : Bytes
  pub offset : ℤ
  pub total_size : ℤ
  pub final : Bool
  pub checksum : Text
  pub transfer_id : Text

-- fileAckPayload
pub record Ack : Type 0 where
  pub path : Text
  pub offset : ℤ
  pub final : Bool
  pub committed : Option Bool

-- The requests of a transfer. An answer is `none` if there is no response, if it has the wrong type
-- where the type is looked at, or if its payload does not decode.
pub record Requester (S : Type 0) : Type 0 where
  pub get_file : Text → ℤ → ℕ → S → Result (Unit {0}) (Option Chunk) × S
  pub send_file : SendFile → S → Result (Unit {0}) (Option Ack) × S
  pub cancel_file : Text → Text → S → S

pub record World (S : Type 0) : Type 0 where
  pub disk : Disk
  pub remote : S
  pub ctx : List Bool

abbrev pub default_chunk_size : ℕ
default_chunk_size = 65536

abbrev pub Transfer : Type 0 → Type 0 → Type 0
Transfer S A = Exec TransferError (World S) A

abbrev pub first_answer : List Bool → Bool
first_answer [] = false
first_answer (b ∷ bs) = b

abbrev pub later_answers : List Bool → List Bool
later_answers [] = []
later_answers (b ∷ bs) = bs

module _ {S : Type 0} where
  -- A call of package os on the local disk.
  unfoldable pub local : {A : Type 0} → Sys A → Exec OsError (World S) A
  local m w = let (r, d) = m w.disk in (r, record { disk = d; remote = w.remote; ctx = w.ctx })

  -- A request; the answer changes the requester's state alone.
  unfoldable pub remotely :
      {A : Type 0} → (S → Result (Unit {0}) A × S) → Exec (Unit {0}) (World S) A
  remotely m w = let (r, s) = m w.remote in (r, record { disk = w.disk; remote = s; ctx = w.ctx })

  abbrev pub cancelled_or_not : Bool → World S → Result TransferError (Unit {0}) × World S
  cancelled_or_not true w = (err cancelled, w)
  cancelled_or_not false w = (ok tt, w)

  -- `if err := ctx.Err(); err != nil`
  unfoldable pub check_ctx : Transfer S (Unit {0})
  check_ctx w =
      cancelled_or_not (first_answer w.ctx)
        (record { disk = w.disk; remote = w.remote; ctx = later_answers w.ctx })

  abbrev pub nothing : Transfer S (Unit {0})
  nothing = pure tt

  -- `if err := m; err != nil { return e }`
  abbrev pub fails_as : {E A : Type 0} → Exec E (World S) A → TransferError → Transfer S A
  fails_as m e = must m nothing e

  abbrev pub present : {A : Type 0} → Option A → TransferError → Transfer S A
  present none e = raise e
  present (some a) e = pure a

  -- The context and the requester are there.
  unfoldable pub validate_request : Text → Text → Text → Transfer S (Unit {0})
  validate_request agent first second = do
    refuse_if (is_empty (trim_space agent)) nothing no_agent
    refuse_if (is_empty (trim_space first)) nothing no_path
    refuse_if (is_empty (trim_space second)) nothing no_destination
