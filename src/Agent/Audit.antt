-- ===== src/Agent/Audit.antt =====
-- agent/internal/audit/audit.go: the log file, its rotation, and what a line holds. json.Marshal is an
-- argument. Times are numbers, of which 0 is the zero time.
pub mod Rotation
pub mod Newest
mod Tests
use lan_commander.Base.{
  ℕ, ◌+◌, ◌*◌, Bool, true, false, Option, none, some, [], ◌∷◌, ◌++◌, if◌then◌else◌, ltb, leb,
  length, take, ◌==◌, nat_eq,
}
use lan_commander.Base.Exec.{Exec, Result, ok, err, pure, ◌>>=◌, ◌>>◌, must, ignore}
use lan_commander.Base.Text.{Text, codes}
use lan_commander.Os.Path.{dir}
use lan_commander.Os.Disk.{
  Bytes, Disk, OsError, mkdir_all, open_create, stat, flush, remove, rename, append,
}
use lan_commander.Agent.Files.Host.{node_size}

abbrev pub default_max_size : ℕ
default_max_size = 5 * 1024 * 1024

abbrev pub max_detail_runes : ℕ
max_detail_runes = 512

-- Event
pub record Event : Type 0 where
  pub time : ℕ
  pub action : Text
  pub result : Text
  pub remote : Text
  pub client : Text
  pub user : Text
  pub detail : Text

-- Logger; `file_open` is whether its file is not nil.
pub record Logger : Type 0 where
  pub path : Text
  pub file_open : Bool
  pub size : ℕ
  pub max_size : ℕ

pub data AuditError : Type 0 where
  cannot_create_directory cannot_open cannot_stat : AuditError

abbrev pub nothing : Exec AuditError Disk (Unit {0})
nothing = pure tt

-- At most so many characters, and an ellipsis where there were more.
unfoldable pub truncate_detail : Text → ℕ → Text
truncate_detail s limit = if leb (length s) limit then s else take limit s ++ codes "…"

unfoldable pub open_file : Logger → Exec AuditError Disk Logger
open_file l = do
  must (mkdir_all (dir l.path)) nothing cannot_create_directory
  must (open_create l.path false) nothing cannot_open
  info ← must (stat l.path) (ignore flush) cannot_stat
  pure (record l { file_open = true; size = node_size info })

-- `open`; without a path there is no logger.
unfoldable pub open_logger : Text → ℕ → Exec AuditError Disk (Option Logger)
unfolding open_file
open_logger [] max_size = pure none
open_logger (c ∷ path) max_size =
    open_file (record { path = c ∷ path; file_open = false; size = 0; max_size = max_size })
    >>= λ l. pure (some l)

abbrev pub backup : Text → Text
backup path = path ++ codes ".1"

abbrev reopened : Logger → Result AuditError Logger → Logger
reopened l (ok opened) = opened
reopened l (err e) = l

-- Every error is dropped; the logger stays closed if the file cannot be opened again.
unfoldable pub rotate : Logger → Disk → Logger × Disk
unfolding open_file
rotate l d =
    let closed = record l { file_open = false } in
    let d1 = (flush d).1 in
    let d2 = (remove (backup l.path) d1).1 in
    let d3 = (rename l.path (backup l.path) d2).1 in
    let (r, d4) = open_file closed d3 in (reopened closed r, d4)

abbrev written : Result OsError ℕ → ℕ
written (ok n) = n
written (err e) = 0

abbrev write_line : Bytes → Logger × Disk → Logger × Disk
write_line line (l, d) =
    let (n, t) = append l.path line d in
    if l.file_open then (record l { size = l.size + written n }, t) else (l, d)

-- The part of `Log` under the lock.
unfoldable pub log_line : Bytes → Logger → Disk → Logger × Disk
unfolding rotate
log_line line l d =
    let rotated = rotate l d in
    if l.file_open
    then write_line line (if ltb l.max_size (l.size + length line) then rotated else (l, d))
    else (l, d)

-- The event that is written at time `now`.
abbrev pub completed : ℕ → Event → Event
completed now e = record e {
  time = if e.time == 0 then now else e.time;
  detail = truncate_detail e.detail max_detail_runes;
}

abbrev log_json : Option Bytes → Logger → Disk → Logger × Disk
log_json none l d = (l, d)
log_json (some json) l d = log_line (json ++ (10 ∷ [])) l d

unfoldable pub log : (Event → Option Bytes) → ℕ → Event → Logger → Disk → Logger × Disk
unfolding log_line truncate_detail
log marshal now e l d = log_json (marshal (completed now e)) l d

unfoldable pub close : Logger → Disk → Logger × Disk
close l d = if l.file_open then (record l { file_open = false }, (flush d).1) else (l, d)
