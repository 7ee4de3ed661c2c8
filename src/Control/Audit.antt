-- ===== src/Control/Audit.antt =====
-- control-center/backend/audit/audit.go. The database is an argument: what its calls answer, and how
-- they change it. Timestamps are numbers.
pub mod Recent
pub mod Persisted
mod Tests
use mathlib.Core.List.{reverse}
use lan_commander.Base.{
  ℕ, suc, ◌+◌, ◌-◌, Bool, true, false, ◌&&◌, ◌||◌, not, Option, none, some, List, [], ◌∷◌, ◌++◌,
  if◌then◌else◌, leb, ltb, length, drop,
}
use lan_commander.Base.Int.{ℤ, pos, pos_part, leb_ℤ, ltb_ℤ, ◌+64◌}
use lan_commander.Base.Text.{Text, codes, is_empty}

abbrev pub default_capacity : ℕ
default_capacity = 1000

abbrev pub status_success : Text
status_success = codes "success"

-- The arguments of `Log` and the time of the call.
pub record Message : Type 0 where
  pub timestamp : ℕ
  pub action : Text
  pub agent_id : Text
  pub user : Text
  pub details : Text
  pub status : Text

-- Entry
pub record Entry : Type 0 where
  pub id : ℤ
  pub content : Message

-- The outcome of the INSERT: an error, an error of LastInsertId, or the id.
pub data Inserted : Type 0 where
  insert_failed id_failed : Inserted
  inserted : ℤ → Inserted

-- The table audit_log: its rows after an INSERT and a DELETE, which may fail, and the answer to the
-- SELECT with a limit, newest first.
pub record Database (S : Type 0) : Type 0 where
  pub insert : Message → S → Inserted × S
  pub delete_all : S → S
  pub select : ℕ → S → Option (List Entry)

-- Logger; `db` is whether its database is not nil.
pub record Logger : Type 0 where
  pub entries : List Entry
  pub capacity : ℕ
  pub next_id : ℤ
  pub db : Bool
  pub db_enabled : Bool

-- How the calls of OpenDB end; `next_id` is none where the query fails.
pub record Opening : Type 0 where
  pub closes : Bool
  pub opens : Bool
  pub creates_table : Bool
  pub next_id : Option ℤ

abbrev pub new_logger : Logger
new_logger = record {
  entries = [];
  capacity = default_capacity;
  next_id = pos 1;
  db = false;
  db_enabled = false;
}

unfoldable pub new_logger_with_capacity : ℤ → Logger
new_logger_with_capacity capacity = record new_logger {
  capacity = if leb_ℤ capacity (pos 0) then default_capacity else pos_part capacity;
}

abbrev without_db : Logger → Logger
without_db l = record l { db = false; db_enabled = false }

-- The end of OpenDB, with the new database in place.
abbrev adopt_id : Option ℤ → Logger → Bool × Logger
adopt_id none l = (false, record l { db = false })
adopt_id (some n) l =
    (true, record l { next_id = if ltb_ℤ n (pos 1) then pos 1 else n; db_enabled = true })

-- `OpenDB`, and whether it returns nil.
unfoldable pub open_db : (Text → Opening) → Text → Logger → Bool × Logger
open_db system db_path l =
    let path = if is_empty db_path then codes "audit.db" else db_path in
    let o = system path in
    let closed = if l.db then without_db l else l in
    let opened = record closed { db = true } in
    if l.db && not o.closes
    then (false, l)
    else if not o.opens
    then (false, closed)
    else if not o.creates_table
    then (false, without_db opened)
    else adopt_id o.next_id opened

unfoldable pub close : Logger → Logger
close l = if l.db then without_db l else l

abbrev with_status : Message → Message
with_status m = record m { status = if is_empty m.status then status_success else m.status }

-- The id of the entry and the next id, after the INSERT.
abbrev number : Inserted → ℤ → ℤ → ℤ × ℤ
number insert_failed fallback next = (fallback, next)
number id_failed fallback next = (fallback, next)
number (inserted id) fallback next =
    if ltb_ℤ (pos 0) id
    then (id, if leb_ℤ next id then id +64 pos 1 else next)
    else (fallback, next)

-- The ring buffer.
abbrev pub push {ℓ} : {A : Type ℓ} → ℕ → List A → A → List A
push capacity entries entry =
    if leb capacity (length entries)
    then drop 1 entries ++ (entry ∷ [])
    else entries ++ (entry ∷ [])

abbrev record_entry : Inserted → Message → Logger → Logger
record_entry result m l =
    let (id, next) = number result l.next_id (l.next_id +64 pos 1) in
    record l {
      entries = push l.capacity l.entries (record { id = id; content = m });
      next_id = next;
    }

-- The limit that GetRecent uses.
abbrev clamp : ℕ → ℤ → ℕ
clamp capacity limit =
    if leb_ℤ limit (pos 0) || ltb_ℤ (pos capacity) limit then capacity else pos_part limit

-- getRecentFromMemoryLocked
unfoldable pub get_recent_from_memory : ℕ → List Entry → List Entry
get_recent_from_memory limit entries = drop (length entries - limit) entries

abbrev or_memory : Option (List Entry) → List Entry → List Entry
or_memory (some rows) memory = reverse rows
or_memory none memory = memory

module _ {S : Type 0} (database : Database S) where
  unfoldable pub log : Message → Logger × S → Logger × S
  log m (l, s) =
      let message = with_status m in
      let (result, t) = database.insert message s in
      if l.db_enabled && l.db
      then (record_entry result message l, t)
      else (record_entry insert_failed message l, s)

  -- GetRecent, with getRecentFromDBLocked.
  unfoldable pub get_recent : ℤ → Logger × S → List Entry
  unfolding get_recent_from_memory
  get_recent limit (l, s) =
      let n = clamp l.capacity limit in
      let memory = get_recent_from_memory n l.entries in
      if l.db_enabled && l.db then or_memory (database.select n s) memory else memory

  unfoldable pub clear : Logger × S → Logger × S
  clear (l, s) =
      (record l { entries = [] }, if l.db_enabled && l.db then database.delete_all s else s)

-- The calls that change a logger.
pub data Call : Type 0 where
  log_call : Message → Call
  clear_call close_call : Call
  open_call : (Text → Opening) → Text → Call

module _ {S : Type 0} (database : Database S) where
  unfoldable pub call : Call → Logger × S → Logger × S
  unfolding log clear close open_db
  call (log_call m) w = log database m w
  call clear_call w = clear database w
  call close_call (l, s) = (close l, s)
  call (open_call o p) (l, s) = ((open_db o p l).1, s)

  unfoldable pub calls : List Call → Logger × S → Logger × S
  unfolding call
  calls [] w = w
  calls (c ∷ cs) w = calls cs (call c w)

-- What was logged since the last `Clear`, oldest first, where `before` was logged earlier.
abbrev pub logged_by : Call → List Message → List Message
logged_by (log_call m) before = before ++ (with_status m ∷ [])
logged_by clear_call before = []
logged_by close_call before = before
logged_by (open_call o p) before = before

abbrev pub logged : List Call → List Message → List Message
logged [] before = before
logged (c ∷ cs) before = logged cs (logged_by c before)

-- The last `n` items.
abbrev pub last {ℓ} : {A : Type ℓ} → ℕ → List A → List A
last n xs = drop (length xs - n) xs
