-- ===== src/Control/Sessions.antt =====
-- control-center/backend/session/session.go: the sessions, whose SQL statements are functions on the rows
-- of the table. Each statement may be refused. What protects the tokens is an argument.
pub mod Roundtrip
pub mod Invariant
pub mod Calls
mod Tests
use lan_commander.Base.{
  ℕ, suc, ◌+◌, Bool, true, false, not, ◌&&◌, Option, none, some, List, [], ◌∷◌, ◌++◌, if◌then◌else◌,
  ltb, ◌==◌, nat_eq, list_eq,
}
use lan_commander.Base.Exec.{Exec, Result, ok, err, pure, raise, ◌>>=◌, ◌>>◌, must, refuse_if}
use lan_commander.Base.Text.{Text, is_empty}

-- Session; a port is not negative.
pub record Session : Type 0 where
  pub id : ℕ
  pub name : Text
  pub host : Text
  pub port : ℕ
  pub auth_token : Text
  pub tls : Bool
  pub ca_file : Text
  pub server_name : Text
  pub created_at : ℕ
  pub last_connected : ℕ

-- A row of the table: a session, of which auth_token is the column of old versions, and the protected
-- token.
pub record Row : Type 0 where
  pub session : Session
  pub auth_token_protected : Text

-- The table, the last id that it gave to a row, the one that LastInsertId reports, and which of the next
-- statements are refused.
pub record Db : Type 0 where
  pub rows : List Row
  pub sequence : ℕ
  pub last_insert_id : ℕ
  pub refusals : List Bool

-- securestore.Store
pub record Store : Type 0 where
  pub protect : Text → Option Text
  pub unprotect : Text → Option Text

-- Manager; `db` is whether its database is not nil.
pub record Manager : Type 0 where
  pub db : Bool
  pub store : Option Store

pub data SessionError : Type 0 where
  not_open unavailable cannot_protect cannot_restore cannot_save cannot_delete not_found :
      SessionError
  cannot_load cannot_clear cannot_store_migrated cannot_update : SessionError

abbrev pub Op : Type 0 → Type 0
Op A = Exec SessionError Db A

abbrev pub nothing : Op (Unit {0})
nothing = pure tt

abbrev pub refused : List Bool → Bool
refused [] = false
refused (b ∷ bs) = b

abbrev pub later : List Bool → List Bool
later [] = []
later (b ∷ bs) = bs

-- A statement as a function on the table.
unfoldable pub statement : {A : Type 0} → (Db → A × Db) → Exec (Unit {0}) Db A
statement f db =
    let next = record db { refusals = later db.refusals } in
    let (a, after) = f next in if refused db.refusals then (err tt, next) else (ok a, after)

abbrev pub is_at : Text → ℕ → Row → Bool
is_at host port row = row.session.host == host && row.session.port == port

-- `WHERE host = ? AND port = ?`; there is at most one such row.
unfoldable pub find_host : Text → ℕ → List Row → Option Row
find_host host port [] = none
find_host host port (row ∷ rows) =
    if is_at host port row then some row else find_host host port rows

unfoldable pub find_id : ℕ → List Row → Option Row
find_id id [] = none
find_id id (row ∷ rows) = if row.session.id == id then some row else find_id id rows

-- `ON CONFLICT(host, port) DO UPDATE SET`: the id and the time of creation stay.
abbrev pub updated : Session → Text → Row → Row
updated s protected row = record {
  session = record s { id = row.session.id; auth_token = []; created_at = row.session.created_at };
  auth_token_protected = protected;
}

unfoldable pub update_host : Session → Text → List Row → List Row
update_host s protected [] = []
update_host s protected (row ∷ rows) =
    let rest = update_host s protected rows in
    if is_at s.host s.port row then updated s protected row ∷ rest else row ∷ rest

abbrev pub insert_row : Session → Text → Option Row → Db → Unit {0} × Db
insert_row s protected (some row) db = (tt, record db { rows = update_host s protected db.rows })
insert_row s protected none db =
    let id = suc db.sequence in
    let row : Row = record {
      session = record s { id = id; auth_token = [] };
      auth_token_protected = protected;
    } in
    (tt, record db { rows = db.rows ++ (row ∷ []); sequence = id; last_insert_id = id })

-- `INSERT INTO sessions`. An update leaves the id that LastInsertId reports as it was.
unfoldable pub upsert : Session → Text → Db → Unit {0} × Db
unfolding find_host update_host
upsert s protected db = insert_row s protected (find_host s.host s.port db.rows) db

-- `UPDATE ... WHERE id = ?`, and whether there was such a row.
unfoldable pub update_id : ℕ → (Row → Row) → List Row → List Row
update_id id f [] = []
update_id id f (row ∷ rows) =
    let rest = update_id id f rows in if row.session.id == id then f row ∷ rest else row ∷ rest

unfoldable pub delete_id : ℕ → List Row → List Row
delete_id id [] = []
delete_id id (row ∷ rows) =
    let rest = delete_id id rows in if row.session.id == id then rest else row ∷ rest

abbrev pub is_some : {A : Type 0} → Option A → Bool
is_some none = false
is_some (some a) = true

abbrev pub set_rows : (List Row → List Row) → Db → Unit {0} × Db
set_rows f db = (tt, record db { rows = f db.rows })

abbrev pub given : Text → Op Text → Op Text
given [] m = pure []
given (c ∷ t) m = m

abbrev pub or_raise : {A : Type 0} → Option A → SessionError → Op A
or_raise none e = raise e
or_raise (some a) e = pure a

module _ (m : Manager) where
  -- The protected form of a token that is not empty.
  unfoldable pub protect_token : Text → Op Text
  protect_token token =
      given token (or_raise m.store unavailable >>= λ s. or_raise (s.protect token) cannot_protect)

  abbrev pub dated : ℕ → Session → Session
  dated now s = record s {
    created_at = if s.created_at == 0 then now else s.created_at;
    last_connected = if s.last_connected == 0 then now else s.last_connected;
  }

  unfoldable pub save : ℕ → Session → Op ℕ
  unfolding protect_token upsert
  save now s = do
    refuse_if (not m.db) nothing not_open
    protected ← protect_token s.auth_token
    must (statement (upsert (dated now s) protected)) nothing cannot_save
    must (statement (λ db. (db.last_insert_id, db))) nothing cannot_save

  unfoldable pub delete : ℕ → Op (Unit {0})
  unfolding find_id delete_id
  delete id = do
    refuse_if (not m.db) nothing not_open
    found ←
        must
          (statement
            (λ db. (is_some (find_id id db.rows), record db { rows = delete_id id db.rows })))
          nothing cannot_delete
    refuse_if (not found) nothing not_found

  -- A token that an old version stored as it is.
  unfoldable pub migrate_token : ℕ → Text → Op Text
  unfolding update_id
  migrate_token id plaintext = do
    s ← or_raise m.store unavailable
    protected ← or_raise (s.protect plaintext) cannot_protect
    must
        (statement (
          set_rows (
            update_id id (λ row. record {
              session = record row.session { auth_token = [] };
              auth_token_protected = protected;
            }))))
        nothing cannot_store_migrated
    pure plaintext

  -- A protected token, which replaces one that an old version stored.
  unfoldable pub unprotect_token : ℕ → Text → Text → Op Text
  unfolding update_id
  unprotect_token id plaintext protected = do
    s ← or_raise m.store unavailable
    token ← or_raise (s.unprotect protected) cannot_restore
    if is_empty plaintext
        then pure token
        else (must
              (statement (
                set_rows (
                  update_id id
                    (λ row. record row { session = record row.session { auth_token = [] } }))))
              nothing cannot_clear
            >> pure token)

  unfoldable pub restore_token : ℕ → Text → Text → Op Text
  unfolding migrate_token unprotect_token
  restore_token id plaintext protected =
      if not (is_empty protected)
      then unprotect_token id plaintext protected
      else given plaintext (migrate_token id plaintext)

  unfoldable pub restore_row : Row → Op Session
  unfolding restore_token
  restore_row row = do
    token ← restore_token row.session.id row.session.auth_token row.auth_token_protected
    pure (record row.session { auth_token = token })

  abbrev pub restored : Option Row → Op (Option Session)
  restored none = pure none
  restored (some row) = restore_row row >>= λ s. pure (some s)

  -- An absent session is no error here.
  unfoldable pub load_by_host : Text → ℕ → Op (Option Session)
  unfolding find_host restore_row
  load_by_host host port = do
    refuse_if (not m.db) nothing not_open
    found ← must (statement (λ db. (find_host host port db.rows, db))) nothing cannot_load
    restored found

  unfoldable pub load_by_id : ℕ → Op Session
  unfolding find_id restore_row
  load_by_id id = do
    refuse_if (not m.db) nothing not_open
    found ← must (statement (λ db. (find_id id db.rows, db))) nothing cannot_load
    row ← or_raise found not_found
    restore_row row

  unfoldable pub update_last_connected : ℕ → ℕ → Op (Unit {0})
  unfolding find_id update_id
  update_last_connected now id = do
    refuse_if (not m.db) nothing not_open
    found ←
        must
          (statement (λ db. (
            is_some (find_id id db.rows),
            record db {
              rows =
                  update_id id
                    (λ row. record row { session = record row.session { last_connected = now } })
                    db.rows;
            },
          )))
          nothing cannot_update
    refuse_if (not found) nothing not_found

  -- `ORDER BY last_connected DESC`
  unfoldable pub place : Row → List Row → List Row
  place row [] = row ∷ []
  place row (r ∷ rows) =
      let rest = place row rows in
      if ltb row.session.last_connected r.session.last_connected then r ∷ rest else row ∷ r ∷ rows

  unfoldable pub ordered : List Row → List Row
  unfolding place
  ordered [] = []
  ordered (row ∷ rows) = place row (ordered rows)

  unfoldable pub restore_rows : List Row → Op (List Session)
  unfolding restore_row
  restore_rows [] = pure []
  restore_rows (row ∷ rows) = do s ← restore_row row; rest ← restore_rows rows; pure (s ∷ rest)

  -- Without a database there are no sessions.
  unfoldable pub load_all : Op (List Session)
  unfolding ordered restore_rows
  load_all =
      if not m.db
      then pure []
      else (must (statement (λ db. (ordered db.rows, db))) nothing cannot_load >>= restore_rows)
