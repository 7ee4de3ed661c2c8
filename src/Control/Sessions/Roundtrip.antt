-- ===== src/Control/Sessions/Roundtrip.antt =====
-- A saved session is loaded again, with its token.
use lan_commander.Base.{ℕ, suc, ◌≡◌, true, false, Option, none, some, List, [], nat_eq, list_eq}
use lan_commander.Base.Text.{Text, is_empty}
use lan_commander.Control.Sessions.{Session, Row, Db, Store, Manager, find_host}

-- A table whose statements are not refused.
abbrev pub calm : List Row → ℕ → ℕ → Db
calm rows sequence last = record {
  rows = rows;
  sequence = sequence;
  last_insert_id = last;
  refusals = [];
}

-- The row of a session, with what the table adds.
abbrev row_of : Session → Text → ℕ → ℕ → Row
row_of s p id created = record {
  session = record s { id = id; auth_token = []; created_at = created };
  auth_token_protected = p;
}

-- The id and the time of creation of a session that is saved where there was a row of its host and port
-- before, or none.
abbrev pub id_after : Option Row → ℕ → ℕ
id_after none sequence = suc sequence
id_after (some row) sequence = row.session.id

abbrev pub created_after : Option Row → Session → ℕ
created_after none s = s.created_at
created_after (some row) s = row.session.created_at

-- After the INSERT, the row of its host and port holds what was given.
record Inserted (s : Session) (p : Text) (before : Option Row) (next : ℕ) (o : Unit {0} × Db)
    : Type 0 where
  rows : List Row
  sequence : ℕ
  last : ℕ
  db_is : o.1 ≡ calm rows sequence last
  found :
      find_host s.host s.port rows
      ≡ some (row_of s p (id_after before next) (created_after before s))

-- What is protected is not empty, and comes back.
pub record Protects (st : Store) : Type 0 where
  pub nonempty : (t p : Text) → st.protect t ≡ some p → is_empty p ≡ false
  pub comes_back : (t p : Text) → st.protect t ≡ some p → st.unprotect p ≡ some t

abbrev pub open_manager : Store → Manager
open_manager st = record { db = true; store = some st }
