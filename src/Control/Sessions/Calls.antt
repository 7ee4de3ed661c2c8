-- ===== src/Control/Sessions/Calls.antt =====
-- The operations on the sessions, in any order, and what they keep.
use lan_commander.Base.{
  ℕ, refl, Bool, true, false, Option, none, some, List, [], ◌∷◌, if◌then◌else◌, ◌≡◌, sym, subst,
  inl, inr,
}
use lan_commander.Base.Exec.{Result, ok, err, pure, raise, ◌>>=◌}
use lan_commander.Base.Exec.Outcome.{bind_cases, ok_bind}
use lan_commander.Base.Exec.Keeps.{
  Keeps, Keeps-pure, Keeps-raise, Keeps-bind, Keeps-must, keeps_rules,
}
use lan_commander.Base.Text.{Text}
use lan_commander.Control.Sessions.{
  Session, Row, Db, Store, Manager, SessionError, nothing, cannot_save, cannot_store_migrated,
  cannot_protect, unavailable, Op, statement, find_id, upsert, given, or_raise, protect_token,
  dated, save, delete, delete_id, update_id, set_rows, migrate_token, unprotect_token,
  restore_token, restore_row, restored, load_by_host, load_by_id, load_all, restore_rows,
  update_last_connected, is_some, later, refused,
}
use lan_commander.Control.Sessions.Invariant.{
  Sound, IsProtected, Sound-update_id, Sound-delete_id, Sound-upsert,
}

pub data Call : Type 0 where
  save_call : ℕ → Session → Call
  delete_call : ℕ → Call
  load_host_call : Text → ℕ → Call
  load_id_call : ℕ → Call
  load_all_call : Call
  update_call : ℕ → ℕ → Call

module _ (m : Manager) where
  unfoldable pub call : Call → Db → Db
  call (save_call now s) db = (save m now s db).1
  call (delete_call id) db = (delete m id db).1
  call (load_host_call host port) db = (load_by_host m host port db).1
  call (load_id_call id) db = (load_by_id m id db).1
  call load_all_call db = (load_all m db).1
  call (update_call now id) db = (update_last_connected m now id db).1

  unfoldable pub calls : List Call → Db → Db
  calls [] db = db
  calls (c ∷ cs) db = calls cs (call c db)

abbrev Kept : Option Store → Db → Type 0
Kept store db = Sound store db.rows

-- What follows a step may depend on what the step returned.
Keeps-bind_returned :
    {A B : Type 0} {P : Db → Type 0} (m : Op A) (f : A → Op B)
    → Keeps P m
    → ((a : A) (db db' : Db) → m db ≡ (ok a, db') → Keeps P (f a))
    → Keeps P (m >>= f)
Keeps-bind_returned {B = B} {P = P} m f km kf = record {
  at = λ db h.
      bind_cases (λ (o : Result SessionError B × Db). P o.1) m f db
        (λ e db' q. subst (λ (o : Result SessionError _ × Db). P o.1) q (km.at db h))
        (λ a db' q.
          (kf a db db' q).at db'
            (subst (λ (o : Result SessionError _ × Db). P o.1) q (km.at db h)));
}

or_raise_ok :
    {A : Type 0} (o : Option A) (e : SessionError) (d d' : Db) {a : A}
    → or_raise o e d ≡ (ok a, d')
    → o ≡ some a
unfolding pure raise
or_raise_ok none e d d' h = absurd cc
or_raise_ok (some a) e d d' h = cc

module _ {store : Option Store} where
  Keeps-statement :
      {A : Type 0} (f : Db → A × Db)
      → ((db : Db) → Sound store db.rows → Sound store (f db).1.rows)
      → Keeps (Kept store) (statement f)
  unfolding statement
  Keeps-statement {A} f k = record { at = λ db h. go db (refused db.refusals) h }
    where
      go :
          (db : Db) (b : Bool)
          → Sound store db.rows
          → let next = record db { refusals = later db.refusals } in
            let o =
              (if◌then◌else◌ {A = Result (Unit {0}) A × Db} b
                (err tt, next)
                (ok (f next).0, (f next).1)) in
            Sound store o.1.rows
      go db true h = h
      go db false h = k (record db { refusals = later db.refusals }) h

  Keeps-query : {A : Type 0} (f : Db → A) → Keeps (Kept store) (statement (λ db. (f db, db)))
  Keeps-query f = Keeps-statement (λ db. (f db, db)) (λ db h. h)

  Keeps-or_raise :
      {A : Type 0} (o : Option A) (e : SessionError) → Keeps (Kept store) (or_raise o e)
  Keeps-or_raise none e = Keeps-raise e
  Keeps-or_raise (some a) e = Keeps-pure a

  Keeps-given : (t : Text) (m : Op Text) → Keeps (Kept store) m → Keeps (Kept store) (given t m)
  Keeps-given [] m k = Keeps-pure []
  Keeps-given (c ∷ t) m k = k

  -- What the store made of a token.
  made_IsProtected :
      (st : Store) (token p : Text)
      → store ≡ some st
      → st.protect token ≡ some p
      → IsProtected store p
  made_IsProtected st token p e q =
      subst (λ (o : Option Store). IsProtected o p) (sym e) (inr (token, q))

nothing_IsProtected : (o : Option Store) → IsProtected o []
nothing_IsProtected none = refl
nothing_IsProtected (some st) = inl refl

protect_token_lem :
    (m : Manager) (token p : Text) (d d' : Db)
    → protect_token m token d ≡ (ok p, d')
    → IsProtected m.store p
unfolding protect_token pure
protect_token_lem m [] p d d' e =
    let nil : [] ≡ p = cc e in subst (IsProtected m.store) nil (nothing_IsProtected m.store)
protect_token_lem m (c ∷ t) p d d' e =
    let (st, d1, e1, e2) = ok_bind _ _ d e in
    made_IsProtected st (c ∷ t) p (or_raise_ok m.store unavailable d d1 e1)
      (or_raise_ok (st.protect (c ∷ t)) cannot_protect d1 d' e2)

ruleset session_rules = (Keeps-query, Keeps-or_raise, Keeps-given)

module _ (m : Manager) where
  abbrev KeptHere : Db → Type 0
  KeptHere = Kept m.store

  Keeps-protect_token : (token : Text) → Keeps KeptHere (protect_token m token)
  unfolding protect_token
  Keeps-protect_token token = search (keeps_rules, session_rules) depth 12

  Keeps-save : (now : ℕ) (s : Session) → Keeps KeptHere (save m now s)
  unfolding save
  Keeps-save now s = Keeps-bind _ _ (search (keeps_rules, session_rules) depth 12) (λ _.
      Keeps-bind_returned _ _ (Keeps-protect_token s.auth_token) (λ p d d' e.
        let put : Keeps (Kept m.store) (statement (upsert (dated m now s) p)) =
          Keeps-statement (upsert (dated m now s) p) (λ db.
            Sound-upsert m.store (dated m now s) p db
              (protect_token_lem m s.auth_token p d d' e)) in
        Keeps-bind _ _ (Keeps-must _ nothing cannot_save put (Keeps-pure tt)) (λ _.
          Keeps-must _ nothing cannot_save (Keeps-query (λ db. db.last_insert_id))
            (Keeps-pure tt))))

  Keeps-delete : (id : ℕ) → Keeps KeptHere (delete m id)
  unfolding delete
  Keeps-delete id =
      let cut = λ (i : ℕ).
        Keeps-statement
          (λ db. (is_some (find_id i db.rows), record db { rows = delete_id i db.rows }))
          (λ db h. Sound-delete_id m.store i db.rows h) in
      search (keeps_rules, session_rules, cut) depth 12

  Keeps-migrate_token : (id : ℕ) (t : Text) → Keeps KeptHere (migrate_token m id t)
  unfolding migrate_token
  Keeps-migrate_token id t =
      Keeps-bind_returned _ _ (Keeps-or_raise m.store unavailable) (λ st d d' e.
        Keeps-bind_returned _ _ (Keeps-or_raise (st.protect t) cannot_protect) (λ p d1 d2 e'.
          let made =
            made_IsProtected st t p (or_raise_ok m.store unavailable d d' e)
              (or_raise_ok (st.protect t) cannot_protect d1 d2 e') in
          let cleared = set_rows (
            update_id id (λ row. record {
              session = record row.session { auth_token = [] };
              auth_token_protected = p;
            })) in
          let clear : Keeps (Kept m.store) (statement cleared) = Keeps-statement cleared (λ db h.
            Sound-update_id m.store id _
              (record {
                host_is = λ r. refl;
                port_is = λ r. refl;
                bare = λ r e. refl;
                protected = λ r q. made;
              })
              db.rows h) in
          Keeps-bind _ _ (Keeps-must _ nothing cannot_store_migrated clear (Keeps-pure tt))
            (λ _. Keeps-pure t)))

  Keeps-unprotect_token : (id : ℕ) (t p : Text) → Keeps KeptHere (unprotect_token m id t p)
  unfolding unprotect_token
  Keeps-unprotect_token id t p =
      let clear = λ (i : ℕ).
        Keeps-statement
          (set_rows
            (update_id i (λ row. record row { session = record row.session { auth_token = [] } })))
          (λ db h.
            Sound-update_id m.store i _
              (record {
                host_is = λ r. refl;
                port_is = λ r. refl;
                bare = λ r e. refl;
                protected = λ r q. q;
              })
              db.rows h) in
      search (keeps_rules, session_rules, clear) depth 12

  Keeps-restore_row : (row : Row) → Keeps KeptHere (restore_row m row)
  unfolding restore_row restore_token
  Keeps-restore_row row =
      search (keeps_rules, session_rules, Keeps-migrate_token, Keeps-unprotect_token) depth 12

  Keeps-restored : (o : Option Row) → Keeps KeptHere (restored m o)
  Keeps-restored none = Keeps-pure none
  Keeps-restored (some row) = Keeps-bind _ _ (Keeps-restore_row row) (λ s. Keeps-pure (some s))

  Keeps-load_by_host : (host : Text) (port : ℕ) → Keeps KeptHere (load_by_host m host port)
  unfolding load_by_host
  Keeps-load_by_host host port = search (keeps_rules, session_rules, Keeps-restored) depth 12

  Keeps-load_by_id : (id : ℕ) → Keeps KeptHere (load_by_id m id)
  unfolding load_by_id
  Keeps-load_by_id id = search (keeps_rules, session_rules, Keeps-restore_row) depth 12

  Keeps-restore_rows : (rows : List Row) → Keeps KeptHere (restore_rows m rows)
  unfolding restore_rows
  Keeps-restore_rows [] = Keeps-pure []
  Keeps-restore_rows (row ∷ rows) =
      Keeps-bind _ _ (Keeps-restore_row row)
        (λ s. Keeps-bind _ _ (Keeps-restore_rows rows) (λ rest. Keeps-pure (s ∷ rest)))

  Keeps-load_all : Keeps KeptHere (load_all m)
  unfolding load_all
  Keeps-load_all = search (keeps_rules, session_rules, Keeps-restore_rows) depth 12

  Keeps-update_last_connected : (now id : ℕ) → Keeps KeptHere (update_last_connected m now id)
  unfolding update_last_connected
  Keeps-update_last_connected now id =
      let touch = λ (i : ℕ).
        Keeps-statement
          (λ db. (
            is_some (find_id i db.rows),
            record db {
              rows =
                  update_id i
                    (λ row. record row { session = record row.session { last_connected = now } })
                    db.rows;
            },
          ))
          (λ db h.
            Sound-update_id m.store i _
              (record {
                host_is = λ r. refl;
                port_is = λ r. refl;
                bare = λ r e. e;
                protected = λ r q. q;
              })
              db.rows h) in
      search (keeps_rules, session_rules, touch) depth 12

  call-Sound : (c : Call) (db : Db) → Sound m.store db.rows → Sound m.store (call m c db).rows
  unfolding call
  call-Sound (save_call now s) db h = (Keeps-save now s).at db h
  call-Sound (delete_call id) db h = (Keeps-delete id).at db h
  call-Sound (load_host_call host port) db h = (Keeps-load_by_host host port).at db h
  call-Sound (load_id_call id) db h = (Keeps-load_by_id id).at db h
  call-Sound load_all_call db h = Keeps-load_all.at db h
  call-Sound (update_call now id) db h = (Keeps-update_last_connected now id).at db h

  calls-Sound_from :
      (cs : List Call) (db : Db) → Sound m.store db.rows → Sound m.store (calls m cs db).rows
  unfolding calls
  calls-Sound_from [] db h = h
  calls-Sound_from (c ∷ cs) db h = calls-Sound_from cs (call m c db) (call-Sound c db h)

  -- Whatever is saved, deleted, loaded and updated, and whichever statements are refused, from an
  -- empty table on: no two sessions have the same host and port, the column auth_token is empty in
  -- every row, and auth_token_protected is empty or what the manager's store made of a token.
  pub calls-Sound :
      (cs : List Call) (refusals : List Bool)
      → Sound m.store
          (calls m cs
            (record { rows = []; sequence = 0; last_insert_id = 0; refusals = refusals })).rows
  calls-Sound cs refusals =
      calls-Sound_from cs _ (record { distinct = tt; bare = tt; protected = tt })
