-- ===== src/Control/Sessions/Invariant.antt =====
-- What holds of the table of sessions at any time.
use lan_commander.Base.{
  ℕ, ◌≡◌, refl, false, Option, none, some, List, [], ◌∷◌, ◌++◌, arith, nat_eq, list_eq, ◌⊎◌, inl,
  inr, Bool-cases, ◌==◌,
}
use lan_commander.Base.Text.{Text}
use lan_commander.Control.Sessions.{
  Session, Row, Db, Store, is_at, find_host, update_host, insert_row, upsert, delete_id, update_id,
}

-- No two rows have the same host and port.
abbrev pub Distinct : List Row → Type 0
Distinct [] = Unit {0}
Distinct (row ∷ rows) = (find_host row.session.host row.session.port rows ≡ none) × Distinct rows

-- No row holds a token as it is.
abbrev pub AllBare : List Row → Type 0
AllBare [] = Unit {0}
AllBare (row ∷ rows) = (row.session.auth_token ≡ []) × AllBare rows

-- Nothing, or what the store made of a token.
abbrev pub IsProtected : Option Store → Text → Type 0
IsProtected none p = p ≡ []
IsProtected (some store) p = (p ≡ []) ⊎ ((token : Text) × (store.protect token ≡ some p))

abbrev pub AllProtected : Option Store → List Row → Type 0
AllProtected store [] = Unit {0}
AllProtected store (row ∷ rows) =
    IsProtected store row.auth_token_protected × AllProtected store rows

pub record Sound (store : Option Store) (rows : List Row) : Type 0 where
  pub distinct : Distinct rows
  pub bare : AllBare rows
  pub protected : AllProtected store rows

update_host_absent :
    (host : Text) (port : ℕ) (s : Session) (p : Text) (rows : List Row)
    → find_host host port rows ≡ none
    → find_host host port (update_host s p rows) ≡ none
unfolding find_host update_host
update_host_absent host port s p [] e = refl
update_host_absent host port s p (r ∷ rows) e =
    ground (arith, update_host_absent host port s p rows)

Distinct-update_host :
    (s : Session) (p : Text) (rows : List Row) → Distinct rows → Distinct (update_host s p rows)
unfolding update_host
Distinct-update_host s p [] d = tt
Distinct-update_host s p (r ∷ rows) (e, d) = ground (
  arith,
  Distinct-update_host s p rows d,
  update_host_absent r.session.host r.session.port s p rows e,
)

AllBare-update_host :
    (s : Session) (p : Text) (rows : List Row) → AllBare rows → AllBare (update_host s p rows)
unfolding update_host
AllBare-update_host s p [] b = tt
AllBare-update_host s p (r ∷ rows) (e, b) = ground (arith, AllBare-update_host s p rows b)

AllProtected-update_host :
    (store : Option Store) (s : Session) (p : Text) (rows : List Row)
    → IsProtected store p
    → AllProtected store rows
    → AllProtected store (update_host s p rows)
unfolding update_host
AllProtected-update_host store s p [] q b = tt
AllProtected-update_host store s p (r ∷ rows) q (f, b) = elim (Bool-cases (is_at s.host s.port r)) [
  | inl e ↦ rw e (q, AllProtected-update_host store s p rows q b)
  | inr e ↦ rw e (f, AllProtected-update_host store s p rows q b)
]

AllProtected-append :
    (store : Option Store) (rows : List Row) (row : Row)
    → AllProtected store rows
    → IsProtected store row.auth_token_protected
    → AllProtected store (rows ++ (row ∷ []))
AllProtected-append store [] row b e = (e, tt)
AllProtected-append store (r ∷ rows) row (f, b) e = (f, AllProtected-append store rows row b e)

AllProtected-update_id :
    (store : Option Store) (id : ℕ) (f : Row → Row) (rows : List Row)
    → ((r : Row)
        → IsProtected store r.auth_token_protected
        → IsProtected store (f r).auth_token_protected)
    → AllProtected store rows
    → AllProtected store (update_id id f rows)
unfolding update_id
AllProtected-update_id store id f [] k b = tt
AllProtected-update_id store id f (r ∷ rows) k (q, b) = elim (Bool-cases (r.session.id == id)) [
  | inl e ↦ rw e (k r q, AllProtected-update_id store id f rows k b)
  | inr e ↦ rw e (q, AllProtected-update_id store id f rows k b)
]

AllProtected-delete_id :
    (store : Option Store) (id : ℕ) (rows : List Row)
    → AllProtected store rows
    → AllProtected store (delete_id id rows)
unfolding delete_id
AllProtected-delete_id store id [] b = tt
AllProtected-delete_id store id (r ∷ rows) (q, b) = elim (Bool-cases (r.session.id == id)) [
  | inl e ↦ rw e (AllProtected-delete_id store id rows b)
  | inr e ↦ rw e (q, AllProtected-delete_id store id rows b)
]

append_absent :
    (host : Text) (port : ℕ) (rows : List Row) (row : Row)
    → find_host host port rows ≡ none
    → is_at host port row ≡ false
    → find_host host port (rows ++ (row ∷ [])) ≡ none
unfolding find_host
append_absent host port [] row e h = rw h refl
append_absent host port (r ∷ rows) row e h = ground (arith, append_absent host port rows row)

Distinct-append :
    (rows : List Row) (row : Row)
    → Distinct rows
    → find_host row.session.host row.session.port rows ≡ none
    → Distinct (rows ++ (row ∷ []))
unfolding find_host
Distinct-append [] row d e = (refl, tt)
Distinct-append (r ∷ rows) row (f, d) e =
    ground
      (arith, Distinct-append rows row d, append_absent r.session.host r.session.port rows row f)

AllBare-append :
    (rows : List Row) (row : Row)
    → AllBare rows
    → row.session.auth_token ≡ []
    → AllBare (rows ++ (row ∷ []))
AllBare-append [] row b e = (e, tt)
AllBare-append (r ∷ rows) row (f, b) e = (f, AllBare-append rows row b e)

-- A change of a row that leaves its address, and no token as it is.
pub record Mild (store : Option Store) (f : Row → Row) : Type 0 where
  pub host_is : (r : Row) → (f r).session.host ≡ r.session.host
  pub port_is : (r : Row) → (f r).session.port ≡ r.session.port
  pub bare : (r : Row) → r.session.auth_token ≡ [] → (f r).session.auth_token ≡ []
  pub protected :
      (r : Row)
      → IsProtected store r.auth_token_protected
      → IsProtected store (f r).auth_token_protected

update_id_absent :
    (store : Option Store) (id : ℕ) (f : Row → Row) (m : Mild store f) (host : Text) (port : ℕ)
    (rows : List Row)
    → find_host host port rows ≡ none
    → find_host host port (update_id id f rows) ≡ none
unfolding find_host update_id
update_id_absent store id f m host port [] e = refl
update_id_absent store id f m host port (r ∷ rows) e =
    ground (arith, update_id_absent store id f m host port rows, m.host_is r, m.port_is r)

pub Sound-update_id :
    (store : Option Store) (id : ℕ) (f : Row → Row)
    → Mild store f
    → (rows : List Row) → Sound store rows
    → Sound store (update_id id f rows)
unfolding update_id
Sound-update_id store id f m [] k = k
Sound-update_id store id f m (r ∷ rows) k =
    let rest =
      Sound-update_id store id f m rows
        (record { distinct = k.distinct.1; bare = k.bare.1; protected = k.protected.1 }) in
    record {
      distinct = ground (
        arith,
        rest.distinct,
        k.distinct,
        m.host_is r,
        m.port_is r,
        update_id_absent store id f m r.session.host r.session.port rows k.distinct.0,
      );
      bare = ground (arith, rest.bare, k.bare, m.bare r);
      protected = AllProtected-update_id store id f (r ∷ rows) m.protected k.protected;
    }

delete_id_absent :
    (id : ℕ) (host : Text) (port : ℕ) (rows : List Row)
    → find_host host port rows ≡ none
    → find_host host port (delete_id id rows) ≡ none
unfolding find_host delete_id
delete_id_absent id host port [] e = refl
delete_id_absent id host port (r ∷ rows) e = ground (arith, delete_id_absent id host port rows)

pub Sound-delete_id :
    (store : Option Store) (id : ℕ) (rows : List Row)
    → Sound store rows
    → Sound store (delete_id id rows)
unfolding delete_id
Sound-delete_id store id [] k = k
Sound-delete_id store id (r ∷ rows) k =
    let rest =
      Sound-delete_id store id rows
        (record { distinct = k.distinct.1; bare = k.bare.1; protected = k.protected.1 }) in
    record {
      distinct = ground (
        arith,
        rest.distinct,
        k.distinct,
        delete_id_absent id r.session.host r.session.port rows k.distinct.0,
      );
      bare = ground (arith, rest.bare, k.bare);
      protected = AllProtected-delete_id store id (r ∷ rows) k.protected;
    }

pub Sound-upsert :
    (store : Option Store) (s : Session) (p : Text) (db : Db)
    → IsProtected store p
    → Sound store db.rows
    → Sound store (upsert s p db).1.rows
unfolding upsert
Sound-upsert store s p db q k = go (find_host s.host s.port db.rows) refl
  where
    go :
        (o : Option Row)
        → find_host s.host s.port db.rows ≡ o
        → Sound store (insert_row s p o db).1.rows
    go none e = record {
      distinct = Distinct-append db.rows _ k.distinct e;
      bare = AllBare-append db.rows _ k.bare refl;
      protected = AllProtected-append store db.rows _ k.protected q;
    }
    go (some row) e = record {
      distinct = Distinct-update_host s p db.rows k.distinct;
      bare = AllBare-update_host s p db.rows k.bare;
      protected = AllProtected-update_host store s p db.rows q k.protected;
    }
