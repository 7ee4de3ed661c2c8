-- ===== src/Control/Audit/Persisted.antt =====
-- What the audit trail shows from its database, whatever ran before.
use mathlib.Core.List.{reverse, reverse-cons, reverse-append, reverse-reverse}
use lan_commander.Base.{
  ℕ, ◌-◌, ◌≤◌, ◌<◌, ◌≡◌, subst, ◌&&◌, refl, ap, ◌∙◌, sym, true, some, Bool-cases, inl, inr, List,
  [], ◌∷◌, ◌++◌, length, take, drop, arith, leb, leb→le, length-append, length-drop,
  take-append-drop, take-append_left, take_all,
}
use lan_commander.Base.Int.{ℤ}
use lan_commander.Control.Audit.{
  Message, Entry, inserted, Database, Logger, log, clear, get_recent, Call, log_call, clear_call,
  close_call, open_call, call, calls, logged, logged_by, last, clamp, with_status, record_entry,
}
use lan_commander.Control.Audit.Recent.{contents, map-append, map-last}

-- A database that keeps a table: an INSERT appends a row, with an id, a DELETE empties the table, and a
-- SELECT answers with the newest rows.
pub record IsTable {S : Type 0} (database : Database S) (rows : S → List Entry) : Type 0 where
  pub insert_appends :
      (m : Message) (s : S)
      → (id : ℤ) × ((database.insert m s).0 ≡ inserted id)
        × (rows (database.insert m s).1 ≡ rows s ++ (record { id = id; content = m } ∷ []))
  pub delete_empties : (s : S) → rows (database.delete_all s) ≡ []
  pub select_newest : (n : ℕ) (s : S) → database.select n s ≡ some (take n (reverse (rows s)))

module _ {ℓ} {A : Type ℓ} where
  length-reverse : (xs : List A) → length (reverse xs) ≡ length xs
  length-reverse [] = refl
  length-reverse (x ∷ xs) =
      ap length (reverse-cons x xs)
      ∙ omega (arith, length-append (reverse xs) (x ∷ []), length-reverse xs)

  -- The newest `n`, read from the newest on and turned around.
  newest : (n : ℕ) (xs : List A) → reverse (take n (reverse xs)) ≡ last n xs
  newest n xs = elim (Bool-cases (leb n (length xs))) [
    | inl t ↦
        let k = length xs - n in
        let le : n ≤ length xs = leb→le n (length xs) t in
        let whole : n ≡ length (reverse (drop k xs)) =
          omega (arith, length-reverse (drop k xs), length-drop k xs) in
        ap (λ (ys : List A). reverse (take n (reverse ys))) (sym (take-append-drop k xs))
        ∙ ap (λ (ys : List A). reverse (take n ys)) (reverse-append (take k xs) (drop k xs))
        ∙ ap (λ i. reverse (take i (reverse (drop k xs) ++ reverse (take k xs)))) whole
        ∙ ap reverse (take-append_left (reverse (drop k xs)) (reverse (take k xs)))
        ∙ reverse-reverse (drop k xs)
    | inr f ↦
        let gt : length xs < n = ground arith in
        let nothing : length xs - n ≡ 0 = omega arith in
        ap reverse (take_all n (reverse xs) (omega (arith, length-reverse xs)))
        ∙ reverse-reverse xs
        ∙ rw nothing refl
  ]

-- A call that leaves the database open.
abbrev pub Plain : Call → Type 0
Plain (log_call m) = Unit {0}
Plain clear_call = Unit {0}
Plain close_call = ⊥
Plain (open_call o p) = ⊥

abbrev pub AllPlain : List Call → Type 0
AllPlain [] = Unit {0}
AllPlain (c ∷ cs) = Plain c × AllPlain cs

module _ {S : Type 0} (database : Database S) (rows : S → List Entry)
    (table : IsTable database rows) where
  record Persists (capacity : ℕ) (h : List Message) (w : Logger × S) : Type 0 where
    db : w.0.db ≡ true
    enabled : w.0.db_enabled ≡ true
    capacity_is : w.0.capacity ≡ capacity
    kept : contents (rows w.1) ≡ h

  on :
      (capacity : ℕ) (h : List Message) (l : Logger) (s : S)
      → Persists capacity h (l, s)
      → (l.db_enabled && l.db) ≡ true
  on capacity h l s k = rw (k.db, k.enabled) refl

  appended :
      (h : List Message) (m : Message) (s : S)
      → contents (rows s) ≡ h
      → contents (rows (database.insert m s).1) ≡ h ++ (m ∷ [])
  appended h m s k =
      let (id, _, e) = table.insert_appends m s in
      ap contents e
      ∙ map-append (λ (e : Entry). e.content) (rows s) (record { id = id; content = m } ∷ [])
      ∙ rw k refl

  call-Persists :
      (capacity : ℕ) (h : List Message) (c : Call) (w : Logger × S)
      → Plain c
      → Persists capacity h w
      → Persists capacity (logged_by c h) (call database c w)
  unfolding call
  call-Persists capacity h (log_call m) (l, s) p k =
      let message = with_status m in
      let (result, t) = database.insert message s in
      let e : log database m (l, s) ≡ (record_entry result message l, t) =
        rw (on capacity h l s k) refl in
      subst (Persists capacity (h ++ (message ∷ []))) (sym e) (record {
        db = k.db;
        enabled = k.enabled;
        capacity_is = k.capacity_is;
        kept = appended h message s k.kept;
      })
  call-Persists capacity h clear_call (l, s) p k =
      let e : clear database (l, s) ≡ (record l { entries = [] }, database.delete_all s) =
        rw (on capacity h l s k) refl in
      subst (Persists capacity []) (sym e) (record {
        db = k.db;
        enabled = k.enabled;
        capacity_is = k.capacity_is;
        kept = ap contents (table.delete_empties s);
      })
  call-Persists capacity h close_call w p k = absurd p
  call-Persists capacity h (open_call o path) w p k = absurd p

  calls-Persists :
      (capacity : ℕ) (h : List Message) (cs : List Call) (w : Logger × S)
      → AllPlain cs
      → Persists capacity h w
      → Persists capacity (logged cs h) (calls database cs w)
  unfolding calls
  calls-Persists capacity h [] w p k = k
  calls-Persists capacity h (c ∷ cs) w (p, ps) k =
      calls-Persists capacity (logged_by c h) cs (call database c w) ps
        (call-Persists capacity h c w p k)

  recent-Persists :
      (capacity : ℕ) (limit : ℤ) (h : List Message) (w : Logger × S)
      → Persists capacity h w
      → contents (get_recent database limit w) ≡ last (clamp capacity limit) h
  unfolding get_recent
  recent-Persists capacity limit h (l, s) k =
      let n = clamp l.capacity limit in
      rw (on capacity h l s k, table.select_newest n s, newest n (rows s))
        (map-last (λ (e : Entry). e.content) n (rows s) ∙ rw (k.kept, k.capacity_is) refl)

  -- With an open database that keeps a table, which may hold rows of earlier runs, GetRecent shows the
  -- last of these and of what is logged now, since the trail was last cleared: as many as asked for, or
  -- as the capacity if that is less or the limit is not positive.
  pub recent_from_database :
      (l : Logger) (s : S) (limit : ℤ) (cs : List Call)
      → l.db ≡ true
      → l.db_enabled ≡ true
      → AllPlain cs
      → contents (get_recent database limit (calls database cs (l, s)))
        ≡ last (clamp l.capacity limit) (logged cs (contents (rows s)))
  recent_from_database l s limit cs db enabled p =
      let now = contents (rows s) in
      recent-Persists l.capacity limit (logged cs now) (calls database cs (l, s)) (
        calls-Persists l.capacity now cs (l, s) p
          (record { db = db; enabled = enabled; capacity_is = refl; kept = refl }))
