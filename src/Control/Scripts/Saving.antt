-- ===== src/Control/Scripts/Saving.antt =====
-- What a save does to the file of a script.
use lan_commander.Base.{
  ℕ, ◌≡◌, ◌≢◌, refl, sym, ap, subst, ◌∙◌, true, Option, none, some, [], ◌++◌, ◌⊎◌, inl, inr, arith,
  list_eq, nat_eq, drop_all, append-nil, length, ◌+◌, Option-cases,
}
use lan_commander.Base.Dict.{Dict, lookup, insert, lookup-insert}
use lan_commander.Base.Exec.{Result, ok, err, pure, raise, gets, ◌>>=◌, ◌>>◌, ignore}
use lan_commander.Base.Exec.Keeps.{Keeps, Keeps-pure, Keeps-raise, keeps_rules}
use lan_commander.Base.Exec.Outcome.{bind_cases, must_cases, ok_must}
use lan_commander.Base.Text.{Text}
use lan_commander.Os.Disk.{
  Bytes, Node, file, Disk, OsError, Sys, open_create, write_at, flush, rename, remove, splice,
}
use lan_commander.Os.Disk.Frame.{At, disk_frame, Keeps-flush}
use lan_commander.Os.Disk.Effect.{kept, write_at_ok, rename_ok, open_create_ok}
use lan_commander.Control.Scripts.{
  Script, ScriptError, Host, World, Op, nothing, on_disk, set_scripts, fails_as, present,
  script_after, script_path, write_script, then_remove, save_to_disk, save, cannot_rename,
  cannot_write, cannot_chmod, cannot_close, cannot_create_temp, not_found, cannot_marshal,
}

-- The node of a path, and the scripts in memory.
pub record Still (q : Text) (x : Option Node) (m : Dict Text Script) (w : World) : Type 0 where
  pub node : w.disk.files q ≡ x
  pub scripts : w.scripts ≡ m

module _ {q : Text} {x : Option Node} {m : Dict Text Script} where
  pub Keeps-on_disk : {A : Type 0} (c : Sys A) → Keeps (At q x) c → Keeps (Still q x m) (on_disk c)
  unfolding on_disk
  Keeps-on_disk c k = record {
    at = λ w h. record { node = k.at w.disk h.node; scripts = h.scripts };
  }

  pub Keeps-present :
      {A : Type 0} (o : Option A) (e : ScriptError) → Keeps (Still q x m) (present o e)
  Keeps-present none e = Keeps-raise e
  Keeps-present (some a) e = Keeps-pure a

  pub ruleset script_frame = (Keeps-on_disk, Keeps-present)

pub on_disk_ok :
    {A : Type 0} (c : Sys A) (w u : World) {r : Result OsError A}
    → on_disk c w ≡ (r, u)
    → (c w.disk ≡ (r, u.disk)) × (u.scripts ≡ w.scripts)
unfolding on_disk
on_disk_ok {A} c w u h = (
  ap (λ (o : Result OsError A × World). (o.0, o.1.disk)) h,
  ap (λ (o : Result OsError A × World). o.1.scripts) (sym h),
)

rename_failed :
    (p q : Text) (d t : Disk) {e : OsError} → rename p q d ≡ (err e, t) → t.files q ≡ d.files q
unfolding rename
rename_failed p q d t h = ground arith

-- The file of the script holds `content`.
abbrev Done : Text → Dict Text Script → Bytes → Result ScriptError (Unit {0}) × World → Type 0
Done q m content o = (o.0 ≡ ok tt) × Still q (some (file content)) m o.1

abbrev pub Fails : Result ScriptError (Unit {0}) × World → Type 0
Fails o = (e : ScriptError) × (o.0 ≡ err e)

-- Either an error is reported and nothing happened to the file, or `D`.
abbrev Whole :
    Text
    → Option Node
    → Dict Text Script
    → (Result ScriptError (Unit {0}) × World → Type 0)
    → Result ScriptError (Unit {0}) × World
    → Type 0
Whole q x m D o = (Still q x m o.1 × Fails o) ⊎ D o

-- A step that leaves the file alone, before the rest.
Whole-bind :
    {q : Text} {x : Option Node} {m : Dict Text Script} {A : Type 0}
    (D : Result ScriptError (Unit {0}) × World → Type 0) (c : Op A) (f : A → Op (Unit {0}))
    (w : World)
    → Keeps (Still q x m) c
    → ((a : A) (v : World) → c w ≡ (ok a, v) → Still q x m v → Whole q x m D (f a v))
    → Still q x m w
    → Whole q x m D ((c >>= f) w)
Whole-bind {q} {x} {m} D c f w k rest h =
    bind_cases (Whole q x m D) c f w
      (λ e v s. inl (subst (λ (o : _ × World). Still q x m o.1) s (k.at w h), (e, refl)))
      (λ a v s. rest a v s (subst (λ (o : _ × World). Still q x m o.1) s (k.at w h)))

splice_empty : (content : Bytes) → splice [] 0 content ≡ content
splice_empty content =
    ap (◌++◌ content) (drop_all (0 + length content) [] (omega arith)) ∙ append-nil content

module _ (q temp : Text) (x : Option Node) (m : Dict Text Script) (content : Bytes)
    (ne : q ≢ temp) where
  renamed :
      (w : World)
      → Still q x m w
      → w.disk.files temp ≡ some (file content)
      → Whole q x m (Done q m content) (fails_as (rename temp q) cannot_rename w)
  unfolding pure raise ◌>>=◌
  renamed w h t =
      must_cases (Whole q x m (Done q m content)) (on_disk (rename temp q)) nothing cannot_rename w
        (λ e v s.
          let (d, k) = on_disk_ok (rename temp q) w v s in
          inl (
            record {
              node = rename_failed temp q w.disk v.disk d ∙ h.node;
              scripts = k ∙ h.scripts;
            },
            (cannot_rename, refl),
          ))
        (λ a v s.
          let (d, k) = on_disk_ok (rename temp q) w v s in
          inr (
            refl,
            record {
              node = (rename_ok temp q w.disk v.disk (λ e. ne (sym e)) t d).0;
              scripts = k ∙ h.scripts;
            },
          ))

  write_script_Whole :
      (h : Host) (w : World)
      → Still q x m w
      → w.disk.files temp ≡ some (file [])
      → Whole q x m (Done q m content) (write_script h temp q content w)
  unfolding write_script
  write_script_Whole h w s t =
      Whole-bind (Done q m content) _ _ w (search (keeps_rules, script_frame, disk_frame) depth 8)
        (λ _ v e s.
          let chmod = ok_must (on_disk flush) (ignore (on_disk flush)) cannot_chmod w e in
          let t1 = kept Keeps-flush (on_disk_ok flush w v chmod).0 ∙ t in
          Whole-bind (Done q m content) _ _ v
            (search (keeps_rules, script_frame, disk_frame) depth 8)
            (λ _ v' e s.
              let wrote =
                ok_must (on_disk (write_at temp content 0)) (ignore (on_disk flush)) cannot_write v
                  e in
              let t2 =
                write_at_ok temp content 0 v.disk v'.disk [] t1 (on_disk_ok _ v v' wrote).0 in
              Whole-bind (Done q m content) _ _ v'
                (search (keeps_rules, script_frame, disk_frame) depth 8)
                (λ _ v'' e s.
                  let closed = ok_must (on_disk flush) nothing cannot_close v' e in
                  let t3 = kept Keeps-flush (on_disk_ok flush v' v'' closed).0 ∙ t2 in
                  renamed v'' s (t3 ∙ ap (λ b. some (file b)) (splice_empty content)))
                s)
            s)
        s

  then_remove_Whole :
      (h : Host) (c : Op (Unit {0})) (w : World)
      → Whole q x m (Done q m content) (c w)
      → Whole q x m (Done q m content) (then_remove h temp c w)
  unfolding then_remove
  then_remove_Whole h c w s = elim s [
    | inl (still, f) ↦ inl ((keeps x).at (c w).1 still, f)
    | inr (fine, there) ↦ inr (fine, (keeps (some (file content))).at (c w).1 there)
  ]
    where
      keeps :
          (y : Option Node) → Keeps (Still q y m) (ignore {F = ScriptError} (on_disk (remove temp)))
      keeps y = search (keeps_rules, script_frame, disk_frame) depth 8

-- `script` was written out to the file, whole.
abbrev pub Stored :
    Host → Script → Text → Dict Text Script → Result ScriptError (Unit {0}) × World → Type 0
Stored h script q m o = (content : Bytes) × (h.encode script ≡ some content) × Done q m content o

module _ (h : Host) (name : Text) (script : Script) (m : Dict Text Script) (x : Option Node)
    (found : lookup name m ≡ some script) (ne : script_path h name ≢ h.temp_name h.base_path)
    (below : script_path h name ≢ h.base_path) where
  written :
      (content : Bytes) (w : World)
      → Still (script_path h name) x m w
      → Whole (script_path h name) x m (Done (script_path h name) m content) (
          (fails_as (open_create (h.temp_name h.base_path) true) cannot_create_temp
              >> then_remove h
                  (h.temp_name h.base_path)
                  (write_script h (h.temp_name h.base_path) (script_path h name) content))
            w)
  written content w s =
      let temp = h.temp_name h.base_path in
      Whole-bind (Done (script_path h name) m content) _ _ w
        (search (keeps_rules, script_frame, disk_frame) depth 8)
        (λ _ v e s.
          let opened = ok_must (on_disk (open_create temp true)) nothing cannot_create_temp w e in
          then_remove_Whole (script_path h name) temp x m content ne h _ v (
            write_script_Whole (script_path h name) temp x m content ne h v s
              (open_create_ok temp w.disk v.disk (on_disk_ok _ w v opened).0)))
        s

  -- From the lookup on.
  rest : Op (Unit {0})
  rest = do
    found ← gets (λ w. lookup name w.scripts)
    script ← present found not_found
    content ← present (h.encode script) cannot_marshal
    let path = script_path h name
    let temp = h.temp_name h.base_path
    fails_as (open_create temp true) cannot_create_temp
    then_remove h temp (write_script h temp path content)

  rest_Whole :
      (w : World)
      → Still (script_path h name) x m w
      → Whole (script_path h name) x m (Stored h script (script_path h name) m) (rest w)
  unfolding rest gets pure raise ◌>>=◌
  rest_Whole w s =
      let here : lookup name w.scripts ≡ some script = ap (lookup name) s.scripts ∙ found in
      elim (Option-cases (h.encode script)) [
        | inl e ↦ rw (here, e) (inl (s, (cannot_marshal, refl)))
        | inr (content, e) ↦
            rw (here, e)
              (elim (written content w s) [
                | inl still ↦ inl still
                | inr done ↦ inr (content, refl, done)
              ])
      ]

  save_to_disk_Whole :
      (w : World)
      → Still (script_path h name) x m w
      → Whole
          (script_path h name)
          x
          m
          (Stored h script (script_path h name) m)
          (save_to_disk h name w)
  unfolding save_to_disk rest
  save_to_disk_Whole w s =
      let D = Stored h script (script_path h name) m in
      Whole-bind D _ _ w (search (keeps_rules, script_frame, disk_frame) depth 8)
        (λ _ v e s.
          Whole-bind D _ _ v (search (keeps_rules, script_frame, disk_frame) depth 8)
            (λ _ v' e s. rest_Whole v' s) s)
        s

-- The script that a save leaves in memory.
abbrev pub saved : Text → Text → ℕ → World → Script
saved name content now w = script_after name content now (lookup name w.scripts)

abbrev pub SaveOutcome :
    Host → Text → Script → Option Node → Result ScriptError (Unit {0}) × World → Type 0
SaveOutcome h name script x o =
    ((o.1.disk.files (script_path h name) ≡ x) × Fails o)
    ⊎ ((o.0 ≡ ok tt)
        × (lookup name o.1.scripts ≡ some script)
        × ((b : Bytes) × (h.encode script ≡ some b)
            × (o.1.disk.files (script_path h name) ≡ some (file b))))

module _ (h : Host) (name content : Text) (now : ℕ)
    (ne : script_path h name ≢ h.temp_name h.base_path)
    (below : script_path h name ≢ h.base_path) where
  stored :
      (x : Option Node) (w v : World)
      → Still (script_path h name) x w.scripts v
      → SaveOutcome h name (saved name content now w) x (
          (set_scripts (λ m. insert name (script_after name content now (lookup name m)) m)
              >> save_to_disk h name)
            v)
  unfolding set_scripts ◌>>=◌
  stored x w v s =
      let script = saved name content now v in
      let same : script ≡ saved name content now w =
        ap (λ m. script_after name content now (lookup name m)) s.scripts in
      let m = insert name script v.scripts in
      let found : lookup name m ≡ some script =
        ground (arith, lookup-insert name name script v.scripts) in
      let u = record v { scripts = m } in
      subst (λ t. SaveOutcome h name t x (save_to_disk h name u)) same
        (elim (save_to_disk_Whole h name script m x found ne below u
          (record { node = s.node; scripts = refl })) [
            | inl (still, f) ↦ inl (still.node, f)
            | inr (b, e, (fine, there)) ↦
                inr (fine, ap (lookup name) there.scripts ∙ found, (b, e, there.node))
          ])

  -- A save, whatever fails, either reports an error and leaves the script's file as it was, or returns
  -- without one; then the script is in the file, whole, and in memory.
  pub save_whole :
      (w : World)
      → SaveOutcome h name
          (saved name content now w)
          (w.disk.files (script_path h name))
          (save h name content now w)
  unfolding save
  save_whole w =
      let x = w.disk.files (script_path h name) in
      let D = SaveOutcome h name (saved name content now w) x in
      let outcome : Whole (script_path h name) x w.scripts D (save h name content now w) =
        Whole-bind D _ _ w (search (keeps_rules, script_frame, disk_frame) depth 8)
          (λ _ v e s.
            Whole-bind D _ _ v (search (keeps_rules, script_frame, disk_frame) depth 8)
              (λ _ v' e s. inr (stored x w v' s)) s)
          (record { node = refl; scripts = refl }) in
      elim outcome [ inl (still, f) ↦ inl (still.node, f) | inr o ↦ o ]
