-- ===== src/Control/Scripts/Named.antt =====
-- The scripts in memory stand under their names, whatever is saved, deleted and loaded.
use lan_commander.Base.{ℕ, ◌≡◌, refl, Option, none, some, List, [], ◌∷◌, arith, list_eq, nat_eq}
use lan_commander.Base.Dict.{Dict, lookup, insert, erase, lookup-insert, lookup-erase}
use lan_commander.Base.Exec.{Result, ok, err, lift, ◌>>=◌, ignore}
use lan_commander.Base.Exec.Keeps.{
  Keeps, Keeps-pure, Keeps-raise, Keeps-lift, Keeps-gets, Keeps-bind, Keeps-catch, keeps_rules,
}
use lan_commander.Base.Text.{Text}
use lan_commander.Os.Disk.{Disk, Sys, DirItem, OsError, not_exist, failed, remove}
use lan_commander.Control.Scripts.{
  Script, ScriptError, Host, World, Op, validate_script_name, on_disk, set_scripts, present, save,
  delete, script_after, save_to_disk, then_remove, write_script, load_item, load_items,
  load_from_disk, new_engine_with_path, add_script, add_content, unless_absent, script_path,
}

-- Every script stands under its own name, which is an accepted one.
pub record Named (m : Dict Text Script) : Type 0 where
  pub at :
      (name : Text) (s : Script)
      → lookup name m ≡ some s
      → (s.name ≡ name) × (validate_script_name name ≡ ok tt)

-- What the callers of an engine do to its scripts.
pub data Call : Type 0 where
  save_call : Text → Text → ℕ → Call
  delete_call : Text → Call

module _ (h : Host) where
  unfoldable pub call : Call → World → World
  call (save_call name content now) w = (save h name content now w).1
  call (delete_call name) w = (delete h name w).1

  unfoldable pub calls : List Call → World → World
  calls [] w = w
  calls (c ∷ cs) w = calls cs (call c w)

insert-Named :
    (name : Text) (s : Script) (m : Dict Text Script)
    → s.name ≡ name
    → validate_script_name name ≡ ok tt
    → Named m
    → Named (insert name s m)
insert-Named name s m e v k = record {
  at = λ other t found. ground (arith, lookup-insert other name s m, k.at other t);
}

erase-Named : (name : Text) (m : Dict Text Script) → Named m → Named (erase name m)
erase-Named name m k = record {
  at = λ other t found. ground (arith, lookup-erase other name m, k.at other t);
}

pub after-Named :
    (name content : Text) (now : ℕ) (m : Dict Text Script)
    → Named m
    → (script_after name content now (lookup name m)).name ≡ name
after-Named name content now m k = go (lookup name m) refl
  where
    go : (o : Option Script) → lookup name m ≡ o → (script_after name content now o).name ≡ name
    go none e = refl
    go (some s) e = (k.at name s e).0

pub empty : Named []
unfolding lookup
empty = record { at = λ name s e. absurd cc }

abbrev Kept : World → Type 0
Kept w = Named w.scripts

Keeps-on_disk : {A : Type 0} (c : Sys A) → Keeps Kept (on_disk c)
unfolding on_disk
Keeps-on_disk c = record { at = λ w h. h }

Keeps-present : {A : Type 0} (o : Option A) (e : ScriptError) → Keeps Kept (present o e)
Keeps-present none e = Keeps-raise e
Keeps-present (some a) e = Keeps-pure a

Keeps-set :
    (f : Dict Text Script → Dict Text Script)
    → ((m : Dict Text Script) → Named m → Named (f m))
    → Keeps Kept (set_scripts f)
unfolding set_scripts
Keeps-set f k = record { at = λ w h. k w.scripts h }

-- What follows an accepted result.
Keeps-lift_bind :
    {A B : Type 0} (r : Result ScriptError A) (f : A → Op B)
    → ((a : A) → r ≡ ok a → Keeps Kept (f a))
    → Keeps Kept (lift r >>= f)
unfolding lift ◌>>=◌
Keeps-lift_bind (ok a) f k = record { at = (k a refl).at }
Keeps-lift_bind (err e) f k = record { at = λ w h. h }

ruleset named_rules = (Keeps-on_disk, Keeps-present)

module _ (h : Host) where
  Keeps-then_remove :
      (temp : Text) (m : Op (Unit {0})) → Keeps Kept m → Keeps Kept (then_remove h temp m)
  unfolding then_remove ignore on_disk
  Keeps-then_remove temp m k = record { at = k.at }

  Keeps-write_script : (temp path content : Text) → Keeps Kept (write_script h temp path content)
  unfolding write_script
  Keeps-write_script temp path content = search (keeps_rules, named_rules) depth 12

  Keeps-save_to_disk : (name : Text) → Keeps Kept (save_to_disk h name)
  unfolding save_to_disk
  Keeps-save_to_disk name =
      search (keeps_rules, named_rules, Keeps-then_remove, Keeps-write_script) depth 12

  Keeps-save : (name content : Text) (now : ℕ) → Keeps Kept (save h name content now)
  unfolding save
  Keeps-save name content now = Keeps-lift_bind (validate_script_name name) _ (λ _ valid.
      let f =
        λ (m : Dict Text Script). insert name (script_after name content now (lookup name m)) m in
      let put = Keeps-set f (λ m k.
        insert-Named name (script_after name content now (lookup name m)) m
          (after-Named name content now m k) valid k) in
      Keeps-bind _ _ (search keeps_rules depth 6)
        (λ _. Keeps-bind _ _ put (λ _. Keeps-save_to_disk name)))

  Keeps-unless_absent : (e : OsError) → Keeps Kept (unless_absent h e)
  Keeps-unless_absent not_exist = Keeps-pure tt
  Keeps-unless_absent failed = Keeps-raise _

  Keeps-delete : (name : Text) → Keeps Kept (delete h name)
  unfolding delete
  Keeps-delete name =
      let cut = Keeps-set (λ m. erase name m) (erase-Named name) in
      let gone =
        Keeps-catch (on_disk (remove (script_path h name))) (unless_absent h)
          (Keeps-on_disk (remove (script_path h name))) Keeps-unless_absent in
      Keeps-bind _ _ (Keeps-lift (validate_script_name name)) (λ _.
        Keeps-bind _ _ (Keeps-gets _)
          (λ found. Keeps-bind _ _ (Keeps-present found _) (λ _. Keeps-bind _ _ cut (λ _. gone))))

  calls-Named : (cs : List Call) (w : World) → Named w.scripts → Named (calls h cs w).scripts
  unfolding calls call
  calls-Named [] w k = k
  calls-Named (save_call name content now ∷ cs) w k =
      calls-Named cs _ ((Keeps-save name content now).at w k)
  calls-Named (delete_call name ∷ cs) w k = calls-Named cs _ ((Keeps-delete name).at w k)

  add_content-Named : (c : Option Text) (m : Dict Text Script) → Named m → Named (add_content h c m)
  add_content-Named none m k = k
  add_content-Named (some b) m k = go (h.decode b)
    where
      placed :
          (s : Script) (r : Result ScriptError (Unit {0}))
          → validate_script_name s.name ≡ r
          → Named (elim r [ ok _ ↦ insert s.name s m | err _ ↦ m ])
      placed s (ok u) e = insert-Named s.name s m refl e k
      placed s (err x) e = k

      go : (o : Option Script) → Named (add_script h o m)
      go none = k
      go (some s) = placed s (validate_script_name s.name) refl

  Keeps-load_item : (item : DirItem) → Keeps Kept (load_item h item)
  unfolding load_item
  Keeps-load_item item =
      let add = λ (c : Option Text). Keeps-set _ (add_content-Named c) in
      search (keeps_rules, named_rules, Keeps-catch, add) depth 12

  Keeps-load_items : (items : List DirItem) → Keeps Kept (load_items h items)
  unfolding load_items
  Keeps-load_items [] = Keeps-pure tt
  Keeps-load_items (item ∷ items) =
      Keeps-bind (load_item h item) (λ _. load_items h items) (Keeps-load_item item)
        (λ _. Keeps-load_items items)

  -- From the start of an engine on, whatever is on the disk, whatever fails, and whatever is saved and
  -- deleted: every script in memory stands under its own name, and that name is one that
  -- validateScriptName accepts.
  pub engine-Named :
      (cs : List Call) (d : Disk) → Named (calls h cs (new_engine_with_path h d)).scripts
  unfolding new_engine_with_path
  engine-Named cs d =
      let load : Keeps Kept (load_from_disk h) =
        unfold load_from_disk in search (keeps_rules, named_rules, Keeps-load_items) depth 12 in
      calls-Named cs (new_engine_with_path h d) (load.at (record { scripts = []; disk = d }) empty)
