-- ===== src/Control/Scripts/Loading.antt =====
-- What a new engine finds of a script that was saved.
use lan_commander.Base.{
  ℕ, ◌≡◌, ◌≢◌, refl, ap, ◌∙◌, true, false, Option, none, some, List, [], ◌∷◌, ◌++◌, ◌⊎◌, inl, inr,
  arith, list_eq, nat_eq, Option-cases, Bool-cases, if◌then◌else◌,
}
use lan_commander.Base.Dict.{Dict, lookup, insert, lookup-insert}
use lan_commander.Base.Exec.{Result, ok, err, pure, lift, ◌>>=◌, catch}
use lan_commander.Base.Exec.Outcome.{bind_ok, must_ok, ok_bind}
use lan_commander.Base.Text.{Text, codes}
use lan_commander.Os.Path.{join}
use lan_commander.Os.Path.Elements.{All}
use lan_commander.Os.Disk.{
  Bytes, Node, file, directory, Disk, Files, DirItem, calm_disk, read_file, mkdir_all, read_dir,
  OsError, Sys,
}
use lan_commander.Os.Disk.Calm.{mkdir_all_calm, read_dir_calm}
use lan_commander.Control.Scripts.{
  fails_as, nothing, cannot_create_directory, cannot_read_directory, Script, ScriptError, Host,
  World, validate_script_name, on_disk, set_scripts, script_path, save, loadable, load_item,
  load_items, load_from_disk, new_engine_with_path, add_script, add_content,
}
use lan_commander.Control.Scripts.Named.{Named, after-Named}
use lan_commander.Control.Scripts.Saving.{saved, save_whole}

abbrev pub readable : Option Node → Option Bytes
readable none = none
readable (some (file b)) = some b
readable (some (directory z items)) = none

abbrev pub decoded : Host → Option Bytes → Option Script
decoded h none = none
decoded h (some b) = h.decode b

-- Some item of the list.
abbrev pub Some : (DirItem → Type 0) → List DirItem → Type 0
Some P [] = ⊥
Some P (item ∷ items) = P item ⊎ Some P items

module _ (h : Host) (files : Files) where
  -- What the loop finds in an item.
  abbrev pub content_of : DirItem → Option Bytes
  content_of item = if loadable h item then readable (files (join h.base_path item.name)) else none

  abbrev world : Dict Text Script → World
  world m = record { scripts = m; disk = calm_disk files }

  on_disk_calm :
      {A : Type 0} {a : A} (c : Sys A) (m : Dict Text Script)
      → c (calm_disk files) ≡ (ok a, calm_disk files)
      → on_disk c (world m) ≡ (ok a, world m)
  unfolding on_disk
  on_disk_calm {A} c m e =
      ap (λ (o : Result OsError A × Disk). (o.0, record { scripts = m; disk = o.1 })) e

  load_item_calm :
      (item : DirItem) (m : Dict Text Script)
      → load_item h item (world m) ≡ (ok tt, world (add_content h (content_of item) m))
  unfolding load_item ◌>>=◌ pure catch on_disk read_file set_scripts
  load_item_calm item m = elim (Bool-cases (loadable h item)) [
    | inl l ↦ go (files (join h.base_path item.name)) refl l
    | inr l ↦ rw l refl
  ]
    where
      go :
          (n : Option Node)
          → files (join h.base_path item.name) ≡ n
          → loadable h item ≡ true
          → load_item h item (world m) ≡ (ok tt, world (add_content h (content_of item) m))
      go none e l = rw (l, e) refl
      go (some (file b)) e l = rw (l, e) refl
      go (some (directory z items)) e l = rw (l, e) refl

  -- The loop, without the disk.
  abbrev loaded : List DirItem → Dict Text Script → Dict Text Script
  loaded [] m = m
  loaded (item ∷ items) m = loaded items (add_content h (content_of item) m)

  load_items_calm :
      (items : List DirItem) (m : Dict Text Script)
      → load_items h items (world m) ≡ (ok tt, world (loaded items m))
  unfolding load_items pure
  load_items_calm [] m = refl
  load_items_calm (item ∷ items) m =
      bind_ok (load_item h item) (λ _. load_items h items) (world m) tt _ (load_item_calm item m)
      ∙ load_items_calm items (add_content h (content_of item) m)

  load_calm :
      (z : ℕ) (items : List DirItem)
      → files h.base_path ≡ some (directory z items)
      → new_engine_with_path h (calm_disk files) ≡ world (loaded items [])
  unfolding new_engine_with_path load_from_disk
  load_calm z items e =
      let w = world [] in
      let here =
        on_disk_calm (mkdir_all h.base_path) [] (mkdir_all_calm h.base_path files z items e) in
      let there =
        on_disk_calm (read_dir h.base_path) [] (read_dir_calm h.base_path files z items e) in
      ap (λ (o : Result ScriptError (Unit {0}) × World). o.1)
        (bind_ok (fails_as (mkdir_all h.base_path) cannot_create_directory) _ w tt w
            (must_ok (on_disk (mkdir_all h.base_path)) nothing cannot_create_directory w tt w here)
          ∙ bind_ok (fails_as (read_dir h.base_path) cannot_read_directory) _ w items w (
              must_ok (on_disk (read_dir h.base_path)) nothing cannot_read_directory w items w
                there)
          ∙ load_items_calm items [])

  -- The script that an item holds.
  abbrev pub held : DirItem → Option Script
  held item = decoded h (content_of item)

  module _ (name : Text) (script : Script) (named : script.name ≡ name)
      (valid : validate_script_name name ≡ ok tt) where
    -- The item holds the script, or none of this name.
    abbrev Agrees : DirItem → Type 0
    Agrees item = (held item ≡ some script) ⊎ ((s : Script) → held item ≡ some s → s.name ≢ name)

    placed : (m : Dict Text Script) → lookup name (add_script h (some script) m) ≡ some script
    placed m = go (validate_script_name script.name) (ap validate_script_name named ∙ valid)
      where
        go :
            (r : Result ScriptError (Unit {0}))
            → r ≡ ok tt
            → lookup name (elim r [ ok _ ↦ insert script.name script m | err _ ↦ m ]) ≡ some script
        go (ok u) e = ground (arith, lookup-insert name script.name script m, named)
        go (err x) e = absurd cc

    hit :
        (c : Option Bytes) (m : Dict Text Script)
        → decoded h c ≡ some script
        → lookup name (add_content h c m) ≡ some script
    hit none m e = absurd cc
    hit (some b) m e = rw e (placed m)

    added :
        (s : Script) (m : Dict Text Script)
        → s.name ≢ name
        → lookup name (add_script h (some s) m) ≡ lookup name m
    added s m ne = go (validate_script_name s.name)
      where
        go :
            (r : Result ScriptError (Unit {0}))
            → lookup name (elim r [ ok _ ↦ insert s.name s m | err _ ↦ m ]) ≡ lookup name m
        go (ok u) = ground (arith, lookup-insert name s.name s m)
        go (err e) = refl

    miss :
        (c : Option Bytes) (m : Dict Text Script)
        → ((s : Script) → decoded h c ≡ some s → s.name ≢ name)
        → lookup name (add_content h c m) ≡ lookup name m
    miss none m other = refl
    miss (some b) m other = elim (Option-cases (h.decode b)) [
      | inl e ↦ rw e refl
      | inr (s, e) ↦ rw e (added s m (other s e))
    ]

    kept_entry :
        (items : List DirItem) (m : Dict Text Script)
        → All Agrees items
        → lookup name m ≡ some script
        → lookup name (loaded items m) ≡ some script
    kept_entry [] m a e = e
    kept_entry (item ∷ items) m (inl same, a) e =
        kept_entry items _ a (hit (content_of item) m same)
    kept_entry (item ∷ items) m (inr other, a) e =
        kept_entry items _ a (miss (content_of item) m other ∙ e)

    found_entry :
        (items : List DirItem) (m : Dict Text Script)
        → All Agrees items
        → Some (λ item. held item ≡ some script) items
        → lookup name (loaded items m) ≡ some script
    found_entry [] m a l = absurd l
    found_entry (item ∷ items) m (_, a) (inl same) =
        kept_entry items _ a (hit (content_of item) m same)
    found_entry (item ∷ items) m (_, a) (inr l) = found_entry items _ a l

not_both : (r : Result ScriptError (Unit {0})) {e : ScriptError} → r ≡ ok tt → r ≡ err e → ⊥
not_both r fine failed = absurd cc

saved_valid :
    (h : Host) (name content : Text) (now : ℕ) (w : World)
    → (save h name content now w).0 ≡ ok tt
    → validate_script_name name ≡ ok tt
unfolding save lift
saved_valid h name content now w fine =
    let t = (save h name content now w).1 in
    let (_, _, e, _) =
      ok_bind (lift (validate_script_name name)) _ w
        (ap (λ (r : Result ScriptError (Unit {0})). (r, t)) fine) in
    ap (λ (o : Result ScriptError (Unit {0}) × World). o.0) e

module _ (h : Host) (files : Files) (name : Text) (script : Script) (b : Bytes)
    (there : files (script_path h name) ≡ some (file b)) (read : h.decode b ≡ some script) where
  held_by_name :
      (item : DirItem)
      → item.name ≡ name ++ codes ".json"
      → loadable h item ≡ true
      → held h files item ≡ some script
  unfolding script_path
  held_by_name item e l =
      let at : files (join h.base_path item.name) ≡ some (file b) =
        ap (λ n. files (join h.base_path n)) e ∙ there in
      rw (l, at) read

  agrees :
      (items : List DirItem)
      → All
          (λ item.
            (item.name ≡ name ++ codes ".json")
            ⊎ ((s : Script) → held h files item ≡ some s → s.name ≢ name))
          items
      → All
          (λ item.
            (held h files item ≡ some script)
            ⊎ ((s : Script) → held h files item ≡ some s → s.name ≢ name))
          items
  agrees [] a = tt
  agrees (item ∷ items) (inr other, a) = (inr other, agrees items a)
  agrees (item ∷ items) (inl e, a) = elim (Bool-cases (loadable h item)) [
    | inl l ↦ (inl (held_by_name item e l), agrees items a)
    | inr l ↦ (inr (λ s f. absurd (not_held item s l f)), agrees items a)
  ]
    where
      not_held :
          (item : DirItem) (s : Script) → loadable h item ≡ false → held h files item ≡ some s → ⊥
      not_held item s l f = ground arith

  held_somewhere :
      (items : List DirItem)
      → Some (λ item. (item.name ≡ name ++ codes ".json") × (loadable h item ≡ true)) items
      → Some (λ item. held h files item ≡ some script) items
  held_somewhere [] l = l
  held_somewhere (item ∷ items) (inl (e, l)) = inl (held_by_name item e l)
  held_somewhere (item ∷ items) (inr l) = inr (held_somewhere items l)

-- A script that was saved without an error is what a new engine finds under its name, if the new engine
-- reads the file as the save left it, whatever else the directory holds: no other file may hold a
-- script of that name.
pub load_saved :
    (h : Host) (name content : Text) (now : ℕ) (w : World) (files : Files) (z : ℕ)
    (items : List DirItem)
    → script_path h name ≢ h.temp_name h.base_path
    → script_path h name ≢ h.base_path
    → Named w.scripts
    → (save h name content now w).0 ≡ ok tt
    → ((b : Bytes)
        → h.encode (saved name content now w) ≡ some b
        → h.decode b ≡ some (saved name content now w))
    → files (script_path h name) ≡ (save h name content now w).1.disk.files (script_path h name)
    → files h.base_path ≡ some (directory z items)
    → Some (λ item. (item.name ≡ name ++ codes ".json") × (loadable h item ≡ true)) items
    → All
        (λ item.
          (item.name ≡ name ++ codes ".json")
          ⊎ ((s : Script) → held h files item ≡ some s → s.name ≢ name))
        items
    → lookup name (new_engine_with_path h (calm_disk files)).scripts
      ≡ some (saved name content now w)
load_saved h name content now w files z items ne below named fine codec same dir there others =
    elim (save_whole h name content now ne below w) [
      | inl (_, (_, failed)) ↦ absurd (not_both _ fine failed)
      | inr (_, _, (b, encoded, stored)) ↦
          let script = saved name content now w in
          let read = codec b encoded in
          let kept = same ∙ stored in
          ap (λ (v : World). lookup name v.scripts) (load_calm h files z items dir)
          ∙ found_entry h files name script (after-Named name content now w.scripts named)
              (saved_valid h name content now w fine) items []
              (agrees h files name script b kept read items others)
              (held_somewhere h files name script b kept read items there)
    ]
