-- ===== src/Agent/Audit/Rotation.antt =====
-- The rotation of an audit log, on a disk that refuses nothing.
use lan_commander.Base.{
  ℕ, ◌≡◌, ◌≢◌, refl, sym, ap, subst, ◌∙◌, true, false, Option, none, some, List, [], length, arith,
  list_eq, nat_eq, length-append,
}
use lan_commander.Base.Exec.{ok, pure, must, ignore}
use lan_commander.Base.Exec.Outcome.{bind_ok, must_ok}
use lan_commander.Base.Text.{Text, codes}
use lan_commander.Os.Path.{dir}
use lan_commander.Os.Disk.{
  Bytes, Node, file, directory, DirItem, Files, calm_disk, put, cut, mkdir_all, open_create, stat,
  flush,
}
use lan_commander.Os.Disk.Calm.{
  IsFree, flush_calm, mkdir_all_calm, open_create_calm, rename_calm, stat_calm, remove_calm,
  put_same, put_other, cut_same, cut_other,
}
use lan_commander.Agent.Audit.{
  Logger, rotate, open_file, backup, nothing, cannot_create_directory, cannot_open, cannot_stat,
}

-- The files: the log, the backup, and the directory.
pub record Stands (path : Text) (current : Bytes) (old : Option Node) (files : Files) : Type 0 where
  pub log_is : files path ≡ some (file current)
  pub backup_is : files (backup path) ≡ old
  pub free : IsFree old
  pub size : ℕ
  pub items : List DirItem
  pub dir_is : files (dir path) ≡ some (directory size items)

abbrev pub logger : Text → ℕ → ℕ → Logger
logger path max_size n = record { path = path; file_open = true; size = n; max_size = max_size }

pub backup_ne : (path : Text) → backup path ≢ path
backup_ne path e = absurd (omega (arith, length-append path (codes ".1"), ap length e))

module _ (path : Text) (max_size : ℕ) (apart : path ≢ dir path)
    (backup_apart : backup path ≢ dir path) where
  open_file_calm :
      (z : ℕ) (items : List DirItem) (files : Files)
      → files (dir path) ≡ some (directory z items)
      → files path ≡ none
      → open_file (record (logger path max_size 0) { file_open = false }) (calm_disk files)
        ≡ (ok (logger path max_size 0), calm_disk (put files path (file [])))
  unfolding open_file pure
  open_file_calm z items files d e =
      let start = calm_disk files in
      let there = calm_disk (put files path (file [])) in
      let made = put_same path (file []) files in
      bind_ok (must (mkdir_all (dir path)) nothing cannot_create_directory) _ start tt start (
        must_ok (mkdir_all (dir path)) nothing cannot_create_directory start tt start
          (mkdir_all_calm (dir path) files z items d))
      ∙ bind_ok (must (open_create path false) nothing cannot_open) _ start tt there (
          must_ok (open_create path false) nothing cannot_open start tt there
            (open_create_calm path false files e))
      ∙ bind_ok (must (stat path) (ignore flush) cannot_stat) _ there (file []) there (
          must_ok (stat path) (ignore flush) cannot_stat there (file []) there
            (stat_calm path (put files path (file [])) (file []) made))

  pub rotate_calm :
      (current : Bytes) (old : Option Node) (n : ℕ) (files : Files)
      → Stands path current old files
      → (g : Files) × (rotate (logger path max_size n) (calm_disk files)
          ≡ (logger path max_size 0, calm_disk g))
        × Stands path [] (some (file current)) g
  unfolding rotate
  rotate_calm current old n files s =
      let (f1, removed, gone, others) =
        remove_calm (backup path) files (subst IsFree (sym s.backup_is) s.free) in
      let log1 : f1 path ≡ some (file current) =
        others path (λ e. backup_ne path (sym e)) ∙ s.log_is in
      let f2 = put (cut f1 path) (backup path) (file current) in
      let renamed =
        rename_calm path (backup path) (file current) f1 log1 (subst IsFree (sym gone) tt) in
      let dir2 : f2 (dir path) ≡ some (directory s.size s.items) =
        put_other (backup path) (dir path) (file current) (cut f1 path) (λ e. backup_apart (sym e))
        ∙ cut_other path (dir path) f1 (λ e. apart (sym e))
        ∙ others (dir path) (λ e. backup_apart (sym e))
        ∙ s.dir_is in
      let log2 : f2 path ≡ none =
        put_other (backup path) path (file current) (cut f1 path) (λ e. backup_ne path (sym e))
        ∙ cut_same path f1 in
      let opened = open_file_calm s.size s.items f2 dir2 log2 in
      (
        put f2 path (file []),
        rw (ap (λ o. o.1) (flush_calm files), removed, ap (λ o. o.1) renamed, opened) refl,
        record {
          log_is = put_same path (file []) f2;
          backup_is =
              put_other path (backup path) (file []) f2 (backup_ne path)
              ∙ put_same (backup path) (file current) (cut f1 path);
          free = tt;
          size = s.size;
          items = s.items;
          dir_is = put_other path (dir path) (file []) f2 (λ e. apart (sym e)) ∙ dir2;
        },
      )
