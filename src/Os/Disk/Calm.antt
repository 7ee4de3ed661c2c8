-- ===== src/Os/Disk/Calm.antt =====
-- Calls on a disk that refuses nothing.
use lan_commander.Base.{
  ◌≢◌, arith, ℕ, ◌+◌, ◌-◌, ◌≡◌, refl, none, some, List, ◌++◌, ltb, length, nat_eq, list_eq, take,
  slice, replicate, Option, Bool, [],
}
use lan_commander.Base.Exec.{ok}
use lan_commander.Base.Text.{Text}
use lan_commander.Os.Disk.{
  remove, append, Bytes, Node, file, directory, DirItem, Files, calm_disk, put, splice, stat,
  read_dir, mkdir_all, read_file, open_read, open_write, flush, read_at, read, write_at, write_file,
  truncate, open_create, rename, cut,
}

module _ (p : Text) (files : Files) where
  pub stat_calm : (n : Node) → files p ≡ some n → stat p (calm_disk files) ≡ (ok n, calm_disk files)
  unfolding stat
  stat_calm n e = rw e refl

  pub open_read_calm :
      (n : Node) → files p ≡ some n → open_read p (calm_disk files) ≡ (ok n, calm_disk files)
  unfolding open_read
  open_read_calm n e = rw e refl

  pub open_write_calm :
      (b : Bytes)
      → files p ≡ some (file b)
      → open_write p (calm_disk files) ≡ (ok b, calm_disk files)
  unfolding open_write
  open_write_calm b e = rw e refl

  pub read_file_calm :
      (b : Bytes)
      → files p ≡ some (file b)
      → read_file p (calm_disk files) ≡ (ok b, calm_disk files)
  unfolding read_file
  read_file_calm b e = rw e refl

  pub read_dir_calm :
      (z : ℕ) (l : List DirItem)
      → files p ≡ some (directory z l)
      → read_dir p (calm_disk files) ≡ (ok l, calm_disk files)
  unfolding read_dir
  read_dir_calm z l e = rw e refl

  pub mkdir_all_calm :
      (z : ℕ) (l : List DirItem)
      → files p ≡ some (directory z l)
      → mkdir_all p (calm_disk files) ≡ (ok tt, calm_disk files)
  unfolding mkdir_all
  mkdir_all_calm z l e = rw e refl

  pub read_at_calm :
      (b : Bytes) (off n : ℕ)
      → files p ≡ some (file b)
      → read_at p off n (calm_disk files)
        ≡ (ok (slice off (off + n) b, ltb (length (slice off (off + n) b)) n), calm_disk files)
  unfolding read_at
  read_at_calm b off n e = rw e refl

  pub read_calm :
      (b : Bytes) (off n : ℕ)
      → files p ≡ some (file b)
      → read p off n (calm_disk files) ≡ (ok (slice off (off + n) b), calm_disk files)
  unfolding read
  read_calm b off n e = rw e refl

  pub write_at_calm :
      (old b : Bytes) (off : ℕ)
      → files p ≡ some (file old)
      → write_at p b off (calm_disk files)
        ≡ (ok (length b), calm_disk (put files p (file (splice old off b))))
  unfolding write_at
  write_at_calm old b off e = rw e refl

  pub write_file_new_calm :
      (b : Bytes)
      → files p ≡ none
      → write_file p b (calm_disk files) ≡ (ok tt, calm_disk (put files p (file b)))
  unfolding write_file
  write_file_new_calm b e = rw e refl

  pub write_file_calm :
      (old b : Bytes)
      → files p ≡ some (file old)
      → write_file p b (calm_disk files) ≡ (ok tt, calm_disk (put files p (file b)))
  unfolding write_file
  write_file_calm old b e = rw e refl

  pub truncate_calm :
      (old : Bytes) (n : ℕ)
      → files p ≡ some (file old)
      → truncate p n (calm_disk files)
        ≡ (ok tt, calm_disk (put files p (file (take n (old ++ replicate (n - length old) 0)))))
  unfolding truncate
  truncate_calm old n e = rw e refl

pub flush_calm : (files : Files) → flush (calm_disk files) ≡ (ok tt, calm_disk files)
unfolding flush
flush_calm files = refl

pub open_create_calm :
    (p : Text) (empties : Bool) (files : Files)
    → files p ≡ none
    → open_create p empties (calm_disk files) ≡ (ok tt, calm_disk (put files p (file [])))
unfolding open_create
open_create_calm p empties files e = rw e refl

-- A target that a file can be renamed to.
abbrev pub IsFree : Option Node → Type 0
IsFree none = Unit {0}
IsFree (some (file b)) = Unit {0}
IsFree (some (directory z l)) = ⊥

pub rename_calm :
    (p q : Text) (n : Node) (files : Files)
    → files p ≡ some n
    → IsFree (files q)
    → rename p q (calm_disk files) ≡ (ok tt, calm_disk (put (cut files p) q n))
unfolding rename
rename_calm p q n files e free = go (files q) refl free
  where
    go :
        (t : Option Node)
        → files q ≡ t
        → IsFree t
        → rename p q (calm_disk files) ≡ (ok tt, calm_disk (put (cut files p) q n))
    go none h f = rw (e, h) refl
    go (some (file b)) h f = rw (e, h) refl
    go (some (directory z l)) h f = absurd f

pub put_same : (p : Text) (n : Node) (files : Files) → put files p n p ≡ some n
put_same p n files = ground arith

pub put_other : (p q : Text) (n : Node) (files : Files) → q ≢ p → put files p n q ≡ files q
put_other p q n files ne = ground arith

pub cut_same : (p : Text) (files : Files) → cut files p p ≡ none
cut_same p files = ground arith

pub cut_other : (p q : Text) (files : Files) → q ≢ p → cut files p q ≡ files q
cut_other p q files ne = ground arith

pub remove_calm :
    (p : Text) (files : Files)
    → IsFree (files p)
    → (g : Files) × ((remove p (calm_disk files)).1 ≡ calm_disk g)
      × (g p ≡ none)
      × ((q : Text) → q ≢ p → g q ≡ files q)
unfolding remove
remove_calm p files free = go (files p) refl free
  where
    go :
        (n : Option Node)
        → files p ≡ n
        → IsFree n
        → (g : Files) × ((remove p (calm_disk files)).1 ≡ calm_disk g)
          × (g p ≡ none)
          × ((q : Text) → q ≢ p → g q ≡ files q)
    go none e f = (files, rw e refl, e, λ q ne. refl)
    go (some (file b)) e f = (cut files p, rw e refl, ground arith, λ q ne. ground arith)
    go (some (directory z l)) e f = absurd f

pub append_calm :
    (p : Text) (b old : Bytes) (files : Files)
    → files p ≡ some (file old)
    → append p b (calm_disk files) ≡ (ok (length b), calm_disk (put files p (file (old ++ b))))
unfolding append
append_calm p b old files e = rw e refl
