-- ===== src/Os/Disk/Frame.antt =====
-- Which files a call leaves alone.
use lan_commander.Base.{ℕ, ◌≡◌, ◌≢◌, Bool, Option, arith, nat_eq, list_eq}
use lan_commander.Base.Exec.Keeps.{Keeps}
use lan_commander.Base.Text.{Text}
use lan_commander.Os.Disk.{
  Bytes, Node, Disk, stat, read_dir, read_file, open_read, open_write, flush, write_file,
  open_create, mkdir_all, write_at, truncate, remove, rename,
}

-- The node of one path.
abbrev pub At : Text → Option Node → Disk → Type 0
At q x d = d.files q ≡ x

module _ {q : Text} {x : Option Node} where
  pub Keeps-stat : (p : Text) → Keeps (At q x) (stat p)
  unfolding stat
  Keeps-stat p = record { at = λ d h. ground arith }

  pub Keeps-read_dir : (p : Text) → Keeps (At q x) (read_dir p)
  unfolding read_dir
  Keeps-read_dir p = record { at = λ d h. ground arith }

  pub Keeps-read_file : (p : Text) → Keeps (At q x) (read_file p)
  unfolding read_file
  Keeps-read_file p = record { at = λ d h. ground arith }

  pub Keeps-open_read : (p : Text) → Keeps (At q x) (open_read p)
  unfolding open_read
  Keeps-open_read p = record { at = λ d h. ground arith }

  pub Keeps-open_write : (p : Text) → Keeps (At q x) (open_write p)
  unfolding open_write
  Keeps-open_write p = record { at = λ d h. ground arith }

  pub Keeps-flush : Keeps (At q x) flush
  unfolding flush
  Keeps-flush = record { at = λ d h. ground arith }

  pub Keeps-write_file : (p : Text) (b : Bytes) → q ≢ p → Keeps (At q x) (write_file p b)
  unfolding write_file
  Keeps-write_file p b ne = record { at = λ d h. ground arith }

  pub Keeps-open_create : (p : Text) (e : Bool) → q ≢ p → Keeps (At q x) (open_create p e)
  unfolding open_create
  Keeps-open_create p e ne = record { at = λ d h. ground arith }

  pub Keeps-mkdir_all : (p : Text) → q ≢ p → Keeps (At q x) (mkdir_all p)
  unfolding mkdir_all
  Keeps-mkdir_all p ne = record { at = λ d h. ground arith }

  pub Keeps-write_at : (p : Text) (b : Bytes) (off : ℕ) → q ≢ p → Keeps (At q x) (write_at p b off)
  unfolding write_at
  Keeps-write_at p b off ne = record { at = λ d h. ground arith }

  pub Keeps-truncate : (p : Text) (n : ℕ) → q ≢ p → Keeps (At q x) (truncate p n)
  unfolding truncate
  Keeps-truncate p n ne = record { at = λ d h. ground arith }

  pub Keeps-remove : (p : Text) → q ≢ p → Keeps (At q x) (remove p)
  unfolding remove
  Keeps-remove p ne = record { at = λ d h. ground arith }

  pub Keeps-rename : (p r : Text) → q ≢ p → q ≢ r → Keeps (At q x) (rename p r)
  unfolding rename
  Keeps-rename p r ne nr = record { at = λ d h. ground arith }

pub ruleset disk_frame = (
  Keeps-stat, Keeps-read_dir, Keeps-read_file, Keeps-open_read, Keeps-open_write, Keeps-flush,
  Keeps-write_file, Keeps-open_create, Keeps-mkdir_all, Keeps-write_at, Keeps-truncate,
  Keeps-remove, Keeps-rename,
)
