-- ===== src/Os/Disk.antt =====
-- The files of one machine, and the calls of package os that the programs make on them. Each call
-- takes one fault from a list that stands for everything the system may do to it.
pub mod Frame
pub mod Effect
pub mod Calm
use lan_commander.Base.{
  ℕ, suc, ◌+◌, ◌-◌, Bool, true, false, Option, none, some, List, [], ◌∷◌, ◌++◌, if◌then◌else◌, ◌==◌,
  nat_eq, list_eq, length, take, drop, slice, replicate, ltb,
}
use lan_commander.Base.Exec.{Result, ok, err, Exec}
use lan_commander.Base.Text.{Text}

abbrev pub Bytes : Type 0
Bytes = List ℕ

-- os.DirEntry and what its Info reports: `none` where Info fails. Mode and time are texts here.
pub record FileInfo : Type 0 where
  pub size : ℕ
  pub mode : Text
  pub mod_time : Text

pub record DirItem : Type 0 where
  pub name : Text
  pub is_dir : Bool
  pub info : Option FileInfo

-- A directory has the size that Stat reports, and its items ordered by name, as os.ReadDir returns
-- them.
pub data Node : Type 0 where
  file : Bytes → Node
  directory : ℕ → List DirItem → Node

abbrev pub Files : Type 0
Files = Text → Option Node

-- A call passes, fails without effect, or, if it writes, fails after so many bytes.
pub data Fault : Type 0 where
  pass refuse : Fault
  tear : ℕ → Fault

pub record Disk : Type 0 where
  pub files : Files
  pub faults : List Fault

pub data OsError : Type 0 where
  not_exist failed : OsError

abbrev pub Sys : Type 0 → Type 0
Sys A = Exec OsError Disk A

abbrev pub first_fault : List Fault → Fault
first_fault [] = pass
first_fault (f ∷ fs) = f

abbrev later_faults : List Fault → List Fault
later_faults [] = []
later_faults (f ∷ fs) = fs

-- A call as a function of its fault and the files.
abbrev pub Call : Type 0 → Type 0
Call A = Fault → Files → Result OsError A × Files

unfoldable pub syscall {ℓ} :
    {A : Type ℓ} → (Fault → Files → Result OsError A × Files) → Disk → Result OsError A × Disk
syscall c d =
    let (r, files) = c (first_fault d.faults) d.files in
    (r, record { files = files; faults = later_faults d.faults })

abbrev pub put : Files → Text → Node → Files
put files p n q = if q == p then some n else files q

abbrev pub cut : Files → Text → Files
cut files p q = if q == p then none else files q

-- A call that only reads.
abbrev reading {ℓ} : {A : Type ℓ} → Result OsError A → Fault → Files → Result OsError A × Files
reading r pass files = (r, files)
reading r refuse files = (err failed, files)
reading r (tear n) files = (err failed, files)

abbrev found : Option Node → Result OsError Node
found none = err not_exist
found (some n) = ok n

abbrev content : Option Node → Result OsError Bytes
content none = err not_exist
content (some (file b)) = ok b
content (some (directory _ _)) = err failed

abbrev items : Option Node → Result OsError (List DirItem)
items none = err not_exist
items (some (file _)) = err failed
items (some (directory z l)) = ok l

unfoldable pub stat : Text → Sys Node
unfolding syscall
stat p = syscall (λ f files. reading (found (files p)) f files)

unfoldable pub read_dir : Text → Sys (List DirItem)
unfolding syscall
read_dir p = syscall (λ f files. reading (items (files p)) f files)

unfoldable pub read_file : Text → Sys Bytes
unfolding syscall
read_file p = syscall (λ f files. reading (content (files p)) f files)

-- (*os.File).ReadAt of an open file: the bytes read, and whether it reports an error, as it does when
-- the file ends early.
abbrev pub slice_at : ℕ → ℕ → Option Node → Fault → Bytes × Bool
slice_at off n (some (file b)) pass =
    (slice off (off + n) b, ltb (length (slice off (off + n) b)) n)
slice_at off n (some (file b)) (tear k) = (take k (slice off (off + n) b), true)
slice_at off n _ _ = ([], true)

unfoldable pub read_at : Text → ℕ → ℕ → Sys (Bytes × Bool)
unfolding syscall
read_at p off n = syscall (λ f files. (ok (slice_at off n (files p) f), files))

-- (*os.File).Read of an open file at a position: some of the next bytes, none at the end.
abbrev pub reading_some : ℕ → ℕ → Option Node → Fault → Result OsError Bytes
reading_some off n (some (file b)) pass = ok (slice off (off + n) b)
reading_some off n (some (file b)) (tear k) = ok (take (suc k) (slice off (off + n) b))
reading_some off n _ _ = err failed

unfoldable pub read : Text → ℕ → ℕ → Sys Bytes
unfolding syscall
read p off n = syscall (λ f files. (reading_some off n (files p) f, files))

-- Opening for reading, and for writing without O_CREATE: a directory opens for reading alone.
unfoldable pub open_read : Text → Sys Node
unfolding syscall
open_read p = syscall (λ f files. reading (found (files p)) f files)

unfoldable pub open_write : Text → Sys Bytes
unfolding syscall
open_write p = syscall (λ f files. reading (content (files p)) f files)

-- Sync and Close of an open file.
unfoldable pub flush : Sys (Unit {0})
unfolding syscall
flush = syscall (λ f files. reading (ok tt) f files)

-- The bytes `data` over `old` from `off` on; a gap is filled with zeros.
abbrev pub splice : Bytes → ℕ → Bytes → Bytes
splice old off data' =
    take off (old ++ replicate (off - length old) 0) ++ data' ++ drop (off + length data') old

-- os.WriteFile: the file is created or truncated, then written.
abbrev overwrite : Text → Bytes → Option Node → Fault → Files → Result OsError (Unit {0}) × Files
overwrite p b (some (directory _ _)) f files = (err failed, files)
overwrite p b _ pass files = (ok tt, put files p (file b))
overwrite p b _ refuse files = (err failed, files)
overwrite p b _ (tear n) files = (err failed, put files p (file (take n b)))

unfoldable pub write_file : Text → Bytes → Sys (Unit {0})
unfolding syscall
write_file p b = syscall (λ f files. overwrite p b (files p) f files)

-- os.OpenFile with O_CREATE, and with O_TRUNC if `empties`.
abbrev opening : Text → Bool → Option Node → Fault → Files → Result OsError (Unit {0}) × Files
opening p empties (some (directory _ _)) f files = (err failed, files)
opening p empties none pass files = (ok tt, put files p (file []))
opening p true (some (file b)) pass files = (ok tt, put files p (file []))
opening p false (some (file b)) pass files = (ok tt, files)
opening p empties _ _ files = (err failed, files)

unfoldable pub open_create : Text → Bool → Sys (Unit {0})
unfolding syscall
open_create p empties = syscall (λ f files. opening p empties (files p) f files)

-- os.MkdirAll: a directory that is there is left alone. Its parents are not followed.
abbrev making_dir : Text → Option Node → Fault → Files → Result OsError (Unit {0}) × Files
making_dir p (some (directory _ _)) pass files = (ok tt, files)
making_dir p none pass files = (ok tt, put files p (directory 0 []))
making_dir p _ _ files = (err failed, files)

unfoldable pub mkdir_all : Text → Sys (Unit {0})
unfolding syscall
mkdir_all p = syscall (λ f files. making_dir p (files p) f files)

-- (*os.File).WriteAt on an open file; it returns the number of bytes written.
abbrev patch : Text → Bytes → ℕ → Option Node → Fault → Files → Result OsError ℕ × Files
patch p b off (some (file old)) pass files = (ok (length b), put files p (file (splice old off b)))
patch p b off (some (file old)) (tear n) files =
    (err failed, put files p (file (splice old off (take n b))))
patch p b off _ _ files = (err failed, files)

unfoldable pub write_at : Text → Bytes → ℕ → Sys ℕ
unfolding syscall
write_at p b off = syscall (λ f files. patch p b off (files p) f files)

-- (*os.File).Write on a file opened with O_APPEND: the number of bytes written, whatever the error.
abbrev add_bytes : Text → Bytes → Option Node → Fault → Files → Result OsError ℕ × Files
add_bytes p b (some (file old)) pass files = (ok (length b), put files p (file (old ++ b)))
add_bytes p b (some (file old)) (tear n) files =
    (ok (length (take n b)), put files p (file (old ++ take n b)))
add_bytes p b _ _ files = (ok 0, files)

unfoldable pub append : Text → Bytes → Sys ℕ
unfolding syscall
append p b = syscall (λ f files. add_bytes p b (files p) f files)

-- (*os.File).Truncate
abbrev resize : Text → ℕ → Option Node → Fault → Files → Result OsError (Unit {0}) × Files
resize p n (some (file old)) pass files =
    (ok tt, put files p (file (take n (old ++ replicate (n - length old) 0))))
resize p n _ _ files = (err failed, files)

unfoldable pub truncate : Text → ℕ → Sys (Unit {0})
unfolding syscall
truncate p n = syscall (λ f files. resize p n (files p) f files)

abbrev removing : Text → Option Node → Fault → Files → Result OsError (Unit {0}) × Files
removing p none pass files = (err not_exist, files)
removing p (some (file b)) pass files = (ok tt, cut files p)
removing p (some (directory z [])) pass files = (ok tt, cut files p)
removing p _ _ files = (err failed, files)

unfoldable pub remove : Text → Sys (Unit {0})
unfolding syscall
remove p = syscall (λ f files. removing p (files p) f files)

-- os.Rename of a file: it replaces a file, and not a directory.
abbrev moving :
    Text → Text → Option Node → Option Node → Fault → Files → Result OsError (Unit {0}) × Files
moving p q none target pass files = (err not_exist, files)
moving p q (some n) (some (directory _ _)) pass files = (err failed, files)
moving p q (some n) target pass files = (ok tt, put (cut files p) q n)
moving p q source target _ files = (err failed, files)

unfoldable pub rename : Text → Text → Sys (Unit {0})
unfolding syscall
rename p q = syscall (λ f files. moving p q (files p) (files q) f files)

-- A disk on which no call is refused.
abbrev pub calm_disk : Files → Disk
calm_disk files = record { files = files; faults = [] }
