-- ===== src/Os/Disk/Effect.antt =====
-- What a call that returned has done.
use lan_commander.Base.{
  Bool, ℕ, suc, ◌+◌, ◌-◌, ◌≡◌, ◌≢◌, refl, sym, ap, subst, ◌∙◌, none, some, arith, nat_eq, list_eq,
  [], true, ◌++◌, take, drop, take-append-drop, append_assoc,
}
use lan_commander.Base.Exec.{Result, ok}
use lan_commander.Base.Exec.Keeps.{Keeps}
use lan_commander.Base.Text.{Text}
use lan_commander.Os.Disk.{
  read_at, slice_at, OsError, Bytes, Node, file, Disk, splice, stat, read_file, write_file,
  write_at, open_write, rename, open_create, Fault, pass, refuse, tear, read, reading_some,
  first_fault,
}
use lan_commander.Os.Disk.Frame.{At}

-- A path that an action keeps, at the action's end.
pub kept :
    {E A : Type 0} {m : Disk → Result E A × Disk} {q : Text} {d t : Disk} {r : Result E A}
    → Keeps (At q (d.files q)) m
    → m d ≡ (r, t)
    → t.files q ≡ d.files q
kept {m = m} {q = q} {d = d} k h = subst (λ (o : _ × Disk). o.1.files q ≡ d.files q) h (k.at d refl)

pub write_file_ok :
    (p : Text) (b : Bytes) (d t : Disk) {u : Unit {0}}
    → write_file p b d ≡ (ok u, t)
    → t.files p ≡ some (file b)
unfolding write_file
write_file_ok p b d t h = ground arith

pub write_at_ok :
    (p : Text) (b : Bytes) (off : ℕ) (d t : Disk) (old : Bytes) {n : ℕ}
    → d.files p ≡ some (file old)
    → write_at p b off d ≡ (ok n, t)
    → t.files p ≡ some (file (splice old off b))
unfolding write_at
write_at_ok p b off d t old e h = ground arith

pub open_create_ok :
    (p : Text) (d t : Disk) {u : Unit {0}}
    → open_create p true d ≡ (ok u, t)
    → t.files p ≡ some (file [])
unfolding open_create
open_create_ok p d t h = ground arith

pub stat_ok : (p : Text) (d t : Disk) {n : Node} → stat p d ≡ (ok n, t) → t.files p ≡ some n
unfolding stat
stat_ok p d t h = ground arith

pub open_write_ok :
    (p : Text) (d t : Disk) {b : Bytes} → open_write p d ≡ (ok b, t) → t.files p ≡ some (file b)
unfolding open_write
open_write_ok p d t h = ground arith

pub read_file_ok :
    (p : Text) (d t : Disk) {b : Bytes} → read_file p d ≡ (ok b, t) → d.files p ≡ some (file b)
unfolding read_file
read_file_ok p d t h = ground arith

pub rename_ok :
    (p q : Text) (d t : Disk) {n : Node} {u : Unit {0}}
    → p ≢ q
    → d.files p ≡ some n
    → rename p q d ≡ (ok u, t)
    → (t.files q ≡ some n) × (t.files p ≡ none)
unfolding rename
rename_ok p q d t ne e h = (ground arith, ground arith)

-- What follows a position in a file, begun by some of it.
abbrev pub Begins : Bytes → ℕ → Bytes → Type 0
Begins b off c = (rest : Bytes) × (drop off b ≡ c ++ rest)

take-Begins : (b : Bytes) (off n : ℕ) → Begins b off (take n (drop off b))
take-Begins b off n = (drop n (drop off b), sym (take-append-drop n (drop off b)))

take-take-Begins : (b : Bytes) (off k n : ℕ) → Begins b off (take k (take n (drop off b)))
take-take-Begins b off k n =
    let next = drop off b in
    (
      drop k (take n next) ++ drop n next,
      sym (take-append-drop n next)
          ∙ ap (λ (x : Bytes). x ++ drop n next) (sym (take-append-drop k (take n next)))
          ∙ append_assoc (take k (take n next)) (drop k (take n next)) (drop n next),
    )

-- A read that returned gives the bytes that follow the position, fewer than asked for perhaps.
pub read_ok :
    (p : Text) (off n : ℕ) (d t : Disk) (b c : Bytes)
    → d.files p ≡ some (file b)
    → read p off n d ≡ (ok c, t)
    → (t.files ≡ d.files) × Begins b off c
unfolding read
read_ok p off n d t b c e h = (
  λ i. (sym h i).1.files,
  go (first_fault d.faults)
      (subst (λ (x : _). reading_some off n x (first_fault d.faults) ≡ ok c) e (λ i. (h i).0)),
)
  where
    go : (f : Fault) → reading_some off n (some (file b)) f ≡ ok c → Begins b off c
    go pass q = subst (Begins b off) (cc q) (take-Begins b off (off + n - off))
    go refuse q = absurd cc
    go (tear k) q = subst (Begins b off) (cc q) (take-take-Begins b off (suc k) (off + n - off))

pub read_at_ok :
    (p : Text) (off n : ℕ) (d t : Disk) (b c : Bytes) {broken : Bool}
    → d.files p ≡ some (file b)
    → read_at p off n d ≡ (ok (c, broken), t)
    → (t.files ≡ d.files) × Begins b off c
unfolding read_at
read_at_ok p off n d t b c {broken} e h = (
  λ i. (sym h i).1.files,
  go (first_fault d.faults) (
      subst
        (λ (x : _).
          ◌≡◌ {A = Result OsError (Bytes × Bool)} (ok (slice_at off n x (first_fault d.faults)))
            (ok (c, broken)))
        e (λ i. (h i).0)),
)
  where
    go :
        (f : Fault)
        → ◌≡◌ {A = Result OsError (Bytes × Bool)}
            (ok (slice_at off n (some (file b)) f))
            (ok (c, broken))
        → Begins b off c
    go pass q = subst (Begins b off) (cc q) (take-Begins b off (off + n - off))
    go refuse q = let e : [] ≡ c = cc q in subst (Begins b off) e (drop off b, refl)
    go (tear k) q = subst (Begins b off) (cc q) (take-take-Begins b off k (off + n - off))
