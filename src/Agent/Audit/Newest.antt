-- ===== src/Agent/Audit/Newest.antt =====
-- What the two files of an audit trail hold, on a disk that refuses nothing.
use lan_commander.Base.{
  ℕ, ◌+◌, ◌≤◌, ◌≡◌, ◌≢◌, refl, sym, ap, subst, ◌∙◌, true, false, Option, none, some, List, [], ◌∷◌,
  ◌++◌, ◌⊎◌, inl, inr, ltb, length, arith, Bool-cases, list_eq, nat_eq, append_assoc, append-nil,
  length-append,
}
use lan_commander.Base.Text.{Text}
use lan_commander.Os.Path.{dir}
use lan_commander.Os.Disk.{Bytes, Node, file, Files, Disk, calm_disk, put}
use lan_commander.Os.Disk.Calm.{append_calm, put_same, put_other}
use lan_commander.Agent.Audit.{
  Event, Logger, log_line, log, log_json, rotate, backup, completed, write_line,
}
use lan_commander.Agent.Audit.Rotation.{Stands, logger, backup_ne, rotate_calm}

abbrev pub concat : List Bytes → Bytes
concat [] = []
concat (x ∷ xs) = x ++ concat xs

not_above : (a b : ℕ) → ltb a b ≡ false → b ≤ a
not_above a b h = ground arith

abbrev pub cons_line : Option Bytes → List Bytes → List Bytes
cons_line none lines = lines
cons_line (some json) lines = (json ++ (10 ∷ [])) ∷ lines

module _ (marshal : Event → Option Bytes) where
  -- The line of an event that is logged at time `now`, if it has one.
  abbrev pub lines_of : List (ℕ × Event) → List Bytes
  lines_of [] = []
  lines_of ((now, e) ∷ events) = cons_line (marshal (completed now e)) (lines_of events)

  abbrev pub log_all : List (ℕ × Event) → Logger × Disk → Logger × Disk
  log_all [] w = w
  log_all ((now, e) ∷ events) (l, d) = log_all events (log marshal now e l d)

abbrev pub AllFit : ℕ → List Bytes → Type 0
AllFit max_size [] = Unit {0}
AllFit max_size (line ∷ lines) = (length line ≤ max_size) × AllFit max_size lines

module _ (path : Text) (max_size : ℕ) (apart : path ≢ dir path)
    (backup_apart : backup path ≢ dir path) where
  -- The last lines: `current` in the log, `previous` in the backup, and `older` ones that are gone.
  pub record KeepsNewest (lines : List Bytes) (l : Logger) (d : Disk) : Type 0 where
    pub files : Files
    pub old : Option Node
    pub older : List Bytes
    pub previous : List Bytes
    pub current : List Bytes
    pub disk_is : d ≡ calm_disk files
    pub logger_is : l ≡ logger path max_size (length (concat current))
    pub stands : Stands path (concat current) old files
    pub parts : lines ≡ older ++ previous ++ current
    pub fits : length (concat current) ≤ max_size
    pub backed_up :
        ((older ≡ []) × (previous ≡ []))
        ⊎ ((old ≡ some (file (concat previous))) × (length (concat previous) ≤ max_size))

  concat_snoc : (xs : List Bytes) (x : Bytes) → concat (xs ++ (x ∷ [])) ≡ concat xs ++ x
  concat_snoc [] x = append-nil x
  concat_snoc (y ∷ xs) x = ap (◌++◌ y) (concat_snoc xs x) ∙ sym (append_assoc y (concat xs) x)

  appended :
      (line bytes : Bytes) (old : Option Node) (files : Files)
      → Stands path bytes old files
      → (write_line line (logger path max_size (length bytes), calm_disk files) ≡ (
        logger path max_size (length (bytes ++ line)),
        calm_disk (put files path (file (bytes ++ line))),
      ))
        × Stands path (bytes ++ line) old (put files path (file (bytes ++ line)))
  appended line bytes old files s = (
    rw (append_calm path line bytes files s.log_is, length-append bytes line) refl,
    record {
      log_is = put_same path (file (bytes ++ line)) files;
      backup_is =
          put_other path (backup path) (file (bytes ++ line)) files (backup_ne path) ∙ s.backup_is;
      free = s.free;
      size = s.size;
      items = s.items;
      dir_is =
          put_other path (dir path) (file (bytes ++ line)) files (λ e. apart (sym e)) ∙ s.dir_is;
    },
  )

  log_line_room :
      (line : Bytes) (n : ℕ) (d : Disk)
      → ltb max_size (n + length line) ≡ false
      → log_line line (logger path max_size n) d ≡ write_line line (logger path max_size n, d)
  unfolding log_line
  log_line_room line n d h = rw h refl

  log_line_full :
      (line : Bytes) (n : ℕ) (d : Disk)
      → ltb max_size (n + length line) ≡ true
      → log_line line (logger path max_size n) d
        ≡ write_line line (rotate (logger path max_size n) d)
  unfolding log_line
  log_line_full line n d h = rw h refl

  -- A line that still fits.
  in_place :
      (line : Bytes) (lines : List Bytes) (l : Logger) (d : Disk) (k : KeepsNewest lines l d)
      → ltb max_size (length (concat k.current) + length line) ≡ false
      → let w =
          log_line line (logger path max_size (length (concat k.current))) (calm_disk k.files) in
        KeepsNewest (lines ++ (line ∷ [])) w.0 w.1
  in_place line lines l d k h =
      let bytes = concat k.current in
      let (e, s) = appended line bytes k.old k.files k.stands in
      let whole = concat_snoc k.current line in
      let total : length (bytes ++ line) ≤ max_size =
        omega
          (arith, length-append bytes line, not_above max_size (length bytes + length line) h) in
      subst (λ (w : Logger × Disk). KeepsNewest (lines ++ (line ∷ [])) w.0 w.1)
        (sym (log_line_room line (length bytes) (calm_disk k.files) h ∙ e))
        (record {
          files = put k.files path (file (bytes ++ line));
          old = k.old;
          older = k.older;
          previous = k.previous;
          current = k.current ++ (line ∷ []);
          disk_is = refl;
          logger_is = ap (λ b. logger path max_size (length b)) (sym whole);
          stands =
              subst (λ b. Stands path b k.old (put k.files path (file (bytes ++ line)))) (sym whole)
                s;
          parts =
              ap (λ (ls : List Bytes). ls ++ (line ∷ [])) k.parts
              ∙ append_assoc (k.older ++ k.previous) k.current (line ∷ []);
          fits = subst (λ b. length b ≤ max_size) (sym whole) total;
          backed_up = k.backed_up;
        })

  -- A line that does not fit any more.
  after_rotation :
      (line : Bytes) (lines : List Bytes) (l : Logger) (d : Disk) (k : KeepsNewest lines l d)
      → length line ≤ max_size
      → ltb max_size (length (concat k.current) + length line) ≡ true
      → let w =
          log_line line (logger path max_size (length (concat k.current))) (calm_disk k.files) in
        KeepsNewest (lines ++ (line ∷ [])) w.0 w.1
  after_rotation line lines l d k small h =
      let bytes = concat k.current in
      let (g, rotated, fresh) =
        rotate_calm path max_size apart backup_apart bytes k.old (length bytes) k.files k.stands in
      let (e, s) = appended line [] (some (file bytes)) g fresh in
      subst (λ (w : Logger × Disk). KeepsNewest (lines ++ (line ∷ [])) w.0 w.1)
        (sym (
          log_line_full line (length bytes) (calm_disk k.files) h
          ∙ ap (write_line line) rotated
          ∙ e))
        (record {
          files = put g path (file line);
          old = some (file bytes);
          older = k.older ++ k.previous;
          previous = k.current;
          current = line ∷ [];
          disk_is = refl;
          logger_is = ap (λ b. logger path max_size (length b)) (sym (append-nil line));
          stands =
              subst (λ b. Stands path b (some (file bytes)) (put g path (file line)))
                (sym (append-nil line)) s;
          parts = ap (λ (ls : List Bytes). ls ++ (line ∷ [])) k.parts;
          fits = subst (λ b. length b ≤ max_size) (sym (append-nil line)) small;
          backed_up = inr (refl, k.fits);
        })

  log_line-KeepsNewest :
      (line : Bytes) (lines : List Bytes) (l : Logger) (d : Disk)
      → length line ≤ max_size
      → KeepsNewest lines l d
      → let w = log_line line l d in KeepsNewest (lines ++ (line ∷ [])) w.0 w.1
  log_line-KeepsNewest line lines l d small k =
      let n = length (concat k.current) in
      let same : log_line line l d ≡ log_line line (logger path max_size n) (calm_disk k.files) =
        ap (λ x. log_line line x d) k.logger_is
        ∙ ap (log_line line (logger path max_size n)) k.disk_is in
      subst (λ (w : Logger × Disk). KeepsNewest (lines ++ (line ∷ [])) w.0 w.1) (sym same)
        (elim (Bool-cases (ltb max_size (n + length line))) [
          | inl h ↦ after_rotation line lines l d k small h
          | inr h ↦ in_place line lines l d k h
        ])

  module _ (marshal : Event → Option Bytes) where
    log_all-KeepsNewest_from :
        (events : List (ℕ × Event)) (lines : List Bytes) (w : Logger × Disk)
        → AllFit max_size (lines_of marshal events)
        → KeepsNewest lines w.0 w.1
        → KeepsNewest
            (lines ++ lines_of marshal events)
            (log_all marshal events w).0
            (log_all marshal events w).1
    unfolding log
    log_all-KeepsNewest_from [] lines w a k =
        subst (λ ls. KeepsNewest ls w.0 w.1) (sym (append-nil lines)) k
    log_all-KeepsNewest_from ((now, e) ∷ events) lines (l, d) a k =
        go (marshal (completed now e)) a (λ ls w. log_all-KeepsNewest_from events ls w)
      where
        go :
            (o : Option Bytes)
            → AllFit max_size (cons_line o (lines_of marshal events))
            → ((ls : List Bytes) (w : Logger × Disk)
                → AllFit max_size (lines_of marshal events)
                → KeepsNewest ls w.0 w.1
                → KeepsNewest
                    (ls ++ lines_of marshal events)
                    (log_all marshal events w).0
                    (log_all marshal events w).1)
            → let w = log_all marshal events (log_json o l d) in
              KeepsNewest (lines ++ cons_line o (lines_of marshal events)) w.0 w.1
        go none a again = again lines (l, d) a k
        go (some json) (small, a) again =
            let line = json ++ (10 ∷ []) in
            let w = log_line line l d in
            let last = log_all marshal events w in
            subst (λ ls. KeepsNewest ls last.0 last.1)
              (append_assoc lines (line ∷ []) (lines_of marshal events))
              (again (lines ++ (line ∷ [])) w a (log_line-KeepsNewest line lines l d small k))

  -- On a disk that refuses nothing, with lines none of which exceeds the maximum size, the log holds the
  -- newest lines and the backup those before them, all whole and in order; each is within the maximum size,
  -- and nothing is lost before there is a backup.
  pub log_all-KeepsNewest :
      (marshal : Event → Option Bytes) (events : List (ℕ × Event)) (files : Files) (content : Bytes)
      (old : Option Node)
      → Stands path content old files
      → length content ≤ max_size
      → AllFit max_size (lines_of marshal events)
      → let w = log_all marshal events (logger path max_size (length content), calm_disk files) in
        KeepsNewest (content ∷ lines_of marshal events) w.0 w.1
  log_all-KeepsNewest marshal events files content old s small a =
      log_all-KeepsNewest_from marshal events (content ∷ [])
        (logger path max_size (length content), calm_disk files) a
        (record {
          files = files;
          old = old;
          older = [];
          previous = [];
          current = content ∷ [];
          disk_is = refl;
          logger_is = ap (λ b. logger path max_size (length b)) (sym (append-nil content));
          stands = subst (λ b. Stands path b old files) (sym (append-nil content)) s;
          parts = refl;
          fits = subst (λ b. length b ≤ max_size) (sym (append-nil content)) small;
          backed_up = inl (refl, refl);
        })
