-- ===== src/Agent/Files/Upload/Cleanup.antt =====
-- What a failed upload call leaves behind: nothing, unless the system refuses to remove it.
use lan_commander.Base.{
  ℕ, ◌≡◌, ◌≢◌, sym, ap, subst, ◌∙◌, Bool, Option, none, some, [], arith, nat_eq, list_eq,
}
use lan_commander.Base.Int.{ℤ}
use lan_commander.Base.Exec.{Result, ok, err, ◌>>=◌, ignore}
use lan_commander.Base.Exec.Keeps.{Keeps, keeps_rules, Keeps-catch}
use lan_commander.Base.Exec.Ends.{Ends, Leads, Outcome, ends_rules}
use lan_commander.Base.Text.{Text}
use lan_commander.Os.Disk.{
  Bytes, Node, file, directory, Disk, stat, read_file, open_read, open_write, flush, write_file,
  write_at, remove, rename,
}
use lan_commander.Agent.Files.Host.{Host, FileError, Op, file_sha256, resolve_path}
use lan_commander.Base.Exec.Outcome.{bind_ok}
use lan_commander.Agent.Files.SafePath.{safe_path}
use lan_commander.Agent.Files.Upload.Frame.{upload_shape}
use lan_commander.Agent.Files.Upload.{
  cleanup, close_cleanup, check_bounds, begin, continue_upload, write_chunk, store, receive, verify,
  finalize, deliver, check_transfer_id, temp_path, meta_path, write_atomic_upload_chunk,
}

-- A system that refuses nothing, and no directory at the path of a temporary file.
abbrev pub IsFile : Option Node → Type 0
IsFile none = Unit {0}
IsFile (some (file b)) = Unit {0}
IsFile (some (directory z l)) = ⊥

abbrev pub Calm : Text → Text → Disk → Type 0
Calm temp meta d = (d.faults ≡ []) × IsFile (d.files temp) × IsFile (d.files meta)

abbrev pub Gone : Text → Text → Disk → Type 0
Gone temp meta d = (d.files temp ≡ none) × (d.files meta ≡ none)

module _ (temp meta : Text) where
  Calm-stat : (p : Text) → Keeps (Calm temp meta) (stat p)
  unfolding stat
  Calm-stat p = record { at = λ d h. ground arith }

  Calm-read_file : (p : Text) → Keeps (Calm temp meta) (read_file p)
  unfolding read_file
  Calm-read_file p = record { at = λ d h. ground arith }

  Calm-open_read : (p : Text) → Keeps (Calm temp meta) (open_read p)
  unfolding open_read
  Calm-open_read p = record { at = λ d h. ground arith }

  Calm-open_write : (p : Text) → Keeps (Calm temp meta) (open_write p)
  unfolding open_write
  Calm-open_write p = record { at = λ d h. ground arith }

  Calm-flush : Keeps (Calm temp meta) flush
  unfolding flush
  Calm-flush = record { at = λ d h. ground arith }

  Calm-write_file : (p : Text) (b : Bytes) → Keeps (Calm temp meta) (write_file p b)
  unfolding write_file
  Calm-write_file p b = record { at = λ d h. ground arith }

  Calm-write_at : (p : Text) (b : Bytes) (off : ℕ) → Keeps (Calm temp meta) (write_at p b off)
  unfolding write_at
  Calm-write_at p b off = record { at = λ d h. ground arith }

  Calm-remove : (p : Text) → Keeps (Calm temp meta) (remove p)
  unfolding remove
  Calm-remove p = record { at = λ d h. ground arith }

  Calm-rename : (q : Text) → q ≢ meta → q ≢ temp → Keeps (Calm temp meta) (rename temp q)
  unfolding rename
  Calm-rename q nm nt = record { at = λ d h. ground arith }

  ruleset calm = (
    Calm-stat, Calm-read_file, Calm-open_read, Calm-open_write, Calm-flush, Calm-write_file,
    Calm-write_at, Calm-remove,
  )

  Leads-cleanup : Leads (Calm temp meta) (Gone temp meta) (cleanup temp meta)
  unfolding cleanup ignore remove ◌>>=◌
  Leads-cleanup = record { at = λ d h. ground arith }

  Leads-close_cleanup : Leads (Calm temp meta) (Gone temp meta) (close_cleanup temp meta)
  unfolding close_cleanup ignore ◌>>=◌
  Leads-close_cleanup = record { at = λ d h. Leads-cleanup.at (flush d).1 (Calm-flush.at d h) }

  Ends-receive :
      (chunk : Bytes) (offset total : ℤ) (final : Bool)
      → Ends (Calm temp meta) (Gone temp meta) (receive temp meta chunk offset total final)
  unfolding receive check_bounds begin continue_upload store write_chunk
  Ends-receive chunk offset total final =
      search (ends_rules, calm, Leads-cleanup, Leads-close_cleanup) depth 12

  Calm-file_sha256 : (h : Host) (p : Text) → Keeps (Calm temp meta) (file_sha256 h p)
  unfolding file_sha256 resolve_path
  Calm-file_sha256 h p = search (keeps_rules, Keeps-catch, calm) depth 8

  Ends-deliver :
      (h : Host) (safe : Text) (chunk : Bytes) (offset total : ℤ) (final : Bool) (checksum : Text)
      → safe ≢ temp
      → safe ≢ meta
      → Ends
          (Calm temp meta)
          (Gone temp meta)
          (deliver h safe temp meta chunk offset total final checksum)
  unfolding deliver verify finalize
  Ends-deliver h safe chunk offset total final checksum nt nm =
      search (ends_rules, Ends-receive, calm, Leads-cleanup, Calm-file_sha256, Calm-rename) depth 12

-- Where the system itself refuses nothing, a call with a valid transfer id that fails, for whichever
-- reason, leaves neither its temporary file nor the companion with the total size.
pub upload_cleans_up :
    (h : Host) (path id : Text) (chunk : Bytes) (offset total : ℤ) (final : Bool) (checksum : Text)
    (d t : Disk) (safe : Text) (x : FileError)
    → safe_path h.cwd path ≡ ok safe
    → check_transfer_id id d ≡ (ok tt, d)
    → safe ≢ temp_path safe id
    → safe ≢ meta_path safe id
    → Calm (temp_path safe id) (meta_path safe id) d
    → write_atomic_upload_chunk h path id chunk offset total final checksum d ≡ (err x, t)
    → (t.files (temp_path safe id) ≡ none) × (t.files (meta_path safe id) ≡ none)
upload_cleans_up h path id chunk offset total final checksum d t safe x e valid nt nm calm q =
    let temp = temp_path safe id in
    let meta = meta_path safe id in
    let run = deliver h safe temp meta chunk offset total final checksum in
    let same =
      ap (λ (m : Op (Unit {0})). m d)
        (upload_shape h path id chunk offset total final checksum safe e)
      ∙ bind_ok (check_transfer_id id) (λ _. run) d tt d valid in
    subst
      (λ (o : Result FileError (Unit {0}) × Disk).
        Outcome (Calm temp meta) (Gone temp meta) o.0 o.1)
      (sym same ∙ q)
      ((Ends-deliver temp meta h safe chunk offset total final checksum nt nm).at d calm)
