-- ===== src/Agent/Files/Upload/Success.antt =====
-- Upload calls on a disk that refuses nothing: each chunk of an upload in order is stored.
use lan_commander.Base.{
  ℕ, suc, ◌+◌, ◌≤◌, ◌<◌, ◌≡◌, ◌≢◌, sym, ap, subst, ◌∙◌, Bool, true, false, [], ◌∷◌, ◌++◌,
  if◌then◌else◌, length, arith, nat_eq, list_eq,
}
use lan_commander.Base.Int.{pos, max_int64}
use lan_commander.Base.Exec.{Result, ok, pure}
use lan_commander.Base.Exec.Outcome.{bind_ok}
use lan_commander.Base.Text.{Text, is_empty, trim_space}
use lan_commander.Os.Disk.{Bytes, Files, Disk, calm_disk}
use lan_commander.Os.Disk.Calm.{IsFree}
use lan_commander.Agent.Files.SafePath.{safe_path}
use lan_commander.Agent.Files.Host.{Op, Host, FileError, default_chunk_size}
use lan_commander.Agent.Files.Upload.{eq_ℤ, begin, continue_upload, receive, deliver}
use lan_commander.Agent.Files.SafePath.{is_separator}
use lan_commander.Os.Path.{dotdot}
use lan_commander.Base.{◌||◌}
use lan_commander.Base.Int.{ℤ}
use lan_commander.Base.Text.{any, contains}
use lan_commander.Base.Exec.Outcome.{refuse_if_ok}
use lan_commander.Agent.Files.Upload.{
  check_transfer_id, temp_path, meta_path, write_atomic_upload_chunk,
}
use lan_commander.Agent.Files.Upload.Frame.{upload_shape}
use lan_commander.Agent.Files.Upload.Commit.{length-temp_path-meta_path}
use lan_commander.Agent.Files.Upload.Stored.{
  Kept, Beside, check_bounds_calm, begin_calm, continue_calm, store_calm, verify_calm,
  finalize_calm,
}

-- What the disk holds before a chunk, `old` having been received.
abbrev pub Ready : Text → Text → ℕ → Bytes → Files → Type 0
Ready temp meta total [] files = IsFree (files temp) × IsFree (files meta)
Ready temp meta total (x ∷ xs) files = Kept temp meta total (x ∷ xs) files

-- A chunk that the checks of the arguments let through.
pub record Fits (total o : ℕ) (chunk : Bytes) (final : Bool) : Type 0 where
  pub small : length chunk ≤ default_chunk_size
  pub within : o + length chunk ≤ total
  pub ends : final ≡ true → o + length chunk ≡ total
  pub short : final ≡ false → (0 < length chunk) × (o + length chunk < total)

module _ (temp meta : Text) (ne : temp ≢ meta) (total : ℕ) (fits : total ≤ max_int64) where
  abbrev Received : Bytes → Files → (Disk → Result FileError (Unit {0}) × Disk) → Type 0
  Received b files m =
      (g : Files) × (m (calm_disk files) ≡ (ok tt, calm_disk g))
      × Kept temp meta total b g
      × Beside temp meta files g

  receive_calm :
      (old chunk : Bytes) (final : Bool) (files : Files)
      → Fits total (length old) chunk final
      → Ready temp meta total old files
      → Received (old ++ chunk) files (receive temp meta chunk (pos (length old)) (pos total) final)
  unfolding receive
  receive_calm [] chunk final files f (ft, fm) =
      let (g1, begun, k1, beside1) = begin_calm temp meta ne total fits files ft fm in
      let (g, stored, k, beside) = store_calm temp meta ne total fits [] chunk g1 k1 in
      (
        g,
        bind_ok _ _ _ _ _ (
              check_bounds_calm temp meta ne total fits _ chunk 0 final (calm_disk files) f.small
                f.within f.ends f.short)
            ∙ bind_ok _ _ _ _ _ begun
            ∙ stored,
        k,
        λ q nt nm. beside q nt nm ∙ beside1 q nt nm,
      )
  receive_calm (x ∷ xs) chunk final files f k0 =
      let (g, stored, k, beside) = store_calm temp meta ne total fits (x ∷ xs) chunk files k0 in
      (
        g,
        bind_ok _ _ _ _ _ (
              check_bounds_calm temp meta ne total fits _ chunk (length (x ∷ xs)) final
                (calm_disk files) f.small f.within f.ends f.short)
            ∙ bind_ok _ _ _ _ _
                (later (length xs) ∙ continue_calm temp meta ne total fits (x ∷ xs) files k0)
            ∙ stored,
        k,
        beside,
      )
    where
      later :
          (n : ℕ)
          → (if eq_ℤ (pos (suc n)) (pos 0)
                then begin temp meta (pos total)
                else continue_upload temp meta (pos (length (x ∷ xs))) (pos total))
              (calm_disk files)
            ≡ continue_upload temp meta (pos (length (x ∷ xs))) (pos total) (calm_disk files)
      later n =
          let e : eq_ℤ (pos (suc n)) (pos 0) ≡ false = ground arith in
          ap
            (λ (b : Bool).
              (if b
                  then begin temp meta (pos total)
                  else continue_upload temp meta (pos (length (x ∷ xs))) (pos total))
                (calm_disk files))
            e

  deliver_middle :
      (h : Host) (safe : Text) (old chunk : Bytes) (checksum : Text) (files : Files)
      → Fits total (length old) chunk false
      → Ready temp meta total old files
      → Received
          (old ++ chunk)
          files
          (deliver h safe temp meta chunk (pos (length old)) (pos total) false checksum)
  unfolding deliver pure
  deliver_middle h safe old chunk checksum files f ready =
      let (g, run, k, beside) = receive_calm old chunk false files f ready in
      (g, bind_ok _ _ _ _ _ run, k, beside)

  deliver_last :
      (h : Host) (safe : Text) (old chunk : Bytes) (files : Files)
      → Fits total (length old) chunk true
      → Ready temp meta total old files
      → safe ≢ temp
      → safe ≢ meta
      → safe_path h.cwd temp ≡ ok temp
      → IsFree (files safe)
      → is_empty (trim_space (h.digest (old ++ chunk))) ≡ false
      → (g : Files) × (deliver h safe temp meta chunk
            (pos (length old))
            (pos total)
            true
            (h.digest (old ++ chunk))
            (calm_disk files)
          ≡ (ok tt, calm_disk g))
  unfolding deliver
  deliver_last h safe old chunk files f ready nt nm own free named =
      let (g, run, k, beside) = receive_calm old chunk true files f ready in
      let (g', fin) =
        finalize_calm temp meta ne total fits safe (old ++ chunk) g nt nm k
          (subst IsFree (sym (beside safe nt nm)) free) in
      (
        g',
        bind_ok _ _ _ _ _ run
            ∙ bind_ok _ _ _ _ _
                (verify_calm temp meta ne total fits h (old ++ chunk) g own k.part named)
            ∙ fin,
      )

-- A transfer id that is accepted.
abbrev pub IsTransferId : Text → Type 0
IsTransferId id =
    (is_empty (trim_space id) ≡ false) × ((any is_separator id || contains dotdot id) ≡ false)

-- A call whose path resolves and whose id is accepted.
call_calm :
    (h : Host) (path id safe : Text) (chunk : Bytes) (o total : ℤ) (final : Bool) (checksum : Text)
    (d : Disk)
    → IsTransferId id
    → safe_path h.cwd path ≡ ok safe
    → write_atomic_upload_chunk h path id chunk o total final checksum d
      ≡ deliver h safe (temp_path safe id) (meta_path safe id) chunk o total final checksum d
unfolding check_transfer_id
call_calm h path id safe chunk o total final checksum d (named, plain) there =
    ap (λ (m : Op (Unit {0})). m d) (upload_shape h path id chunk o total final checksum safe there)
    ∙ bind_ok _ _ _ _ _
        (bind_ok _ _ _ _ _ (refuse_if_ok _ _ _ _ named) ∙ refuse_if_ok _ _ _ _ plain)

module _ (h : Host) (path id safe : Text) (total : ℕ) (fits : total ≤ max_int64)
    (valid : IsTransferId id) (there : safe_path h.cwd path ≡ ok safe)
    (nt : safe ≢ temp_path safe id) (nm : safe ≢ meta_path safe id)
    (own : safe_path h.cwd (temp_path safe id) ≡ ok (temp_path safe id)) where
  abbrev temp : Text
  temp = temp_path safe id

  abbrev meta : Text
  meta = meta_path safe id

  -- A chunk that is not the last is stored behind the others.
  pub upload_middle :
      (old chunk : Bytes) (checksum : Text) (files : Files)
      → Fits total (length old) chunk false
      → Ready temp meta total old files
      → (g : Files) × (write_atomic_upload_chunk h path id chunk
            (pos (length old))
            (pos total)
            false
            checksum
            (calm_disk files)
          ≡ (ok tt, calm_disk g))
        × Kept temp meta total (old ++ chunk) g
        × (g safe ≡ files safe)
  upload_middle old chunk checksum files f ready =
      let (g, run, k, beside) =
        deliver_middle temp meta (length-temp_path-meta_path safe id) total fits h safe old chunk
          checksum files f ready in
      (
        g,
        call_calm h path id safe chunk (pos (length old)) (pos total) false checksum _ valid there
            ∙ run,
        k,
        beside safe nt nm,
      )

  -- The last chunk, with the checksum of all, is committed.
  pub upload_last :
      (old chunk : Bytes) (files : Files)
      → Fits total (length old) chunk true
      → Ready temp meta total old files
      → IsFree (files safe)
      → is_empty (trim_space (h.digest (old ++ chunk))) ≡ false
      → (g : Files) × (write_atomic_upload_chunk h path id chunk
            (pos (length old))
            (pos total)
            true
            (h.digest (old ++ chunk))
            (calm_disk files)
          ≡ (ok tt, calm_disk g))
  upload_last old chunk files f ready free named =
      let (g, run) =
        deliver_last temp meta (length-temp_path-meta_path safe id) total fits h safe old chunk
          files f ready nt nm own free named in
      (
        g,
        call_calm h path id safe chunk (pos (length old)) (pos total) true (h.digest (old ++ chunk))
              _ valid there
            ∙ run,
      )
