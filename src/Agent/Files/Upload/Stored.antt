-- ===== src/Agent/Files/Upload/Stored.antt =====
-- The steps of an upload call on a disk that refuses nothing.
use lan_commander.Base.{
  ℕ, ◌+◌, ◌≤◌, ◌<◌, ◌≡◌, ◌≢◌, refl, sym, ap, subst, ◌∙◌, Bool, true, false, not, ◌&&◌, Option, none,
  some, [], ◌∷◌, ◌++◌, append-nil, length, arith, nat_eq, list_eq, ==_iff,
}
use lan_commander.Base.Int.{ℤ, pos, max_int64, ◌+64◌, +64_exact, leb_ℤ, ltb_ℤ}
use lan_commander.Base.Decimal.{format_int, parse_int, parse_int-format_int, trim_space-format_int}
use lan_commander.Base.Exec.{ok, pure, ignore}
use lan_commander.Base.Exec.Outcome.{bind_ok, must_ok, refuse_if_ok, catch_ok}
use lan_commander.Base.Text.{Text, is_empty, trim_space, equal_fold_refl}
use lan_commander.Os.Disk.{
  Bytes, Node, file, directory, Files, Disk, calm_disk, put, cut, splice, write_file,
}
use lan_commander.Os.Disk.Calm.{
  IsFree, stat_calm, open_read_calm, open_write_calm, read_file_calm, write_file_new_calm,
  write_file_calm, write_at_calm, flush_calm, rename_calm, remove_calm, put_same, put_other,
  cut_other,
}
use lan_commander.Agent.Files.SafePath.{safe_path}
use lan_commander.Agent.Files.Host.{Host, Op, default_chunk_size, file_sha256}
use lan_commander.Agent.Files.Upload.{
  eq_ℤ, is_total, check_bounds, begin, continue_upload, write_chunk, store, verify, finalize,
}
use lan_commander.Agent.Files.Upload.Bounds.{splice_end}
use lan_commander.Agent.Files.Upload.Commit.{sha256_shape}

-- A file is written whether or not it was there.
write_free :
    (p : Text) (b : Bytes) (files : Files)
    → IsFree (files p)
    → write_file p b (calm_disk files) ≡ (ok tt, calm_disk (put files p (file b)))
write_free p b files free = go (files p) refl free
  where
    go :
        (n : Option Node)
        → files p ≡ n
        → IsFree n
        → write_file p b (calm_disk files) ≡ (ok tt, calm_disk (put files p (file b)))
    go none e f = write_file_new_calm p files b e
    go (some (file old)) e f = write_file_calm p files old b e
    go (some (directory z l)) e f = absurd f

-- The files that an upload keeps beside its destination, after `old` was received.
pub record Kept (temp meta : Text) (total : ℕ) (old : Bytes) (files : Files) : Type 0 where
  pub part : files temp ≡ some (file old)
  pub size : files meta ≡ some (file (format_int (pos total)))

-- Files that differ at the temporary file and its companion alone.
abbrev pub Beside : Text → Text → Files → Files → Type 0
Beside temp meta files g = (q : Text) → q ≢ temp → q ≢ meta → g q ≡ files q

module _ (temp meta : Text) (ne : temp ≢ meta) (total : ℕ) (fits : total ≤ max_int64) where
  pub check_bounds_calm :
      (undo : Op (Unit {0})) (chunk : Bytes) (o : ℕ) (final : Bool) (d : Disk)
      → length chunk ≤ default_chunk_size
      → o + length chunk ≤ total
      → (final ≡ true → o + length chunk ≡ total)
      → (final ≡ false → (0 < length chunk) × (o + length chunk < total))
      → check_bounds undo chunk (pos o) (pos total) final d ≡ (ok tt, d)
  unfolding check_bounds
  check_bounds_calm undo chunk o final d small within ends short =
      bind_ok _ _ _ _ _ (refuse_if_ok _ _ _ _ (ground arith))
      ∙ bind_ok _ _ _ _ _ (refuse_if_ok _ _ _ _ (ground arith))
      ∙ bind_ok _ _ _ _ _ (
          refuse_if_ok _ _ _ _
            (subst (λ (z : ℤ). ltb_ℤ (pos total) z ≡ false) (sym exact) (ground arith)))
      ∙ bind_ok _ _ _ _ _ (refuse_if_ok _ _ _ _ (filled final chunk short))
      ∙ bind_ok _ _ _ _ _ (
          refuse_if_ok _ _ _ _ (
            subst (λ (z : ℤ). (final && not (eq_ℤ z (pos total))) ≡ false) (sym exact)
              (ended final ends)))
      ∙ refuse_if_ok _ _ _ _ (
          subst (λ (z : ℤ). (not final && leb_ℤ (pos total) z) ≡ false) (sym exact)
            (ahead final short))
    where
      exact : pos o +64 pos (length chunk) ≡ pos (o + length chunk)
      exact = +64_exact o (length chunk) (omega arith)

      filled :
          (f : Bool) (c : Bytes)
          → (f ≡ false → (0 < length c) × (o + length c < total))
          → (not f && is_empty c) ≡ false
      filled true c k = refl
      filled false [] k = absurd (omega (arith, (k refl).0))
      filled false (x ∷ xs) k = refl

      ended :
          (f : Bool)
          → (f ≡ true → o + length chunk ≡ total)
          → (f && not (eq_ℤ (pos (o + length chunk)) (pos total))) ≡ false
      ended true k = ground (arith, k refl)
      ended false k = refl

      ahead :
          (f : Bool)
          → (f ≡ false → (0 < length chunk) × (o + length chunk < total))
          → (not f && leb_ℤ (pos total) (pos (o + length chunk))) ≡ false
      ahead true k = refl
      ahead false k = ground (arith, (k refl).1)

  pub begin_calm :
      (files : Files)
      → IsFree (files temp)
      → IsFree (files meta)
      → (g : Files) × (begin temp meta (pos total) (calm_disk files) ≡ (ok tt, calm_disk g))
        × Kept temp meta total [] g
        × Beside temp meta files g
  unfolding begin
  begin_calm files ft fm =
      let g1 = put files temp (file []) in
      let g = put g1 meta (file (format_int (pos total))) in
      (
        g,
        bind_ok _ _ _ _ _ (must_ok _ _ _ _ _ _ (write_free temp [] files ft))
            ∙ must_ok _ _ _ _ _ _ (
                write_free meta (format_int (pos total)) g1
                  (subst IsFree (sym (put_other temp meta (file []) files (λ e. ne (sym e)))) fm)),
        record {
          part = put_other meta temp _ g1 ne ∙ put_same temp (file []) files;
          size = put_same meta _ g1;
        },
        λ q nt nm. put_other meta q _ g1 nm ∙ put_other temp q (file []) files nt,
      )

  pub continue_calm :
      (old : Bytes) (files : Files)
      → Kept temp meta total old files
      → continue_upload temp meta (pos (length old)) (pos total) (calm_disk files)
        ≡ (ok tt, calm_disk files)
  unfolding continue_upload
  continue_calm old files k =
      bind_ok _ _ _ _ _ (must_ok _ _ _ _ _ _ (read_file_calm meta files _ k.size))
      ∙ bind_ok _ _ _ _ _ (refuse_if_ok _ _ _ _ same_total)
      ∙ bind_ok _ _ _ _ _ (must_ok _ _ _ _ _ _ (stat_calm temp files _ k.part))
      ∙ refuse_if_ok _ _ _ _ (ground arith)
    where
      same_total :
          not (is_total (parse_int (trim_space (format_int (pos total)))) (pos total)) ≡ false
      same_total =
          (λ i. not (
            is_total
              ((ap parse_int (trim_space-format_int total) ∙ parse_int-format_int total fits) i)
              (pos total)))
          ∙ ground arith

  write_chunk_calm :
      (old chunk : Bytes) (files : Files)
      → Kept temp meta total old files
      → (g : Files) × (write_chunk temp meta chunk (length old) (calm_disk files)
          ≡ (ok tt, calm_disk g))
        × Kept temp meta total (old ++ chunk) g
        × Beside temp meta files g
  unfolding write_chunk pure
  write_chunk_calm old [] files k = (
    files,
    refl,
    record {
      part = k.part ∙ ap (λ (b : Bytes). some (file b)) (sym (append-nil old));
      size = k.size;
    },
    λ q nt nm. refl,
  )
  write_chunk_calm old (x ∷ xs) files k =
      let written = splice old (length old) (x ∷ xs) in
      (
        put files temp (file written),
        bind_ok _ _ _ _ _
              (must_ok _ _ _ _ _ _ (write_at_calm temp files old (x ∷ xs) (length old) k.part))
            ∙ refuse_if_ok _ _ _ _ (ap not ((==_iff (length (x ∷ xs)) (length (x ∷ xs))).1 refl)),
        record {
          part =
              put_same temp (file written) files
              ∙ ap (λ (b : Bytes). some (file b)) (splice_end old (x ∷ xs) (length old) refl);
          size = put_other temp meta (file written) files (λ e. ne (sym e)) ∙ k.size;
        },
        λ q nt nm. put_other temp q (file written) files nt,
      )

  pub store_calm :
      (old chunk : Bytes) (files : Files)
      → Kept temp meta total old files
      → (g : Files) × (store temp meta chunk (length old) (calm_disk files) ≡ (ok tt, calm_disk g))
        × Kept temp meta total (old ++ chunk) g
        × Beside temp meta files g
  unfolding store
  store_calm old chunk files k =
      let (g, run, kept, beside) = write_chunk_calm old chunk files k in
      (
        g,
        bind_ok _ _ _ _ _ (must_ok _ _ _ _ _ _ (open_write_calm temp files old k.part))
            ∙ bind_ok _ _ _ _ _ run
            ∙ bind_ok _ _ _ _ _ (must_ok _ _ _ _ _ _ (flush_calm g))
            ∙ must_ok _ _ _ _ _ _ (flush_calm g),
        kept,
        beside,
      )

  pub verify_calm :
      (h : Host) (b : Bytes) (files : Files)
      → safe_path h.cwd temp ≡ ok temp
      → files temp ≡ some (file b)
      → is_empty (trim_space (h.digest b)) ≡ false
      → verify h temp meta (h.digest b) (calm_disk files) ≡ (ok tt, calm_disk files)
  unfolding verify pure
  verify_calm h b files own there named =
      bind_ok _ _ _ _ _ (refuse_if_ok _ _ _ _ named)
      ∙ bind_ok _ _ _ _ _ (must_ok _ _ _ _ _ _ digest)
      ∙ refuse_if_ok _ _ _ _ (ap not (equal_fold_refl (h.digest b)))
    where
      digest : file_sha256 h temp (calm_disk files) ≡ (ok (h.digest b), calm_disk files)
      digest =
          ap (λ (m : Op Text). m (calm_disk files)) (sha256_shape h temp own)
          ∙ bind_ok _ _ _ _ _ (catch_ok _ _ _ _ _ (open_read_calm temp files _ there))
          ∙ bind_ok _ _ _ _ _ (catch_ok _ _ _ _ _ (read_file_calm temp files b there))

  pub finalize_calm :
      (safe : Text) (b : Bytes) (files : Files)
      → safe ≢ temp
      → safe ≢ meta
      → Kept temp meta total b files
      → IsFree (files safe)
      → (g : Files) × (finalize temp meta safe (calm_disk files) ≡ (ok tt, calm_disk g))
  unfolding finalize ignore
  finalize_calm safe b files nt nm k free =
      let g1 = put (cut files temp) safe (file b) in
      let there : g1 meta ≡ some (file (format_int (pos total))) =
        put_other safe meta (file b) (cut files temp) (λ e. nm (sym e))
        ∙ cut_other temp meta files (λ e. ne (sym e))
        ∙ k.size in
      let (g, gone, _, _) = remove_calm meta g1 (subst IsFree (sym there) tt) in
      (
        g,
        bind_ok _ _ _ _ _ (must_ok _ _ _ _ _ _ (rename_calm temp safe (file b) files k.part free))
            ∙ (λ i. (ok tt, gone i)),
      )
