-- ===== src/Agent/Files/Upload/Assembly.antt =====
-- Uploads of many chunks: what the temporary file holds between the calls, and the destination after
-- the last one.
use lan_commander.Base.{
  ℕ, ◌+◌, arith, [], ◌∷◌, length-append, ◌≡◌, ◌≢◌, refl, sym, subst, ap, ◌∙◌, true, false, Option,
  none, some, ◌++◌, inl, inr, length,
}
use lan_commander.Base.Int.{ℤ, pos, pos_part, IsInt64}
use lan_commander.Base.Exec.{ok}
use lan_commander.Base.Text.{Text, equal_fold}
use lan_commander.Os.Disk.{Bytes, Node, file, Disk}
use lan_commander.Agent.Files.SafePath.{safe_path}
use lan_commander.Agent.Files.Host.{Host}
use lan_commander.Agent.Files.Upload.{temp_path, meta_path, write_atomic_upload_chunk}
use lan_commander.Agent.Files.Upload.Receive.{Origin, file_inj}
use lan_commander.Agent.Files.Upload.Commit.{upload_ok}

-- An upload under way, by the calls that returned: the chunks so far, and the disk. Between two calls
-- anything may happen to the disk but to the temporary file.
pub data Uploading (h : Host) (path id temp : Text) : Bytes → Disk → Type 0 where
  begun :
      (chunk : Bytes) (total : ℤ) (checksum : Text) (d t : Disk)
      → IsInt64 total
      → write_atomic_upload_chunk h path id chunk (pos 0) total false checksum d ≡ (ok tt, t)
      → Uploading h path id temp chunk t
  grown :
      (b chunk : Bytes) (offset total : ℤ) (checksum : Text) (d t : Disk)
      → Uploading h path id temp b d
      → offset ≢ pos 0
      → IsInt64 offset
      → IsInt64 total
      → write_atomic_upload_chunk h path id chunk offset total false checksum d ≡ (ok tt, t)
      → Uploading h path id temp (b ++ chunk) t
  elsewhere :
      (b : Bytes) (d t : Disk)
      → Uploading h path id temp b d
      → t.files temp ≡ d.files temp
      → Uploading h path id temp b t

-- A later chunk goes behind the bytes that are there.
pub Origin-later :
    (x : Option Node) (offset : ℤ) (b old : Bytes)
    → x ≡ some (file b)
    → offset ≢ pos 0
    → Origin x offset old
    → old ≡ b
Origin-later x offset b old e ne (_, inl z) = absurd (ne z)
Origin-later x offset b old e ne (_, inr y) = file_inj (sym y ∙ e)

-- A first chunk goes into an empty file.
pub Origin-first : (x : Option Node) (old : Bytes) → Origin x (pos 0) old → old ≡ []
Origin-first x [] o = refl
Origin-first x (b ∷ bs) (l, _) = absurd cc

module _ (h : Host) (path id safe : Text) (e : safe_path h.cwd path ≡ ok safe)
    (ts : temp_path safe id ≢ safe) (ms : safe ≢ meta_path safe id)
    (own : safe_path h.cwd (temp_path safe id) ≡ ok (temp_path safe id)) where
  -- The temporary file holds the chunks so far.
  pub Uploading-holds :
      (b : Bytes) (d : Disk)
      → Uploading h path id (temp_path safe id) b d
      → d.files (temp_path safe id) ≡ some (file b)
  Uploading-holds b d (begun chunk total checksum d0 t it q) =
      let (old, origin, _, holds) =
        upload_ok h path id chunk (pos 0) total false checksum d0 t safe e ts ms own
          (omega arith, omega arith) it q in
      subst (λ (x : Bytes). t.files (temp_path safe id) ≡ some (file (x ++ chunk)))
        (Origin-first _ old origin) holds
  Uploading-holds b d (grown b0 chunk offset total checksum d0 t u ne io it q) =
      let (old, origin, _, holds) =
        upload_ok h path id chunk offset total false checksum d0 t safe e ts ms own io it q in
      subst (λ (x : Bytes). t.files (temp_path safe id) ≡ some (file (x ++ chunk)))
        (Origin-later _ offset b0 old (Uploading-holds b0 d0 u) ne origin) holds
  Uploading-holds b d (elsewhere b0 d0 t u same) = same ∙ Uploading-holds b0 d0 u

  -- When the final chunk of an upload under way, at another offset than 0, is committed, the
  -- destination holds all its chunks in order, as many bytes as the total size announced, with the
  -- checksum asked for; the temporary file is gone. (Between its calls the upload's temporary file
  -- was left alone. Offsets and totals are int64s. safePath accepts the path and leaves the
  -- temporary path alone, and the destination is neither the temporary file nor its companion.)
  pub upload_assembles :
      (b chunk : Bytes) (offset total : ℤ) (checksum : Text) (d t : Disk)
      → Uploading h path id (temp_path safe id) b d
      → offset ≢ pos 0
      → IsInt64 offset
      → IsInt64 total
      → write_atomic_upload_chunk h path id chunk offset total true checksum d ≡ (ok tt, t)
      → (t.files safe ≡ some (file (b ++ chunk)))
        × (t.files (temp_path safe id) ≡ none)
        × (total ≡ pos (length (b ++ chunk)))
        × (equal_fold (h.digest (b ++ chunk)) checksum ≡ true)
  upload_assembles b chunk offset total checksum d t u ne io it q =
      let (old, origin, acc, ((there, gone), sum)) =
        upload_ok h path id chunk offset total true checksum d t safe e ts ms own io it q in
      let same = Origin-later _ offset b old (Uploading-holds b d u) ne origin in
      let size : length (old ++ chunk) ≡ pos_part total =
        length-append old chunk ∙ ap (λ (n : ℕ). n + length chunk) (origin.0) ∙ acc.reaches refl in
      subst
        (λ (x : Bytes).
          (t.files safe ≡ some (file (x ++ chunk)))
          × (t.files (temp_path safe id) ≡ none)
          × (total ≡ pos (length (x ++ chunk)))
          × (equal_fold (h.digest (x ++ chunk)) checksum ≡ true))
        same (there, gone, acc.total_pos ∙ ap pos (sym size), sum)
