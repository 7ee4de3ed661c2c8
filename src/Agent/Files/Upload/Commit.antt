-- ===== src/Agent/Files/Upload/Commit.antt =====
-- What a final chunk that is committed leaves, and an upload of many chunks.
use lan_commander.Base.{
  ◌≡◌, ◌≢◌, sym, subst, ap, ◌∙◌, Bool, true, false, none, some, ◌++◌, arith, length, length-append,
  nat_eq,
}
use lan_commander.Base.Int.{ℤ, IsInt64}
use lan_commander.Base.Exec.{ok, pure, ◌>>◌, ◌>>=◌}
use lan_commander.Base.Exec.Outcome.{ok_bind, ok_refuse_if, ok_must, ok_catch-raise}
use lan_commander.Base.Exec.Keeps.{Keeps-ignore}
use lan_commander.Base.Text.{Text, codes, equal_fold}
use lan_commander.Os.Disk.{Bytes, Node, file, Disk, open_read, read_file, remove}
use lan_commander.Os.Disk.Frame.{Keeps-remove, Keeps-open_read, Keeps-read_file}
use lan_commander.Os.Disk.Effect.{kept, read_file_ok, rename_ok}
use lan_commander.Agent.Files.SafePath.{safe_path}
use lan_commander.Agent.Files.Host.{Host, file_sha256, or_fail, cannot_open, cannot_checksum, Op}
use lan_commander.Agent.Files.Upload.{
  check_transfer_id, temp_path, meta_path, verify, finalize, deliver, write_atomic_upload_chunk,
}
use lan_commander.Agent.Files.Upload.Bounds.{Accepted}
use lan_commander.Agent.Files.Upload.Receive.{Origin, receive_ok, not-false, file_inj}
use lan_commander.Agent.Files.Upload.Frame.{resolve_path_ok, upload_shape}

-- The digest of a path that stands for itself.
pub sha256_shape :
    (h : Host) (p : Text)
    → safe_path h.cwd p ≡ ok p
    → file_sha256 h p ≡ (
        or_fail (open_read p) cannot_open
        >> (or_fail (read_file p) cannot_checksum >>= λ bytes. pure (h.digest bytes)))
unfolding file_sha256 ◌>>=◌
sha256_shape h p e = λ i. resolve_path_ok h p p e i >>= λ s.
    or_fail (open_read s) cannot_open
    >> (or_fail (read_file s) cannot_checksum >>= λ bytes. pure (h.digest bytes))

-- What a call leaves: the grown temporary file, or the verified destination and no temporary file.
abbrev pub Delivered : Host → Text → Text → Bool → Bytes → Text → Disk → Type 0
Delivered h temp safe false b checksum t = t.files temp ≡ some (file b)
Delivered h temp safe true b checksum t =
    ((t.files safe ≡ some (file b)) × (t.files temp ≡ none))
    × (equal_fold (h.digest b) checksum ≡ true)

module _ (h : Host) (temp meta safe : Text) (ts : temp ≢ safe) (ms : safe ≢ meta) (mt : temp ≢ meta)
    (own : safe_path h.cwd temp ≡ ok temp) where
  sha256_ok :
      (b : Bytes) (d t : Disk) {x : Text}
      → d.files temp ≡ some (file b)
      → file_sha256 h temp d ≡ (ok x, t)
      → (x ≡ h.digest b) × (t.files temp ≡ some (file b))
  unfolding pure
  sha256_ok b d t {x} e q =
      let q' = subst (λ (m : Op Text). m d ≡ (ok x, t)) (sha256_shape h temp own) q in
      let (_, d1, e1, h1) = ok_bind _ _ d q' in
      let (c, d2, e2, h2) = ok_bind _ _ d1 h1 in
      let r = ok_catch-raise (read_file temp) _ d1 e2 in
      let opened =
        kept (Keeps-open_read {q = temp} temp) (ok_catch-raise (open_read temp) _ d e1) in
      let same : c ≡ b = file_inj (sym (read_file_ok temp d1 d2 r) ∙ opened ∙ e) in
      let last : d2 ≡ t = cc h2 in
      (
        subst (λ (y : Bytes). x ≡ h.digest y) same (cc h2),
        ap (λ (y : Disk). y.files temp) (sym last)
            ∙ kept (Keeps-read_file {q = temp} temp) r
            ∙ opened
            ∙ e,
      )

  verify_ok :
      (checksum : Text) (b : Bytes) (d t : Disk)
      → d.files temp ≡ some (file b)
      → verify h temp meta checksum d ≡ (ok tt, t)
      → (equal_fold (h.digest b) checksum ≡ true) × (t.files temp ≡ some (file b))
  unfolding verify
  verify_ok checksum b d t e q =
      let (_, d1, e1, h1) = ok_bind _ _ d q in
      let (_, q1) = ok_refuse_if _ _ _ d e1 in
      let (x, d2, e2, h2) = ok_bind _ _ d1 h1 in
      let (c, q2) = ok_refuse_if _ _ _ d2 h2 in
      let here : d1.files temp ≡ some (file b) = ap (λ (y : Disk). y.files temp) (sym q1) ∙ e in
      let (same, there) = sha256_ok b d1 d2 here (ok_must _ _ _ d1 e2) in
      (
        subst (λ (y : Text). equal_fold y checksum ≡ true) same (not-false _ c),
        ap (λ (y : Disk). y.files temp) (sym q2) ∙ there,
      )

  finalize_ok :
      (n : Node) (d t : Disk)
      → d.files temp ≡ some n
      → finalize temp meta safe d ≡ (ok tt, t)
      → (t.files safe ≡ some n) × (t.files temp ≡ none)
  unfolding finalize
  finalize_ok n d t e q =
      let (_, d1, e1, h1) = ok_bind _ _ d q in
      let (there, gone) = rename_ok temp safe d d1 ts e (ok_must _ _ _ d e1) in
      (
        kept (Keeps-ignore (remove meta) (Keeps-remove {q = safe} meta ms)) h1 ∙ there,
        kept (Keeps-ignore (remove meta) (Keeps-remove {q = temp} meta mt)) h1 ∙ gone,
      )

  deliver_ok :
      (chunk : Bytes) (offset total : ℤ) (final : Bool) (checksum : Text) (d t : Disk)
      → IsInt64 offset
      → IsInt64 total
      → deliver h safe temp meta chunk offset total final checksum d ≡ (ok tt, t)
      → (old : Bytes) × Origin (d.files temp) offset old
        × Accepted chunk offset total final
        × Delivered h temp safe final (old ++ chunk) checksum t
  unfolding deliver pure
  deliver_ok chunk offset total false checksum d t io it q =
      let (_, d1, e1, h1) = ok_bind _ _ d q in
      let (acc, old, origin, holds) =
        receive_ok temp meta mt chunk offset total false d d1 io it e1 in
      let last : d1 ≡ t = cc h1 in
      (old, origin, acc, ap (λ (y : Disk). y.files temp) (sym last) ∙ holds)
  deliver_ok chunk offset total true checksum d t io it q =
      let (_, d1, e1, h1) = ok_bind _ _ d q in
      let (acc, old, origin, holds) =
        receive_ok temp meta mt chunk offset total true d d1 io it e1 in
      let (_, d2, e2, h2) = ok_bind _ _ d1 h1 in
      let (sum, still) = verify_ok checksum (old ++ chunk) d1 d2 holds e2 in
      (old, origin, acc, (finalize_ok (file (old ++ chunk)) d2 t still h2, sum))

check_transfer_id_ok : (id : Text) (d t : Disk) → check_transfer_id id d ≡ (ok tt, t) → d ≡ t
unfolding check_transfer_id
check_transfer_id_ok id d t h =
    let (_, d1, e1, h1) = ok_bind _ _ d h in
    (ok_refuse_if _ _ _ d e1).1 ∙ (ok_refuse_if _ _ _ d1 h1).1

pub length-temp_path-meta_path : (safe id : Text) → temp_path safe id ≢ meta_path safe id
unfolding meta_path
length-temp_path-meta_path safe id e =
    absurd (omega (arith, length-append (temp_path safe id) (codes ".meta"), ap length e))

-- A call that returned wrote the chunk behind what the temporary file held before: nothing for a
-- first chunk, and as many bytes as the offset tells for a later one. A final chunk moved the
-- result, whose checksum is the one asked for, to the destination; any other left it in the
-- temporary file. (Offset and total are int64s. safePath accepts the path and leaves the temporary
-- path alone, and the destination is neither the temporary file nor its companion.)
pub upload_ok :
    (h : Host) (path id : Text) (chunk : Bytes) (offset total : ℤ) (final : Bool) (checksum : Text)
    (d t : Disk) (safe : Text)
    → safe_path h.cwd path ≡ ok safe
    → temp_path safe id ≢ safe
    → safe ≢ meta_path safe id
    → safe_path h.cwd (temp_path safe id) ≡ ok (temp_path safe id)
    → IsInt64 offset
    → IsInt64 total
    → write_atomic_upload_chunk h path id chunk offset total final checksum d ≡ (ok tt, t)
    → (old : Bytes) × Origin (d.files (temp_path safe id)) offset old
      × Accepted chunk offset total final
      × Delivered h (temp_path safe id) safe final (old ++ chunk) checksum t
upload_ok h path id chunk offset total final checksum d t safe e ts ms own io it q =
    let temp = temp_path safe id in
    let meta = meta_path safe id in
    let mt = length-temp_path-meta_path safe id in
    let q' =
      subst (λ (m : Op (Unit {0})). m d ≡ (ok tt, t))
        (upload_shape h path id chunk offset total final checksum safe e) q in
    let (_, d1, e1, h1) = ok_bind _ _ d q' in
    subst
      (λ (y : Disk).
        (old : Bytes) × Origin (y.files temp) offset old
        × Accepted chunk offset total final
        × Delivered h temp safe final (old ++ chunk) checksum t)
      (sym (check_transfer_id_ok id d d1 e1))
      (deliver_ok h temp meta safe ts ms mt own chunk offset total final checksum d1 t io it h1)
