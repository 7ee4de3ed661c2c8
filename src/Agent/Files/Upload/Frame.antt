-- ===== src/Agent/Files/Upload/Frame.antt =====
-- Which files an upload leaves alone.
use lan_commander.Base.{
  ℕ, ◌≡◌, ◌≢◌, refl, subst, ◌∙◌, Bool, true, false, Option, arith, ◌⊎◌, inl, inr,
}
use lan_commander.Base.Int.{ℤ}
use lan_commander.Base.Exec.{Result, ok, err, pure, raise, ◌>>=◌, ◌>>◌, ignore, must}
use lan_commander.Base.Exec.Outcome.{bind_cases, must_cases}
use lan_commander.Base.Exec.Keeps.{
  Keeps-raise, Keeps, Keeps-bind, Keeps-pure, Keeps-catch, keeps_rules,
}
use lan_commander.Base.Text.{Text}
use lan_commander.Os.Disk.{Bytes, Node, Disk, OsError, remove, rename}
use lan_commander.Os.Disk.Frame.{At, disk_frame}
use lan_commander.Agent.Files.SafePath.{safe_path}
use lan_commander.Agent.Files.Host.{
  Host, FileError, Op, cannot_finalize, checked, file_sha256, resolve_path,
}
use lan_commander.Agent.Files.Upload.{
  check_transfer_id, temp_path, meta_path, cleanup, check_bounds, begin, continue_upload,
  close_cleanup, write_chunk, store, verify, finalize, receive, deliver, write_atomic_upload_chunk,
}

module _ {q : Text} {x : Option Node} where
  pub Keeps-file_sha256 : (h : Host) (p : Text) → Keeps (At q x) (file_sha256 h p)
  unfolding file_sha256 resolve_path
  Keeps-file_sha256 h p = search (keeps_rules, Keeps-catch, disk_frame) depth 8

module _ {q : Text} {x : Option Node} (temp meta : Text) (nt : q ≢ temp) (nm : q ≢ meta) where
  Keeps-cleanup : Keeps (At q x) (cleanup temp meta)
  unfolding cleanup
  Keeps-cleanup = search (keeps_rules, disk_frame)

  Keeps-close_cleanup : Keeps (At q x) (close_cleanup temp meta)
  unfolding close_cleanup
  Keeps-close_cleanup = search (keeps_rules, disk_frame, Keeps-cleanup)

  Keeps-check_bounds :
      (chunk : Bytes) (offset total : ℤ) (final : Bool)
      → Keeps (At q x) (check_bounds (cleanup temp meta) chunk offset total final)
  unfolding check_bounds
  Keeps-check_bounds chunk offset total final = search (keeps_rules, Keeps-cleanup) depth 9

  Keeps-begin : (total : ℤ) → Keeps (At q x) (begin temp meta total)
  unfolding begin
  Keeps-begin total = search (keeps_rules, disk_frame, Keeps-cleanup)

  Keeps-continue_upload :
      (offset total : ℤ) → Keeps (At q x) (continue_upload temp meta offset total)
  unfolding continue_upload
  Keeps-continue_upload offset total = search (keeps_rules, disk_frame, Keeps-cleanup) depth 8

  Keeps-write_chunk :
      (chunk : Bytes) (offset : ℕ) → Keeps (At q x) (write_chunk temp meta chunk offset)
  unfolding write_chunk
  Keeps-write_chunk chunk offset = search (keeps_rules, disk_frame, Keeps-close_cleanup) depth 8

  Keeps-store : (chunk : Bytes) (offset : ℕ) → Keeps (At q x) (store temp meta chunk offset)
  unfolding store
  Keeps-store chunk offset =
      search (keeps_rules, disk_frame, Keeps-cleanup, Keeps-close_cleanup, Keeps-write_chunk) depth
        8

  pub Keeps-receive :
      (chunk : Bytes) (offset total : ℤ) (final : Bool)
      → Keeps (At q x) (receive temp meta chunk offset total final)
  unfolding receive
  Keeps-receive chunk offset total final =
      search (keeps_rules, Keeps-check_bounds, Keeps-begin, Keeps-continue_upload, Keeps-store)
        depth 8

  pub Keeps-verify : (h : Host) (checksum : Text) → Keeps (At q x) (verify h temp meta checksum)
  unfolding verify
  Keeps-verify h checksum = search (keeps_rules, Keeps-cleanup, Keeps-file_sha256) depth 8

  Keeps-finalize : (safe : Text) → q ≢ safe → Keeps (At q x) (finalize temp meta safe)
  unfolding finalize
  Keeps-finalize safe ns = search (keeps_rules, disk_frame, Keeps-cleanup) depth 8

module _ {q : Text} {x : Option Node} where
  Keeps-check_transfer_id : (id : Text) → Keeps (At q x) (check_transfer_id id)
  unfolding check_transfer_id
  Keeps-check_transfer_id id = search keeps_rules depth 8

pub resolve_path_ok :
    (h : Host) (path safe : Text) → safe_path h.cwd path ≡ ok safe → resolve_path h path ≡ pure safe
unfolding resolve_path pure
resolve_path_ok h path safe e = λ i d. (checked (e i), d)

-- An upload call whose path resolves.
pub upload_shape :
    (h : Host) (path id : Text) (chunk : Bytes) (offset total : ℤ) (final : Bool) (checksum : Text)
    (safe : Text)
    → safe_path h.cwd path ≡ ok safe
    → write_atomic_upload_chunk h path id chunk offset total final checksum ≡ (
        check_transfer_id id
        >> deliver h safe (temp_path safe id) (meta_path safe id) chunk offset total final checksum)
unfolding write_atomic_upload_chunk ◌>>=◌
upload_shape h path id chunk offset total final checksum safe e = λ i.
    check_transfer_id id
    >> (resolve_path_ok h path safe e i >>= λ s.
        deliver h s (temp_path s id) (meta_path s id) chunk offset total final checksum)

module _ {q : Text} {x : Option Node} (temp meta safe : Text) (nt : q ≢ temp) (nm : q ≢ meta) where
  Keeps-deliver :
      (h : Host) (chunk : Bytes) (offset total : ℤ) (final : Bool) (checksum : Text)
      → q ≢ safe
      → Keeps (At q x) (deliver h safe temp meta chunk offset total final checksum)
  unfolding deliver
  Keeps-deliver h chunk offset total final checksum ns =
      search
        (
          keeps_rules,
          Keeps-receive temp meta nt nm,
          Keeps-verify temp meta nt nm,
          Keeps-finalize temp meta nt nm,
        )
        depth 8

-- An upload call, whatever the system does, changes no file but the temporary one, the one with the
-- total size, and the destination.
pub upload_frame :
    (h : Host) (path id : Text) (chunk : Bytes) (offset total : ℤ) (final : Bool) (checksum : Text)
    (d : Disk) (safe q : Text)
    → safe_path h.cwd path ≡ ok safe
    → q ≢ temp_path safe id
    → q ≢ meta_path safe id
    → q ≢ safe
    → (write_atomic_upload_chunk h path id chunk offset total final checksum d).1.files q
      ≡ d.files q
upload_frame h path id chunk offset total final checksum d safe q e nt nm ns =
    rw (upload_shape h path id chunk offset total final checksum safe e) (
      (Keeps-bind (check_transfer_id id) _ (Keeps-check_transfer_id id)
          (λ _. Keeps-deliver _ _ safe nt nm h chunk offset total final checksum ns)).at
        d refl)

-- The node of a path is as it was, or the action returned.
abbrev Untouched : Text → Option Node → Result FileError (Unit {0}) × Disk → Type 0
Untouched q x (r, d) = (d.files q ≡ x) ⊎ (r ≡ ok tt)

rename_failed :
    (p r q : Text) (d t : Disk) {x : OsError} → rename p r d ≡ (err x, t) → t.files q ≡ d.files q
unfolding rename
rename_failed p r q d t h = ground arith

Untouched-bind :
    {A : Type 0} (q : Text) (x : Option Node) (m : Op A) (f : A → Op (Unit {0})) (d : Disk)
    → Keeps (At q x) m
    → ((a : A) (t : Disk) → t.files q ≡ x → Untouched q x (f a t))
    → d.files q ≡ x
    → Untouched q x ((m >>= f) d)
Untouched-bind q x m f d k rest e =
    bind_cases (Untouched q x) m f d
      (λ _ t h. inl (subst (λ (o : _ × Disk). o.1.files q ≡ x) h (k.at d e)))
      (λ a t h. rest a t (subst (λ (o : _ × Disk). o.1.files q ≡ x) h (k.at d e)))

module _ (h : Host) (temp meta safe : Text) (nt : safe ≢ temp) (nm : safe ≢ meta) where
  -- The rename is the last step that can fail, and it fails as a whole.
  finalize-Untouched :
      (x : Option Node) (d : Disk) → d.files safe ≡ x → Untouched safe x (finalize temp meta safe d)
  unfolding finalize ignore
  finalize-Untouched x d same =
      bind_cases (Untouched safe x) move (λ _. ignore (remove meta)) d
        (λ e t h. subst (Untouched safe x) h moved) (λ _ t h. inr refl)
    where
      move : Op (Unit {0})
      move = must (rename temp safe) (cleanup temp meta) cannot_finalize

      moved : Untouched safe x (move d)
      moved =
          must_cases (Untouched safe x) (rename temp safe) (cleanup temp meta) cannot_finalize d
            (λ e t h. inl (
              (Keeps-bind (cleanup temp meta) (λ _. raise cannot_finalize)
                  (Keeps-cleanup temp meta nt nm) (λ _. Keeps-raise cannot_finalize)).at
                t (rename_failed temp safe safe d t h ∙ same)))
            (λ _ t h. inr refl)

  deliver_untouched :
      (chunk : Bytes) (offset total : ℤ) (final : Bool) (checksum : Text) (x : Option Node)
      (d : Disk)
      → d.files safe ≡ x
      → let o = deliver h safe temp meta chunk offset total final checksum d in
        (o.1.files safe ≡ x) ⊎ ((o.0 ≡ ok tt) × (final ≡ true))
  unfolding deliver
  deliver_untouched chunk offset total false checksum x d same = inl (
      (Keeps-bind (receive temp meta chunk offset total false) (λ _. pure tt)
          (Keeps-receive temp meta nt nm chunk offset total false) (λ _. Keeps-pure tt)).at
        d same)
  deliver_untouched chunk offset total true checksum x d same = elim committing [
    | inl e ↦ inl e
    | inr e ↦ inr (e, refl)
  ]
    where
      committing : Untouched safe x (deliver h safe temp meta chunk offset total true checksum d)
      committing =
          Untouched-bind safe x (receive temp meta chunk offset total true) _ d
            (Keeps-receive temp meta nt nm chunk offset total true)
            (λ _ t e.
              Untouched-bind safe x (verify h temp meta checksum) _ t
                (Keeps-verify temp meta nt nm h checksum) (λ _ u. finalize-Untouched x u) e)
            same

-- The destination, where it is neither the temporary file nor its companion, changes only by a
-- final chunk that is reported as committed; any other call, one that fails at any step for any
-- reason included, leaves it as it was. (The destination is what safePath makes of the path.)
pub upload_keeps_destination :
    (h : Host) (path id : Text) (chunk : Bytes) (offset total : ℤ) (final : Bool) (checksum : Text)
    (d : Disk) (safe : Text)
    → safe_path h.cwd path ≡ ok safe
    → safe ≢ temp_path safe id
    → safe ≢ meta_path safe id
    → let o = write_atomic_upload_chunk h path id chunk offset total final checksum d in
      (o.1.files safe ≡ d.files safe) ⊎ ((o.0 ≡ ok tt) × (final ≡ true))
upload_keeps_destination h path id chunk offset total final checksum d safe e nt nm =
    rw (upload_shape h path id chunk offset total final checksum safe e) (
      bind_cases Q (check_transfer_id id) _ d (λ _ t q. inl (kept _ t q))
        (λ _ t q.
          deliver_untouched h (temp_path safe id) (meta_path safe id) safe nt nm chunk offset total
            final checksum (d.files safe) t (kept _ t q)))
  where
    Q : Result FileError (Unit {0}) × Disk → Type 0
    Q o = (o.1.files safe ≡ d.files safe) ⊎ ((o.0 ≡ ok tt) × (final ≡ true))

    kept :
        (r : Result FileError (Unit {0})) (t : Disk)
        → check_transfer_id id d ≡ (r, t)
        → t.files safe ≡ d.files safe
    kept r t q =
        subst (λ (o : Result FileError (Unit {0}) × Disk). o.1.files safe ≡ d.files safe) q
          ((Keeps-check_transfer_id id).at d refl)
