-- ===== src/Control/Transfer/Remote/Replies.antt =====
-- How the agent answers the requests of a download, on a disk that refuses nothing.
use lan_commander.Base.{
  ℕ, ◌+◌, ◌≤◌, ◌≡◌, refl, sym, ap, subst, ◌∙◌, Bool, true, false, some, [], ◌∷◌, if◌then◌else◌,
  length, leb, ltb, slice, arith, nat_eq, inl, inr, Bool-cases,
}
use lan_commander.Base.Int.{pos, max_int64, leb_ℤ, ◌+64◌, +64_exact}
use lan_commander.Base.Exec.{ok, pure}
use lan_commander.Base.Exec.Outcome.{bind_ok, catch_ok}
use lan_commander.Base.Text.{Text, codes}
use lan_commander.Os.Disk.{Bytes, Files, file, calm_disk}
use lan_commander.Os.Disk.Calm.{open_read_calm, read_file_calm}
use lan_commander.Agent.Files.SafePath.{safe_path}
use lan_commander.Agent.Files.Host.{Host, file_sha256, default_chunk_size}
use lan_commander.Agent.Files.Host.Resolve.{resolve_ok}
use lan_commander.Agent.Files.Upload.{eq_ℤ}
use lan_commander.Agent.Files.Chunks.Content.{read_answer}
use lan_commander.Agent.Server.{
  Session, result_ok, FileChunk, file_chunk, with_disk, send_response, send_msg, record_event,
}
use lan_commander.Agent.Server.Handlers.{Env, GetFile, get_file_reply, final_reply, chunk_reply}
use lan_commander.Control.Transfer.Download.Served.{Due, length-served}

file_sha256_calm :
    (h : Host) (path safe : Text) (b : Bytes) (files : Files)
    → safe_path h.cwd path ≡ ok safe
    → files safe ≡ some (file b)
    → file_sha256 h path (calm_disk files) ≡ (ok (h.digest b), calm_disk files)
unfolding file_sha256 pure
file_sha256_calm h path safe b files e there =
    bind_ok _ _ _ _ _ (resolve_ok h path safe _ e)
    ∙ bind_ok _ _ _ _ _ (catch_ok _ _ _ _ _ (open_read_calm safe files _ there))
    ∙ bind_ok _ _ _ _ _ (catch_ok _ _ _ _ _ (read_file_calm safe files b there))

-- What is read where something is due.
pub read_answer_within :
    (b : Bytes) (o : ℕ)
    → Due b o
    → read_answer b o (pos default_chunk_size) ≡ ok (slice o (o + default_chunk_size) b, length b)
unfolding nat_eq
read_answer_within b o (inr h) = let e : ltb o (length b) ≡ true = ground arith in rw e refl
read_answer_within [] o (inl e) =
    subst
      (λ (n : ℕ).
        read_answer [] n (pos default_chunk_size) ≡ ok (slice n (n + default_chunk_size) [], 0))
      (sym e) refl
read_answer_within (x ∷ xs) o (inl e) =
    let e : ltb o (length (x ∷ xs)) ≡ true = ground arith in rw e refl

final_is :
    (b : Bytes) (o : ℕ)
    → length b ≤ max_int64
    → o ≤ length b
    → leb_ℤ (pos (length b)) (pos o +64 pos (length (slice o (o + default_chunk_size) b)))
      ≡ leb (length b) (o + default_chunk_size)
final_is b o small h =
    ap (leb_ℤ (pos (length b))) (
      +64_exact o (length (slice o (o + default_chunk_size) b))
        (omega (arith, length-served b o h)))
    ∙ ground (arith, length-served b o h)

module _ {Json : Type 0} (env : Env Json) (id : Text) (remote safe : Text) (b : Bytes)
    (there : safe_path env.host.cwd remote ≡ ok safe) (small : length b ≤ max_int64) where
  abbrev pub request : ℕ → GetFile
  request o = record { path = remote; offset = pos o; chunk_size = pos default_chunk_size }

  -- A chunk before and after its checksum is filled in.
  abbrev pub raw : ℕ → Bool → FileChunk
  raw o final = record {
    path = remote;
    content = slice o (o + default_chunk_size) b;
    offset = pos o;
    total_size = length b;
    final = final;
    checksum = [];
  }

  abbrev pub part : ℕ → Bool → FileChunk
  part o final = record {
    path = remote;
    content = slice o (o + default_chunk_size) b;
    offset = pos o;
    total_size = length b;
    final = final;
    checksum = if final then env.host.digest b else [];
  }

  abbrev pub Replied : ℕ → Bool → Files → Session → Session → Type 0
  Replied o final files s t =
      (t.client ≡ send_msg (record { id = id; body = file_chunk (part o final) }) s.client)
      × (t.disk ≡ calm_disk files)

  chunk_reply_calm :
      (o : ℕ) (final : Bool) (files : Files) (s : Session)
      → s.disk ≡ calm_disk files
      → files safe ≡ some (file b)
      → Replied o final files s (chunk_reply env id (raw o final) s)
  unfolding chunk_reply send_response
  chunk_reply_calm o false files s disk at = (refl, disk)
  chunk_reply_calm o true files s disk at =
      let hashed : file_sha256 env.host remote s.disk ≡ (ok (env.host.digest b), calm_disk files) =
        ap (file_sha256 env.host remote) disk
        ∙ file_sha256_calm env.host remote safe b files there at in
      (
        (λ i. (final_reply env id (raw o true) (hashed i).0 (with_disk (hashed i).1 s)).client),
        (λ i. (final_reply env id (raw o true) (hashed i).0 (with_disk (hashed i).1 s)).disk),
      )

  -- The answer to the request of a chunk that is due.
  pub reply_chunk :
      (o : ℕ) (files : Files) (s : Session)
      → o ≤ length b
      → s.disk ≡ calm_disk files
      → files safe ≡ some (file b)
      → Replied o
          (leb (length b) (o + default_chunk_size))
          files
          s
          (get_file_reply env id (request o) (ok (slice o (o + default_chunk_size) b, length b)) s)
  unfolding record_event
  reply_chunk o files s le disk at =
      subst
        (λ (f : Bool).
          Replied o f files s (
            get_file_reply env id (request o) (ok (slice o (o + default_chunk_size) b, length b))
              s))
        (final_is b o small le)
        (elim (Bool-cases (eq_ℤ (pos o) (pos 0))) [
          | inl e ↦
              rw e
                (chunk_reply_calm o _ files (record_event (codes "get_file") result_ok s) disk at)
          | inr e ↦ rw e (chunk_reply_calm o _ files s disk at)
        ])
