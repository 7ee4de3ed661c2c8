-- ===== src/Control/Transfer/Remote/Answers.antt =====
-- What an answer of the agent to the request of a chunk says, whatever its system did.
use lan_commander.Base.{
  ℕ, ◌≡◌, ◌≢◌, refl, sym, ap, subst, ◌∙◌, Bool, true, false, Option, some, [], if◌then◌else◌,
  length, arith, Bool-cases, inl, inr,
}
use lan_commander.Base.Int.{ℤ, pos, leb_ℤ, ◌+64◌}
use lan_commander.Base.Exec.{Result, ok, err}
use lan_commander.Base.Text.{Text, codes}
use lan_commander.Os.Disk.{Bytes, Disk, file}
use lan_commander.Os.Disk.Effect.{Begins, kept}
use lan_commander.Agent.Files.SafePath.{safe_path}
use lan_commander.Agent.Files.Host.{FileError, file_sha256}
use lan_commander.Agent.Files.Chunks.{read_file_chunk}
use lan_commander.Agent.Files.Chunks.Partial.{Answers, read_file_chunk_ok}
use lan_commander.Agent.Files.Upload.{eq_ℤ}
use lan_commander.Agent.Files.Upload.Frame.{Keeps-file_sha256}
use lan_commander.Agent.Server.{
  Session, Client, Reply, Failure, FileChunk, file_chunk, authentication_required, result_ok,
  with_disk, send_response, send_error, send_msg, record_event,
}
use lan_commander.Agent.Server.Handlers.{
  Env, GetFile, Message, request_chunk_size, get_file_kind, dispatch, handle_get_file, handle_kind,
  handle_message, get_file_reply, final_reply, chunk_reply,
}
use lan_commander.Control.Transfer.{Chunk}
use lan_commander.Control.Transfer.Remote.Success.{queue_ok}
use lan_commander.Control.Transfer.Remote.{Link, awaiting, chunk_answer, chunk_of_body, remote_get}

-- The content and the total size that both programs have of a chunk.
abbrev Same : Chunk → Bytes → ℕ → Type 0
Same c content total = (c.content ≡ content) × (c.total_size ≡ pos total)

unqueued : (r : Reply) (c : Client) → c.send ≡ [] → c.closed ≡ true → (send_msg r c).send ≡ []
unfolding send_msg
unqueued r c waits e = ground arith

response_heard :
    (id : Text) (chunk : FileChunk) (s : Session) {c : Chunk}
    → s.client.send ≡ []
    → chunk_answer (send_response id (file_chunk chunk) s).client.send ≡ ok (some c)
    → Same c chunk.content chunk.total_size
unfolding send_response
response_heard id chunk s {c} waits h = elim (Bool-cases s.client.closed) [
  | inl e ↦
      let unsent = unqueued (record { id = id; body = file_chunk chunk }) s.client waits e in
      absurd cc
  | inr e ↦
      let (sent, _, _) = queue_ok (record { id = id; body = file_chunk chunk }) s.client waits e in
      let said : ◌≡◌ {A = Result (Unit {0}) (Option Chunk)} (chunk_of_body (file_chunk chunk))
          (ok (some c)) =
        ap chunk_answer (sym sent) ∙ h in
      (cc, cc)
]

error_unheard :
    (id : Text) (f : Failure) (s : Session) {c : Chunk}
    → s.client.send ≡ []
    → chunk_answer (send_error id f s).client.send ≢ ok (some c)
unfolding send_error send_msg
error_unheard id f s q = λ h. ground arith

module _ {Json : Type 0} (env : Env Json) (id : Text) where
  final_heard :
      (chunk : FileChunk) (r : Result FileError Text) (s : Session) {c : Chunk}
      → s.client.send ≡ []
      → chunk_answer (final_reply env id chunk r s).client.send ≡ ok (some c)
      → Same c chunk.content chunk.total_size
  final_heard chunk (err e) s waits h = absurd (error_unheard id _ s waits h)
  final_heard chunk (ok sum) s waits h = response_heard id _ s waits h

  final-disk :
      (chunk : FileChunk) (r : Result FileError Text) (s : Session)
      → (final_reply env id chunk r s).disk ≡ s.disk
  unfolding send_error send_response
  final-disk chunk (err e) s = refl
  final-disk chunk (ok sum) s = refl

  chunk_heard :
      (chunk : FileChunk) (s : Session) {c : Chunk}
      → s.client.send ≡ []
      → chunk_answer (chunk_reply env id chunk s).client.send ≡ ok (some c)
      → Same c chunk.content chunk.total_size
  unfolding chunk_reply
  chunk_heard chunk s {c} waits h = go chunk.final h
    where
      r : Result FileError Text × Disk
      r = file_sha256 env.host chunk.path s.disk

      go :
          (f : Bool)
          → chunk_answer
              (if f
                then final_reply env id chunk r.0 (with_disk r.1 s)
                else send_response id (file_chunk chunk) s).client.send
            ≡ ok (some c)
          → Same c chunk.content chunk.total_size
      go true q = final_heard chunk r.0 (with_disk r.1 s) waits q
      go false q = response_heard id chunk s waits q

  chunk_reply_keeps :
      (q : Text) (chunk : FileChunk) (s : Session)
      → (chunk_reply env id chunk s).disk.files q ≡ s.disk.files q
  unfolding chunk_reply send_response
  chunk_reply_keeps q chunk s = go chunk.final
    where
      go :
          (f : Bool)
          → (if f
                then final_reply env id chunk
                    (file_sha256 env.host chunk.path s.disk).0
                    (with_disk (file_sha256 env.host chunk.path s.disk).1 s)
                else send_response id (file_chunk chunk) s).disk.files
              q
            ≡ s.disk.files q
      go true =
          ap (λ (d : Disk). d.files q)
            (final-disk chunk (file_sha256 env.host chunk.path s.disk).0
              (with_disk (file_sha256 env.host chunk.path s.disk).1 s))
          ∙ kept {d = s.disk} (Keeps-file_sha256 {q = q} env.host chunk.path) refl
      go false = refl

  get_file_heard :
      (p : GetFile) (r : Result FileError (Bytes × ℕ)) (s : Session) {c : Chunk}
      → s.client.send ≡ []
      → chunk_answer (get_file_reply env id p r s).client.send ≡ ok (some c)
      → (content : Bytes) × (total : ℕ) × (r ≡ ok (content, total)) × Same c content total
  unfolding record_event
  get_file_heard p (err e) s waits h = absurd (error_unheard id _ _ waits h)
  get_file_heard p (ok (content, total)) s {c} waits h =
      (content, total, refl, go (eq_ℤ p.offset (pos 0)) h)
    where
      chunk : FileChunk
      chunk = record {
        path = p.path;
        content = content;
        offset = p.offset;
        total_size = total;
        final = leb_ℤ (pos total) (p.offset +64 pos (length content));
        checksum = [];
      }

      go :
          (first : Bool)
          → chunk_answer
              (chunk_reply env id chunk
                (if first then record_event (codes "get_file") result_ok s else s)).client.send
            ≡ ok (some c)
          → Same c content total
      go true q = chunk_heard chunk _ waits q
      go false q = chunk_heard chunk _ waits q

  get_file_reply_keeps :
      (q : Text) (p : GetFile) (r : Result FileError (Bytes × ℕ)) (s : Session)
      → (get_file_reply env id p r s).disk.files q ≡ s.disk.files q
  unfolding record_event send_error
  get_file_reply_keeps q p (err e) s = refl
  get_file_reply_keeps q p (ok (content, total)) s = elim (Bool-cases (eq_ℤ p.offset (pos 0))) [
    | inl e ↦ rw e (chunk_reply_keeps q _ (record_event (codes "get_file") result_ok s))
    | inr e ↦ rw e (chunk_reply_keeps q _ s)
  ]

module _ {Json : Type 0} (l : Link Json)
    (decodes : (path : Text) (o : ℤ) (n : ℕ)
      → l.env.as_get_file (l.encode_get path o n)
        ≡ some (record { path = path; offset = o; chunk_size = pos n })) where
  abbrev pub asked : Text → ℕ → ℕ → Message Json
  asked path o n = record {
    id = l.msg_id;
    kind = get_file_kind;
    payload = l.encode_get path (pos o) n;
  }

  abbrev pub request : Text → ℕ → ℕ → GetFile
  request path o n = record { path = path; offset = pos o; chunk_size = pos n }

  abbrev pub read_for : Text → ℕ → ℕ → Session → Result FileError (Bytes × ℕ) × Disk
  read_for path o n s =
      read_file_chunk l.env.host path (pos o) (request_chunk_size l.env (pos n))
        (l.meanwhile s).disk

  pub handled_get :
      (path : Text) (o n : ℕ) (s : Session)
      → (l.meanwhile s).client.authed ≡ true
      → handle_message l.env l.now (asked path o n) (awaiting l s)
        ≡ get_file_reply l.env l.msg_id
            (request path o n)
            (read_for path o n s).0
            (with_disk (read_for path o n s).1 (awaiting l s))
  unfolding handle_message handle_kind dispatch handle_get_file
  handled_get path o n s e = rw (e, decodes path (pos o) n) refl

  barred_get :
      (path : Text) (o n : ℕ) (s : Session)
      → (l.meanwhile s).client.authed ≡ false
      → handle_message l.env l.now (asked path o n) (awaiting l s)
        ≡ send_error l.msg_id authentication_required (awaiting l s)
  unfolding handle_message handle_kind
  barred_get path o n s e = rw e refl

  -- A chunk that is answered holds bytes of the file that follow the offset, none perhaps.
  pub remote_get_ok :
      (remote safe : Text) (b : Bytes) (o n : ℕ) (s t : Session) {c : Chunk}
      → safe_path l.env.host.cwd remote ≡ ok safe
      → (l.meanwhile s).disk.files safe ≡ some (file b)
      → remote_get l remote (pos o) n s ≡ (ok (some c), t)
      → Answers b o c.content (length b)
        × (c.total_size ≡ pos (length b))
        × (t.disk.files safe ≡ some (file b))
  unfolding remote_get
  remote_get_ok remote safe b o n s t {c} resolves there h =
      elim (Bool-cases (l.meanwhile s).client.authed) [
        | inl e ↦
            let same = handled_get remote o n s e in
            let (r, d) = read_for remote o n s in
            let (content, total, fine, (content_is, total_is)) =
              get_file_heard l.env l.msg_id (request remote o n) r (with_disk d (awaiting l s)) refl
                (subst (λ (x : Session). chunk_answer x.client.send ≡ ok (some c)) same
                  (ap (λ (x : Result (Unit {0}) (Option Chunk) × Session). x.0) h)) in
            let ((whole, begins), file_kept) =
              read_file_chunk_ok l.env.host remote safe b content o total _ (l.meanwhile s).disk d
                resolves there (λ i. (fine i, d)) in
            (
              (refl, subst (Begins b o) (sym content_is) begins),
              total_is ∙ ap pos whole,
              ap (λ (x : Result (Unit {0}) (Option Chunk) × Session). x.1.disk.files safe) (sym h)
                  ∙ ap (λ (x : Session). x.disk.files safe) same
                  ∙ get_file_reply_keeps l.env l.msg_id safe (request remote o n) r
                      (with_disk d (awaiting l s))
                  ∙ file_kept
                  ∙ there,
            )
        | inr e ↦ absurd (
            error_unheard l.msg_id authentication_required (awaiting l s) refl (
              subst (λ (x : Session). chunk_answer x.client.send ≡ ok (some c))
                (barred_get remote o n s e)
                (ap (λ (x : Result (Unit {0}) (Option Chunk) × Session). x.0) h)))
      ]
