-- ===== src/Control/Transfer/Remote/Fetch.antt =====
-- A download by both programs together, where neither's system refuses anything.
use lan_commander.Base.{
  ℕ, ◌+◌, ◌≤◌, ◌<◌, ◌≡◌, ◌≢◌, refl, sym, ap, ◌∙◌, false, none, some, List, [], if◌then◌else◌,
  length, leb, slice, nat_eq,
}
use lan_commander.Base.Int.{ℤ, pos, max_int64}
use lan_commander.Base.Exec.{Result, ok}
use lan_commander.Base.Text.{Text, is_empty}
use lan_commander.Os.Disk.{Bytes, Files, Disk, file, calm_disk}
use lan_commander.Agent.Files.SafePath.{safe_path}
use lan_commander.Agent.Files.Host.{FileError, default_chunk_size}
use lan_commander.Agent.Files.Chunks.{read_file_chunk}
use lan_commander.Agent.Files.Chunks.Content.{read_file_chunk_lem}
use lan_commander.Agent.Server.{Session, Client, file_chunk, with_disk}
use lan_commander.Agent.Server.Handlers.{handle_message, get_file_reply}
use lan_commander.Control.Transfer.Download.Served.{Due, Due-le, served}
use lan_commander.Control.Transfer.Remote.{Link, agent, awaiting, chunk_answer, remote_get}
use lan_commander.Control.Transfer.Remote.Answers.{asked, handled_get}
use lan_commander.Control.Transfer.Remote.Success.{Serving, queue_ok}
use lan_commander.Os.Path.{dir}
use lan_commander.Os.Disk.{DirItem, directory}
use lan_commander.Os.Disk.Calm.{IsFree}
use lan_commander.Control.Transfer.{validate_request}
use lan_commander.Control.Transfer.Download.{Local, download}
use lan_commander.Control.Transfer.Download.Served.{calm_world}
use lan_commander.Control.Transfer.Download.Delivery.{download_kept}
use lan_commander.Control.Transfer.Remote.Replies.{read_answer_within, request, part, reply_chunk}

module _ {Json : Type 0} (l : Link Json) (remote safe : Text) (b : Bytes)
    (decodes : (path : Text) (o : ℤ) (n : ℕ)
      → l.env.as_get_file (l.encode_get path o n)
        ≡ some (record { path = path; offset = o; chunk_size = pos n }))
    (idle : (s : Session)
      → ((l.meanwhile s).disk ≡ s.disk)
        × ((l.meanwhile s).client.authed ≡ s.client.authed)
        × ((l.meanwhile s).client.closed ≡ s.client.closed))
    (there : safe_path l.env.host.cwd remote ≡ ok safe) (small : length b ≤ max_int64) where
  abbrev read_at : ℕ → Session → Result FileError (Bytes × ℕ) × Disk
  read_at o s =
      read_file_chunk l.env.host remote (pos o) (pos default_chunk_size) (l.meanwhile s).disk

  -- The agent answers the request of a chunk that is due with the chunk.
  pub remote_get_calm :
      (o : ℕ) (s : Session) (files : Files)
      → Serving s files
      → files safe ≡ some (file b)
      → Due b o
      → (t : Session) × (remote_get l remote (pos o) default_chunk_size s
          ≡ (ok (some (served l.env.host.digest b o)), t))
        × Serving t files
  unfolding remote_get
  remote_get_calm o s files serving at due =
      let (disk, authed, closed) = idle s in
      let run : read_at o s ≡ (ok (slice o (o + default_chunk_size) b, length b), calm_disk files) =
        ap (read_file_chunk l.env.host remote (pos o) (pos default_chunk_size))
          (disk ∙ serving.on_disk)
        ∙ read_file_chunk_lem l.env.host remote safe b o (pos default_chunk_size) files there at
        ∙ (λ i. (read_answer_within b o due i, calm_disk files)) in
      let s' = with_disk (calm_disk files) (awaiting l s) in
      let t =
        get_file_reply l.env l.msg_id (request l.env l.msg_id remote safe b there small o)
          (ok (slice o (o + default_chunk_size) b, length b)) s' in
      let same : handle_message l.env l.now (asked l decodes remote o default_chunk_size)
            (awaiting l s)
          ≡ t =
        handled_get l decodes remote o default_chunk_size s (authed ∙ serving.authed) ∙ (λ i.
          get_file_reply l.env l.msg_id (request l.env l.msg_id remote safe b there small o)
            (run i).0 (with_disk (run i).1 (awaiting l s))) in
      let (client, kept) =
        reply_chunk l.env l.msg_id remote safe b there small o files s' (Due-le b o due) refl at in
      let (heard, authed', closed') =
        queue_ok
          (record {
            id = l.msg_id;
            body = file_chunk (
                part l.env l.msg_id remote safe b there small o
                  (leb (length b) (o + default_chunk_size)));
          })
          s'.client refl (closed ∙ serving.opened) in
      (
        t,
        (λ i. (chunk_answer (same i).client.send, same i))
            ∙ (λ i. (chunk_answer (client i).send, t))
            ∙ (λ i. (chunk_answer (heard i), t)),
        record {
          on_disk = kept;
          authed = ap (λ (c : Client). c.authed) client ∙ authed' ∙ authed ∙ serving.authed;
          opened = ap (λ (c : Client). c.closed) client ∙ closed';
        },
      )

served_same : (d e : Bytes → Text) (b : Bytes) (o : ℕ) → d b ≡ e b → served d b o ≡ served e b o
served_same d e b o same = λ i. record {
  content = slice o (o + default_chunk_size) b;
  offset = pos o;
  total_size = pos (length b);
  final = leb (length b) (o + default_chunk_size);
  checksum = if leb (length b) (o + default_chunk_size) then same i else [];
}

-- A download from an agent whose system refuses nothing, to a local disk that refuses nothing either
-- and without a cancellation, returns within as many rounds as the agent's file has bytes and one more
-- at most. Then the destination holds what the agent's file holds, the temporary file is gone, no other
-- local file has changed, and neither has the agent's disk. (The operator is authenticated, the
-- connection stays open, and the agent does nothing else to the disk meanwhile; its decoding of
-- payloads reverses the operator's encoding, and both take the same digest of the file, which is not
-- empty. The agent id and the paths are not blank, and the length of the file is an int64. The destination
-- is in a directory and is none itself, and the system's name for the temporary file is one that no file
-- has.)
pub download_fetches :
    {Json : Type 0} (l : Link Json) (local : Local) (remote safe : Text) (b : Bytes)
    → ((path : Text) (o : ℤ) (n : ℕ)
        → l.env.as_get_file (l.encode_get path o n)
          ≡ some (record { path = path; offset = o; chunk_size = pos n }))
    → ((s : Session)
        → ((l.meanwhile s).disk ≡ s.disk)
          × ((l.meanwhile s).client.authed ≡ s.client.authed)
          × ((l.meanwhile s).client.closed ≡ s.client.closed))
    → safe_path l.env.host.cwd remote ≡ ok safe
    → length b ≤ max_int64
    → local.digest b ≡ l.env.host.digest b
    → is_empty (local.digest b) ≡ false
    → (fuel : ℕ) (agent_id path destination : Text) (z : ℕ) (items : List DirItem)
      (files there : Files) (s : Session)
    → validate_request {S = Session} agent_id remote path (calm_world files s)
      ≡ (ok tt, calm_world files s)
    → local.absolute path ≡ some destination
    → files (dir destination) ≡ some (directory z items)
    → IsFree (files destination)
    → files (local.temp_name destination) ≡ none
    → local.temp_name destination ≢ destination
    → length b < fuel
    → Serving s there
    → there safe ≡ some (file b)
    → (files' : Files) × (t : Session) × (download local
          (agent l)
          fuel
          agent_id
          remote
          path
          (calm_world files s)
        ≡ (ok tt, calm_world files' t))
      × (files' destination ≡ some (file b))
      × (files' (local.temp_name destination) ≡ none)
      × ((q : Text) → q ≢ local.temp_name destination → q ≢ destination → files' q ≡ files q)
      × (t.disk ≡ calm_disk there)
download_fetches l local remote safe b decodes idle resolves small same hashed fuel agent_id path
      destination z items files there s valid abs parent free fresh ne enough serving at =
    let (files', t, run, still, whole, gone, others) =
      download_kept local (agent l) b agent_id remote path destination z items files s fuel
        (λ x. Serving x there) small hashed
        (λ o x x_serving due.
          let (y, sent, y_serving) =
            remote_get_calm l remote safe b decodes idle resolves small o x there x_serving at
              due in
          (
            y,
            sent ∙ (λ i.
                (ok (some (served_same l.env.host.digest local.digest b o (sym same) i)), y)),
            y_serving,
          ))
        serving valid abs parent free fresh ne enough in
    (files', t, run, whole, gone, others, still.on_disk)
