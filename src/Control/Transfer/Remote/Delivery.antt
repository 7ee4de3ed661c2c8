-- ===== src/Control/Transfer/Remote/Delivery.antt =====
-- An upload by both programs together returns, and delivers the file.
use lan_commander.Base.{
  ℕ, ◌+◌, ◌≤◌, ◌<◌, ◌≡◌, ◌≢◌, sym, ap, subst, ◌∙◌, Bool, true, false, none, some, [], ◌∷◌, ◌++◌,
  if◌then◌else◌, length, length-take, take, arith, ◌==◌, nat_eq, take_all,
}
use lan_commander.Base.Int.{pos, max_int64}
use lan_commander.Base.Exec.{Result, ok}
use lan_commander.Base.Text.{Text, is_empty, trim_space}
use lan_commander.Os.Disk.{Bytes, Disk, Files, file, calm_disk}
use lan_commander.Os.Disk.Calm.{IsFree}
use lan_commander.Agent.Files.Host.{FileError}
use lan_commander.Agent.Files.SafePath.{safe_path}
use lan_commander.Agent.Files.Upload.{temp_path, meta_path, write_atomic_upload_chunk}
use lan_commander.Agent.Files.Upload.Success.{Ready, Fits, IsTransferId, upload_middle, upload_last}
use lan_commander.Agent.Files.Upload.Stored.{Kept}
use lan_commander.Agent.Server.{Session}
use lan_commander.Control.Transfer.{SendFile, validate_request, default_chunk_size}
use lan_commander.Control.Transfer.Download.Served.{calm_world}
use lan_commander.Control.Transfer.Upload.{upload}
use lan_commander.Control.Transfer.Upload.Chunk.{
  acknowledged, next_chunk, chunk_at, chunk_final, chunk_middle, chunk_seen, eq_true, eq_false,
  Accepts,
}
use lan_commander.Control.Transfer.Upload.Rounds.{upload_accepted}
use lan_commander.Control.Transfer.Remote.{Link, received, agent}
use lan_commander.Control.Transfer.Remote.Arrival.{upload_arrives}
use lan_commander.Control.Transfer.Remote.Success.{Serving, remote_send_calm}

Kept-Ready :
    (temp meta : Text) (total : ℕ) (b : Bytes) (files : Files)
    → Kept temp meta total b files
    → Ready temp meta total b files
Kept-Ready temp meta total [] files k = (subst IsFree (sym k.part) tt, subst IsFree (sym k.size) tt)
Kept-Ready temp meta total (x ∷ xs) files k = k

module _ {Json : Type 0} (l : Link Json) (remote id safe : Text) (b : Bytes)
    (decodes : (p : SendFile) → l.env.as_send_file (l.encode p) ≡ some (received p))
    (idle : (s : Session)
      → ((l.meanwhile s).disk ≡ s.disk)
        × ((l.meanwhile s).client.authed ≡ s.client.authed)
        × ((l.meanwhile s).client.closed ≡ s.client.closed))
    (atomic : is_empty id ≡ false) (valid : IsTransferId id)
    (there : safe_path l.env.host.cwd remote ≡ ok safe) (nt : safe ≢ temp_path safe id)
    (nm : safe ≢ meta_path safe id)
    (own : safe_path l.env.host.cwd (temp_path safe id) ≡ ok (temp_path safe id))
    (fits : length b ≤ max_int64)
    (named : is_empty (trim_space (l.env.host.digest b)) ≡ false) where
  -- The agent after `o` bytes.
  abbrev Stage : ℕ → Session → Type 0
  Stage o s =
      (g : Files) × Serving s g
      × IsFree (g safe)
      × Ready (temp_path safe id) (meta_path safe id) (length b) (take o b) g

  -- And after the upload.
  abbrev Ended : Session → Type 0
  Ended s = (g : Files) × Serving s g

  abbrev at : ℕ → SendFile
  at o = chunk_at l.env.host.digest remote id b o

  so_far : (o : ℕ) → o ≤ length b → length (take o b) ≡ o
  so_far o h = omega (arith, length-take o b)

  middle_Fits :
      (o : ℕ)
      → o + default_chunk_size < length b
      → Fits (length b) (length (take o b)) (next_chunk b o) false
  middle_Fits o h = record {
    small = omega (arith, chunk_middle b o h);
    within = omega (arith, chunk_middle b o h, so_far o (omega arith));
    ends = λ e. absurd cc;
    short = λ _. (
      omega (arith, chunk_middle b o h),
      omega (arith, chunk_middle b o h, so_far o (omega arith)),
    );
  }

  last_Fits :
      (o : ℕ)
      → o ≤ length b
      → length b ≤ o + default_chunk_size
      → Fits (length b) (length (take o b)) (next_chunk b o) true
  last_Fits o h all = record {
    small = omega (arith, chunk_final b o h all);
    within = omega (arith, chunk_final b o h all, so_far o h);
    ends = λ _. omega (arith, chunk_final b o h all, so_far o h);
    short = λ e. absurd cc;
  }

  -- The agent's call for the chunk at `o`.
  abbrev call : ℕ → Bool → Files → Result FileError (Unit {0}) × Disk
  call o final g =
      write_atomic_upload_chunk l.env.host remote id (next_chunk b o) (pos o) (pos (length b)) final
        (if final then l.env.host.digest (take o b ++ next_chunk b o) else []) (calm_disk g)

  send_middle :
      (o : ℕ) (s : Session)
      → o + default_chunk_size < length b
      → Stage o s
      → (t : Session) × ((agent l).send_file (at o) s ≡ (ok (some (acknowledged (at o))), t))
        × Stage (o + default_chunk_size) t
  send_middle o s h (g, serving, free, ready) =
      let (g', stored, kept, same) =
        upload_middle l.env.host remote id safe (length b) fits valid there nt nm own (take o b)
          (next_chunk b o) [] g (middle_Fits o h) ready in
      let final : (o + length (next_chunk b o) == length b) ≡ false =
        eq_false _ _ (λ e. absurd (omega (arith, e, chunk_middle b o h))) in
      let (t, sent, serving') = remote_send_calm l decodes idle (at o) s g g' atomic serving (
        (λ i. call o (final i) g)
        ∙ (λ i.
            write_atomic_upload_chunk l.env.host remote id (next_chunk b o)
              (pos (sym (so_far o (omega arith)) i)) (pos (length b)) false [] (calm_disk g))
        ∙ stored) in
      (
        t,
        sent,
        (
          g',
          serving',
          subst IsFree (sym same) free,
          subst (λ (x : Bytes). Ready (temp_path safe id) (meta_path safe id) (length b) x g')
              (chunk_seen b o)
              (Kept-Ready (temp_path safe id) (meta_path safe id) (length b)
                (take o b ++ next_chunk b o) g' kept),
        ),
      )

  send_last :
      (o : ℕ) (s : Session)
      → o ≤ length b
      → length b ≤ o + default_chunk_size
      → Stage o s
      → (t : Session) × ((agent l).send_file (at o) s ≡ (ok (some (acknowledged (at o))), t))
        × Ended t
  send_last o s le all (g, serving, free, ready) =
      let whole : take o b ++ next_chunk b o ≡ b =
        chunk_seen b o ∙ take_all (o + default_chunk_size) b all in
      let (g', stored) =
        upload_last l.env.host remote id safe (length b) fits valid there nt nm own (take o b)
          (next_chunk b o) g (last_Fits o le all) ready free
          (subst (λ (x : Bytes). is_empty (trim_space (l.env.host.digest x)) ≡ false) (sym whole)
            named) in
      let final : (o + length (next_chunk b o) == length b) ≡ true =
        eq_true _ _ (chunk_final b o le all) in
      let (t, sent, serving') = remote_send_calm l decodes idle (at o) s g g' atomic serving (
        (λ i. call o (final i) g)
        ∙ (λ i.
            write_atomic_upload_chunk l.env.host remote id (next_chunk b o)
              (pos (sym (so_far o le) i)) (pos (length b)) true
              (l.env.host.digest (take o b ++ next_chunk b o)) (calm_disk g))
        ∙ stored) in
      (t, sent, (g', serving'))

  agent-Accepts : Accepts l.env.host.digest (agent l) remote id b Stage Ended
  agent-Accepts = record { on_middle = send_middle; on_last = send_last }

-- The same, and the agent still serves the operator.
pub upload_serves :
    {Json : Type 0} (l : Link Json) (remote id safe : Text) (b : Bytes)
    → ((p : SendFile) → l.env.as_send_file (l.encode p) ≡ some (received p))
    → ((s : Session)
        → ((l.meanwhile s).disk ≡ s.disk)
          × ((l.meanwhile s).client.authed ≡ s.client.authed)
          × ((l.meanwhile s).client.closed ≡ s.client.closed))
    → is_empty id ≡ false
    → IsTransferId id
    → safe_path l.env.host.cwd remote ≡ ok safe
    → safe ≢ temp_path safe id
    → safe ≢ meta_path safe id
    → safe_path l.env.host.cwd (temp_path safe id) ≡ ok (temp_path safe id)
    → length b ≤ max_int64
    → is_empty (trim_space (l.env.host.digest b)) ≡ false
    → (fuel : ℕ) (agent_id source : Text) (files there : Files) (s : Session)
    → validate_request {S = Session} agent_id source remote (calm_world files s)
      ≡ (ok tt, calm_world files s)
    → files source ≡ some (file b)
    → length b < fuel
    → Serving s there
    → IsFree (there safe)
    → IsFree (there (temp_path safe id))
    → IsFree (there (meta_path safe id))
    → (t : Session) × (upload l.env.host.digest
          (agent l)
          fuel
          id
          agent_id
          source
          remote
          (calm_world files s)
        ≡ (ok tt, calm_world files t))
      × (t.disk.files safe ≡ some (file b))
      × (t.disk.files (temp_path safe id) ≡ none)
      × ((g : Files) × Serving t g)
upload_serves l remote id safe b decodes idle atomic valid resolves nt nm own fits named fuel
      agent_id source files there s request src enough serving free ft fm =
    let (t, run, ended) =
      upload_accepted l.env.host.digest (agent l) source remote id files
        (Stage l remote id safe b decodes idle atomic valid resolves nt nm own fits named)
        (Ended l remote id safe b decodes idle atomic valid resolves nt nm own fits named) agent_id
        b fuel s src
        (agent-Accepts l remote id safe b decodes idle atomic valid resolves nt nm own fits named)
        request enough (there, serving, free, (ft, fm)) in
    let (arrived, gone, _) =
      upload_arrives l l.env.host.digest remote id safe decodes
        (λ s. ap (λ (d : Disk). d.files (temp_path safe id)) ((idle s).0)) atomic resolves
        (λ e. nt (sym e)) nm own fuel agent_id source b (calm_world files s) (calm_world files t)
        fits src run in
    (t, run, arrived, gone, ended)

-- An upload of a regular file to an agent whose system refuses nothing, from a local disk that
-- refuses nothing either and without a cancellation, returns within as many rounds as the file has
-- bytes and one more at most, and then the destination holds the file and the temporary file is
-- gone. (The operator is authenticated, the connection stays open, and the agent does nothing else
-- to the disk meanwhile, nor to whether the operator is authenticated; its decoding of payloads
-- reverses the operator's encoding, and both take the same digest of the file, which is not blank.
-- The agent id and the paths are not blank; the transfer id is a valid one, that is neither blank
-- nor with a separator or ".." in it; the length of the file is an int64. On the agent, safePath
-- accepts the path and leaves the temporary path alone; the destination is neither the temporary
-- file nor its companion; and none of the three is a directory.)
pub upload_delivers :
    {Json : Type 0} (l : Link Json) (remote id safe : Text) (b : Bytes)
    → ((p : SendFile) → l.env.as_send_file (l.encode p) ≡ some (received p))
    → ((s : Session)
        → ((l.meanwhile s).disk ≡ s.disk)
          × ((l.meanwhile s).client.authed ≡ s.client.authed)
          × ((l.meanwhile s).client.closed ≡ s.client.closed))
    → is_empty id ≡ false
    → IsTransferId id
    → safe_path l.env.host.cwd remote ≡ ok safe
    → safe ≢ temp_path safe id
    → safe ≢ meta_path safe id
    → safe_path l.env.host.cwd (temp_path safe id) ≡ ok (temp_path safe id)
    → length b ≤ max_int64
    → is_empty (trim_space (l.env.host.digest b)) ≡ false
    → (fuel : ℕ) (agent_id source : Text) (files there : Files) (s : Session)
    → validate_request {S = Session} agent_id source remote (calm_world files s)
      ≡ (ok tt, calm_world files s)
    → files source ≡ some (file b)
    → length b < fuel
    → Serving s there
    → IsFree (there safe)
    → IsFree (there (temp_path safe id))
    → IsFree (there (meta_path safe id))
    → (t : Session) × (upload l.env.host.digest
          (agent l)
          fuel
          id
          agent_id
          source
          remote
          (calm_world files s)
        ≡ (ok tt, calm_world files t))
      × (t.disk.files safe ≡ some (file b))
      × (t.disk.files (temp_path safe id) ≡ none)
upload_delivers l remote id safe b decodes idle atomic valid resolves nt nm own fits named fuel
      agent_id source files there s request src enough serving free ft fm =
    let (t, run, arrived, gone, _) =
      upload_serves l remote id safe b decodes idle atomic valid resolves nt nm own fits named fuel
        agent_id source files there s request src enough serving free ft fm in
    (t, run, arrived, gone)
