-- ===== src/Control/Transfer/Remote/Roundtrip.antt =====
-- An upload followed by a download, by both programs together.
use lan_commander.Base.{
  ℕ, ◌≤◌, ◌<◌, ◌≡◌, ◌≢◌, refl, sym, ap, ◌∙◌, false, none, some, List, length, [], ◌∷◌,
}
use lan_commander.Base.Int.{ℤ, pos, max_int64}
use lan_commander.Base.Exec.{ok}
use lan_commander.Base.Text.{Text, is_empty, trim_space, trim_left, trim_right}
use lan_commander.Os.Path.{dir}
use lan_commander.Os.Disk.{Bytes, Files, Disk, DirItem, file, directory}
use lan_commander.Os.Disk.Calm.{IsFree}
use lan_commander.Agent.Files.SafePath.{safe_path}
use lan_commander.Agent.Files.Upload.{temp_path, meta_path}
use lan_commander.Agent.Files.Upload.Success.{IsTransferId}
use lan_commander.Agent.Server.{Session}
use lan_commander.Control.Transfer.{SendFile, validate_request}
use lan_commander.Control.Transfer.Download.{Local, download}
use lan_commander.Control.Transfer.Download.Served.{calm_world}
use lan_commander.Control.Transfer.Upload.{upload}
use lan_commander.Control.Transfer.Remote.{Link, received, agent}
use lan_commander.Control.Transfer.Remote.Success.{Serving}
use lan_commander.Control.Transfer.Remote.Delivery.{upload_serves}
use lan_commander.Control.Transfer.Remote.Fetch.{download_fetches}

not_blank : (x : Text) → is_empty (trim_space x) ≡ false → is_empty x ≡ false
unfolding trim_space trim_left trim_right
not_blank [] h = h
not_blank (c ∷ cs) h = refl

-- Where neither system refuses anything and nothing is cancelled, an upload and a download of the same
-- path, one after the other, both return within as many rounds as the file has bytes and one more at
-- most, and the file is then at the destination of the download, which held no directory. (The operator
-- is authenticated, the connection stays open, and the agent does nothing else to the disk
-- meanwhile; its decoding of payloads reverses the operator's encoding, and both take the same digest of
-- the file, which is not blank. The agent id and the paths are not blank, the transfer id is a valid one,
-- and the length of the file is an int64. On the agent, the temporary path is one that safePath leaves
-- alone, the destination of the upload is neither it nor its companion, and none of the three is a directory.
-- The destination of the download is in a directory, and the system's name for the temporary file
-- is one that no file has.)
pub download-upload :
    {Json : Type 0} (l : Link Json) (local : Local) (remote id safe : Text) (b : Bytes)
    → ((p : SendFile) → l.env.as_send_file (l.encode p) ≡ some (received p))
    → ((path : Text) (o : ℤ) (n : ℕ)
        → l.env.as_get_file (l.encode_get path o n)
          ≡ some (record { path = path; offset = o; chunk_size = pos n }))
    → ((s : Session)
        → ((l.meanwhile s).disk ≡ s.disk)
          × ((l.meanwhile s).client.authed ≡ s.client.authed)
          × ((l.meanwhile s).client.closed ≡ s.client.closed))
    → is_empty id ≡ false
    → IsTransferId id
    → safe_path l.env.host.cwd remote ≡ ok safe
    → safe ≢ temp_path safe id
    → safe ≢ meta_path safe id
    → safe_path l.env.host.cwd (temp_path safe id) ≡ ok (temp_path safe id)
    → length b ≤ max_int64
    → is_empty (trim_space (l.env.host.digest b)) ≡ false
    → local.digest b ≡ l.env.host.digest b
    → (fuel : ℕ) (agent_id source path destination : Text) (z : ℕ) (items : List DirItem)
      (files there : Files) (s : Session)
    → ((t : Session)
        → validate_request {S = Session} agent_id source remote (calm_world files t)
          ≡ (ok tt, calm_world files t))
    → ((t : Session)
        → validate_request {S = Session} agent_id remote path (calm_world files t)
          ≡ (ok tt, calm_world files t))
    → files source ≡ some (file b)
    → length b < fuel
    → Serving s there
    → IsFree (there safe)
    → IsFree (there (temp_path safe id))
    → IsFree (there (meta_path safe id))
    → local.absolute path ≡ some destination
    → files (dir destination) ≡ some (directory z items)
    → IsFree (files destination)
    → files (local.temp_name destination) ≡ none
    → local.temp_name destination ≢ destination
    → (t t' : Session) × (files' : Files) × (upload l.env.host.digest
          (agent l)
          fuel
          id
          agent_id
          source
          remote
          (calm_world files s)
        ≡ (ok tt, calm_world files t))
      × (download local (agent l) fuel agent_id remote path (calm_world files t)
          ≡ (ok tt, calm_world files' t'))
      × (files' destination ≡ some (file b))
download-upload l local remote id safe b decodes decodes_get idle atomic valid resolves nt nm own
      fits named same fuel agent_id source path destination z items files there s up down src enough
      serving free ft fm abs parent free' fresh ne =
    let (t, uploaded, arrived, _, (g, still)) =
      upload_serves l remote id safe b decodes idle atomic valid resolves nt nm own fits named fuel
        agent_id source files there s (up s) src enough serving free ft fm in
    let (files', t', downloaded, whole, _, _, _) =
      download_fetches l local remote safe b decodes_get idle resolves fits same
        (ap is_empty same ∙ not_blank _ named) fuel agent_id path destination z items files g t
        (down t) abs parent free' fresh ne enough still
        (ap (λ (d : Disk). d.files safe) (sym still.on_disk) ∙ arrived) in
    (t, t', files', uploaded, downloaded, whole)
