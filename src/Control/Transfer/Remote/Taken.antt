-- ===== src/Control/Transfer/Remote/Taken.antt =====
-- A download by both programs together: what is at the destination when the operator is told that it
-- succeeded.
use lan_commander.Base.{ℕ, ◌≤◌, ◌≡◌, ◌≢◌, ◌∙◌, none, some, length}
use lan_commander.Base.Int.{ℤ, pos, max_int64}
use lan_commander.Base.Exec.{ok}
use lan_commander.Base.Text.{Text}
use lan_commander.Os.Disk.{Bytes, file}
use lan_commander.Agent.Files.SafePath.{safe_path}
use lan_commander.Agent.Server.{Session}
use lan_commander.Control.Transfer.{World, default_chunk_size}
use lan_commander.Control.Transfer.Download.{Local, download}
use lan_commander.Control.Transfer.Download.Arrival.{download_taken}
use lan_commander.Control.Transfer.Remote.{Link, agent}
use lan_commander.Control.Transfer.Remote.Answers.{remote_get_ok}

-- If a download from the agent returns, then the destination holds what the agent's file holds, the
-- temporary file is gone and the agent's file is as it was, whatever the systems of both sides refused or
-- cut short, whenever the context may have been cancelled, and whatever else the agent did between
-- the requests, as long as it left this file alone. (The agent's decoding of payloads reverses the
-- operator's encoding; the length of the file is an int64; the destination is not the temporary file.)
pub download_arrives :
    {Json : Type 0} (l : Link Json) (local : Local) (remote safe : Text) (b : Bytes)
    → ((path : Text) (o : ℤ) (n : ℕ)
        → l.env.as_get_file (l.encode_get path o n)
          ≡ some (record { path = path; offset = o; chunk_size = pos n }))
    → ((s : Session) → (l.meanwhile s).disk.files safe ≡ s.disk.files safe)
    → safe_path l.env.host.cwd remote ≡ ok safe
    → length b ≤ max_int64
    → (fuel : ℕ) (agent_id path destination : Text) (w v : World Session)
    → local.absolute path ≡ some destination
    → local.temp_name destination ≢ destination
    → w.remote.disk.files safe ≡ some (file b)
    → download local (agent l) fuel agent_id remote path w ≡ (ok tt, v)
    → (v.disk.files destination ≡ some (file b))
      × (v.disk.files (local.temp_name destination) ≡ none)
      × (v.remote.disk.files safe ≡ some (file b))
download_arrives l local remote safe b decodes quiet resolves small fuel agent_id path destination w
      v abs ne there h =
    download_taken local (agent l) b remote (λ s. s.disk.files safe ≡ some (file b)) fuel agent_id
      path destination w v small
      (λ o s t c held answered.
        let (begins, size, still) =
          remote_get_ok l decodes remote safe b o default_chunk_size s t resolves (quiet s ∙ held)
            answered in
        (begins.1, size, still))
      abs ne there h
