-- ===== src/Control/Transfer/Remote/Arrival.antt =====
-- An upload by both programs together: what is at the destination when the operator is told that it
-- succeeded.
use lan_commander.Base.{◌≤◌, ℕ, ◌≡◌, ◌≢◌, refl, sym, ap, subst, ◌∙◌, false, none, some, [], length}
use lan_commander.Base.Int.{max_int64}
use lan_commander.Base.Exec.{ok}
use lan_commander.Base.Exec.Outcome.{ok_bind, ok_must, ok_refuse_if}
use lan_commander.Base.Text.{Text, is_empty}
use lan_commander.Os.Disk.{Bytes, file, open_read, stat}
use lan_commander.Os.Disk.Frame.{Keeps-open_read, Keeps-stat}
use lan_commander.Os.Disk.Effect.{kept, stat_ok}
use lan_commander.Agent.Files.SafePath.{safe_path}
use lan_commander.Agent.Files.Host.{node_size}
use lan_commander.Agent.Files.Upload.{temp_path, meta_path}
use lan_commander.Agent.Server.{Session}
use lan_commander.Control.Transfer.{SendFile, World}
use lan_commander.Control.Transfer.Upload.{send_all, upload}
use lan_commander.Control.Transfer.Steps.{local_inv, validate_request_same}
use lan_commander.Control.Transfer.Upload.Steps.{ok_or_cancel}
use lan_commander.Control.Transfer.Remote.{Link, received, agent}
use lan_commander.Control.Transfer.Remote.Loop.{loop_arrives}

-- If an upload to the agent returns, then the destination holds what the local file holds, and the
-- temporary file is gone, whatever the systems of both sides refused, whenever the context may have
-- been cancelled, and whatever else the agent did between the requests, to other clients or its disk,
-- as long as it left this temporary file alone. (The agent's decoding of payloads reverses the
-- operator's encoding; the transfer id is not empty; the temporary path is one that safePath leaves
-- alone, and the three paths differ; the length of the file is an int64.)
pub upload_arrives :
    {Json : Type 0} (l : Link Json) (digest : Bytes → Text) (remote id safe : Text)
    → ((p : SendFile) → l.env.as_send_file (l.encode p) ≡ some (received p))
    → ((s : Session)
        → (l.meanwhile s).disk.files (temp_path safe id) ≡ s.disk.files (temp_path safe id))
    → is_empty id ≡ false
    → safe_path l.env.host.cwd remote ≡ ok safe
    → temp_path safe id ≢ safe
    → safe ≢ meta_path safe id
    → safe_path l.env.host.cwd (temp_path safe id) ≡ ok (temp_path safe id)
    → (fuel : ℕ) (agent_id source : Text) (b : Bytes) (w v : World Session) → length b ≤ max_int64
    → w.disk.files source ≡ some (file b)
    → upload digest (agent l) fuel id agent_id source remote w ≡ (ok tt, v)
    → (v.remote.disk.files safe ≡ some (file b))
      × (v.remote.disk.files (temp_path safe id) ≡ none)
      × (v.disk.files source ≡ some (file b))
unfolding upload
upload_arrives l digest remote id safe decodes quiet atomic there ts ms own fuel agent_id source b w
      v small src h =
    let (_, w1, e1, h1) = ok_bind _ _ w h in
    let (_, w2, e2, h2) = ok_bind _ _ w1 h1 in
    let (info, w3, e3, h3) = ok_bind _ _ w2 h2 in
    let (_, w4, e4, h4) = ok_bind _ _ w3 h3 in
    let same = validate_request_same agent_id source remote w w1 e1 in
    let (opened, _) = local_inv (open_read source) w1 w2 (ok_must _ _ _ w1 e2) in
    let (stated, _) = local_inv (stat source) w2 w3 (ok_must _ _ _ w2 e3) in
    let (_, same') = ok_refuse_if _ _ _ w3 e4 in
    let here : w3.disk.files source ≡ some (file b) =
      kept (Keeps-stat {q = source} source) stated
      ∙ kept (Keeps-open_read {q = source} source) opened
      ∙ ap (λ (x : World Session). x.disk.files source) (sym same)
      ∙ src in
    let found : info ≡ file b = cc (sym (stat_ok source w2.disk w3.disk stated) ∙ here) in
    let size : node_size info ≡ length b = ap node_size found in
    loop_arrives l digest remote id safe decodes quiet atomic there ts ms own source b small fuel
      false [] b 0 w4 v refl refl
      (ap (λ (x : World Session). x.disk.files source) (sym same') ∙ here) tt
      (subst
        (λ (n : ℕ). send_all digest (agent l) fuel source remote id n false 0 [] w4 ≡ (ok tt, v))
        size (ok_or_cancel digest (agent l) remote id _ w4 h4))
