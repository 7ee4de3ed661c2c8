-- ===== src/Control/Transfer/Remote/Chunks.antt =====
-- One chunk of an upload to the agent.
use lan_commander.Base.{
  ℕ, ◌+◌, ◌≤◌, ◌≡◌, ◌≢◌, sym, subst, false, Option, some, [], ◌∷◌, ◌++◌, length, arith, ◌==◌,
  nat_eq,
}
use lan_commander.Base.Int.{pos, max_int64}
use lan_commander.Base.Exec.{ok}
use lan_commander.Base.Text.{Text, is_empty}
use lan_commander.Os.Disk.{Bytes, Node, file}
use lan_commander.Agent.Files.SafePath.{safe_path}
use lan_commander.Agent.Files.Upload.{temp_path, meta_path}
use lan_commander.Agent.Files.Upload.Receive.{Origin}
use lan_commander.Agent.Files.Upload.Commit.{Delivered, upload_ok}
use lan_commander.Agent.Files.Upload.Assembly.{Origin-first, Origin-later}
use lan_commander.Agent.Server.{Session}
use lan_commander.Control.Transfer.{SendFile, World}
use lan_commander.Control.Transfer.Upload.{payload, send_upload_chunk}
use lan_commander.Control.Transfer.Upload.Steps.{send_upload_chunk_ok}
use lan_commander.Control.Transfer.Remote.{Link, received, agent, remote_send_ok}

-- The bytes sent so far are in the agent's temporary file; before the first chunk nothing is known.
abbrev pub Held : Bytes → Option Node → Type 0
Held [] x = Unit {0}
Held (b ∷ bs) x = x ≡ some (file (b ∷ bs))

Held-Origin :
    (seen old : Bytes) (x : Option Node)
    → Held seen x
    → Origin x (pos (length seen)) old
    → old ≡ seen
Held-Origin [] old x h o = Origin-first x old o
Held-Origin (b ∷ bs) old x h o =
    Origin-later x (pos (length (b ∷ bs))) (b ∷ bs) old h (λ e. absurd cc) o

pub Held-file : (b : Bytes) (x : Option Node) → x ≡ some (file b) → Held b x
Held-file [] x e = tt
Held-file (b ∷ bs) x e = e

abbrev pub next :
    {Json : Type 0} → Link Json → (Bytes → Text) → Text → Text → ℕ → Bytes → Bytes → SendFile
next l digest remote id total seen chunk =
    payload digest (agent l) remote id total (length seen) chunk (seen ++ chunk)

module _ {Json : Type 0} (l : Link Json) (digest : Bytes → Text) (remote id safe : Text)
    (decodes : (p : SendFile) → l.env.as_send_file (l.encode p) ≡ some (received p))
    (quiet : (s : Session)
      → (l.meanwhile s).disk.files (temp_path safe id) ≡ s.disk.files (temp_path safe id))
    (atomic : is_empty id ≡ false) (there : safe_path l.env.host.cwd remote ≡ ok safe)
    (ts : temp_path safe id ≢ safe) (ms : safe ≢ meta_path safe id)
    (own : safe_path l.env.host.cwd (temp_path safe id) ≡ ok (temp_path safe id)) where
  abbrev temp : Text
  temp = temp_path safe id

  -- A chunk that follows what was sent so far.
  pub chunk_ok :
      (total : ℕ) (seen chunk : Bytes) (w v : World Session) {u : Unit {0}}
      → total ≤ max_int64
      → length seen ≤ max_int64
      → Held seen (w.remote.disk.files temp)
      → send_upload_chunk digest (agent l) (next l digest remote id total seen chunk) w ≡ (ok u, v)
      → (v.disk ≡ w.disk)
        × Delivered l.env.host temp safe
            (length seen + length chunk == total)
            (seen ++ chunk)
            (next l digest remote id total seen chunk).checksum
            v.remote.disk
  chunk_ok total seen chunk w v fits so_far held h =
      let p = next l digest remote id total seen chunk in
      let (a, sent, disk) = send_upload_chunk_ok digest (agent l) p w v h in
      let (old, origin, _, out) =
        upload_ok l.env.host remote id chunk (pos (length seen)) (pos total) p.final p.checksum
          (l.meanwhile w.remote).disk v.remote.disk safe there ts ms own (omega arith) (omega arith)
          (remote_send_ok l decodes p w.remote v.remote atomic sent) in
      let same : old ≡ seen =
        Held-Origin seen old _ (subst (Held seen) (sym (quiet w.remote)) held) origin in
      (
        disk,
        subst
            (λ (x : Bytes).
              Delivered l.env.host temp safe (length seen + length chunk == total) (x ++ chunk)
                p.checksum v.remote.disk)
            same out,
      )
