-- ===== src/Agent/Files/Host/Resolve.antt =====
-- Paths that resolve.
use lan_commander.Base.{◌≡◌, ap}
use lan_commander.Base.Exec.{ok, lift}
use lan_commander.Base.Text.{Text}
use lan_commander.Os.Disk.{Disk}
use lan_commander.Agent.Files.SafePath.{safe_path}
use lan_commander.Agent.Files.Host.{Host, checked, resolve_path}

pub resolve_ok :
    (h : Host) (path safe : Text) (d : Disk)
    → safe_path h.cwd path ≡ ok safe
    → resolve_path h path d ≡ (ok safe, d)
unfolding resolve_path lift
resolve_ok h path safe d e = ap (λ r. (checked r, d)) e
