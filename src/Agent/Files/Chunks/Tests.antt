-- ===== src/Agent/Files/Chunks/Tests.antt =====
-- Chunks at concrete inputs.
use lan_commander.Base.{ℕ, ◌≡◌, refl, none, some, [], ◌∷◌, if◌then◌else◌, ◌==◌, list_eq, nat_eq}
use lan_commander.Base.Int.{pos}
use lan_commander.Base.Exec.{ok}
use lan_commander.Base.Text.{Text, codes}
use lan_commander.Os.Disk.{Files, file, calm_disk}
use lan_commander.Agent.Files.SafePath.{safe_path}
use lan_commander.Agent.Files.Host.{Host}
use lan_commander.Agent.Files.Chunks.{read_file_chunk}
use lan_commander.Agent.Files.Chunks.Content.{read_file_chunk_lem}

abbrev host : Host
host = record { cwd = none; digest = λ b. b }

abbrev path : Text
path = codes "/a"

abbrev files : Files
files q = if q == path then some (file (5 ∷ 6 ∷ 7 ∷ 8 ∷ [])) else none

read_file_chunk_lem_example :
    read_file_chunk host path (pos 1) (pos 2) (calm_disk files)
    ≡ (ok (6 ∷ 7 ∷ [], 4), calm_disk files)
unfolding safe_path list_eq nat_eq lan_commander.Base.Text.fields_func lan_commander.Os.Path.clean
read_file_chunk_lem_example =
    read_file_chunk_lem host path path (5 ∷ 6 ∷ 7 ∷ 8 ∷ []) 1 (pos 2) files refl refl
