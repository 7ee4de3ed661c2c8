-- ===== src/Agent/Executor.antt =====
-- agent/internal/executor/executor.go. A run of a process is an argument: what it wrote to each stream,
-- write by write, and how it ended.
pub mod Output
mod Tests
use lan_commander.Base.{
  ℕ, ◌+◌, ◌-◌, Bool, true, false, not, ◌&&◌, ◌||◌, Option, none, some, List, [], ◌∷◌, ◌++◌,
  if◌then◌else◌, ltb, leb, length, take, map, ◌==◌, list_eq, nat_eq,
}
use lan_commander.Base.Int.{ℤ, pos, negsuc, pos_part, leb_ℤ, ltb_ℤ}
use lan_commander.Base.Text.{Text, codes, to_lower_ascii, is_empty}
use lan_commander.Os.Disk.{Bytes}

abbrev pub max_output_size : ℕ
max_output_size = 1048576

abbrev pub max_timeout : ℕ
max_timeout = 300

-- cappedWriter
pub record CappedWriter : Type 0 where
  pub w : Bytes
  pub limit : ℕ
  pub total : ℕ

abbrev pub new_writer : CappedWriter
new_writer = record { w = []; limit = max_output_size; total = 0 }

-- `Write`, with the length it reports. bytes.Buffer never fails.
unfoldable pub write : CappedWriter → Bytes → CappedWriter × ℕ
write c p =
    let kept = if ltb (c.limit - c.total) (length p) then take (c.limit - c.total) p else p in
    if leb c.limit c.total
    then (c, length p)
    else (record { w = c.w ++ kept; limit = c.limit; total = c.total + length kept }, length p)

unfoldable pub write_all : CappedWriter → List Bytes → CappedWriter
unfolding write
write_all c [] = c
write_all c (p ∷ ps) = write_all (write c p).0 ps

-- The error of `Run`: an *exec.ExitError with its code, exec.ErrWaitDelay with the code of the process
-- if it has ended, or any other.
pub data RunError : Type 0 where
  exit_error : ℤ → RunError
  wait_delay : Option ℤ → RunError
  other_error : RunError

pub record Run : Type 0 where
  pub out : List Bytes
  pub err_out : List Bytes
  pub failure : Option RunError
  pub deadline_exceeded : Bool
  pub duration : ℕ

pub record CommandResult : Type 0 where
  pub stdout : Bytes
  pub stderr : Bytes
  pub exit_code : ℤ
  pub duration : ℕ

-- What is run: the shell, its arguments, and the timeout in seconds.
pub record ShellCommand : Type 0 where
  pub shell : Text
  pub args : List Text
  pub timeout : ℕ

-- strings.ToLower, as far as these names need it: of the other characters only some that stand for
-- other letters become ASCII.
unfoldable pub detect_shell : Bool → Text → Text × List Text
unfolding to_lower_ascii
detect_shell windows shell =
    let name = map to_lower_ascii shell in
    let powershell : List Text =
      codes "-NoProfile" ∷ codes "-NonInteractive" ∷ codes "-Command" ∷ [] in
    if windows
    then if name == codes "powershell" || name == codes "pwsh"
      then (codes "powershell", powershell)
      else (codes "cmd.exe", codes "/c" ∷ [])
    else if shell == codes "sh"
    then (codes "/bin/sh", codes "-c" ∷ [])
    else (codes "/bin/bash", codes "-c" ∷ [])

-- strings.Join with a space
abbrev pub join_space : List Text → Text
join_space [] = []
join_space (x ∷ []) = x
join_space (x ∷ y ∷ r) = x ++ (b' ' ∷ join_space (y ∷ r))

abbrev pub full_command : Text → List Text → Text
full_command cmd [] = cmd
full_command cmd (a ∷ args) = cmd ++ (b' ' ∷ join_space (a ∷ args))

abbrev pub timeout_of : ℤ → ℕ
timeout_of timeout =
    if leb_ℤ timeout (pos 0) || ltb_ℤ (pos max_timeout) timeout
    then max_timeout
    else pos_part timeout

-- The `switch` on the error.
abbrev pub failure_code : Bool → RunError → ℤ
failure_code true e = negsuc 0
failure_code false (exit_error code) = code
failure_code false (wait_delay (some code)) = code
failure_code false (wait_delay none) = negsuc 1
failure_code false other_error = negsuc 1

abbrev pub exit_code_of : Bool → Option RunError → ℤ
exit_code_of deadline none = pos 0
exit_code_of deadline (some e) = failure_code deadline e

unfoldable pub shell_command : Bool → Text → List Text → ℤ → Text → ShellCommand
unfolding detect_shell
shell_command windows cmd args timeout shell = record {
  shell = (detect_shell windows shell).0;
  args = (detect_shell windows shell).1 ++ (full_command cmd args ∷ []);
  timeout = timeout_of timeout;
}

unfoldable pub result_of : Run → CommandResult
unfolding write_all
result_of r = record {
  stdout = (write_all new_writer r.out).w;
  stderr = (write_all new_writer r.err_out).w;
  exit_code = exit_code_of r.deadline_exceeded r.failure;
  duration = r.duration;
}

-- `run` also changes a state, the machine's.
unfoldable pub execute :
    {S : Type 0}
    → (ShellCommand → S → Run × S)
    → Bool
    → Text
    → List Text
    → ℤ
    → Text
    → S
    → CommandResult × S
unfolding shell_command result_of
execute run windows cmd args timeout shell s =
    let (r, t) = run (shell_command windows cmd args timeout shell) s in (result_of r, t)
