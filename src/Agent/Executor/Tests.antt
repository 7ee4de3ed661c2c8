-- ===== src/Agent/Executor/Tests.antt =====
-- A command at a concrete input.
use lan_commander.Base.{ℕ, ◌≤◌, ◌≡◌, false, none, [], ◌∷◌, take}
use lan_commander.Base.Int.{pos}
use lan_commander.Base.Text.{codes}
use lan_commander.Agent.Executor.{
  Run, ShellCommand, max_output_size, max_timeout, shell_command, execute,
}
use lan_commander.Agent.Executor.Output.{concat, execute_output}

abbrev hello : Run
hello = record {
  out = codes "he" ∷ codes "llo" ∷ [];
  err_out = [];
  failure = none;
  deadline_exceeded = false;
  duration = 3;
}

abbrev run : ShellCommand → ℕ → Run × ℕ
run c n = (hello, n)

execute_output_example :
    let c = shell_command false (codes "echo") (codes "hello" ∷ []) (pos 900) [] in
    let result = (execute run false (codes "echo") (codes "hello" ∷ []) (pos 900) [] 7).0 in
    (result.stdout ≡ take max_output_size (concat hello.out))
    × (result.stderr ≡ take max_output_size (concat hello.err_out))
    × ((1 ≤ c.timeout) × (c.timeout ≤ max_timeout))
    × (c.timeout ≡ max_timeout)
execute_output_example = execute_output run false (codes "echo") (codes "hello" ∷ []) (pos 900) [] 7
