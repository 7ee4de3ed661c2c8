-- ===== src/Control/Scripts/Execute.antt =====
-- `Execute` of control-center/backend/scripting/engine.go. text/template and the executor, which
-- changes a state of its own, are arguments; an error is its text.
pub mod Report
use lan_commander.Base.{
  ℕ, suc, ◌+◌, Bool, true, false, ◌||◌, Option, none, some, List, [], ◌∷◌, ◌++◌, if◌then◌else◌,
  ◌==◌, nat_eq, list_eq, length,
}
use lan_commander.Base.Dict.{Dict}
use lan_commander.Base.Exec.{Result, ok, err}
use lan_commander.Base.Int.{ℤ, pos, negsuc}
use lan_commander.Base.Text.{Text, codes, is_empty, trim_space, split, has_prefix}
use lan_commander.Control.Scripts.{Script}

-- ExecutionResult
pub record ExecutionResult : Type 0 where
  pub line_number : ℕ
  pub command : Text
  pub stdout : Text
  pub stderr : Text
  pub exit_code : ℤ
  pub duration : ℤ

-- ScriptResult, without AgentID, which Execute does not set.
pub record ScriptResult : Type 0 where
  pub script_name : Text
  pub results : List ExecutionResult
  pub total_lines : ℕ
  pub success_count : ℕ
  pub failed_count : ℕ

pub data ExecuteError : Type 0 where
  script_nil executor_nil : ExecuteError

abbrev pub CommandExecutor : Type 0 → Type 0
CommandExecutor S = Text → S → Result Text ExecutionResult × S

-- text/template with the three functions, on the variables.
abbrev pub Template : Type 0
Template = Dict Text Text → Text → Result Text Text

-- A nil map leaves the command as it is.
unfoldable pub process_variables : Template → Option (Dict Text Text) → Text → Result Text Text
process_variables template none command = ok command
process_variables template (some vars) command = template vars command

-- strings.Split at line feeds.
abbrev pub lines_of : Text → List Text
lines_of content = split (λ c. c == 10) (trim_space content)

-- An empty line, or a comment.
unfoldable pub is_skipped : Text → Bool
unfolding has_prefix
is_skipped line = is_empty line || has_prefix (codes "#") line || has_prefix (codes "//") line

abbrev pub failed : ℕ → Text → Text → ExecutionResult
failed number command message = record {
  line_number = number;
  command = command;
  stdout = [];
  stderr = message;
  exit_code = pos 1;
  duration = pos 0;
}

abbrev pub zero_exit : ℤ → Bool
zero_exit (pos n) = n == 0
zero_exit (negsuc n) = false

abbrev pub add_failure : ExecutionResult → ScriptResult → ScriptResult
add_failure e r = record r { results = r.results ++ (e ∷ []); failed_count = r.failed_count + 1 }

-- The result of a command that ran.
abbrev pub add_run : ExecutionResult → ScriptResult → ScriptResult
add_run e r =
    let added = record r { results = r.results ++ (e ∷ []) } in
    if zero_exit e.exit_code
    then record added { success_count = r.success_count + 1 }
    else record added { failed_count = r.failed_count + 1 }

abbrev pub add_outcome : ℕ → Text → Result Text ExecutionResult → ScriptResult → ScriptResult
add_outcome number command (err message) r = add_failure (failed number command message) r
add_outcome number command (ok e) r =
    add_run (record e { line_number = number; command = command }) r

module _ {S : Type 0} (template : Template) (vars : Option (Dict Text Text))
    (executor : CommandExecutor S) where
  abbrev pub run_command : ℕ → Text → Result Text Text → ScriptResult × S → ScriptResult × S
  run_command number line (err message) (r, s) =
      (add_failure (failed number line (codes "variable processing error: " ++ message)) r, s)
  run_command number line (ok command) (r, s) =
      let (outcome, t) = executor command s in (add_outcome number command outcome r, t)

  -- One turn of the loop; line `number` before it is trimmed.
  unfoldable pub execute_line : ℕ → Text → ScriptResult × S → ScriptResult × S
  unfolding is_skipped trim_space process_variables
  execute_line number text w =
      let line = trim_space text in
      if is_skipped line
      then w
      else run_command number line (process_variables template vars line) w

  unfoldable pub execute_lines : ℕ → List Text → ScriptResult × S → ScriptResult × S
  unfolding execute_line
  execute_lines number [] w = w
  execute_lines number (text ∷ texts) w =
      execute_lines (suc number) texts (execute_line number text w)

abbrev pub empty_result : Script → ScriptResult
empty_result script = record {
  script_name = script.name;
  results = [];
  total_lines = length (lines_of script.content);
  success_count = 0;
  failed_count = 0;
}

abbrev pub run_script :
    {S : Type 0}
    → Template
    → Option (Dict Text Text)
    → CommandExecutor S
    → Script
    → S
    → ScriptResult × S
run_script template vars executor script s =
    execute_lines template vars executor 1 (lines_of script.content) (empty_result script, s)

unfoldable pub execute :
    {S : Type 0}
    → Template
    → Option Script
    → Option (Dict Text Text)
    → Option (CommandExecutor S)
    → S
    → Result ExecuteError ScriptResult × S
unfolding execute_lines
execute template none vars executor s = (err script_nil, s)
execute template (some script) vars none s = (err executor_nil, s)
execute template (some script) vars (some executor) s =
    let (result, t) = run_script template vars executor script s in (ok result, t)
