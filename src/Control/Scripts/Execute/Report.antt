-- ===== src/Control/Scripts/Execute/Report.antt =====
-- What a script's report tells: the loop against a description in two steps, which lines are commands,
-- and what becomes of each.
use lan_commander.Base.{ℕ, suc, ◌+◌, Bool, not, Option, List, [], ◌∷◌, ◌++◌, if◌then◌else◌, length}
use lan_commander.Base.Dict.{Dict}
use lan_commander.Base.Exec.{Result, ok, err}
use lan_commander.Base.Text.{Text, codes, trim_space}
use lan_commander.Control.Scripts.{Script}
use lan_commander.Control.Scripts.Execute.{
  ExecutionResult, ScriptResult, CommandExecutor, Template, process_variables, lines_of, is_skipped,
  failed, zero_exit,
}

-- The lines that are commands, trimmed, with their numbers.
abbrev pub commands : ℕ → List Text → List (ℕ × Text)
commands number [] = []
commands number (text ∷ texts) =
    let rest = commands (suc number) texts in
    if is_skipped (trim_space text) then rest else (number, trim_space text) ∷ rest

abbrev pub count : (ExecutionResult → Bool) → List ExecutionResult → ℕ
count p [] = 0
count p (e ∷ es) = (if p e then 1 else 0) + count p es

abbrev pub succeeded : ExecutionResult → Bool
succeeded e = zero_exit e.exit_code

module _ {S : Type 0} (template : Template) (vars : Option (Dict Text Text))
    (executor : CommandExecutor S) where
  -- The outcome of a command, with its line's number.
  abbrev ran : ℕ → Text → Result Text ExecutionResult → ExecutionResult
  ran number command (err message) = failed number command message
  ran number command (ok e) = record e { line_number = number; command = command }

  abbrev attempt : ℕ → Text → Result Text Text → S → ExecutionResult × S
  attempt number line (err message) s =
      (failed number line (codes "variable processing error: " ++ message), s)
  attempt number line (ok command) s =
      let (outcome, t) = executor command s in (ran number command outcome, t)

  -- The commands one after the other, each whether or not the one before it failed.
  abbrev pub run_each : List (ℕ × Text) → S → List ExecutionResult × S
  run_each [] s = ([], s)
  run_each ((number, line) ∷ rest) s =
      let (e, t) = attempt number line (process_variables template vars line) s in
      let (es, u) = run_each rest t in (e ∷ es, u)

  abbrev extend : ScriptResult → List ExecutionResult → ScriptResult
  extend r es = record r {
    results = r.results ++ es;
    success_count = r.success_count + count succeeded es;
    failed_count = r.failed_count + count (λ e. not (succeeded e)) es;
  }

  -- The report that these outcomes make.
  abbrev pub report : Script → List ExecutionResult → ScriptResult
  report script es = record {
    script_name = script.name;
    results = es;
    total_lines = length (lines_of script.content);
    success_count = count succeeded es;
    failed_count = count (λ e. not (succeeded e)) es;
  }
