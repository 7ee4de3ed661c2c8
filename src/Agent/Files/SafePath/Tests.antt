-- ===== src/Agent/Files/SafePath/Tests.antt =====
-- Paths at concrete inputs.
use lan_commander.Base.{◌≡◌, true, false, some, List, [], ◌∷◌, ◌++◌, ◌⊎◌, arith, list_eq, nat_eq}
use lan_commander.Base.Exec.{ok, err}
use lan_commander.Base.Text.{Text, codes, fields_func}
use lan_commander.Os.Path.Elements.{All, IsPlain, absolute, proper, elements}
use lan_commander.Agent.Files.SafePath.{path_traversal, is_separator, has_dotdot, safe_path}
use lan_commander.Agent.Files.SafePath.Containment.{start, safe_path_contained}

abbrev home : List Text
home = codes "home" ∷ []

IsPlain-home : All IsPlain home
IsPlain-home = (
  (
    λ e. cc,
    λ e. cc,
    λ e. cc,
    (
      λ e. absurd (omega arith),
      (λ e. absurd (omega arith), (λ e. absurd (omega arith), (λ e. absurd (omega arith), tt))),
    ),
  ),
  tt,
)

safe_path_contained_example :
    let path = codes "b/./c" in
    let es = start home path ++ proper (elements path) in
    ((has_dotdot (fields_func is_separator path) ≡ true)
      × (safe_path (some (absolute home)) path ≡ err path_traversal))
    ⊎ ((has_dotdot (fields_func is_separator path) ≡ false)
        × (safe_path (some (absolute home)) path ≡ ok (absolute es))
        × All IsPlain es)
safe_path_contained_example = safe_path_contained home (codes "b/./c") IsPlain-home
