-- ===== src/Control/Scripts/Names.antt =====
-- The names that validateScriptName accepts, and the paths of their files.
use lan_commander.Base.{
  ◌≡◌, ◌≢◌, refl, ap, ◌∙◌, false, List, [], ◌∷◌, ◌++◌, nat_eq, list_eq, arith, length,
  length-append, subst, sym,
}
use lan_commander.Base.Exec.{ok}
use lan_commander.Base.Text.{Text, codes, any}
use lan_commander.Os.Path.{slash, dotdot, join, join_slash}
use lan_commander.Os.Path.Elements.{
  All, All-append, LacksSlash, IsPlain, absolute, proper, elements, split_whole, clean_below,
  join_nonempty,
}
use lan_commander.Control.Scripts.{Host, is_slash_or_backslash, validate_script_name, script_path}

LacksSlash-any : (s : Text) → any is_slash_or_backslash s ≡ false → LacksSlash s
unfolding any
LacksSlash-any [] h = tt
LacksSlash-any (c ∷ s) h = ground (arith, LacksSlash-any s)

-- What is accepted has a character and no slash.
accepted : (name : Text) → validate_script_name name ≡ ok tt → (name ≢ []) × LacksSlash name
unfolding validate_script_name
accepted [] h = absurd cc
accepted (c ∷ s) h = ((λ e. cc), LacksSlash-any (c ∷ s) (ground arith))

json_lacks : LacksSlash (codes ".json")
json_lacks = (
  λ e. absurd (omega arith),
  (
    λ e. absurd (omega arith),
    (λ e. absurd (omega arith), (λ e. absurd (omega arith), (λ e. absurd (omega arith), tt))),
  ),
)

json-IsPlain : (name : Text) → name ≢ [] → LacksSlash name → IsPlain (name ++ codes ".json")
unfolding nat_eq
json-IsPlain [] ne s = absurd (ne refl)
json-IsPlain (c ∷ s) ne a =
    let size = length-append (c ∷ s) (codes ".json") in
    (
      λ e. cc,
      λ e. absurd (omega (arith, size, ap length e)),
      λ e. absurd (omega (arith, size, ap length e)),
      All-append (λ c. c ≢ slash) (c ∷ s) (codes ".json") a json_lacks,
    )

proper_one : (e : Text) → IsPlain e → proper (e ∷ []) ≡ e ∷ []
unfolding proper
proper_one e p = ground arith

-- The file of a script with an accepted name stands directly in the directory of the scripts, if that
-- is an absolute path in its shortest form, and bears the name of the script.
pub script_path_contained :
    (h : Host) (ws : List Text) (name : Text)
    → h.base_path ≡ absolute ws
    → All IsPlain ws
    → validate_script_name name ≡ ok tt
    → (script_path h name ≡ absolute (ws ++ (name ++ codes ".json") ∷ []))
      × IsPlain (name ++ codes ".json")
unfolding script_path
script_path_contained h ws name e w v =
    let (ne, lacks) = accepted name v in
    let file = name ++ codes ".json" in
    let plain = json-IsPlain name ne lacks in
    let piece : elements file ≡ file ∷ [] = split_whole file plain.3 in
    (
      ap (λ b. join b file) e
          ∙ join_nonempty (join_slash ws) file plain.0
          ∙ clean_below ws file w (subst (All (λ e. e ≢ dotdot)) (sym piece) (plain.2, tt))
          ∙ ap (λ es. absolute (ws ++ proper es)) piece
          ∙ ap (λ es. absolute (ws ++ es)) (proper_one file plain),
      plain,
    )
