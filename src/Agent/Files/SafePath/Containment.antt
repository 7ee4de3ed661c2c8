-- ===== src/Agent/Files/SafePath/Containment.antt =====
-- `safePath` never leaves the directory that it starts from.
use lan_commander.Base.{
  ◌≡◌, ◌≢◌, refl, ap, ◌∙◌, ◌⊎◌, inl, inr, true, false, ◌||◌, some, List, [], ◌∷◌, ◌++◌, arith,
  Bool-cases, if◌then◌else◌, ◌==◌, nat_eq, list_eq,
}
use lan_commander.Base.Exec.{ok, err}
use lan_commander.Base.Text.{Text, split, nonempty, fields_func}
use lan_commander.Os.Path.{is_slash, is_abs, dotdot, clean, join, join_slash, or_dot}
use lan_commander.Os.Path.Elements.{
  All, IsPlain, AvoidsDotdot, absolute, proper, elements, clean-absolute, clean_below,
  clean_relative, All-append, or_dot_relative, IsPlain-proper, LacksSlash-pieces, join_nonempty,
}
use lan_commander.Agent.Files.SafePath.{path_traversal, is_separator, has_dotdot, safe_path}

-- The first piece, and the others.
abbrev first_piece : List Text → Text
first_piece [] = []
first_piece (x ∷ xs) = x

abbrev later_pieces : List Text → List Text
later_pieces [] = []
later_pieces (x ∷ xs) = xs

abbrev LacksSeparators : Text → Type 0
LacksSeparators = All (λ c. is_separator c ≡ false)

-- A piece between slashes that has no backslash is a piece between separators too.
first_piece_finer :
    (s t : Text)
    → LacksSeparators t
    → first_piece (split is_slash s) ≡ t
    → first_piece (split is_separator s) ≡ t
unfolding split
first_piece_finer [] t a e = e
first_piece_finer (c ∷ s) [] a e = ground arith
first_piece_finer (c ∷ s) (d ∷ t) a e = ground (arith, first_piece_finer s t a.1)

has_dotdot_pieces :
    (xs : List Text) → has_dotdot xs ≡ (first_piece xs == dotdot || has_dotdot (later_pieces xs))
unfolding has_dotdot list_eq
has_dotdot_pieces [] = refl
has_dotdot_pieces (x ∷ xs) = refl

later_pieces_finer :
    (s : Text)
    → has_dotdot (later_pieces (split is_slash s)) ≡ true
    → has_dotdot (later_pieces (split is_separator s)) ≡ true
unfolding split
later_pieces_finer [] h = h
later_pieces_finer (c ∷ s) h = ground (
  arith,
  later_pieces_finer s,
  first_piece_finer s dotdot (unfold nat_eq in (refl, (refl, tt))),
  has_dotdot_pieces (split is_slash s),
  has_dotdot_pieces (split is_separator s),
)

has_dotdot_finer :
    (s : Text) → has_dotdot (split is_slash s) ≡ true → has_dotdot (split is_separator s) ≡ true
has_dotdot_finer s h = ground (
  arith,
  later_pieces_finer s,
  first_piece_finer s dotdot (unfold nat_eq in (refl, (refl, tt))),
  has_dotdot_pieces (split is_slash s),
  has_dotdot_pieces (split is_separator s),
)

has_dotdot-nonempty : (xs : List Text) → has_dotdot (nonempty xs) ≡ has_dotdot xs
unfolding has_dotdot nonempty
has_dotdot-nonempty [] = refl
has_dotdot-nonempty (x ∷ xs) = ground (arith, has_dotdot-nonempty xs)

AvoidsDotdot-of_test : (xs : List Text) → has_dotdot xs ≡ false → AvoidsDotdot xs
unfolding has_dotdot
AvoidsDotdot-of_test [] h = tt
AvoidsDotdot-of_test (x ∷ xs) h = ground (arith, AvoidsDotdot-of_test xs)

-- A path that passes the check has no ".." between its slashes.
pub AvoidsDotdot-checked :
    (path : Text)
    → has_dotdot (fields_func is_separator path) ≡ false
    → AvoidsDotdot (elements path)
unfolding fields_func
AvoidsDotdot-checked path h =
    AvoidsDotdot-of_test (elements path)
      (ground (arith, has_dotdot_finer path, has_dotdot-nonempty (split is_separator path)))

or_dot_nonempty : (s : Text) → or_dot s ≢ []
or_dot_nonempty [] e = cc
or_dot_nonempty (c ∷ s) e = cc

-- The elements of the directory that a path starts from.
abbrev pub start : List Text → Text → List Text
start ws path = if is_abs path then [] else ws

-- A relative path that passed the check, resolved against the working directory.
resolve_relative :
    (ws : List Text) (path : Text)
    → All IsPlain ws
    → is_abs path ≡ false
    → AvoidsDotdot (elements path)
    → (is_abs (clean path) ≡ false)
      × (join (absolute ws) (clean path) ≡ absolute (ws ++ proper (elements path)))
resolve_relative ws path w rel a =
    let es = proper (elements path) in
    let plain : All IsPlain es = IsPlain-proper (elements path) (LacksSlash-pieces path) a in
    let (still, avoids, same) = or_dot_relative es plain in
    rw (clean_relative path rel a) (
      still,
      join_nonempty (join_slash ws) (or_dot (join_slash es)) (or_dot_nonempty (join_slash es))
          ∙ clean_below ws (or_dot (join_slash es)) w avoids
          ∙ ap (λ xs. absolute (ws ++ xs)) same,
    )

resolve_absolute :
    (path : Text)
    → is_abs path ≡ true
    → AvoidsDotdot (elements path)
    → (is_abs (clean path) ≡ true) × (clean path ≡ absolute (proper (elements path)))
resolve_absolute path h a = rw (clean-absolute path h a) (unfold nat_eq in refl, refl)

-- With a working directory in its shortest form, `safePath` refuses exactly the paths that have ".."
-- between slashes or backslashes. From any other it makes the absolute path whose elements are
-- those of the working directory, if the path is relative, followed by those of the path, in order,
-- without the empty ones and the dots; and none of these elements leads elsewhere.
pub safe_path_contained :
    (ws : List Text) (path : Text)
    → All IsPlain ws
    → let es = start ws path ++ proper (elements path) in
      ((has_dotdot (fields_func is_separator path) ≡ true)
        × (safe_path (some (absolute ws)) path ≡ err path_traversal))
      ⊎ ((has_dotdot (fields_func is_separator path) ≡ false)
          × (safe_path (some (absolute ws)) path ≡ ok (absolute es))
          × All IsPlain es)
unfolding safe_path
safe_path_contained ws path w = elim (Bool-cases (has_dotdot (fields_func is_separator path))) [
  | inl h ↦ inl (h, rw h refl)
  | inr h ↦
      let a = AvoidsDotdot-checked path h in
      let plain = IsPlain-proper (elements path) (LacksSlash-pieces path) a in
      elim (Bool-cases (is_abs path)) [
        | inl abs ↦
            let (still, e) = resolve_absolute path abs a in
            inr (h, rw (h, still, e, abs) refl, rw abs plain)
        | inr rel ↦
            let (still, e) = resolve_relative ws path w rel a in
            inr (h, rw (h, still, e, rel) refl, rw rel (All-append IsPlain ws _ w plain))
      ]
]
