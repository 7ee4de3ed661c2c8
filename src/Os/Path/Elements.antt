-- ===== src/Os/Path/Elements.antt =====
-- The elements of a path, and what filepath.Clean makes of them.
use mathlib.Core.List.{reverse, reverse-cons}
use lan_commander.Base.{
  ℕ, ◌≡◌, ◌≢◌, refl, sym, subst, ap, ◌∙◌, Bool, true, false, ◌||◌, List, [], ◌∷◌, ◌++◌,
  append_assoc, append-nil, arith, if◌then◌else◌, ◌==◌, nat_eq, list_eq,
}
use lan_commander.Base.Text.{Text, is_empty, split}
use lan_commander.Os.Path.{
  slash, is_slash, dot, dotdot, is_abs, join_slash, clean_step, clean_elements, clean, or_dot, join,
}

abbrev pub All {ℓ κ} : {A : Type ℓ} → (A → Type κ) → List A → Type κ
All P [] = Unit
All P (x ∷ xs) = P x × All P xs

abbrev pub LacksSlash : Text → Type 0
LacksSlash = All (λ c. c ≢ slash)

-- An element that a cleaned absolute path can have.
abbrev pub IsPlain : Text → Type 0
IsPlain e = (e ≢ []) × (e ≢ dot) × (e ≢ dotdot) × LacksSlash e

-- An absolute path in its shortest form.
abbrev pub absolute : List Text → Text
absolute es = slash ∷ join_slash es

-- The elements without the empty ones and the dots.
unfoldable pub proper : List Text → List Text
proper [] = []
proper (e ∷ es) = let rest = proper es in if is_empty e || e == dot then rest else e ∷ rest

abbrev pub AvoidsDotdot : List Text → Type 0
AvoidsDotdot = All (λ e. e ≢ dotdot)

-- Without "..", cleaning keeps the proper elements in their order.
clean_elements-proper :
    (rooted : Bool) (stack es : List Text)
    → AvoidsDotdot es
    → reverse (clean_elements rooted stack es) ≡ reverse stack ++ proper es
unfolding clean_elements clean_step proper
clean_elements-proper rooted stack [] a = rw append-nil
clean_elements-proper rooted stack (e ∷ es) (ne, a) = ground (
  arith,
  clean_elements-proper rooted stack es a,
  clean_elements-proper rooted (e ∷ stack) es a,
  reverse-cons e stack,
  append_assoc (reverse stack) (e ∷ []) (proper es),
)

pub clean-absolute :
    (s : Text)
    → is_abs s ≡ true
    → AvoidsDotdot (split is_slash s)
    → clean s ≡ absolute (proper (split is_slash s))
unfolding clean
clean-absolute s h a = rw (h, clean_elements-proper true [] (split is_slash s) a)

split-ne-nil : (p : ℕ → Bool) (s : Text) → split p s ≢ []
unfolding split
split-ne-nil p [] e = cc
split-ne-nil p (c ∷ s) e = ground (arith, split-ne-nil p s)

split-append_slash :
    (s t : Text) → split is_slash (s ++ slash ∷ t) ≡ split is_slash s ++ split is_slash t
unfolding split
split-append_slash [] t = ground arith
split-append_slash (c ∷ s) t = ground (arith, split-append_slash s t, split-ne-nil is_slash s)

-- A text without a slash is one piece.
pub split_whole : (s : Text) → LacksSlash s → split is_slash s ≡ s ∷ []
unfolding split
split_whole [] a = refl
split_whole (c ∷ s) (ne, a) = ground (arith, split_whole s a)

proper-append : (xs ys : List Text) → proper (xs ++ ys) ≡ proper xs ++ proper ys
unfolding proper
proper-append [] ys = refl
proper-append (x ∷ xs) ys = ground (arith, proper-append xs ys)

proper_plain : (es : List Text) → All IsPlain es → proper es ≡ es
unfolding proper
proper_plain [] a = refl
proper_plain (e ∷ es) (p, a) = ground (arith, proper_plain es a)

pub LacksSlash-pieces : (s : Text) → All LacksSlash (split is_slash s)
unfolding split
LacksSlash-pieces [] = (tt, tt)
LacksSlash-pieces (c ∷ s) = go (split is_slash s) (LacksSlash-pieces s)
  where
    go :
        (rest : List Text)
        → All LacksSlash rest
        → All LacksSlash (
            if is_slash c
            then [] ∷ rest
            else elim rest [ [] ↦ (c ∷ []) ∷ [] | x ∷ xs ↦ (c ∷ x) ∷ xs ])
    go [] a = ground arith
    go (x ∷ xs) (p, a) = ground arith

pub IsPlain-proper :
    (es : List Text) → All LacksSlash es → AvoidsDotdot es → All IsPlain (proper es)
unfolding proper
IsPlain-proper [] a b = tt
IsPlain-proper (e ∷ es) (p, a) (ne, b) = ground (arith, IsPlain-proper es a b)

-- The elements of a path, between its slashes.
abbrev pub elements : Text → List Text
elements s = split is_slash s

elements_join :
    (x : Text) (es : List Text) → All IsPlain (x ∷ es) → elements (join_slash (x ∷ es)) ≡ x ∷ es
elements_join x [] (p, a) = split_whole x p.3
elements_join x (y ∷ es) (p, a) =
    rw (split-append_slash x (join_slash (y ∷ es)), split_whole x p.3, elements_join y es a)

pub proper-absolute : (es : List Text) → All IsPlain es → proper (elements (absolute es)) ≡ es
unfolding nat_eq
proper-absolute [] a = unfold split proper in refl
proper-absolute (x ∷ es) a = rw (split-append_slash [] (join_slash (x ∷ es))) (
    rw (proper-append (elements []) (elements (join_slash (x ∷ es))))
      (rw (elements_join x es a) (unfold split proper in proper_plain (x ∷ es) a)))

AvoidsDotdot-plain : (es : List Text) → All IsPlain es → AvoidsDotdot es
AvoidsDotdot-plain [] a = tt
AvoidsDotdot-plain (e ∷ es) (p, a) = (p.2, AvoidsDotdot-plain es a)

AvoidsDotdot-append :
    (xs ys : List Text) → AvoidsDotdot xs → AvoidsDotdot ys → AvoidsDotdot (xs ++ ys)
AvoidsDotdot-append [] ys a b = b
AvoidsDotdot-append (x ∷ xs) ys (p, a) b = (p, AvoidsDotdot-append xs ys a b)

AvoidsDotdot-elements-absolute :
    (ws : List Text) → All IsPlain ws → AvoidsDotdot (elements (absolute ws))
AvoidsDotdot-elements-absolute [] a = unfold split nat_eq in (λ e. cc, (λ e. cc, tt))
AvoidsDotdot-elements-absolute (x ∷ es) a =
    rw (split-append_slash [] (join_slash (x ∷ es)), elements_join x es a)
      (AvoidsDotdot-append (elements []) (x ∷ es) (unfold split in (λ e. cc, tt))
        (AvoidsDotdot-plain (x ∷ es) a))

-- A path joined to an absolute one stays below it.
pub clean_below :
    (ws : List Text) (s : Text)
    → All IsPlain ws
    → AvoidsDotdot (elements s)
    → clean (absolute ws ++ slash ∷ s) ≡ absolute (ws ++ proper (elements s))
clean_below ws s a b =
    clean-absolute (absolute ws ++ slash ∷ s) (unfold nat_eq in refl) (
      rw (split-append_slash (absolute ws) s) (
        AvoidsDotdot-append (elements (absolute ws)) (elements s)
          (AvoidsDotdot-elements-absolute ws a) b))
    ∙ ap absolute (
        ap proper (split-append_slash (absolute ws) s)
        ∙ proper-append (elements (absolute ws)) (elements s)
        ∙ ap (λ xs. xs ++ proper (elements s)) (proper-absolute ws a))

-- What filepath.Clean leaves of a relative path without "..".
pub clean_relative :
    (s : Text)
    → is_abs s ≡ false
    → AvoidsDotdot (elements s)
    → clean s ≡ or_dot (join_slash (proper (elements s)))
unfolding clean
clean_relative s h a = rw (h, clean_elements-proper false [] (elements s) a)

-- Such a path is relative again, and has the same proper elements.
pub or_dot_relative :
    (es : List Text)
    → All IsPlain es
    → (is_abs (or_dot (join_slash es)) ≡ false)
      × AvoidsDotdot (elements (or_dot (join_slash es)))
      × (proper (elements (or_dot (join_slash es))) ≡ es)
or_dot_relative [] a = unfold split proper nat_eq list_eq in (refl, (λ e. cc, tt), refl)
or_dot_relative ([] ∷ es) (p, a) = absurd (p.0 refl)
or_dot_relative ((c ∷ x) ∷ []) (p, a) =
    let e = elements_join (c ∷ x) [] (p, a) in
    let b = AvoidsDotdot-plain ((c ∷ x) ∷ []) (p, a) in
    (ground arith, subst AvoidsDotdot (sym e) b, ap proper e ∙ proper_plain ((c ∷ x) ∷ []) (p, a))
or_dot_relative ((c ∷ x) ∷ y ∷ es) (p, a) =
    let e = elements_join (c ∷ x) (y ∷ es) (p, a) in
    let b = AvoidsDotdot-plain ((c ∷ x) ∷ y ∷ es) (p, a) in
    (
      ground arith,
      subst AvoidsDotdot (sym e) b,
      ap proper e ∙ proper_plain ((c ∷ x) ∷ y ∷ es) (p, a),
    )

pub All-append {ℓ κ} :
    {A : Type ℓ} (P : A → Type κ) (xs ys : List A) → All P xs → All P ys → All P (xs ++ ys)
All-append P [] ys a b = b
All-append P (x ∷ xs) ys (p, a) b = (p, All-append P xs ys a b)

pub join_nonempty : (s t : Text) → t ≢ [] → join (slash ∷ s) t ≡ clean ((slash ∷ s) ++ slash ∷ t)
unfolding join
join_nonempty s [] h = absurd (h refl)
join_nonempty s (d ∷ t) h = refl
