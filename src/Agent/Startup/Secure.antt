-- ===== src/Agent/Startup/Secure.antt =====
-- An agent that starts has a token, or was told to do without one.
use lan_commander.Base.{
  subst, ◌≡◌, ◌≢◌, refl, sym, ap, ◌∙◌, true, false, not, ◌&&◌, ◌||◌, ◌⊎◌, ◌↔◌, inl, inr, some, [],
  ◌∷◌, ◌≤◌, length, arith, if◌then◌else◌, ltb, Bool-cases,
}
use lan_commander.Base.Exec.{Result, ok, pure, ◌>>◌, must, refuse_if}
use lan_commander.Base.Exec.Outcome.{ok_bind, ok_must, ok_refuse_if}
use lan_commander.Base.Text.{Text, is_empty, trim_space}
use lan_commander.Os.Disk.{Bytes, Node, file, Disk, stat, read_file}
use lan_commander.Os.Disk.Effect.{stat_ok, read_file_ok, kept}
use lan_commander.Os.Disk.Frame.{Keeps-stat}
use lan_commander.Agent.Files.Host.{is_directory, node_size}
use lan_commander.Agent.Startup.{
  AgentFlags, FlagError, Check, Surroundings, nothing, max_token_file_size, read_token_file,
  token_from_file, token_from_env, resolve_auth_token, validate_agent_flags, differ, tls_incomplete,
  no_auth_with_token, token_with_file, no_auth_with_file, no_auth_with_env, cannot_stat,
  not_small_file, cannot_read, empty_token_file, token_required,
}

is_empty→nil : (t : Text) → is_empty t ≡ true → t ≡ []
is_empty→nil [] e = refl
is_empty→nil (c ∷ t) e = absurd cc

nonempty→ne : (t : Text) → is_empty t ≡ false → t ≢ []
nonempty→ne t e n = cc (e, n)

returned :
    {A : Type 0} {a b : A} {d t : Disk}
    → ◌≡◌ {A = Result FlagError A × Disk} (ok a, d) (ok b, t)
    → a ≡ b
returned h = cc h

module _ (s : Surroundings) where
  -- A file of at most 4096 bytes that holds the token between white space, at the time of the read.
  abbrev pub HoldsToken : Text → Text → Disk → Type 0
  HoldsToken path token d =
      (content : Bytes) × (d.files path ≡ some (file content))
      × (length content ≤ max_token_file_size)
      × (token ≡ trim_space (s.text_of content))

  -- Where the token of the flags `g` comes from, given those of the command line.
  abbrev pub Source : AgentFlags → AgentFlags → Disk → Type 0
  Source f g d =
      ((f.auth_token_file ≢ []) × (f.auth_token ≡ []) × HoldsToken f.auth_token_file g.auth_token d)
      ⊎ ((f.auth_token_file ≡ []) × (f.auth_token ≢ []) × (g.auth_token ≡ f.auth_token))
      ⊎ ((f.auth_token_file ≡ []) × (f.auth_token ≡ []) × (g.auth_token ≡ trim_space s.env_token))

  -- No token with --no-auth, and one without.
  abbrev pub Secure : AgentFlags → Type 0
  Secure g =
      ((g.no_auth ≡ true) × (g.auth_token ≡ [])) ⊎ ((g.no_auth ≡ false) × (g.auth_token ≢ []))

  -- The flags apart from the token.
  abbrev pub OnlyToken : AgentFlags → AgentFlags → Type 0
  OnlyToken f g = record f { auth_token = g.auth_token } ≡ g

  small_file :
      (info : Node) (content : Bytes)
      → (is_directory info || ltb max_token_file_size (node_size info)) ≡ false
      → info ≡ file content
      → length content ≤ max_token_file_size
  small_file info content small e = ground arith

  read_ok :
      (path : Text) (d t : Disk) {token : Text}
      → read_token_file s path d ≡ (ok token, t)
      → (token ≢ []) × HoldsToken path token d
  unfolding read_token_file pure
  read_ok path d t h =
      let (info, d1, e1, h1) = ok_bind (must (stat path) nothing cannot_stat) _ d h in
      let (_, d2, e2, h2) = ok_bind _ _ d1 h1 in
      let (content, d3, e3, h3) = ok_bind (must (read_file path) nothing cannot_read) _ d2 h2 in
      let (_, d4, e4, h4) = ok_bind _ _ d3 h3 in
      let stat_e = ok_must (stat path) nothing cannot_stat d e1 in
      let (small, d12) = ok_refuse_if _ nothing not_small_file d1 e2 in
      let here : d1.files path ≡ some (file content) =
        ap (λ (x : Disk). x.files path) d12
        ∙ read_file_ok path d2 d3 (ok_must (read_file path) nothing cannot_read d2 e3) in
      let token_e = returned h4 in
      let (full, _) = ok_refuse_if _ nothing empty_token_file d3 e4 in
      (
        λ e. nonempty→ne _ full (token_e ∙ e),
        (
          content,
          sym (kept (Keeps-stat path) stat_e) ∙ here,
          small_file info content small (cc (sym (stat_ok path d d1 stat_e) ∙ here)),
          sym token_e,
        ),
      )

  from_file :
      (f g : AgentFlags) (d t : Disk)
      → f.auth_token_file ≢ []
      → token_from_file s f d ≡ (ok g, t)
      → Secure g × OnlyToken f g × Source f g d
  unfolding token_from_file pure
  from_file f g d t named h =
      let (_, d1, e1, h1) = ok_bind _ _ d h in
      let (_, d2, e2, h2) = ok_bind _ _ d1 h1 in
      let (token, d3, e3, h3) = ok_bind (read_token_file s f.auth_token_file) _ d2 h2 in
      let (bare, d01) = ok_refuse_if _ nothing token_with_file d e1 in
      let (auth, d12) = ok_refuse_if _ nothing no_auth_with_file d1 e2 in
      let (ne, holds) = read_ok f.auth_token_file d2 d3 e3 in
      let same : record f { auth_token = token } ≡ g = returned h3 in
      let holds' : HoldsToken f.auth_token_file token d =
        subst (HoldsToken f.auth_token_file token) (sym (d01 ∙ d12)) holds in
      subst (λ g. Secure g × OnlyToken f g × Source f g d) same
        (inr (auth, ne), refl, inl (named, is_empty→nil f.auth_token (ground arith), holds'))

  from_env :
      (f g : AgentFlags) (d t : Disk)
      → f.auth_token_file ≡ []
      → token_from_env s f d ≡ (ok g, t)
      → (f.no_auth && not (is_empty f.auth_token)) ≡ false
      → (not g.no_auth && is_empty g.auth_token) ≡ false
      → Secure g × OnlyToken f g × Source f g d
  unfolding token_from_env pure
  from_env f g d t unnamed h before after =
      elim (Bool-cases (is_empty f.auth_token && not (is_empty (trim_space s.env_token)))) [
        | inl e ↦ used e (subst (λ b. (if b then rest else pure f) d ≡ (ok g, t)) e h)
        | inr e ↦ unused e (returned (subst (λ b. (if b then rest else pure f) d ≡ (ok g, t)) e h))
      ]
    where
      rest : Check AgentFlags
      rest =
          refuse_if f.no_auth nothing no_auth_with_env
          >> pure (record f { auth_token = trim_space s.env_token })

      used :
          (is_empty f.auth_token && not (is_empty (trim_space s.env_token))) ≡ true
          → rest d ≡ (ok g, t)
          → Secure g × OnlyToken f g × Source f g d
      used e h =
          let (_, d1, e1, h1) = ok_bind _ _ d h in
          let (auth, _) = ok_refuse_if f.no_auth nothing no_auth_with_env d e1 in
          let same : record f { auth_token = trim_space s.env_token } ≡ g = returned h1 in
          subst (λ g. Secure g × OnlyToken f g × Source f g d) same
            (
              inr (auth, nonempty→ne (trim_space s.env_token) (ground arith)),
              refl,
              inr (inr (unnamed, is_empty→nil f.auth_token (ground arith), refl)),
            )

      unused :
          (is_empty f.auth_token && not (is_empty (trim_space s.env_token))) ≡ false
          → f ≡ g
          → Secure g × OnlyToken f g × Source f g d
      unused e same =
          let after' : (not f.no_auth && is_empty f.auth_token) ≡ false =
            subst (λ (g : AgentFlags). (not g.no_auth && is_empty g.auth_token) ≡ false) (sym same)
              after in
          subst (λ g. Secure g × OnlyToken f g × Source f g d) same
            (elim (Bool-cases (is_empty f.auth_token)) [
              | inl empty ↦
                  let none_given = is_empty→nil f.auth_token empty in
                  let no_env = is_empty→nil (trim_space s.env_token) (ground arith) in
                  (
                    inl (ground arith, none_given),
                    refl,
                    inr (inr (unnamed, none_given, none_given ∙ sym no_env)),
                  )
              | inr full ↦
                  let given = nonempty→ne f.auth_token full in
                  (inr (ground arith, given), refl, inr (inl (unnamed, given, refl)))
            ])

  resolve_ok :
      (f g : AgentFlags) (d t : Disk)
      → resolve_auth_token s f d ≡ (ok g, t)
      → (f.no_auth && not (is_empty f.auth_token)) ≡ false
      → (not g.no_auth && is_empty g.auth_token) ≡ false
      → Secure g × OnlyToken f g × Source f g d
  unfolding resolve_auth_token
  resolve_ok f g d t h before after = elim (Bool-cases (is_empty f.auth_token_file)) [
    | inl e ↦
        from_env f g d t (is_empty→nil f.auth_token_file e)
          (subst (λ b. (if b then token_from_env s f else token_from_file s f) d ≡ (ok g, t)) e h)
          before after
    | inr e ↦
        from_file f g d t (nonempty→ne f.auth_token_file e)
          (subst (λ b. (if b then token_from_env s f else token_from_file s f) d ≡ (ok g, t)) e h)
  ]

  tls_whole :
      (cert key : Text) → differ (is_empty cert) (is_empty key) ≡ false → (cert ≡ []) ↔ (key ≡ [])
  tls_whole [] [] e = ((λ p. refl), λ p. refl)
  tls_whole [] (c ∷ k) e = absurd cc
  tls_whole (c ∷ k) [] e = absurd cc
  tls_whole (c ∷ k) (b ∷ j) e = ((λ p. absurd cc), λ p. absurd cc)

  -- Flags that pass the check: there are both files for TLS or none; without --no-auth there is a token,
  -- and with it there is none; the token is that of the token file, of the command line or of the
  -- environment, in this order, and no other flag has changed.
  pub validate_agent_flags-Secure :
      (f g : AgentFlags) (d t : Disk)
      → validate_agent_flags s f d ≡ (ok g, t)
      → ((f.tls_cert ≡ []) ↔ (f.tls_key ≡ [])) × Secure g × OnlyToken f g × Source f g d
  unfolding validate_agent_flags pure
  validate_agent_flags-Secure f g d t h =
      let (_, d1, e1, h1) = ok_bind _ _ d h in
      let (_, d2, e2, h2) = ok_bind _ _ d1 h1 in
      let (g', d3, e3, h3) = ok_bind _ _ d2 h2 in
      let (_, d4, e4, h4) = ok_bind _ _ d3 h3 in
      let (tls, d01) = ok_refuse_if _ nothing tls_incomplete d e1 in
      let (before, d12) = ok_refuse_if _ nothing no_auth_with_token d1 e2 in
      let (after, _) = ok_refuse_if _ nothing token_required d3 e4 in
      let (secure, only, source) = resolve_ok f g' d2 d3 e3 before after in
      let (secure', only', source') : Secure g × OnlyToken f g × Source f g d =
        subst (λ g. Secure g × OnlyToken f g × Source f g d) (returned h4)
          (secure, only, subst (Source f g') (sym (d01 ∙ d12)) source) in
      (tls_whole f.tls_cert f.tls_key tls, secure', only', source')
