-- ===== src/Agent/Startup.antt =====
-- The checks of agent/cmd/lan-agent/main.go before an agent serves: where its token comes from and which
-- flags go together. The environment and the decoding of UTF-8 are arguments; flag.Parse, the service
-- manager and the banner are not modelled, nor is the warning about the permissions of the token file.
pub mod Secure
mod Tests
use lan_commander.Base.{ℕ, Bool, true, false, not, ◌&&◌, ◌||◌, if◌then◌else◌, ltb}
use lan_commander.Base.Int.{ℤ}
use lan_commander.Base.Exec.{Exec, pure, raise, ◌>>=◌, ◌>>◌, must, refuse_if}
use lan_commander.Base.Text.{Text, is_empty, trim_space}
use lan_commander.Os.Disk.{Bytes, Disk, stat, read_file}
use lan_commander.Agent.Files.Host.{is_directory, node_size}

-- agentFlags
pub record AgentFlags : Type 0 where
  pub port : ℤ
  pub host : Text
  pub name : Text
  pub discovery_enabled : Bool
  pub tls_cert : Text
  pub tls_key : Text
  pub auth_token : Text
  pub auth_token_file : Text
  pub audit_log : Text
  pub no_auth : Bool
  pub ui_mode : Bool
  pub managed_by_notice : Text

pub data FlagError : Type 0 where
  tls_incomplete no_auth_with_token token_with_file no_auth_with_file no_auth_with_env : FlagError
  cannot_stat not_small_file cannot_read empty_token_file token_required : FlagError

abbrev pub Check : Type 0 → Type 0
Check A = Exec FlagError Disk A

abbrev pub nothing : Check (Unit {0})
nothing = pure tt

abbrev pub max_token_file_size : ℕ
max_token_file_size = 4096

-- What the agent finds around it: the variable LAN_COMMANDER_AUTH_TOKEN, and how bytes read as text.
pub record Surroundings : Type 0 where
  pub env_token : Text
  pub text_of : Bytes → Text

-- `!=` on bool
abbrev pub differ : Bool → Bool → Bool
differ true b = not b
differ false b = b

module _ (s : Surroundings) where
  unfoldable pub read_token_file : Text → Check Text
  unfolding trim_space
  read_token_file path = do
    info ← must (stat path) nothing cannot_stat
    refuse_if (is_directory info || ltb max_token_file_size (node_size info)) nothing not_small_file
    content ← must (read_file path) nothing cannot_read
    let token = trim_space (s.text_of content)
    refuse_if (is_empty token) nothing empty_token_file
    pure token

  -- With --auth-token-file.
  unfoldable pub token_from_file : AgentFlags → Check AgentFlags
  token_from_file f = do
    refuse_if (not (is_empty f.auth_token)) nothing token_with_file
    refuse_if f.no_auth nothing no_auth_with_file
    token ← read_token_file f.auth_token_file
    pure (record f { auth_token = token })

  -- Without it.
  unfoldable pub token_from_env : AgentFlags → Check AgentFlags
  unfolding trim_space
  token_from_env f =
      let env_token = trim_space s.env_token in
      if is_empty f.auth_token && not (is_empty env_token)
      then refuse_if f.no_auth nothing no_auth_with_env
        >> pure (record f { auth_token = env_token })
      else pure f

  unfoldable pub resolve_auth_token : AgentFlags → Check AgentFlags
  unfolding token_from_file token_from_env
  resolve_auth_token f = if is_empty f.auth_token_file then token_from_env f else token_from_file f

  unfoldable pub validate_agent_flags : AgentFlags → Check AgentFlags
  unfolding resolve_auth_token
  validate_agent_flags f = do
    refuse_if (differ (is_empty f.tls_cert) (is_empty f.tls_key)) nothing tls_incomplete
    refuse_if (f.no_auth && not (is_empty f.auth_token)) nothing no_auth_with_token
    g ← resolve_auth_token f
    refuse_if (not g.no_auth && is_empty g.auth_token) nothing token_required
    pure g
