-- ===== src/Agent/Startup/Tests.antt =====
-- The flags of an agent at concrete inputs.
use lan_commander.Base.{
  ◌≡◌, refl, true, false, none, some, [], ◌↔◌, if◌then◌else◌, ◌==◌, nat_eq, list_eq,
}
use lan_commander.Base.Int.{pos}
use lan_commander.Base.Exec.{ok, ◌>>=◌, must, refuse_if}
use lan_commander.Base.Text.{codes}
use lan_commander.Os.Disk.{Files, file, calm_disk, stat, read_file}
use lan_commander.Agent.Startup.{AgentFlags, Surroundings, validate_agent_flags, read_token_file}
use lan_commander.Agent.Startup.Secure.{Secure, OnlyToken, Source, validate_agent_flags-Secure}

abbrev flags : AgentFlags
flags = record {
  port = pos 9474;
  host = codes "0.0.0.0";
  name = [];
  discovery_enabled = true;
  tls_cert = [];
  tls_key = [];
  auth_token = [];
  auth_token_file = codes "/t";
  audit_log = [];
  no_auth = false;
  ui_mode = false;
  managed_by_notice = [];
}

abbrev around : Surroundings
around = record { env_token = codes " other "; text_of = λ b. b }

abbrev files : Files
files p = if p == codes "/t" then some (file (codes " s3cret ")) else none

abbrev with_token : AgentFlags
with_token = record flags { auth_token = codes "s3cret" }

validates : validate_agent_flags around flags (calm_disk files) ≡ (ok with_token, calm_disk files)
unfolding validate_agent_flags ◌>>=◌ refuse_if read_token_file must stat list_eq nat_eq read_file
validates = refl

validate_agent_flags-Secure_example :
    ((flags.tls_cert ≡ []) ↔ (flags.tls_key ≡ []))
    × Secure around with_token
    × OnlyToken around flags with_token
    × Source around flags with_token (calm_disk files)
validate_agent_flags-Secure_example =
    validate_agent_flags-Secure around flags with_token (calm_disk files) (calm_disk files)
      validates
