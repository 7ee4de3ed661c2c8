-- ===== src/Agent/Server/Limits.antt =====
-- The limits of one connection, which every handler keeps.
use lan_commander.Base.{
  ℕ, ◌≤◌, ◌<◌, ◌≡◌, refl, ◌∙◌, Bool, true, false, [], ◌∷◌, arith, if◌then◌else◌, leb, length,
  length-append, list_eq, nat_eq, ◌⊎◌, inl, inr, String,
}
use lan_commander.Base.Text.{Text}
use lan_commander.Agent.IpGuard.{IpGuard, fail}
use lan_commander.Agent.IpGuard.Invariant.{fail-Inv, succeed-Inv, Inv}
use lan_commander.Agent.Server.{
  Client, Session, Reply, with_client, send_msg, send_queue_size, max_auth_attempts, record_event,
  close, send_agent_info,
}
use lan_commander.Agent.Server.Steady.{Steady, on_response, on_decoded, on_kind}
use lan_commander.Agent.Server.Gate.{denied_keeps}
use lan_commander.Agent.Server.Handlers.{
  Env, Message, Kind, AuthPayload, refuses, handle_kind, handle_message, handle_auth, auth_denied,
  auth_accepted, attempts_close, exec_command_kind, list_dir_kind, get_file_kind, send_file_kind,
  cancel_file_kind, screenshot_kind, system_info_kind, auth_kind, keep_alive_kind, other_kind,
}

-- A client whose send queue fits its channel, and that is closed once it failed to authenticate too
-- often.
pub record Within (c : Client) : Type 0 where
  pub queue : length c.send ≤ send_queue_size
  pub attempts : (c.auth_attempts < max_auth_attempts) ⊎ (c.closed ≡ true)

-- The same connection, on a guard that counts the same connections.
pub record Follows (s0 s : Session) : Type 0 where
  pub ip : s.client.ip ≡ s0.client.ip
  pub ip_tracked : s.client.ip_tracked ≡ s0.client.ip_tracked
  pub active : s.guard.active ≡ s0.guard.active
  pub max_active : s.guard.max_active ≡ s0.guard.max_active
  pub guarded : Inv s.guard

pub send_msg-queue :
    (r : Reply) (c : Client)
    → length c.send ≤ send_queue_size
    → length (send_msg r c).send ≤ send_queue_size
unfolding send_msg
send_msg-queue r c h = ground (arith, length-append c.send (r ∷ []))

send_msg-attempts :
    (r : Reply) (c : Client)
    → (c.auth_attempts < max_auth_attempts) ⊎ (c.closed ≡ true)
    → ((send_msg r c).auth_attempts < max_auth_attempts) ⊎ ((send_msg r c).closed ≡ true)
unfolding send_msg
send_msg-attempts r c h = ground arith

pub send_msg-Within : (r : Reply) (c : Client) → Within c → Within (send_msg r c)
send_msg-Within r c w = record {
  queue = send_msg-queue r c w.queue;
  attempts = send_msg-attempts r c w.attempts;
}

pub send_msg-ip :
    (r : Reply) (c : Client)
    → ((send_msg r c).ip ≡ c.ip) × ((send_msg r c).ip_tracked ≡ c.ip_tracked)
unfolding send_msg
send_msg-ip r c = (ground arith, ground arith)

send-Follows :
    (s0 : Session) (r : Reply) (s : Session)
    → Follows s0 s
    → Follows s0 (with_client (send_msg r s.client) s)
send-Follows s0 r s f = record {
  ip = (send_msg-ip r s.client).0 ∙ f.ip;
  ip_tracked = (send_msg-ip r s.client).1 ∙ f.ip_tracked;
  active = f.active;
  max_active = f.max_active;
  guarded = f.guarded;
}

same : (s : Session) → Inv s.guard → Follows s s
same s v = record { ip = refl; ip_tracked = refl; active = refl; max_active = refl; guarded = v }

abbrev Kept : Session → Session → Type 0
Kept s0 s = Within s.client × Follows s0 s

Kept-Steady : (s0 : Session) → Steady (Kept s0)
unfolding record_event
Kept-Steady s0 = record {
  on_disk = λ d s h. (
    h.0,
    record {
      ip = h.1.ip;
      ip_tracked = h.1.ip_tracked;
      active = h.1.active;
      max_active = h.1.max_active;
      guarded = h.1.guarded;
    },
  );
  on_send = λ r s h. (send_msg-Within r s.client h.0, send-Follows s0 r s h.1);
  on_record = λ a r s h. (
    h.0,
    record {
      ip = h.1.ip;
      ip_tracked = h.1.ip_tracked;
      active = h.1.active;
      max_active = h.1.max_active;
      guarded = h.1.guarded;
    },
  );
}

-- Before the last step of a denied authentication there may be one attempt too many.
abbrev Counting : Session → Session → Type 0
Counting s0 s = (length s.client.send ≤ send_queue_size) × Follows s0 s

fail-active :
    (g : IpGuard) (ip : String) (now : ℕ)
    → ((fail g ip now).active ≡ g.active) × ((fail g ip now).max_active ≡ g.max_active)
unfolding fail
fail-active g ip now = (ground arith, ground arith)

last-Kept : (s0 s : Session) → Counting s0 s → Kept s0 (attempts_close s)
unfolding close
last-Kept s0 s (q, f) = go (leb max_auth_attempts s.client.auth_attempts) refl
  where
    go :
        (b : Bool)
        → leb max_auth_attempts s.client.auth_attempts ≡ b
        → Kept s0 (if b then with_client (close s.client) s else s)
    go true e = (
      record { queue = q; attempts = inr refl },
      record {
        ip = f.ip;
        ip_tracked = f.ip_tracked;
        active = f.active;
        max_active = f.max_active;
        guarded = f.guarded;
      },
    )
    go false e = (record { queue = q; attempts = inl (ground arith) }, f)

module _ where
  denied-Kept :
      (now : ℕ) (id : Text) (a : AuthPayload) (s : Session)
      → Within s.client
      → Inv s.guard
      → Kept s (auth_denied now id a s)
  unfolding record_event
  denied-Kept now id a s w v =
      denied_keeps (Counting s) (Kept s)
        (λ r t h. (send_msg-queue r t.client h.0, send-Follows s r t h.1))
        (λ x r t h. (
          h.0,
          record {
            ip = h.1.ip;
            ip_tracked = h.1.ip_tracked;
            active = h.1.active;
            max_active = h.1.max_active;
            guarded = h.1.guarded;
          },
        ))
        (last-Kept s) now id a s
        (
          w.queue,
          record {
            ip = refl;
            ip_tracked = refl;
            active = (fail-active s.guard s.client.ip now).0;
            max_active = (fail-active s.guard s.client.ip now).1;
            guarded = fail-Inv s.guard s.client.ip now v;
          },
        )

  accepted-Kept :
      (id : Text) (a : AuthPayload) (s : Session)
      → Within s.client
      → Inv s.guard
      → Kept s (auth_accepted id a s)
  unfolding auth_accepted send_agent_info
  accepted-Kept id a s w v =
      let st = Kept-Steady s in
      st.on_send _ _ (
        on_response st _ _ _ (
          st.on_record _ _ _ (
            record { queue = w.queue; attempts = w.attempts },
            record {
              ip = refl;
              ip_tracked = refl;
              active = refl;
              max_active = refl;
              guarded = succeed-Inv s.guard s.client.ip v;
            },
          )))

module _ {Json : Type 0} (env : Env Json) where
  kind-Kept :
      (k : Kind) (now : ℕ) (msg : Message Json) (s : Session)
      → Within s.client
      → Inv s.guard
      → Kept s (handle_kind env k now msg s)
  unfolding handle_kind handle_auth
  kind-Kept auth_kind now msg s w v =
      on_decoded (Kept-Steady s) (env.as_auth msg.payload) msg.id _ s
        (λ a. either a (refuses env.auth_token a.token)) (w, same s v)
    where
      either :
          (a : AuthPayload) (b : Bool)
          → Kept s ((if b then auth_denied now msg.id a else auth_accepted msg.id a) s)
      either a true = denied-Kept now msg.id a s w v
      either a false = accepted-Kept msg.id a s w v
  kind-Kept exec_command_kind now msg s w v =
      on_kind (Kept-Steady s) env msg s (w, same s v) exec_command_kind now (λ e. cc)
  kind-Kept list_dir_kind now msg s w v =
      on_kind (Kept-Steady s) env msg s (w, same s v) list_dir_kind now (λ e. cc)
  kind-Kept get_file_kind now msg s w v =
      on_kind (Kept-Steady s) env msg s (w, same s v) get_file_kind now (λ e. cc)
  kind-Kept send_file_kind now msg s w v =
      on_kind (Kept-Steady s) env msg s (w, same s v) send_file_kind now (λ e. cc)
  kind-Kept cancel_file_kind now msg s w v =
      on_kind (Kept-Steady s) env msg s (w, same s v) cancel_file_kind now (λ e. cc)
  kind-Kept screenshot_kind now msg s w v =
      on_kind (Kept-Steady s) env msg s (w, same s v) screenshot_kind now (λ e. cc)
  kind-Kept system_info_kind now msg s w v =
      on_kind (Kept-Steady s) env msg s (w, same s v) system_info_kind now (λ e. cc)
  kind-Kept keep_alive_kind now msg s w v =
      on_kind (Kept-Steady s) env msg s (w, same s v) keep_alive_kind now (λ e. cc)
  kind-Kept other_kind now msg s w v =
      on_kind (Kept-Steady s) env msg s (w, same s v) other_kind now (λ e. cc)

  -- A message, whatever it is, leaves the client's send queue within its channel, closes the connection
  -- with the fifth failed authentication at the latest, and changes neither the client's address nor
  -- the number of connections that the guard counts.
  pub handle_message-Kept :
      (now : ℕ) (msg : Message Json) (s : Session)
      → Within s.client
      → Inv s.guard
      → Within (handle_message env now msg s).client × Follows s (handle_message env now msg s)
  unfolding handle_message
  handle_message-Kept now msg s w v = kind-Kept msg.kind now msg s w v
