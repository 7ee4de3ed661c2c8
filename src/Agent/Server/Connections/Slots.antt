-- ===== src/Agent/Server/Connections/Slots.antt =====
-- The slots that the guard counts are the connections that there are.
use lan_commander.Base.{
  ℕ, suc, ◌+◌, ◌≤◌, ◌≡◌, refl, sym, ap, subst, ◌∙◌, Bool, true, false, none, some, [], ◌∷◌, arith,
  if◌then◌else◌, leb, length, ◌==◌, string_eq, inl, String,
}
use lan_commander.Base.Dict
use lan_commander.Base.Text.{Text, is_empty}
use lan_commander.Os.Path.Elements.{All}
use lan_commander.Agent.IpGuard.{IpGuard, Refusal, admit, release, active_of, or_zero}
use lan_commander.Agent.IpGuard.Invariant.{Inv, admit_exact, release_exact}
use lan_commander.Agent.Server.{
  Client, Session, max_clients, send_msg, identify, agent_info, auth_required,
}
use lan_commander.Agent.Server.Limits.{Within, Follows, send_msg-Within, send_msg-ip}
use lan_commander.Agent.Server.Connections.{
  Server, client_at, new_client, greet, accept, session_of, put_session,
}
use lan_commander.Agent.Server.Connections.Count.{
  connections, connections-set_at, length-set_at, All-set_at, All-client_at,
}

abbrev pub Admitted : Client → Type 0
Admitted c = Within c × (c.ip_tracked ≡ true)

-- The connections from an address, whether in the table, on the way into it or on the way out.
abbrev pub holders : String → Server → ℕ
holders ip s =
    connections ip s.clients
    + connections ip s.upgrading
    + connections ip s.rejected
    + connections ip s.leaving

pub record Sound (s : Server) : Type 0 where
  pub counted : (ip : String) → active_of s.guard ip ≡ holders ip s
  pub few : length s.clients ≤ max_clients
  pub each : All Admitted s.clients
  pub fresh : All Admitted s.upgrading
  pub tracked : All Admitted s.leaving
  pub guarded : Inv s.guard
  pub cap : s.guard.max_active ≡ 16

-- The guard counts what it did before.
same_active : (g h : IpGuard) (ip : String) → h.active ≡ g.active → active_of h ip ≡ active_of g ip
unfolding active_of
same_active g h ip e = ap (λ a. or_zero (Dict.lookup ip a)) e

pub admit_one :
    (g : IpGuard) (ip j : String) (now : ℕ)
    → (admit g ip now).1 ≡ none
    → active_of (admit g ip now).0 j ≡ (if j == ip then active_of g j + 1 else active_of g j)
admit_one g ip j now e =
    let (iff, count, _) = admit_exact g ip now in
    let (free, below) = iff.0 e in count j ∙ ground arith

pub admit_refused :
    (g : IpGuard) (ip : String) (now : ℕ) (r : Refusal)
    → (admit g ip now).1 ≡ some r
    → (admit g ip now).0 ≡ g
unfolding admit
admit_refused g ip now r e = ground arith

pub admit-max_active :
    (g : IpGuard) (ip : String) (now : ℕ) → (admit g ip now).0.max_active ≡ g.max_active
unfolding admit
admit-max_active g ip now = ground arith

pub release-max_active : (g : IpGuard) (ip : String) → (release g ip).max_active ≡ g.max_active
unfolding release
release-max_active g ip = ground arith

-- One connection changes, on a guard that counts as before.
pub replaced-Sound :
    (s : Server) (i : ℕ) (c : Client) (t : Session)
    → Sound s
    → client_at i s.clients ≡ some c
    → Within t.client
    → Follows (session_of c s) t
    → Sound (put_session i t s)
replaced-Sound s i c t v e w f = record {
  counted = λ ip.
      same_active s.guard t.guard ip f.active
      ∙ v.counted ip
      ∙ ap
          (λ (n : ℕ).
            n + connections ip s.upgrading + connections ip s.rejected + connections ip s.leaving)
          (sym (connections-set_at ip i c t.client s.clients e f.ip));
  few = subst (λ (n : ℕ). n ≤ max_clients) (sym (length-set_at i t.client s.clients)) v.few;
  each =
      All-set_at Admitted i t.client s.clients
        (w, f.ip_tracked ∙ (All-client_at Admitted i c s.clients e v.each).1) v.each;
  fresh = v.fresh;
  tracked = v.tracked;
  guarded = f.guarded;
  cap = f.max_active ∙ v.cap;
}

greet-Admitted :
    (token : Text) (c : Client)
    → Admitted c
    → Admitted (greet token c) × ((greet token c).ip ≡ c.ip)
unfolding greet
greet-Admitted token c (w, t) = go (is_empty token)
  where
    d : Client
    d = identify c.user true c.auth_attempts c

    wd : Within d
    wd = record { queue = w.queue; attempts = w.attempts }

    go :
        (b : Bool)
        → let g =
            if b
            then send_msg (record { id = []; body = agent_info true }) d
            else send_msg (record { id = []; body = auth_required }) c in
          Admitted g × (g.ip ≡ c.ip)
    go true = ((send_msg-Within _ d wd, (send_msg-ip _ d).1 ∙ t), (send_msg-ip _ d).0)
    go false = ((send_msg-Within _ c w, (send_msg-ip _ c).1 ∙ t), (send_msg-ip _ c).0)

pub new_client-Admitted : (id remote : Text) (ip : String) → Admitted (new_client id remote ip)
new_client-Admitted id remote ip =
    (record { queue = omega arith; attempts = inl (omega arith) }, refl)

-- The guard has counted a connection that goes.
pub given_back :
    (g : IpGuard) (ip j : String) (n : ℕ)
    → active_of g j ≡ (if j == ip then suc n else n)
    → active_of (release g ip) j ≡ n
given_back g ip j n e = release_exact g ip j ∙ ground arith

-- A connection goes from the upgrade into the table or among the rejected.
pub accept-Sound :
    (token : Text) (c : Client) (s : Server)
    → ((ip : String)
        → active_of s.guard ip ≡ (if ip == c.ip then suc (holders ip s) else holders ip s))
    → length s.clients ≤ max_clients
    → Admitted c
    → All Admitted s.clients
    → All Admitted s.upgrading
    → All Admitted s.leaving
    → Inv s.guard
    → s.guard.max_active ≡ 16
    → Sound (accept token c s)
unfolding accept connections
accept-Sound token c s counted few w each fresh tracked guarded cap =
    go (leb max_clients (length s.clients)) refl
  where
    welcome : Admitted (greet token c) × ((greet token c).ip ≡ c.ip)
    welcome = greet-Admitted token c w

    one_rejected :
        (ip : String) → active_of s.guard ip ≡ holders ip (record s { rejected = c ∷ s.rejected })
    one_rejected ip = counted ip ∙ ground arith

    one_in :
        (ip : String)
        → active_of s.guard ip ≡ holders ip (record s { clients = greet token c ∷ s.clients })
    one_in ip = counted ip ∙ ground (arith, welcome.1)

    go :
        (b : Bool)
        → leb max_clients (length s.clients) ≡ b
        → Sound (
            if b
            then record s { rejected = c ∷ s.rejected }
            else record s { clients = greet token c ∷ s.clients })
    go true e = record {
      counted = one_rejected;
      few = few;
      each = each;
      fresh = fresh;
      tracked = tracked;
      guarded = guarded;
      cap = cap;
    }
    go false e = record {
      counted = one_in;
      few = ground arith;
      each = (welcome.0, each);
      fresh = fresh;
      tracked = tracked;
      guarded = guarded;
      cap = cap;
    }
