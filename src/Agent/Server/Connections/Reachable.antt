-- ===== src/Agent/Server/Connections/Reachable.antt =====
-- Every action of the server keeps its limits.
use lan_commander.Base.{
  ℕ, ◌≤◌, ◌≡◌, refl, subst, Bool, true, false, ◌||◌, Option, none, some, List, [], ◌∷◌, arith,
  if◌then◌else◌, ltb, length, length-append, string_eq, inr, String,
}
use lan_commander.Base.Dict
use lan_commander.Base.Text.{codes}
use lan_commander.Os.Disk.{Disk}
use lan_commander.Os.Path.Elements.{All}
use lan_commander.Agent.IpGuard.{active_of}
use lan_commander.Agent.IpGuard.Invariant.{Inv, new_ip_guard-Inv}
use lan_commander.Agent.Server.{
  Client, Session, Reply, max_clients, send_queue_size, push_system_update, enqueue, system_update,
  record_event, result_denied, close,
}
use lan_commander.Agent.Server.Limits.{Within, Follows, handle_message-Kept}
use lan_commander.Agent.Server.Handlers.{Env, Message, handle_message}
use lan_commander.Agent.Server.Connections.{
  Server, new_server, client_at, upgrades, rejects, releases, on_client, session_of, put_session,
  unsent, write_first, pump, tick, auth_deadline, deliver_to, expire, Action, connects, receives,
  writes, ticks, times_out, leaves, act, serve,
}
use lan_commander.Agent.Server.Connections.Count.{connections, All-client_at}
use lan_commander.Agent.Server.Connections.Slots.{Sound, Admitted, holders, replaced-Sound}
use lan_commander.Agent.Server.Connections.Entry.{
  web_socket-Sound, upgrade-Sound, reject-Sound, unregister-Sound, release_slot-Sound,
}

-- What the pumps, the ticker and the deadline may do to a client.
abbrev Mild : Client → Client → Type 0
Mild c d = Within d × (d.ip ≡ c.ip) × (d.ip_tracked ≡ c.ip_tracked)

changed-Sound :
    (f : Client → Client) (i : ℕ) (s : Server)
    → ((c : Client) → Within c → Mild c (f c))
    → Sound s
    → Sound (on_client f (client_at i s.clients) i s)
changed-Sound f i s keeps v = go (client_at i s.clients) refl
  where
    go : (o : Option Client) → client_at i s.clients ≡ o → Sound (on_client f o i s)
    go none e = v
    go (some c) e =
        let (w, ip, tracked) = keeps c (All-client_at Admitted i c s.clients e v.each).0 in
        replaced-Sound s i c (session_of (f c) s) v e w (record {
          ip = ip;
          ip_tracked = tracked;
          active = refl;
          max_active = refl;
          guarded = v.guarded;
        })

Mild-if : (c d e : Client) (b : Bool) → Mild c d → Mild c e → Mild c (if b then d else e)
Mild-if c d e true hd he = hd
Mild-if c d e false hd he = he

unsent-Within :
    (rs : List Reply) → length rs ≤ send_queue_size → length (unsent rs) ≤ send_queue_size
unsent-Within [] h = h
unsent-Within (r ∷ rs) h = omega arith

write_first-Mild : (b : Bool) (c : Client) → Within c → Mild c (write_first b c)
unfolding close
write_first-Mild true c w =
    (record { queue = unsent-Within c.send w.queue; attempts = w.attempts }, refl, refl)
write_first-Mild false c w =
    (record { queue = unsent-Within c.send w.queue; attempts = inr refl }, refl, refl)

pump-Mild : (b : Bool) (c : Client) → Within c → Mild c (pump b c)
unfolding pump
pump-Mild b c w = Mild-if c c (write_first b c) c.closed (w, refl, refl) (write_first-Mild b c w)

tick-Mild : (c : Client) → Within c → Mild c (tick c)
unfolding tick push_system_update
tick-Mild c w = Mild-if c (push_system_update c) c c.authed pushed (w, refl, refl)
  where
    grown :
        (b : Bool)
        → ltb (length c.send) send_queue_size ≡ b
        → Mild c (if b then enqueue (record { id = []; body = system_update }) c else c)
    grown true e = (
      record {
        queue =
            ground (arith, length-append c.send (record { id = []; body = system_update } ∷ []));
        attempts = w.attempts;
      },
      refl,
      refl,
    )
    grown false e = (w, refl, refl)

    pushed : Mild c (push_system_update c)
    pushed =
        Mild-if c c _ c.closed (w, refl, refl) (grown (ltb (length c.send) send_queue_size) refl)

deadline-Within :
    (s : Session)
    → Within s.client
    → Inv s.guard
    → Within (auth_deadline s).client × Follows s (auth_deadline s)
unfolding auth_deadline record_event close
deadline-Within s w v = go (s.client.closed || s.client.authed)
  where
    noted : Session
    noted = record_event (codes "auth") result_denied s

    go :
        (b : Bool)
        → let t = if b then s else record noted { client = close noted.client } in
          Within t.client × Follows s t
    go true =
        (w, record { ip = refl; ip_tracked = refl; active = refl; max_active = refl; guarded = v })
    go false = (
      record { queue = w.queue; attempts = inr refl },
      record { ip = refl; ip_tracked = refl; active = refl; max_active = refl; guarded = v },
    )

module _ {Json : Type 0} (env : Env Json) where
  receive-Sound :
      (i now : ℕ) (msg : Message Json) (s : Server)
      → Sound s
      → Sound (deliver_to env (client_at i s.clients) i now msg s)
  receive-Sound i now msg s v = go (client_at i s.clients) refl
    where
      open_or_not :
          (c : Client) (b : Bool)
          → client_at i s.clients ≡ some c
          → Sound (if b then s else put_session i (handle_message env now msg (session_of c s)) s)
      open_or_not c true e = v
      open_or_not c false e =
          let (w, f) =
            handle_message-Kept env now msg (session_of c s)
              (All-client_at Admitted i c s.clients e v.each).0 v.guarded in
          replaced-Sound s i c _ v e w f

      go : (o : Option Client) → client_at i s.clients ≡ o → Sound (deliver_to env o i now msg s)
      go none e = v
      go (some c) e = open_or_not c c.closed e

  expire-Sound : (i : ℕ) (s : Server) → Sound s → Sound (expire env (client_at i s.clients) i s)
  expire-Sound i s v = go (client_at i s.clients) refl
    where
      go : (o : Option Client) → client_at i s.clients ≡ o → Sound (expire env o i s)
      go none e = v
      go (some c) e =
          let (w, f) =
            deadline-Within (session_of c s) (All-client_at Admitted i c s.clients e v.each).0
              v.guarded in
          replaced-Sound s i c _ v e w f

  act-Sound : (a : Action Json) (s : Server) → Sound s → Sound (act env a s)
  unfolding act
  act-Sound (connects now ip remote id) s v = web_socket-Sound now ip remote id s v
  act-Sound (upgrades i succeeds) s v = upgrade-Sound env.auth_token succeeds i s v
  act-Sound (rejects i) s v = reject-Sound i s v
  act-Sound (receives i now msg) s v = receive-Sound i now msg s v
  act-Sound (writes i succeeds) s v = changed-Sound (pump succeeds) i s (pump-Mild succeeds) v
  act-Sound (ticks i) s v = changed-Sound tick i s tick-Mild v
  act-Sound (times_out i) s v = expire-Sound i s v
  act-Sound (leaves i) s v = unregister-Sound i s v
  act-Sound (releases i) s v = release_slot-Sound i s v

  serve-Sound : (as' : List (Action Json)) (s : Server) → Sound s → Sound (serve env as' s)
  unfolding serve
  serve-Sound [] s v = v
  serve-Sound (a ∷ rest) s v = serve-Sound rest (act env a s) (act-Sound a s v)

new_server-Sound : (disk : Disk) → Sound (new_server disk)
unfolding connections active_of Dict.lookup
new_server-Sound disk = record {
  counted = λ ip. refl;
  few = omega arith;
  each = tt;
  fresh = tt;
  tracked = tt;
  guarded = new_ip_guard-Inv;
  cap = refl;
}

-- Whatever the peers do, in whichever order, handshakes under way included: the guard counts for every
-- address exactly the connections from it, those that are being upgraded, those that are refused or
-- leave but have not given their slot back, and those in the table, so that no slot leaks. There are at
-- most 16 of them from one address, and at most 128 in the table; and each connection in the table has a
-- send queue that fits its channel, and is closed once it failed to authenticate five times.
pub serve-new_server-Sound :
    {Json : Type 0} (env : Env Json) (disk : Disk) (actions : List (Action Json))
    → let s = serve env actions (new_server disk) in
      ((ip : String) → (active_of s.guard ip ≡ holders ip s) × (holders ip s ≤ 16))
      × (length s.clients ≤ max_clients)
      × All Admitted s.clients
serve-new_server-Sound env disk actions =
    let v = serve-Sound env actions (new_server disk) (new_server-Sound disk) in
    (
      λ ip. (
        v.counted ip,
        subst (λ n. n ≤ 16) (v.counted ip)
            (subst (λ n. active_of (serve env actions (new_server disk)).guard ip ≤ n) v.cap
              (v.guarded.capped ip)),
      ),
      v.few,
      v.each,
    )
