-- ===== src/Agent/Server/Connections/Entry.antt =====
-- How connections enter and leave the server: the limits that the slots of the guard keep.
use lan_commander.Base.{
  ℕ, suc, ◌≡◌, refl, sym, subst, ◌∙◌, Bool, true, false, Option, none, some, List, [], ◌∷◌, ◌++◌,
  arith, if◌then◌else◌, ◌==◌, string_eq, String,
}
use lan_commander.Base.Text.{Text}
use lan_commander.Agent.IpGuard.{IpGuard, Refusal, admit, release, active_of}
use lan_commander.Agent.IpGuard.Invariant.{admit-Inv, release-Inv}
use lan_commander.Agent.Server.{Client, Event}
use lan_commander.Agent.Server.Connections.{
  Server, client_at, remove_at, denied_event, new_client, entering, upgraded, upgrade,
  handle_web_socket, turn_away, reject, let_go, release_slot, forget, unregister,
}
use lan_commander.Agent.Server.Connections.Count.{
  connections, All-client_at, connections_with, length-remove_at, All-remove_at,
}
use lan_commander.Agent.Server.Connections.Slots.{
  Sound, Admitted, holders, accept-Sound, new_client-Admitted, given_back, admit_one, admit_refused,
  admit-max_active, release-max_active,
}

-- The state that an audit entry or a guard alone changes.
audited-Sound :
    (s : Server) (audit : List Event) (guard : IpGuard)
    → Sound s
    → guard ≡ s.guard
    → Sound (record s { audit = audit; guard = guard })
audited-Sound s audit guard v e =
    subst (λ (g : IpGuard). Sound (record s { audit = audit; guard = g })) (sym e)
      (record {
        counted = v.counted;
        few = v.few;
        each = v.each;
        fresh = v.fresh;
        tracked = v.tracked;
        guarded = v.guarded;
        cap = v.cap;
      })

pub web_socket-Sound :
    (now : ℕ) (ip : String) (remote id : Text) (s : Server)
    → Sound s
    → Sound (handle_web_socket now ip remote id s)
unfolding handle_web_socket connections
web_socket-Sound now ip remote id s v = go (admit s.guard ip now).1 refl
  where
    c : Client
    c = new_client id remote ip

    s' : Server
    s' = record s { guard = (admit s.guard ip now).0 }

    go : (r : Option Refusal) → (admit s.guard ip now).1 ≡ r → Sound (entering c r s')
    go (some x) e =
        audited-Sound s (s.audit ++ (denied_event remote ∷ [])) (admit s.guard ip now).0 v
          (admit_refused s.guard ip now x e)
    go none e = record {
      counted = λ j. admit_one s.guard ip j now e ∙ ground (arith, v.counted j);
      few = v.few;
      each = v.each;
      fresh = (new_client-Admitted id remote ip, v.fresh);
      tracked = v.tracked;
      guarded = admit-Inv s.guard ip now v.guarded;
      cap = admit-max_active s.guard ip now ∙ v.cap;
    }

pub upgrade-Sound :
    (token : Text) (b : Bool) (i : ℕ) (s : Server) → Sound s → Sound (upgrade token b i s)
unfolding upgrade
upgrade-Sound token b i s v = go (client_at i s.upgrading) refl b
  where
    without : Server
    without = record s { upgrading = remove_at i s.upgrading }

    counted :
        (c : Client)
        → client_at i s.upgrading ≡ some c
        → (j : String)
        → active_of s.guard j ≡ (if j == c.ip then suc (holders j without) else holders j without)
    counted c e j = v.counted j ∙ ground (arith, connections_with j i c s.upgrading e)

    go :
        (o : Option Client)
        → client_at i s.upgrading ≡ o
        → (b : Bool) → Sound (upgraded token b o i s)
    go none e b = v
    go (some c) e true =
        accept-Sound token c without (counted c e) v.few
          (All-client_at Admitted i c s.upgrading e v.fresh) v.each
          (All-remove_at Admitted i s.upgrading v.fresh) v.tracked v.guarded v.cap
    go (some c) e false = record {
      counted = λ j. given_back s.guard c.ip j (holders j without) (counted c e j);
      few = v.few;
      each = v.each;
      fresh = All-remove_at Admitted i s.upgrading v.fresh;
      tracked = v.tracked;
      guarded = release-Inv s.guard c.ip v.guarded;
      cap = release-max_active s.guard c.ip ∙ v.cap;
    }

pub reject-Sound : (i : ℕ) (s : Server) → Sound s → Sound (reject i s)
unfolding reject
reject-Sound i s v = go (client_at i s.rejected) refl
  where
    without : Server
    without = record s { rejected = remove_at i s.rejected }

    counted :
        (c : Client)
        → client_at i s.rejected ≡ some c
        → (j : String)
        → active_of s.guard j ≡ (if j == c.ip then suc (holders j without) else holders j without)
    counted c e j = v.counted j ∙ ground (arith, connections_with j i c s.rejected e)

    go : (o : Option Client) → client_at i s.rejected ≡ o → Sound (turn_away o i s)
    go none e = v
    go (some c) e = record {
      counted = λ j. given_back s.guard c.ip j (holders j without) (counted c e j);
      few = v.few;
      each = v.each;
      fresh = v.fresh;
      tracked = v.tracked;
      guarded = release-Inv s.guard c.ip v.guarded;
      cap = release-max_active s.guard c.ip ∙ v.cap;
    }

pub unregister-Sound : (i : ℕ) (s : Server) → Sound s → Sound (unregister i s)
unfolding unregister connections
unregister-Sound i s v = go (client_at i s.clients) refl
  where
    go : (o : Option Client) → client_at i s.clients ≡ o → Sound (forget o i s)
    go none e = v
    go (some c) e = record {
      counted = λ j. v.counted j ∙ ground (arith, connections_with j i c s.clients e);
      few = omega (arith, length-remove_at i s.clients, v.few);
      each = All-remove_at Admitted i s.clients v.each;
      fresh = v.fresh;
      tracked = (All-client_at Admitted i c s.clients e v.each, v.tracked);
      guarded = v.guarded;
      cap = v.cap;
    }

pub release_slot-Sound : (i : ℕ) (s : Server) → Sound s → Sound (release_slot i s)
unfolding release_slot
release_slot-Sound i s v = go (client_at i s.leaving) refl
  where
    without : Server
    without = record s { leaving = remove_at i s.leaving }

    counted :
        (c : Client)
        → client_at i s.leaving ≡ some c
        → (j : String)
        → active_of s.guard j ≡ (if j == c.ip then suc (holders j without) else holders j without)
    counted c e j = v.counted j ∙ ground (arith, connections_with j i c s.leaving e)

    gone :
        (c : Client) (b : Bool)
        → client_at i s.leaving ≡ some c
        → b ≡ true
        → Sound (record s {
          leaving = remove_at i s.leaving;
          guard = if b then release s.guard c.ip else s.guard;
        })
    gone c true e t = record {
      counted = λ j. given_back s.guard c.ip j (holders j without) (counted c e j);
      few = v.few;
      each = v.each;
      fresh = v.fresh;
      tracked = All-remove_at Admitted i s.leaving v.tracked;
      guarded = release-Inv s.guard c.ip v.guarded;
      cap = release-max_active s.guard c.ip ∙ v.cap;
    }
    gone c false e t = absurd cc

    go : (o : Option Client) → client_at i s.leaving ≡ o → Sound (let_go o i s)
    go none e = v
    go (some c) e = gone c c.ip_tracked e (All-client_at Admitted i c s.leaving e v.tracked).1
