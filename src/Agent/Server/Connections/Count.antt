-- ===== src/Agent/Server/Connections/Count.antt =====
-- Counting the active connections.
use lan_commander.Base.{
  ℕ, zero, suc, ◌-◌, ◌≤◌, ◌≡◌, refl, sym, ap, subst, ◌∙◌, true, some, List, [], ◌∷◌, arith,
  if◌then◌else◌, length, ◌==◌, string_eq, String,
}
use lan_commander.Os.Path.Elements.{All}
use lan_commander.Agent.Server.{Client}
use lan_commander.Agent.Server.Connections.{client_at, set_at, remove_at}

-- The active connections of an address.
unfoldable pub connections : String → List Client → ℕ
connections ip [] = 0
connections ip (c ∷ cs) = if ip == c.ip then suc (connections ip cs) else connections ip cs

-- One connection changes, and not its address.
pub connections-set_at :
    (ip : String) (i : ℕ) (c d : Client) (cs : List Client)
    → client_at i cs ≡ some c
    → d.ip ≡ c.ip
    → connections ip (set_at i d cs) ≡ connections ip cs
unfolding connections
connections-set_at ip i c d [] e s = refl
connections-set_at ip zero c d (x ∷ cs) e s =
    let same : x ≡ c = cc e in
    ap (λ (y : String). if ip == y then suc (connections ip cs) else connections ip cs)
      (s ∙ ap (λ (y : Client). y.ip) (sym same))
connections-set_at ip (suc i) c d (x ∷ cs) e s =
    ap (λ (n : ℕ). if ip == x.ip then suc n else n) (connections-set_at ip i c d cs e s)

pub length-set_at : (i : ℕ) (d : Client) (cs : List Client) → length (set_at i d cs) ≡ length cs
length-set_at i d [] = refl
length-set_at zero d (x ∷ cs) = refl
length-set_at (suc i) d (x ∷ cs) = ap suc (length-set_at i d cs)

pub All-set_at :
    (P : Client → Type 0) (i : ℕ) (d : Client) (cs : List Client)
    → P d
    → All P cs
    → All P (set_at i d cs)
All-set_at P i d [] p a = a
All-set_at P zero d (x ∷ cs) p (q, a) = (p, a)
All-set_at P (suc i) d (x ∷ cs) p (q, a) = (q, All-set_at P i d cs p a)

pub All-client_at :
    (P : Client → Type 0) (i : ℕ) (c : Client) (cs : List Client)
    → client_at i cs ≡ some c
    → All P cs
    → P c
All-client_at P i c [] e a = absurd cc
All-client_at P zero c (x ∷ cs) e (p, a) = subst P (cc e) p
All-client_at P (suc i) c (x ∷ cs) e (p, a) = All-client_at P i c cs e a

connections_positive :
    (ip : String) (i : ℕ) (c : Client) (cs : List Client)
    → client_at i cs ≡ some c
    → (ip == c.ip) ≡ true
    → 1 ≤ connections ip cs
unfolding connections
connections_positive ip i c [] e h = absurd cc
connections_positive ip zero c (x ∷ cs) e h =
    let same : x ≡ c = cc e in
    let h' : (ip == x.ip) ≡ true = subst (λ (y : Client). (ip == y.ip) ≡ true) (sym same) h in
    ground arith
connections_positive ip (suc i) c (x ∷ cs) e h =
    let rest = connections_positive ip i c cs e h in ground (arith, rest)

-- One connection goes.
connections-remove_at :
    (ip : String) (i : ℕ) (c : Client) (cs : List Client)
    → client_at i cs ≡ some c
    → connections ip (remove_at i cs)
      ≡ (if ip == c.ip then connections ip cs - 1 else connections ip cs)
unfolding connections
connections-remove_at ip i c [] e = absurd cc
connections-remove_at ip zero c (x ∷ cs) e =
    let same : x ≡ c = cc e in
    subst
      (λ (y : Client). connections ip cs ≡ (
        if ip == y.ip
        then (if ip == x.ip then suc (connections ip cs) else connections ip cs) - 1
        else (if ip == x.ip then suc (connections ip cs) else connections ip cs)))
      same (ground arith)
connections-remove_at ip (suc i) c (x ∷ cs) e =
    let rest = connections-remove_at ip i c cs e in
    let here = connections_positive ip i c cs e in ground (arith, rest, here)

-- The same, the other way round.
pub connections_with :
    (ip : String) (i : ℕ) (c : Client) (cs : List Client)
    → client_at i cs ≡ some c
    → connections ip cs ≡ (
        if ip == c.ip
        then suc (connections ip (remove_at i cs))
        else connections ip (remove_at i cs))
connections_with ip i c cs e =
    ground (arith, connections-remove_at ip i c cs e, connections_positive ip i c cs e)

pub length-remove_at : (i : ℕ) (cs : List Client) → length (remove_at i cs) ≤ length cs
length-remove_at i [] = omega arith
length-remove_at zero (x ∷ cs) = omega arith
length-remove_at (suc i) (x ∷ cs) = omega (arith, length-remove_at i cs)

pub All-remove_at :
    (P : Client → Type 0) (i : ℕ) (cs : List Client) → All P cs → All P (remove_at i cs)
All-remove_at P i [] a = a
All-remove_at P zero (x ∷ cs) (p, a) = a
All-remove_at P (suc i) (x ∷ cs) (p, a) = (p, All-remove_at P i cs a)
