-- ===== src/Agent/IpGuard/Invariant.antt =====
-- What holds of an ipGuard between two calls.
use lan_commander.Base.{
  not, ◌&&◌, ℕ, ◌+◌, ◌-◌, ◌≤◌, ◌<◌, ◌≡◌, ◌≢◌, ◌↔◌, String, false, Option, none, some, List, [], ◌∷◌,
  arith, ltb, if◌then◌else◌, string_eq, ◌==◌,
}
use lan_commander.Base.Dict
use lan_commander.Base.Dict.{
  NodupKeys, lookup-nil, lookup-insert, lookup-erase, insert-NodupKeys, erase-NodupKeys,
  discard-NodupKeys, lookup-discard,
}
use lan_commander.Agent.IpGuard.{
  FailureRecord, IpGuard, new_ip_guard, Call, admits, releases, fails, succeeds, active_of,
  is_blocked, admit, release, prune_locked, current, count_failure, fail, succeed, step, run,
  is_expired,
}

abbrev pub count_of : Option FailureRecord → ℕ
count_of none = 0
count_of (some r) = r.count

-- No address holds more slots than the limit, no entry counts nothing, no key stands twice, and no
-- failure count reaches the limit.
pub record Inv (g : IpGuard) : Type 0 where
  pub keys : NodupKeys g.active × NodupKeys g.failures
  pub capped : (ip : String) → active_of g ip ≤ g.max_active
  pub positive : (ip : String) → Dict.lookup ip g.active ≢ some 0
  pub counted : (ip : String) → count_of (Dict.lookup ip g.failures) < g.max_failures

pub new_ip_guard-Inv : Inv new_ip_guard
unfolding Dict.lookup active_of
new_ip_guard-Inv = record {
  keys = (tt, tt);
  capped = λ ip. omega arith;
  positive = λ ip h. cc;
  counted = λ ip. omega arith;
}

pub admit-Inv : (g : IpGuard) (ip : String) (now : ℕ) → Inv g → Inv (admit g ip now).0
unfolding admit
admit-Inv g ip now v =
    let put = λ (j : String). lookup-insert j ip (active_of g ip + 1) g.active in
    record {
      keys = ground (arith, v.keys, insert-NodupKeys ip (active_of g ip + 1) g.active);
      capped = λ j. ground (arith, v.capped j, v.capped ip, put j);
      positive = λ j h. ground (arith, v.positive j, put j);
      counted = λ j. ground (arith, v.counted j);
    }

pub release-Inv : (g : IpGuard) (ip : String) → Inv g → Inv (release g ip)
unfolding release
release-Inv g ip v =
    let put = λ (j : String). lookup-insert j ip (active_of g ip - 1) g.active in
    let cut = λ (j : String). lookup-erase j ip g.active in
    record {
      keys = ground (
        arith,
        v.keys,
        erase-NodupKeys ip g.active,
        insert-NodupKeys ip (active_of g ip - 1) g.active,
      );
      capped = λ j. ground (arith, v.capped j, v.capped ip, put j, cut j);
      positive = λ j h. ground (arith, v.positive j, put j, cut j);
      counted = λ j. ground (arith, v.counted j);
    }

prune_locked-Inv : (g : IpGuard) (now : ℕ) → Inv g → Inv (prune_locked g now)
unfolding prune_locked active_of
prune_locked-Inv g now v = record {
  keys = ground (arith, v.keys, discard-NodupKeys (λ _ r. is_expired g.window now r) g.failures);
  capped = λ j. ground (arith, v.capped j);
  positive = λ j h. ground (arith, v.positive j);
  counted = λ j.
      ground (
        arith,
        v.counted j,
        v.keys,
        lookup-discard (λ _ r. is_expired g.window now r) j g.failures,
      );
}

count_failure_bound :
    (max_failures block window now : ℕ) (o : Option FailureRecord)
    → 0 < max_failures
    → (count_failure max_failures block now (current window now o)).count < max_failures
unfolding count_failure
count_failure_bound max_failures block window now o h = ground arith

pub fail-Inv : (g : IpGuard) (ip : String) (now : ℕ) → Inv g → Inv (fail g ip now)
unfolding fail active_of
fail-Inv g ip now v =
    let h = prune_locked g now in
    let w = prune_locked-Inv g now v in
    let rec =
      count_failure h.max_failures h.block now (current h.window now (Dict.lookup ip h.failures)) in
    record {
      keys = (w.keys.0, insert-NodupKeys ip rec h.failures w.keys.1);
      capped = w.capped;
      positive = w.positive;
      counted = λ j. ground (
        arith,
        w.counted j,
        lookup-insert j ip rec h.failures,
        count_failure_bound h.max_failures h.block h.window now (Dict.lookup ip h.failures),
      );
    }

pub succeed-Inv : (g : IpGuard) (ip : String) → Inv g → Inv (succeed g ip)
unfolding succeed active_of
succeed-Inv g ip v = record {
  keys = (v.keys.0, erase-NodupKeys ip g.failures v.keys.1);
  capped = v.capped;
  positive = v.positive;
  counted = λ j. ground (arith, v.counted j, lookup-erase j ip g.failures);
}

-- Every call keeps the invariant.
pub step-Inv : (g : IpGuard) (c : ℕ × Call) → Inv g → Inv (step g c)
unfolding step
step-Inv g (now, admits ip) v = admit-Inv g ip now v
step-Inv g (now, releases ip) v = release-Inv g ip v
step-Inv g (now, fails ip) v = fail-Inv g ip now v
step-Inv g (now, succeeds ip) v = succeed-Inv g ip v

run-Inv : (g : IpGuard) (cs : List (ℕ × Call)) → Inv g → Inv (run g cs)
unfolding run
run-Inv g [] v = v
run-Inv g (c ∷ cs) v = run-Inv (step g c) cs (step-Inv g c v)

-- After any calls at any times, from a new guard, the invariant holds.
pub run-new-Inv : (cs : List (ℕ × Call)) → Inv (run new_ip_guard cs)
run-new-Inv cs = run-Inv new_ip_guard cs new_ip_guard-Inv

-- `admit` reserves a slot exactly when the address is not blocked and below its limit; then it adds
-- one to the count of this address and leaves the others; when it refuses, nothing changes.
pub admit_exact :
    (g : IpGuard) (ip : String) (now : ℕ)
    → (((admit g ip now).1 ≡ none)
        ↔ ((is_blocked g ip now ≡ false) × (active_of g ip < g.max_active)))
      × ((j : String)
          → active_of (admit g ip now).0 j ≡ (
              if ltb (active_of g ip) g.max_active && not (is_blocked g ip now) && j == ip
              then active_of g j + 1
              else active_of g j))
      × ((admit g ip now).1 ≢ none → (admit g ip now).0 ≡ g)
unfolding admit
admit_exact g ip now = (
  ground arith,
  λ j. ground (arith, lookup-insert j ip (active_of g ip + 1) g.active),
  λ h. ground arith,
)

-- `release` takes one from the count of its address, stops at 0, and leaves the others.
pub release_exact :
    (g : IpGuard) (ip j : String)
    → active_of (release g ip) j ≡ (if j == ip then active_of g j - 1 else active_of g j)
unfolding release
release_exact g ip j =
    ground (arith, lookup-insert j ip (active_of g ip - 1) g.active, lookup-erase j ip g.active)
