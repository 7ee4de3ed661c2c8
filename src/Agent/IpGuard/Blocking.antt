-- ===== src/Agent/IpGuard/Blocking.antt =====
-- What `fail` and `succeed` do to the block of an address, and that they leave other addresses alone.
use lan_commander.Base.{
  ℕ, ◌+◌, ◌≤◌, ◌<◌, ◌≡◌, ◌≢◌, ap, ◌∙◌, String, false, none, some, List, [], ◌∷◌, arith, ltb,
  if◌then◌else◌, string_eq, ◌==◌, length, ltb-false,
}
use lan_commander.Base.Dict
use lan_commander.Base.Dict.{NodupKeys, lookup-insert, lookup-erase, lookup-discard, discard_absent}
use lan_commander.Agent.IpGuard.{
  FailureRecord, IpGuard, is_blocked, prune_locked, current, count_failure, fail, succeed,
  is_expired, blocks,
}
use lan_commander.Agent.IpGuard.Invariant.{Inv, fail-Inv}

-- `pruneLocked` drops no record that still blocks or whose window is open.
lookup-prune_locked :
    (g : IpGuard) (now : ℕ) (ip : String) (r : FailureRecord)
    → NodupKeys g.failures
    → Dict.lookup ip g.failures ≡ some r
    → is_expired g.window now r ≡ false
    → Dict.lookup ip (prune_locked g now).failures ≡ some r
unfolding prune_locked
lookup-prune_locked g now ip r u e h =
    ground (arith, lookup-discard (λ _ r. is_expired g.window now r) ip g.failures)

lookup-prune_locked-none :
    (g : IpGuard) (now : ℕ) (ip : String)
    → Dict.lookup ip g.failures ≡ none
    → Dict.lookup ip (prune_locked g now).failures ≡ none
unfolding prune_locked
lookup-prune_locked-none g now ip e =
    ground (arith, discard_absent (λ _ r. is_expired g.window now r) ip g.failures e)

is_blocked-prune_locked :
    (g : IpGuard) (now t : ℕ) (ip : String)
    → NodupKeys g.failures
    → now ≤ t
    → blocks (Dict.lookup ip (prune_locked g now).failures) t ≡ is_blocked g ip t
unfolding prune_locked is_blocked
is_blocked-prune_locked g now t ip u h =
    ground (arith, lookup-discard (λ _ r. is_expired g.window now r) ip g.failures)

-- A failure of one address, and the pruning that comes with it, neither blocks nor unblocks any other
-- address at that time or later.
pub fail_isolated :
    (g : IpGuard) (ip j : String) (now t : ℕ)
    → Inv g
    → j ≢ ip
    → now ≤ t
    → is_blocked (fail g ip now) j t ≡ is_blocked g j t
unfolding fail is_blocked
fail_isolated g ip j now t v ne h =
    let p = prune_locked g now in
    ground (
      arith,
      is_blocked-prune_locked g now t j v.keys.1,
      lookup-insert j ip
          (count_failure p.max_failures p.block now
            (current p.window now (Dict.lookup ip p.failures)))
          p.failures,
    )

-- Failures of one address, one after the other.
unfoldable pub fails_at : IpGuard → String → List ℕ → IpGuard
fails_at g ip [] = g
fails_at g ip (t ∷ ts) = fails_at (fail g ip t) ip ts

abbrev pub AllWithin : ℕ → List ℕ → Type 0
AllWithin bound [] = Unit
AllWithin bound (t ∷ ts) = (t ≤ bound) × AllWithin bound ts

-- The last time of a non-empty list.
abbrev pub last_time : ℕ → List ℕ → ℕ
last_time t [] = t
last_time t (u ∷ ts) = last_time u ts

prune_locked_limits :
    (g : IpGuard) (now : ℕ)
    → ((prune_locked g now).max_failures ≡ g.max_failures)
      × ((prune_locked g now).block ≡ g.block)
      × ((prune_locked g now).window ≡ g.window)
unfolding prune_locked
prune_locked_limits g now = ground arith

fail_limits :
    (g : IpGuard) (ip : String) (now : ℕ)
    → ((fail g ip now).max_failures ≡ g.max_failures)
      × ((fail g ip now).block ≡ g.block)
      × ((fail g ip now).window ≡ g.window)
unfolding fail
fail_limits g ip now = prune_locked_limits g now

lookup-fail :
    (g : IpGuard) (ip : String) (now : ℕ) (r : FailureRecord)
    → NodupKeys g.failures
    → Dict.lookup ip g.failures ≡ some r
    → now ≤ r.window_start + g.window
    → Dict.lookup ip (fail g ip now).failures ≡ some (count_failure g.max_failures g.block now r)
unfolding fail
lookup-fail g ip now r u e h =
    let p = prune_locked g now in
    ground (
      arith,
      lookup-prune_locked g now ip r u e (ground arith),
      prune_locked_limits g now,
      lookup-insert ip ip
          (count_failure p.max_failures p.block now
            (current p.window now (Dict.lookup ip p.failures)))
          p.failures,
    )

-- The first failure of an address without a record.
lookup-fail_fresh :
    (g : IpGuard) (ip : String) (now : ℕ)
    → Dict.lookup ip g.failures ≡ none
    → Dict.lookup ip (fail g ip now).failures
      ≡ some (
          count_failure g.max_failures g.block now
            (record { count = 0; window_start = now; blocked_until = 0 }))
unfolding fail
lookup-fail_fresh g ip now e =
    let p = prune_locked g now in
    ground (
      arith,
      lookup-prune_locked-none g now ip e,
      prune_locked_limits g now,
      lookup-insert ip ip
          (count_failure p.max_failures p.block now
            (current p.window now (Dict.lookup ip p.failures)))
          p.failures,
    )

is_blocked-count_failure :
    (g : IpGuard) (ip : String) (r : FailureRecord) (max block now t : ℕ)
    → Dict.lookup ip g.failures ≡ some (count_failure max block now r)
    → max ≤ r.count + 1
    → is_blocked g ip t ≡ ltb t (now + block)
unfolding is_blocked count_failure
is_blocked-count_failure g ip r max block now t e h = ground arith

count_failure_below :
    (max block now : ℕ) (r : FailureRecord)
    → r.count + 1 < max
    → count_failure max block now r ≡ record r { count = r.count + 1 }
unfolding count_failure
count_failure_below max block now r h = ground arith

-- From a record with room for `n` failures more, `n + 1` failures in its window block the address.
fails_at_block :
    (g : IpGuard) (ip : String) (r : FailureRecord) (now : ℕ) (ts : List ℕ) (t : ℕ)
    → Inv g
    → Dict.lookup ip g.failures ≡ some r
    → g.max_failures ≡ r.count + 1 + length ts
    → now ≤ r.window_start + g.window
    → AllWithin (r.window_start + g.window) ts
    → is_blocked (fails_at g ip (now ∷ ts)) ip t ≡ ltb t (last_time now ts + g.block)
unfolding fails_at
fails_at_block g ip r now [] t v e n h a =
    is_blocked-count_failure (fail g ip now) ip r g.max_failures g.block now t
      (lookup-fail g ip now r v.keys.1 e h) (omega arith)
fails_at_block g ip r now (u ∷ ts) t v e n h a =
    let next : Dict.lookup ip (fail g ip now).failures ≡ some (record r { count = r.count + 1 }) =
      lookup-fail g ip now r v.keys.1 e h
      ∙ ap some (count_failure_below g.max_failures g.block now r (omega arith)) in
    let (m, b, w) = fail_limits g ip now in
    fails_at_block (fail g ip now) ip (record r { count = r.count + 1 }) u ts t
      (fail-Inv g ip now v) next (omega arith) (rw w a.0) (rw w a.1)
    ∙ ap (λ k. ltb t (last_time u ts + k)) b

-- Below the limit, the failures in the window change no block.
fails_at_below :
    (g : IpGuard) (ip : String) (r : FailureRecord) (ts : List ℕ) (t : ℕ)
    → Inv g
    → Dict.lookup ip g.failures ≡ some r
    → r.count + length ts < g.max_failures
    → AllWithin (r.window_start + g.window) ts
    → is_blocked (fails_at g ip ts) ip t ≡ ltb t r.blocked_until
unfolding fails_at is_blocked
fails_at_below g ip r [] t v e n a = ap (λ o. blocks o t) e
fails_at_below g ip r (u ∷ ts) t v e n a =
    let next : Dict.lookup ip (fail g ip u).failures ≡ some (record r { count = r.count + 1 }) =
      lookup-fail g ip u r v.keys.1 e a.0
      ∙ ap some (count_failure_below g.max_failures g.block u r (omega arith)) in
    let (m, b, w) = fail_limits g ip u in
    fails_at_below (fail g ip u) ip (record r { count = r.count + 1 }) ts t (fail-Inv g ip u v) next
      (omega arith) (rw w a.1)

lookup-fail_first :
    (g : IpGuard) (ip : String) (now : ℕ)
    → Dict.lookup ip g.failures ≡ none
    → 1 < g.max_failures
    → Dict.lookup ip (fail g ip now).failures
      ≡ some (record { count = 1; window_start = now; blocked_until = 0 })
lookup-fail_first g ip now e h =
    let r : FailureRecord = record { count = 0; window_start = now; blocked_until = 0 } in
    lookup-fail_fresh g ip now e
    ∙ ap some (count_failure_below g.max_failures g.block now r (omega arith))

-- An address without a record that fails `max_failures` times, all within the window that its first
-- failure opens, is refused from the last failure on for the length of the block, and no longer.
pub burst_blocks :
    (g : IpGuard) (ip : String) (first : ℕ) (ts : List ℕ) (t : ℕ)
    → Inv g
    → Dict.lookup ip g.failures ≡ none
    → length (first ∷ ts) ≡ g.max_failures
    → AllWithin (first + g.window) ts
    → is_blocked (fails_at g ip (first ∷ ts)) ip t ≡ ltb t (last_time first ts + g.block)
unfolding fails_at
burst_blocks g ip first [] t v e n a =
    is_blocked-count_failure (fail g ip first) ip _ g.max_failures g.block first t
      (lookup-fail_fresh g ip first e) (omega arith)
burst_blocks g ip first (u ∷ ts) t v e n a =
    let r : FailureRecord = record { count = 1; window_start = first; blocked_until = 0 } in
    let (m, b, w) = fail_limits g ip first in
    fails_at_block (fail g ip first) ip r u ts t (fail-Inv g ip first v)
      (lookup-fail_first g ip first e (omega arith)) (omega arith) (rw w a.0) (rw w a.1)
    ∙ ap (λ k. ltb t (last_time u ts + k)) b

-- Fewer failures than the limit, from an address without a record, refuse nothing.
pub few_failures_admit :
    (g : IpGuard) (ip : String) (first : ℕ) (ts : List ℕ) (t : ℕ)
    → Inv g
    → Dict.lookup ip g.failures ≡ none
    → length (first ∷ ts) < g.max_failures
    → AllWithin (first + g.window) ts
    → is_blocked (fails_at g ip (first ∷ ts)) ip t ≡ false
unfolding fails_at
few_failures_admit g ip first ts t v e n a =
    let r : FailureRecord = record { count = 1; window_start = first; blocked_until = 0 } in
    let (m, b, w) = fail_limits g ip first in
    fails_at_below (fail g ip first) ip r ts t (fail-Inv g ip first v)
      (lookup-fail_first g ip first e (omega arith)) (omega arith) (rw w a)
    ∙ ltb-false t 0 (omega arith)

-- A correct authentication lifts the block of its address at once, and of no other.
pub succeed_unblocks :
    (g : IpGuard) (ip j : String) (t : ℕ)
    → is_blocked (succeed g ip) j t ≡ (if j == ip then false else is_blocked g j t)
unfolding succeed is_blocked
succeed_unblocks g ip j t = ground (arith, lookup-erase j ip g.failures)
