-- ===== src/Agent/IpGuard.antt =====
-- agent/internal/server/ipguard.go: live connections and authentication failures per remote address.
-- Times are nanoseconds since a common origin, of which the zero time.Time is 0; `now` is the value
-- that the method reads from the clock. A method returns the new guard.
pub mod Invariant
pub mod Blocking
mod Tests
use lan_commander.Base.{
  ℕ, ◌+◌, ◌-◌, String, Bool, true, false, Option, none, some, List, [], ◌∷◌, ltb, leb,
  if◌then◌else◌, not, ◌&&◌, string_eq,
}
use lan_commander.Base.Dict
use lan_commander.Base.Dict.{Dict, size}

pub record FailureRecord : Type 0 where
  pub count : ℕ
  pub window_start : ℕ
  pub blocked_until : ℕ

pub record IpGuard : Type 0 where
  pub active : Dict String ℕ
  pub failures : Dict String FailureRecord
  pub max_active : ℕ
  pub max_failures : ℕ
  pub window : ℕ
  pub block : ℕ

abbrev pub max_conns_per_ip : ℕ
max_conns_per_ip = 16

abbrev pub max_auth_failures_per_ip : ℕ
max_auth_failures_per_ip = 20

-- time.Minute
abbrev pub minute : ℕ
minute = 60000000000

abbrev pub new_ip_guard : IpGuard
new_ip_guard = record {
  active = [];
  failures = [];
  max_active = max_conns_per_ip;
  max_failures = max_auth_failures_per_ip;
  window = minute;
  block = minute;
}

-- Why `admit` refuses.
pub data Refusal : Type 0 where
  too_many_failures too_many_connections : Refusal

-- `m[ip]` on a map of counters: 0 where there is none.
abbrev pub or_zero : Option ℕ → ℕ
or_zero none = 0
or_zero (some n) = n

unfoldable pub active_of : IpGuard → String → ℕ
active_of g ip = or_zero (Dict.lookup ip g.active)

-- `rec != nil && now.Before(rec.blockedUntil)`
abbrev pub blocks : Option FailureRecord → ℕ → Bool
blocks none now = false
blocks (some rec) now = ltb now rec.blocked_until

unfoldable pub is_blocked : IpGuard → String → ℕ → Bool
is_blocked g ip now = blocks (Dict.lookup ip g.failures) now

-- The result is `none` when the slot was reserved.
unfoldable pub admit : IpGuard → String → ℕ → IpGuard × Option Refusal
unfolding active_of is_blocked
admit g ip now =
    if is_blocked g ip now
    then (g, some too_many_failures)
    else if leb g.max_active (active_of g ip)
    then (g, some too_many_connections)
    else (record g { active = Dict.insert ip (active_of g ip + 1) g.active }, none)

unfoldable pub release : IpGuard → String → IpGuard
unfolding active_of
release g ip =
    if leb (active_of g ip) 1
    then record g { active = Dict.erase ip g.active }
    else record g { active = Dict.insert ip (active_of g ip - 1) g.active }

-- The test by which `pruneLocked` drops a record.
abbrev pub is_expired : ℕ → ℕ → FailureRecord → Bool
is_expired window now rec = ltb rec.blocked_until now && ltb window (now - rec.window_start)

unfoldable pub prune_locked : IpGuard → ℕ → IpGuard
prune_locked g now =
    if ltb (size g.failures) 1024
    then g
    else record g { failures = Dict.discard (λ ip rec. is_expired g.window now rec) g.failures }

-- `rec`, or a new one if there is none or its window is over.
abbrev pub current : ℕ → ℕ → Option FailureRecord → FailureRecord
current window now none = record { count = 0; window_start = now; blocked_until = 0 }
current window now (some rec) =
    if ltb window (now - rec.window_start)
    then record { count = 0; window_start = now; blocked_until = 0 }
    else rec

-- `rec.count++`, and the block once the count reaches the limit.
unfoldable pub count_failure : ℕ → ℕ → ℕ → FailureRecord → FailureRecord
count_failure max_failures block now rec =
    if leb max_failures (rec.count + 1)
    then record { count = 0; window_start = now; blocked_until = now + block }
    else record rec { count = rec.count + 1 }

unfoldable pub fail : IpGuard → String → ℕ → IpGuard
unfolding prune_locked count_failure
fail g ip now =
    let h = prune_locked g now in
    record h {
      failures =
          Dict.insert ip
            (count_failure h.max_failures h.block now
              (current h.window now (Dict.lookup ip h.failures)))
            h.failures;
    }

unfoldable pub succeed : IpGuard → String → IpGuard
succeed g ip = record g { failures = Dict.erase ip g.failures }

-- The calls that the server makes, each with the time at which it is made.
pub data Call : Type 0 where
  admits releases fails succeeds : String → Call

unfoldable pub step : IpGuard → ℕ × Call → IpGuard
step g (now, admits ip) = (admit g ip now).0
step g (now, releases ip) = release g ip
step g (now, fails ip) = fail g ip now
step g (now, succeeds ip) = succeed g ip

unfoldable pub run : IpGuard → List (ℕ × Call) → IpGuard
run g [] = g
run g (c ∷ cs) = run (step g c) cs
