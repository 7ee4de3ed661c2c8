-- ===== src/Agent/IpGuard/Tests.antt =====
-- Runs of the guard, and the theorems at concrete inputs.
use lan_commander.Base.{
  ℕ, ◌≡◌, refl, String, true, false, some, List, ◌∷◌, arith, string_eq, replicate, ne_of_==_false,
}
use lan_commander.Base.Dict
use lan_commander.Agent.IpGuard.{new_ip_guard, is_blocked, admit, fail, too_many_failures}
use lan_commander.Agent.IpGuard.Invariant.{new_ip_guard-Inv}
use lan_commander.Agent.IpGuard.Blocking.{fail_isolated, fails_at, burst_blocks}

abbrev peer : String
peer = "192.168.1.20"

abbrev other : String
other = "192.168.1.21"

abbrev later : List ℕ
later = replicate 19 1000

blocked_after_twenty :
    (admit (fails_at new_ip_guard peer (0 ∷ later)) peer 2000).1 ≡ some too_many_failures
unfolding admit fails_at fail string_eq Dict.lookup Dict.insert
blocked_after_twenty = refl

fail_isolated_example : is_blocked (fail new_ip_guard peer 3) other 9 ≡ false
unfolding is_blocked Dict.lookup string_eq
fail_isolated_example =
    fail_isolated new_ip_guard peer other 3 9 new_ip_guard-Inv (ne_of_==_false other peer refl)
      (omega arith)

burst_blocks_example : is_blocked (fails_at new_ip_guard peer (0 ∷ later)) peer 60000000999 ≡ true
unfolding Dict.lookup
burst_blocks_example =
    burst_blocks new_ip_guard peer 0 later 60000000999 new_ip_guard-Inv refl refl (omega arith)
