-- ===== src/Facade/Policies.antt =====
-- sdk/facade/src/policies.rs with policies/kill.rs and policies/timeout.rs. Times are milliseconds.
use knot_ops.Prelude.{ℕ, Option, none}

pub record TimeoutPolicy : Type 0 where
  pub fast_commands : ℕ
  pub long_streams : Option ℕ

pub record KillPolicy : Type 0 where
  pub graceful_timeout : ℕ
  pub force_timeout : ℕ

pub record PolicyConfig : Type 0 where
  pub timeout : TimeoutPolicy
  pub kill : KillPolicy

-- The three `Default` implementations.
unfoldable pub default_timeout : TimeoutPolicy
default_timeout = record { fast_commands = 3000; long_streams = none }

unfoldable pub default_kill : KillPolicy
default_kill = record { graceful_timeout = 200; force_timeout = 100 }

unfoldable pub default_policy : PolicyConfig
unfolding default_timeout default_kill
default_policy = record { timeout = default_timeout; kill = default_kill }

unfoldable pub new_kill_policy : ℕ → ℕ → KillPolicy
new_kill_policy graceful_timeout force_timeout = record {
  graceful_timeout = graceful_timeout;
  force_timeout = force_timeout;
}
