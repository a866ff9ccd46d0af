-- ===== src/Control/Heartbeat.antt =====
-- crates/akurai-control/src/heartbeat.rs: when a device counts as online.
use akur_ai_vpn.Base.{ℕ, ◌-◌, Bool, leb}
use akur_ai_vpn.Base.Text.{Str}

abbrev pub heartbeat_ttl_secs : ℕ
heartbeat_ttl_secs = 120

pub record Heartbeat : Type 0 where
  pub endpoint : Str
  pub last_seen : ℕ

-- `saturating_sub` is the subtraction of natural numbers.
unfoldable pub is_online : ℕ → ℕ → Bool
is_online last_seen now = leb (now - last_seen) heartbeat_ttl_secs
