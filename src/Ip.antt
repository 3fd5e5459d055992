-- ===== src/Ip.antt =====
-- The parts of Python's `ipaddress` that the gateway calls, as a parameter: `ip_address(s)` and
-- `ip_network(s, strict=False)` (`none` is the ValueError), `a in n` and `a == b`.
use email_security_gateway.Prelude.{Bool, Option}
use email_security_gateway.Text.{Str}

pub record IpAddress : Type 1 where
  pub Address : Type 0
  pub Network : Type 0
  pub ip_address : Str → Option Address
  pub ip_network : Str → Option Network
  pub is_in : Address → Network → Bool
  pub same : Address → Address → Bool
  -- `a.version == 4`, and `str(n)`
  pub is_v4 : Address → Bool
  pub network_text : Network → Str
