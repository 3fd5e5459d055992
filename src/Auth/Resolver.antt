-- ===== src/Auth/Resolver.antt =====
-- The DNS resolver (dnspython), as a parameter: what each query answers.
use email_security_gateway.Prelude.{Bool, List}
use email_security_gateway.Text.{Str}

-- An answer; NXDOMAIN or NoAnswer; or any other DNSException.
pub data Answer (A : Type 0) : Type 0 where
  answers : A → Answer A
  no_such_record : Answer A
  dns_error : Answer A

pub record Resolver : Type 0 where
  -- TXT records, the strings of each joined and decoded
  pub txt : Str → Answer (List Str)
  -- A records, or AAAA records if the flag is set, as text
  pub address : Bool → Str → Answer (List Str)
  -- the exchanges of the MX records, as text
  pub mx : Str → Answer (List Str)
