-- ===== src/Auth/Models.antt =====
-- auth_checker/models.py: the result codes and types that the modelled checks exchange.
use email_security_gateway.Prelude.{ℕ, Bool, Option}
use email_security_gateway.Int.{ℤ}
use email_security_gateway.Text.{Str}

-- `none_found` is the source's NONE of each enumeration.
pub data SpfResultCode : Type 0 where
  pass fail softfail neutral none_found temperror permerror : SpfResultCode

pub data DkimResultCode : Type 0 where
  pass fail none_found temperror permerror : DkimResultCode

pub data DmarcPolicy : Type 0 where
  no_policy quarantine reject : DmarcPolicy

pub data DmarcResultCode : Type 0 where
  pass fail none_found temperror permerror : DmarcResultCode

pub record SpfResult : Type 0 where
  pub code : SpfResultCode
  pub domain : Str
  pub client_ip : Str
  pub explanation : Str
  pub dns_lookups_used : ℕ

pub record DkimResult : Type 0 where
  pub code : DkimResultCode
  pub signing_domain : Str
  pub selector : Str
  pub explanation : Str

pub record DmarcResult : Type 0 where
  pub code : DmarcResultCode
  pub record_found : Bool
  pub policy : DmarcPolicy
  pub subdomain_policy : Option DmarcPolicy
  pub pct : ℤ
  pub spf_alignment_mode : Str
  pub dkim_alignment_mode : Str
  pub spf_aligned : Bool
  pub dkim_aligned : Bool
  pub organizational_domain : Str
  pub explanation : Str
