-- ===== src/Tenancy/Tests.antt =====
-- Runs of the tenants and of their quotas.
use email_security_gateway.Prelude.{◌≡◌, ◌≢◌, refl, none, some, [], ◌∷◌, arith, List}
use email_security_gateway.Int.{pos}
use email_security_gateway.Dict
use email_security_gateway.Text.{
  str, str_eq, str_beq, lower, to_lower, strip, lstrip, drop_last, is_space, split, last_part, join,
}
use email_security_gateway.Tenancy.Manager.{
  Tenant, TenantManager, Onboarding, no_tenants, new_tenant, create_tenant, get_tenant_by_domain,
  deprovision_tenant, get_tenant, map_domains, normalized, parent_of,
}
use email_security_gateway.Tenancy.Manager.Routing.{
  IsRouted, Reach, none_yet, next, onboarded, Reach-IsRouted,
}
use email_security_gateway.Tenancy.Manager.Offboarding.{offboarding_spares}
use email_security_gateway.Tenancy.RateLimiter.Quota.{Request}

abbrev acme : Onboarding
acme = record {
  tenant_id = str "a";
  name = str "Acme";
  domains = str "Acme.test" ∷ [];
  encryption_key = [];
  warn_threshold = pos 40;
  quarantine_threshold = pos 70;
  max_requests_per_minute = 500;
  vt_api_key = none;
  gsb_api_key = none;
  timezone = str "UTC";
}

abbrev bolt : Onboarding
bolt = record acme { tenant_id = str "b"; domains = str "bolt.test" ∷ [] }

abbrev two : TenantManager
two = (create_tenant (str "k2") 2 bolt (create_tenant (str "k1") 1 acme no_tenants).1).1

two-Reach : Reach two
two-Reach =
    next (next none_yet (onboarded (str "k1") 1 acme no_tenants))
      (onboarded (str "k2") 2 bolt (create_tenant (str "k1") 1 acme no_tenants).1)

Reach-IsRouted_example : IsRouted two
Reach-IsRouted_example = Reach-IsRouted two-Reach

abbrev acme_tenant : Tenant
acme_tenant = new_tenant (str "k1") 1 acme

abbrev bolt_tenant : Tenant
bolt_tenant = new_tenant (str "k2") 2 bolt

offboarding_spares_example :
    (get_tenant_by_domain (str "x@mail.bolt.test") (deprovision_tenant (str "a") two).1
      ≡ some bolt_tenant)
    × (get_tenant_by_domain (str "acme.test") (deprovision_tenant (str "a") two).1
        ≢ some acme_tenant)
unfolding create_tenant new_tenant get_tenant_by_domain get_tenant map_domains normalized parent_of
    Dict.get Dict.put str_beq lower to_lower strip lstrip drop_last is_space split last_part join
offboarding_spares_example =
    offboarding_spares (str "a") (str "x@mail.bolt.test") (str "acme.test") two bolt_tenant
      acme_tenant two-Reach refl (λ e. ground arith) refl

abbrev earlier : List Request
earlier = (str "a", 10) ∷ (str "a", 50) ∷ []

abbrev busy : List Request
busy = (str "a", 61) ∷ (str "b", 62) ∷ (str "a", 63) ∷ (str "a", 119) ∷ []
