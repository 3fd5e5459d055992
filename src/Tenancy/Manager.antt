-- ===== src/Tenancy/Manager.antt =====
-- multi_tenancy/tenant_manager.py and models.py. A new key (`Fernet.generate_key`) and the time are
-- arguments; the directory that `deprovision_tenant` may remove is left out, and so is logging.
pub mod Routing
pub mod Offboarding
use email_security_gateway.Prelude.{
  ℕ, suc, Bool, true, false, ◌&&◌, not, Option, none, some, List, [], ◌∷◌, map, ltb, length, drop,
  is_some, is_empty, ◌==◌, if◌then◌else◌,
}
use email_security_gateway.Int.{ℤ}
use email_security_gateway.Dict
use email_security_gateway.Dict.{Dict}
use email_security_gateway.Text.{Str, str, str_eq, lower, strip, split, last_part, join}

pub record Tenant : Type 0 where
  pub tenant_id : Str
  pub name : Str
  pub domains : List Str
  pub status : Str
  pub encryption_key : Str
  pub warn_threshold : ℤ
  pub quarantine_threshold : ℤ
  pub watchlist_domains : List Str
  pub vt_api_key : Option Str
  pub gsb_api_key : Option Str
  pub relay_host : Option Str
  pub max_requests_per_minute : ℕ
  pub timezone : Str
  pub created_at : ℕ

pub record TenantManager : Type 0 where
  pub tenants : Dict Str Tenant
  pub domain_map : Dict Str Str

abbrev pub no_tenants : TenantManager
no_tenants = record { tenants = []; domain_map = [] }

-- The arguments of `create_tenant`; an empty key is one that is not given.
pub record Onboarding : Type 0 where
  pub tenant_id : Str
  pub name : Str
  pub domains : List Str
  pub encryption_key : Str
  pub warn_threshold : ℤ
  pub quarantine_threshold : ℤ
  pub max_requests_per_minute : ℕ
  pub vt_api_key : Option Str
  pub gsb_api_key : Option Str
  pub timezone : Str

unfoldable pub new_tenant : Str → ℕ → Onboarding → Tenant
new_tenant fresh_key now o = record {
  tenant_id = o.tenant_id;
  name = o.name;
  domains = map lower o.domains;
  status = str "active";
  encryption_key = if is_empty o.encryption_key then fresh_key else o.encryption_key;
  warn_threshold = o.warn_threshold;
  quarantine_threshold = o.quarantine_threshold;
  watchlist_domains = [];
  vt_api_key = o.vt_api_key;
  gsb_api_key = o.gsb_api_key;
  relay_host = none;
  max_requests_per_minute = o.max_requests_per_minute;
  timezone = o.timezone;
  created_at = now;
}

-- `for d in domains: self._domain_map[d] = tenant_id`
unfoldable pub map_domains : Str → List Str → Dict Str Str → Dict Str Str
map_domains tenant_id [] m = m
map_domains tenant_id (d ∷ ds) m = map_domains tenant_id ds (Dict.put m d tenant_id)

abbrev pub is_owner : Str → Option Str → Bool
is_owner tenant_id none = false
is_owner tenant_id (some t) = t == tenant_id

-- `for d in domains: if self._domain_map.get(d) == tenant_id: del self._domain_map[d]`
unfoldable pub unmap_domains : Str → List Str → Dict Str Str → Dict Str Str
unmap_domains tenant_id [] m = m
unmap_domains tenant_id (d ∷ ds) m =
    unmap_domains tenant_id ds (if is_owner tenant_id (Dict.get m d) then Dict.remove m d else m)

-- Nothing stands for the ValueError.
unfoldable pub create_tenant : Str → ℕ → Onboarding → TenantManager → Option Tenant × TenantManager
create_tenant fresh_key now o m =
    if Dict.contains m.tenants o.tenant_id
    then (none, m)
    else (let tenant = new_tenant fresh_key now o in
        (
          some tenant,
          record {
            tenants = Dict.put m.tenants o.tenant_id tenant;
            domain_map = map_domains o.tenant_id tenant.domains m.domain_map;
          },
        ))

unfoldable pub get_tenant : Str → TenantManager → Option Tenant
get_tenant tenant_id m = Dict.get m.tenants tenant_id

-- `d.split("@")[-1]` is the whole of a text with no "@".
unfoldable pub normalized : Str → Str
normalized domain = last_part b'@' (strip (lower domain))

-- `if tenant_id:`
abbrev pub truthy : Option Str → Option Str
truthy none = none
truthy (some []) = none
truthy (some (c ∷ cs)) = some (c ∷ cs)

-- The domain without its first label, where it has more than two
unfoldable pub parent_of : Str → Option Str
parent_of domain =
    let parts = split b'.' domain in
    if ltb 2 (length parts) then some (join b'.' (drop 1 parts)) else none

abbrev pub tenant_of : TenantManager → Option Str → Option Tenant
tenant_of m none = none
tenant_of m (some tenant_id) = get_tenant tenant_id m

abbrev pub by_parent : TenantManager → Option Str → Option Tenant
by_parent m none = none
by_parent m (some parent) = tenant_of m (truthy (Dict.get m.domain_map parent))

abbrev pub by_domain : TenantManager → Str → Option Str → Option Tenant
by_domain m domain none = by_parent m (parent_of domain)
by_domain m domain (some tenant_id) = get_tenant tenant_id m

unfoldable pub get_tenant_by_domain : Str → TenantManager → Option Tenant
get_tenant_by_domain domain m =
    let domain_lower = normalized domain in
    by_domain m domain_lower (truthy (Dict.get m.domain_map domain_lower))

-- The keyword arguments of `update_tenant`; those that are not given, or None, are nothing.
pub record TenantUpdate : Type 0 where
  pub domains : Option (List Str)
  pub name : Option Str
  pub status : Option Str
  pub encryption_key : Option Str
  pub warn_threshold : Option ℤ
  pub quarantine_threshold : Option ℤ
  pub watchlist_domains : Option (List Str)
  pub vt_api_key : Option Str
  pub gsb_api_key : Option Str
  pub relay_host : Option Str
  pub max_requests_per_minute : Option ℕ
  pub timezone : Option Str
  pub created_at : Option ℕ

abbrev pub or_else {ℓ} : {A : Type ℓ} → Option A → A → A
or_else none a = a
or_else (some b) a = b

abbrev pub or_kept {ℓ} : {A : Type ℓ} → Option A → Option A → Option A
or_kept none a = a
or_kept (some b) a = some b

unfoldable pub with_attributes : TenantUpdate → Tenant → Tenant
with_attributes u t = record t {
  name = or_else u.name t.name;
  status = or_else u.status t.status;
  encryption_key = or_else u.encryption_key t.encryption_key;
  warn_threshold = or_else u.warn_threshold t.warn_threshold;
  quarantine_threshold = or_else u.quarantine_threshold t.quarantine_threshold;
  watchlist_domains = or_else u.watchlist_domains t.watchlist_domains;
  vt_api_key = or_kept u.vt_api_key t.vt_api_key;
  gsb_api_key = or_kept u.gsb_api_key t.gsb_api_key;
  relay_host = or_kept u.relay_host t.relay_host;
  max_requests_per_minute = or_else u.max_requests_per_minute t.max_requests_per_minute;
  timezone = or_else u.timezone t.timezone;
  created_at = or_else u.created_at t.created_at;
}

abbrev pub with_domains : Str → Option (List Str) → Tenant → Dict Str Str → Tenant × Dict Str Str
with_domains tenant_id none t m = (t, m)
with_domains tenant_id (some ds) t m =
    let new_domains = map lower ds in
    (
      record t { domains = new_domains },
      map_domains tenant_id new_domains (unmap_domains tenant_id t.domains m),
    )

abbrev pub update_found :
    Str → TenantUpdate → Option Tenant → TenantManager → Option Tenant × TenantManager
update_found tenant_id u none m = (none, m)
update_found tenant_id u (some t) m =
    let (t, domain_map) = with_domains tenant_id u.domains t m.domain_map in
    let t = with_attributes u t in
    (some t, record { tenants = Dict.put m.tenants tenant_id t; domain_map = domain_map })

unfoldable pub update_tenant : Str → TenantUpdate → TenantManager → Option Tenant × TenantManager
update_tenant tenant_id u m = update_found tenant_id u (get_tenant tenant_id m) m

abbrev pub offboard : Str → Option Tenant → TenantManager → Bool × TenantManager
offboard tenant_id none m = (false, m)
offboard tenant_id (some t) m = (
  true,
  record {
    tenants = Dict.remove m.tenants tenant_id;
    domain_map = unmap_domains tenant_id t.domains m.domain_map;
  },
)

unfoldable pub deprovision_tenant : Str → TenantManager → Bool × TenantManager
deprovision_tenant tenant_id m = offboard tenant_id (get_tenant tenant_id m) m

unfoldable pub list_tenants : TenantManager → List Tenant
list_tenants m = map (λ (e : Str × Tenant). e.1) m.tenants
