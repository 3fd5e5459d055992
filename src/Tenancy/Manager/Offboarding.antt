-- ===== src/Tenancy/Manager/Offboarding.antt =====
-- multi_tenancy/tenant_manager.py: what offboarding a tenant does to the mail of the others.
use email_security_gateway.Prelude.{
  ◌≡◌, ◌≢◌, ◌∙◌, ap, refl, Option, none, some, arith, Option-cases, inl, inr,
}
use email_security_gateway.Dict
use email_security_gateway.Dict.{Dict, get-put, get-remove, ==-refl}
use email_security_gateway.Text.{Str, str_eq, str_beq_iff}
use email_security_gateway.Tenancy.Manager.{
  Tenant, TenantManager, get_tenant, offboard, deprovision_tenant, get_tenant_by_domain, truthy,
  parent_of, by_parent, by_domain, tenant_of, normalized,
}
use email_security_gateway.Tenancy.Manager.Routing.{
  IsRouted, Reach, Reach-IsRouted, get-unmap_domains, deprovision_tenant-IsRouted,
}

-- Who answers for a domain, by its own entry
abbrev owner : TenantManager → Str → Option Str
owner m d = truthy (Dict.get m.domain_map d)

module _ (t : Str) (y : Tenant) (m : TenantManager) where
  abbrev rest : TenantManager
  rest = (offboard t (some y) m).1

  owner-none : (d : Str) → owner m d ≡ none → owner rest d ≡ none
  owner-none d h =
      rw (get-unmap_domains t y.domains m.domain_map d)
        (elim (Option-cases (Dict.get m.domain_map d)) [
          | inl e ↦ ground arith
          | inr (u, e) ↦ ground arith
        ])

  owner-some : (d u : Str) → owner m d ≡ some u → u ≢ t → owner rest d ≡ some u
  owner-some d u h ne =
      rw (get-unmap_domains t y.domains m.domain_map d)
        (elim (Option-cases (Dict.get m.domain_map d)) [
          | inl e ↦ ground arith
          | inr (v, e) ↦ ground (arith, str_beq_iff v t)
        ])

  found-kept :
      (u : Str) (x : Tenant)
      → Dict.get m.tenants u ≡ some x
      → u ≢ t
      → Dict.get rest.tenants u ≡ some x
  found-kept u x h ne = ground (arith, get-remove m.tenants t u, str_beq_iff t u)

  tenant_of-kept :
      (d : Str) (x : Tenant)
      → IsRouted m
      → tenant_of m (owner m d) ≡ some x
      → x.tenant_id ≢ t
      → tenant_of rest (owner rest d) ≡ some x
  unfolding get_tenant
  tenant_of-kept d x r h ne = elim (Option-cases (owner m d)) [
    | inl e ↦ ground arith
    | inr (u, e) ↦
        (let there : Dict.get m.tenants u ≡ some x = ground arith in
          let other : u ≢ t = λ same. ne (r.named u x there ∙ same) in
          rw (owner-some d u e other) (found-kept u x there other))
  ]

  by_parent-kept :
      (p : Option Str) (x : Tenant)
      → IsRouted m
      → by_parent m p ≡ some x
      → x.tenant_id ≢ t
      → by_parent rest p ≡ some x
  by_parent-kept none x r h ne = cc
  by_parent-kept (some d) x r h ne = tenant_of-kept d x r h ne

  by_domain-kept :
      (d : Str) (x : Tenant)
      → IsRouted m
      → by_domain m d (owner m d) ≡ some x
      → x.tenant_id ≢ t
      → by_domain rest d (owner rest d) ≡ some x
  unfolding get_tenant
  by_domain-kept d x r h ne = elim (Option-cases (owner m d)) [
    | inl e ↦ rw (owner-none d e) (by_parent-kept (parent_of d) x r (rw e at h) ne)
    | inr (u, e) ↦
        (let there : Dict.get m.tenants u ≡ some x = rw e at h in
          let other : u ≢ t = λ same. ne (r.named u x there ∙ same) in
          rw (owner-some d u e other) (found-kept u x there other))
  ]

tenant_of-named :
    (m : TenantManager) (o : Option Str) (x : Tenant)
    → IsRouted m
    → tenant_of m o ≡ some x
    → Dict.get m.tenants x.tenant_id ≡ some x
unfolding get_tenant
tenant_of-named m none x r h = cc
tenant_of-named m (some u) x r h = ap (Dict.get m.tenants) (r.named u x h) ∙ h

by_domain-named :
    (m : TenantManager) (d : Str) (o : Option Str) (x : Tenant)
    → IsRouted m
    → by_domain m d o ≡ some x
    → Dict.get m.tenants x.tenant_id ≡ some x
by_domain-named m d (some u) x r h = tenant_of-named m (some u) x r h
by_domain-named m d none x r h = elim (Option-cases (parent_of d)) [
  | inl e ↦ absurd (ground arith)
  | inr (p, e) ↦ tenant_of-named m (owner m p) x r (rw e at h)
]

offboarded_gone :
    (t : Str) (m : TenantManager) → Dict.get (deprovision_tenant t m).1.tenants t ≡ none
unfolding get_tenant deprovision_tenant
offboarded_gone t m = elim (Option-cases (Dict.get m.tenants t)) [
  | inl absent ↦ rw absent absent
  | inr (x, e) ↦ rw e (get-remove m.tenants t t ∙ rw (==-refl t) refl)
]

-- After any operations, offboarding a tenant leaves every domain that leads to another tenant with that
-- tenant, and no domain leads to the offboarded one.
pub offboarding_spares :
    (t domain other : Str) (m : TenantManager) (x y : Tenant)
    → Reach m
    → get_tenant_by_domain domain m ≡ some x
    → x.tenant_id ≢ t
    → y.tenant_id ≡ t
    → (get_tenant_by_domain domain (deprovision_tenant t m).1 ≡ some x)
      × (get_tenant_by_domain other (deprovision_tenant t m).1 ≢ some y)
unfolding get_tenant_by_domain
offboarding_spares t domain other m x y r h ne same = (
  (unfold deprovision_tenant get_tenant in
      elim (Option-cases (Dict.get m.tenants t)) [
        | inl absent ↦ rw absent h
        | inr (z, e) ↦ rw e (by_domain-kept t z m (normalized domain) x (Reach-IsRouted r) h ne)
      ]),
  (λ led.
      let n = (deprovision_tenant t m).1 in
      let after = deprovision_tenant-IsRouted t m (Reach-IsRouted r) in
      let there = by_domain-named n (normalized other) (owner n (normalized other)) y after led in
      ground (arith, offboarded_gone t m)),
)
