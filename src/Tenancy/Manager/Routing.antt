-- ===== src/Tenancy/Manager/Routing.antt =====
-- multi_tenancy/tenant_manager.py: to whom a domain belongs, after any operations.
use email_security_gateway.Prelude.{
  ℕ, ◌≡◌, ◌≢◌, ◌∙◌, refl, true, ◌&&◌, Option, none, some, List, [], ◌∷◌, map, ◌==◌, arith,
  Bool-cases, Option-cases, inl, inr, if◌then◌else◌,
}
use email_security_gateway.Dict
use email_security_gateway.Dict.{Dict, get-put, get-remove, ==-refl}
use email_security_gateway.Text.{Str, str_eq, str_beq_iff, lower, member}
use email_security_gateway.Tenancy.Manager.{
  Tenant, TenantManager, Onboarding, TenantUpdate, no_tenants, new_tenant, map_domains, is_owner,
  unmap_domains, create_tenant, get_tenant, with_attributes, update_found, update_tenant, offboard,
  deprovision_tenant,
}

get-map_domains :
    (t : Str) (ds : List Str) (m : Dict Str Str) (d : Str)
    → Dict.get (map_domains t ds m) d ≡ (if member d ds then some t else Dict.get m d)
unfolding map_domains
get-map_domains t [] m d = refl
get-map_domains t (x ∷ ds) m d = ground (
  arith,
  get-map_domains t ds (Dict.put m x t) d,
  get-put m x d t,
  str_beq_iff x d,
  str_beq_iff d x,
)

abbrev released : Str → Str → Dict Str Str → Dict Str Str
released t x m = if is_owner t (Dict.get m x) then Dict.remove m x else m

get-released :
    (t x : Str) (m : Dict Str Str) (d : Str)
    → Dict.get (released t x m) d
      ≡ (if (d == x) && is_owner t (Dict.get m d) then none else Dict.get m d)
get-released t x m d = elim (Bool-cases (d == x)) [
  | inl same ↦
      rw (same, (str_beq_iff d x).0 same)
        (elim (Bool-cases (is_owner t (Dict.get m x))) [
          | inl o ↦ rw o (get-remove m x x ∙ rw (==-refl x) refl)
          | inr o ↦ rw o refl
        ])
  | inr other ↦ rw other (elim (Bool-cases (is_owner t (Dict.get m x))) [
    | inl o ↦ rw o (ground (arith, get-remove m x d, str_beq_iff x d, str_beq_iff d x))
    | inr o ↦ rw o refl
  ])
]

pub get-unmap_domains :
    (t : Str) (ds : List Str) (m : Dict Str Str) (d : Str)
    → Dict.get (unmap_domains t ds m) d
      ≡ (if member d ds && is_owner t (Dict.get m d) then none else Dict.get m d)
unfolding unmap_domains
get-unmap_domains t [] m d = refl
get-unmap_domains t (x ∷ ds) m d =
    get-unmap_domains t ds (released t x m) d ∙ rw (get-released t x m d) (ground arith)

-- Every mapped domain belongs to a tenant that is there and lists it, under its own identifier.
pub record IsRouted (m : TenantManager) : Type 0 where
  pub live :
      (d t : Str)
      → Dict.get m.domain_map d ≡ some t
      → (x : Tenant) × (Dict.get m.tenants t ≡ some x) × (member d x.domains ≡ true)
  pub named : (t : Str) (x : Tenant) → Dict.get m.tenants t ≡ some x → x.tenant_id ≡ t

no_tenants-IsRouted : IsRouted no_tenants
unfolding Dict.get
no_tenants-IsRouted = record { live = λ d t h. cc; named = λ t x h. cc }

-- Who a domain belongs to after a tenant has been put in place with its domains.
abbrev installed : Str → Tenant → Dict Str Str → TenantManager → TenantManager
installed t x cleared m = record {
  tenants = Dict.put m.tenants t x;
  domain_map = map_domains t x.domains cleared;
}

-- The map that is left has no entry of the tenant.
abbrev IsCleared : Str → Dict Str Str → Dict Str Str → Type 0
IsCleared t cleared m =
    (d u : Str) → Dict.get cleared d ≡ some u → (u ≢ t) × (Dict.get m d ≡ some u)

installed-IsRouted :
    (t : Str) (x : Tenant) (cleared : Dict Str Str) (m : TenantManager)
    → IsRouted m
    → IsCleared t cleared m.domain_map
    → x.tenant_id ≡ t
    → IsRouted (installed t x cleared m)
installed-IsRouted t x cleared m r c n = record {
  live = λ d u h. elim (Bool-cases (member d x.domains)) [
    | inl listed ↦ (
      x,
      get-put m.tenants t u x
          ∙ ground (arith, get-map_domains t x.domains cleared d, str_beq_iff t u),
      listed,
    )
    | inr unlisted ↦
        (let old = c d u (ground (arith, get-map_domains t x.domains cleared d)) in
          let (y, there, lists) = r.live d u old.1 in
          (y, ground (arith, get-put m.tenants t u x, str_beq_iff t u), lists))
  ];
  named = λ u y h. elim (Bool-cases (t == u)) [
    | inl same ↦ ground (arith, get-put m.tenants t u x, str_beq_iff t u)
    | inr other ↦ r.named u y (ground (arith, get-put m.tenants t u x))
  ];
}

create_tenant-IsRouted :
    (fresh_key : Str) (now : ℕ) (o : Onboarding) (m : TenantManager)
    → IsRouted m
    → IsRouted (create_tenant fresh_key now o m).1
unfolding create_tenant
create_tenant-IsRouted fresh_key now o m r = elim (Option-cases (Dict.get m.tenants o.tenant_id)) [
  | inl new ↦ rw new (
      installed-IsRouted o.tenant_id (new_tenant fresh_key now o) m.domain_map m r
        (λ d u h. ((λ same. let (y, there, lists) = r.live d u h in ground arith), h))
        (unfold new_tenant in refl))
  | inr (x, e) ↦ rw e r
]

unmapped-IsCleared :
    (t : Str) (x : Tenant) (m : TenantManager)
    → IsRouted m
    → Dict.get m.tenants t ≡ some x
    → IsCleared t (unmap_domains t x.domains m.domain_map) m.domain_map
unmapped-IsCleared t x m r e d u h =
    let old : Dict.get m.domain_map d ≡ some u =
      ground (arith, get-unmap_domains t x.domains m.domain_map d) in
    (
      (λ same.
          let (y, there, lists) = r.live d u old in
          ground (arith, get-unmap_domains t x.domains m.domain_map d, str_beq_iff u t)),
      old,
    )

kept-IsRouted :
    (t : Str) (x y : Tenant) (m : TenantManager)
    → IsRouted m
    → Dict.get m.tenants t ≡ some x
    → y.domains ≡ x.domains
    → y.tenant_id ≡ t
    → IsRouted (record m { tenants = Dict.put m.tenants t y })
kept-IsRouted t x y m r e same n = record {
  live = λ d u h.
      let (z, there, lists) = r.live d u h in
      elim (Bool-cases (t == u)) [
        | inl eq ↦
            (y, ground (arith, get-put m.tenants t u y), rw same (ground (arith, str_beq_iff t u)))
        | inr ne ↦ (z, ground (arith, get-put m.tenants t u y), lists)
      ];
  named = λ u z h. elim (Bool-cases (t == u)) [
    | inl eq ↦ ground (arith, get-put m.tenants t u y, str_beq_iff t u)
    | inr ne ↦ r.named u z (ground (arith, get-put m.tenants t u y))
  ];
}

update_found-IsRouted :
    (t : Str) (u : TenantUpdate) (x : Option Tenant) (m : TenantManager)
    → IsRouted m
    → Dict.get m.tenants t ≡ x
    → IsRouted (update_found t u x m).1
unfolding with_attributes
update_found-IsRouted t u none m r e = r
update_found-IsRouted t u (some x) m r e = elim (Option-cases u.domains) [
  | inl same ↦ rw same (kept-IsRouted t x (with_attributes u x) m r e refl (r.named t x e))
  | inr (ds, new) ↦ rw new (
      installed-IsRouted t (with_attributes u (record x { domains = map lower ds }))
        (unmap_domains t x.domains m.domain_map) m r (unmapped-IsCleared t x m r e) (r.named t x e))
]

update_tenant-IsRouted :
    (t : Str) (u : TenantUpdate) (m : TenantManager) → IsRouted m → IsRouted (update_tenant t u m).1
unfolding update_tenant get_tenant
update_tenant-IsRouted t u m r = update_found-IsRouted t u (Dict.get m.tenants t) m r refl

offboard-IsRouted :
    (t : Str) (x : Option Tenant) (m : TenantManager)
    → IsRouted m
    → Dict.get m.tenants t ≡ x
    → IsRouted (offboard t x m).1
offboard-IsRouted t none m r e = r
offboard-IsRouted t (some x) m r e = record {
  live = λ d u h.
      let (ne, old) = unmapped-IsCleared t x m r e d u h in
      let (y, there, lists) = r.live d u old in
      (y, ground (arith, get-remove m.tenants t u, str_beq_iff t u), lists);
  named = λ u y h. r.named u y (ground (arith, get-remove m.tenants t u));
}

pub deprovision_tenant-IsRouted :
    (t : Str) (m : TenantManager) → IsRouted m → IsRouted (deprovision_tenant t m).1
unfolding deprovision_tenant get_tenant
deprovision_tenant-IsRouted t m r = offboard-IsRouted t (Dict.get m.tenants t) m r refl

-- The operations, in any order and with any arguments
pub data Step : TenantManager → TenantManager → Type 0 where
  onboarded :
      (fresh_key : Str) (now : ℕ) (o : Onboarding) (m : TenantManager)
      → Step m (create_tenant fresh_key now o m).1
  updated : (t : Str) (u : TenantUpdate) (m : TenantManager) → Step m (update_tenant t u m).1
  deprovisioned : (t : Str) (m : TenantManager) → Step m (deprovision_tenant t m).1

pub data Reach : TenantManager → Type 0 where
  none_yet : Reach no_tenants
  next : {m n : TenantManager} → Reach m → Step m n → Reach n

Step-IsRouted : {m n : TenantManager} → Step m n → IsRouted m → IsRouted n
Step-IsRouted (onboarded k now o m) r = create_tenant-IsRouted k now o m r
Step-IsRouted (updated t u m) r = update_tenant-IsRouted t u m r
Step-IsRouted (deprovisioned t m) r = deprovision_tenant-IsRouted t m r

-- After any onboardings, updates and offboardings, every domain in the map belongs to a tenant that is
-- there and lists the domain, and every tenant stands under its own identifier.
pub Reach-IsRouted : {m : TenantManager} → Reach m → IsRouted m
Reach-IsRouted none_yet = no_tenants-IsRouted
Reach-IsRouted (next r st) = Step-IsRouted st (Reach-IsRouted r)
