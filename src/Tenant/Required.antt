-- ===== src/Tenant/Required.antt =====
-- integrations/http/tenant.go: the tenant of a host, and a request that needs one.
use text.Mathlib.TextLemmas.{append_assoc}
use beacon_auth.Prelude.{
  String, str_append, ◌≡◌, refl, sym, ap, ◌∙◌, true, false, Option, some, is_some, ◌||◌, Bool-cases,
  inl, inr, ◌==◌,
}
use beacon_auth.Core.Split.{lacks}
use beacon_auth.Tenant.{
  TenantConfig, TenantRequest, has_suffix, is_local, subdomain_label, extract_tenant_from_host,
  tenant_of, tenant_middleware, require_tenant,
}
use beacon_auth.Tenant.Labels.{
  with_port, labels, before_suffix-append, without_port-with_port, first_part-labels,
}

subdomain_label-labels :
    (u base : String) (more : Option String)
    → lacks b'.' u ≡ true
    → (labels u more == base) ≡ false
    → subdomain_label (labels u more) base ≡ u
subdomain_label-labels u base more h k = rw k (first_part-labels (labels u more) u more h)

-- The name of a host under a base domain.
abbrev pub host_name : String → Option String → String → String
host_name u more base = str_append (labels u more) (str_append "." base)

host_name-before : (s base : String) → has_suffix (str_append s (str_append "." base)) base ≡ true
host_name-before s base =
    ap (λ h. has_suffix h base) (sym (append_assoc s "." base))
    ∙ ap is_some (before_suffix-append (str_append s ".") base)

pub extract_tenant-host_name :
    (u base : String) (more port : Option String)
    → lacks b'.' u ≡ true
    → lacks b':' (host_name u more base) ≡ true
    → is_local (host_name u more base) ≡ false
    → (labels u more == base) ≡ false
    → extract_tenant_from_host (with_port (host_name u more base) port) base ≡ u
unfolding extract_tenant_from_host
extract_tenant-host_name u base more port h c l k =
    rw
      (
        without_port-with_port (host_name u more base) port c,
        l,
        host_name-before (labels u more) base,
        before_suffix-append (labels u more) (str_append "." base),
      )
      (subdomain_label-labels u base more h k)

tenant_of-host :
    (config : TenantConfig) (r : TenantRequest) (u : String)
    → (config.tenant_header == "" || r.header config.tenant_header == "") ≡ true
    → (config.base_domain == "") ≡ false
    → (u == "") ≡ false
    → extract_tenant_from_host r.host config.base_domain ≡ u
    → tenant_of config r ≡ u
unfolding tenant_of
tenant_of-host config r u n b e x = elim (Bool-cases (config.tenant_header == "")) [
  | inl t ↦ rw (t, b, x, e) refl
  | inr f ↦
      (let empty : (r.header config.tenant_header == "") ≡ true =
          ap (λ t. t || r.header config.tenant_header == "") (sym f) ∙ n in
        rw (f, empty, b, x, e) refl)
]

-- If the header that may name the tenant is empty or not configured, and the host of the request is
-- a label without a dot that is not empty, further labels or none, the base domain of the
-- configuration, and a port or none, where no other colon is in it, the host is none of the machine
-- itself, and the labels are not the base domain again, then the handler behind TenantMiddleware and
-- RequireTenant runs with that label as the tenant.
pub require_tenant-tenant_middleware :
    {A : Type 0} (config : TenantConfig) (refusal : A) (next : String → TenantRequest → A)
    (r : TenantRequest) (u : String) (more port : Option String)
    → (config.tenant_header == "" || r.header config.tenant_header == "") ≡ true
    → r.host ≡ with_port (host_name u more config.base_domain) port
    → (config.base_domain == "") ≡ false
    → (u == "") ≡ false
    → lacks b'.' u ≡ true
    → lacks b':' (host_name u more config.base_domain) ≡ true
    → is_local (host_name u more config.base_domain) ≡ false
    → (labels u more == config.base_domain) ≡ false
    → tenant_middleware (some config) (require_tenant refusal next) r ≡ next u r
unfolding tenant_middleware require_tenant
require_tenant-tenant_middleware config refusal next r u more port n host b e h c l k =
    rw
      (
        tenant_of-host config r u n b e (
            ap (λ x. extract_tenant_from_host x config.base_domain) host
            ∙ extract_tenant-host_name u config.base_domain more port h c l k),
        e,
      )
      refl
