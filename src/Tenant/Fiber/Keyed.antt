-- ===== src/Tenant/Fiber/Keyed.antt =====
-- integrations/fiber/tenant.go: the key that the tenant is stored under, and the one that is read.
use beacon_auth.Prelude.{
  String, ◌≡◌, refl, ap, ◌∙◌, none, some, ◌==◌, if◌then◌else◌, Bool-cases, inl, inr,
}
use beacon_auth.Prelude.Dict.{Dict, get, put, get-put}
use beacon_auth.Core.Types.{Result}
use beacon_auth.Tenant.{TenantRequest, tenant_of}
use beacon_auth.Tenant.Fiber.{
  FiberConfig, get_tenant, or_empty, tenant_middleware, tenant_isolation_middleware, with_adapter,
}

get_tenant-put :
    (config : FiberConfig) (locals : Dict String) (tenant : String)
    → get locals "tenant" ≡ none
    → get_tenant (put locals config.tenant_key tenant)
      ≡ (if config.tenant_key == "tenant" then tenant else "")
unfolding get_tenant
get_tenant-put config locals tenant n =
    ap or_empty (get-put locals config.tenant_key "tenant" tenant)
    ∙ elim (Bool-cases (config.tenant_key == "tenant")) [
      | inl t ↦ rw t refl
      | inr f ↦ rw (f, n) refl
    ]

-- If no tenant is in the locals of a request, TenantIsolationMiddleware behind TenantMiddleware loads
-- the adapter of the request's tenant and runs the handler with it where the configuration keeps the
-- tenant under "tenant" and there is one, answers with the failure where the adapter cannot be loaded,
-- and refuses every request where the configuration keeps the tenant under another key.
pub tenant_isolation_middleware_lem :
    {A B : Type 0} (config : FiberConfig) (get_tenant_adapter : String → Result B)
    (refusal failure : A) (next : B → Dict String → TenantRequest → A) (locals : Dict String)
    (r : TenantRequest)
    → get locals "tenant" ≡ none
    → (let kept = put locals config.tenant_key (tenant_of config.shared r) in
        tenant_middleware
          (some config)
          (tenant_isolation_middleware get_tenant_adapter refusal failure next)
          locals
          r
        ≡ (if config.tenant_key == "tenant"
            then if tenant_of config.shared r == ""
              then refusal
              else with_adapter get_tenant_adapter refusal failure next
                  (get_tenant_adapter (tenant_of config.shared r))
                  kept
                  r
            else refusal))
unfolding tenant_middleware tenant_isolation_middleware
tenant_isolation_middleware_lem config get_tenant_adapter refusal failure next locals r n =
    rw (get_tenant-put config locals (tenant_of config.shared r) n)
      (elim (Bool-cases (config.tenant_key == "tenant")) [ inl t ↦ rw t refl | inr f ↦ rw f refl ])
