-- ===== src/Tenant/Fiber.antt =====
-- integrations/fiber/tenant.go: the tenant in the locals of a request. integrations/echo and
-- integrations/gin keep the tenant in the same way, and have no isolation. What other handlers keep
-- there under names that this code does not use is left out.
pub mod Keyed
use beacon_auth.Prelude.{String, Bool, Option, none, some, List, [], ◌∷◌, ◌==◌, if◌then◌else◌}
use beacon_auth.Prelude.Dict.{Dict, get, put}
use beacon_auth.Core.Types.{Result, ok, err}
use beacon_auth.Tenant.{TenantConfig, TenantRequest, default_tenant_config, tenant_of}

-- TenantConfig
pub record FiberConfig : Type 0 where
  pub shared : TenantConfig
  pub tenant_key : String

abbrev pub default_fiber_config : FiberConfig
default_fiber_config = record { shared = default_tenant_config; tenant_key = "tenant" }

abbrev pub or_default : Option FiberConfig → FiberConfig
or_default none = default_fiber_config
or_default (some config) = config

abbrev pub or_empty : Option String → String
or_empty none = ""
or_empty (some tenant) = tenant

-- GetTenant
unfoldable pub get_tenant : Dict String → String
get_tenant locals = or_empty (get locals "tenant")

module _ {A : Type 0} where
  -- TenantMiddleware
  unfoldable pub tenant_middleware :
      Option FiberConfig → (Dict String → TenantRequest → A) → Dict String → TenantRequest → A
  tenant_middleware config next locals r =
      let c = or_default config in next (put locals c.tenant_key (tenant_of c.shared r)) r

  -- RequireTenant: `refusal` is the answer 400.
  unfoldable pub require_tenant :
      A → (Dict String → TenantRequest → A) → Dict String → TenantRequest → A
  require_tenant refusal next locals r = if get_tenant locals == "" then refusal else next locals r

  module _ {B : Type 0} (get_tenant_adapter : String → Result B) (refusal failure : A) where
    -- The adapter of the tenant is put into the locals, which is given to the next handler beside
    -- them.
    abbrev pub with_adapter :
        (B → Dict String → TenantRequest → A) → Result B → Dict String → TenantRequest → A
    with_adapter next (err e) locals r = failure
    with_adapter next (ok adapter) locals r = next adapter locals r

    -- TenantIsolationMiddleware: `failure` is the answer 500.
    unfoldable pub tenant_isolation_middleware :
        (B → Dict String → TenantRequest → A) → Dict String → TenantRequest → A
    tenant_isolation_middleware next locals r =
        let tenant = get_tenant locals in
        if tenant == "" then refusal else with_adapter next (get_tenant_adapter tenant) locals r
