-- ===== src/Tests/Tenant.antt =====
-- Runs of the tenant middleware at concrete inputs.
use beacon_auth.Prelude.{◌≡◌, refl, String, false, Option, none, some}
use beacon_auth.Core.Split.{split_at}
use beacon_auth.Tenant as Tenant
use beacon_auth.Prelude.{[]}
use beacon_auth.Prelude.Dict.{Dict, get}
use beacon_auth.Core.Types.{Result, ok}
use beacon_auth.Tenant.Fiber as Fiber
use beacon_auth.Tenant.Fiber.{FiberConfig}
use beacon_auth.Tenant.Fiber.Keyed.{tenant_isolation_middleware_lem}
use beacon_auth.Tenant.{TenantConfig, TenantRequest}
use beacon_auth.Tenant.Required.{host_name, require_tenant-tenant_middleware}

abbrev config : TenantConfig
config = record { base_domain = "example.com"; tenant_header = "X-Tenant-ID"; default_tenant = "" }

abbrev request : TenantRequest
request = record { header = λ name. ""; host = "acme.eu.example.com:8080" }

abbrev handler : String → TenantRequest → Option String
handler tenant r = some tenant

acme_not_local : Tenant.is_local (host_name "acme" (some "eu") "example.com") ≡ false
unfolding Tenant.is_local
acme_not_local = refl

require_tenant-tenant_middleware_example :
    Tenant.tenant_middleware (some config) (Tenant.require_tenant none handler) request
    ≡ some "acme"
require_tenant-tenant_middleware_example =
    require_tenant-tenant_middleware config none handler request "acme" (some "eu") (some "8080")
      refl refl refl refl refl refl acme_not_local refl

-- A host of another domain whose name ends in the base domain.
foreign_run : Tenant.extract_tenant_from_host "evilexample.com" "example.com" ≡ "evilexample"
unfolding Tenant.extract_tenant_from_host Tenant.without_port Tenant.before_suffix Tenant.is_local
    split_at
foreign_run = refl

base_run : Tenant.extract_tenant_from_host "example.com:80" "example.com" ≡ ""
unfolding Tenant.extract_tenant_from_host Tenant.without_port Tenant.before_suffix Tenant.is_local
    split_at
base_run = refl

abbrev misnamed : FiberConfig
misnamed = record { shared = config; tenant_key = "tenant_id" }

abbrev answer : String → Dict String → TenantRequest → Option String
answer adapter locals r = some adapter

abbrev chosen : String → Result String
chosen tenant = ok tenant

nothing_local : get {V = String} [] "tenant" ≡ none
unfolding get
nothing_local = refl

tenant_isolation_middleware_lem_example :
    Fiber.tenant_middleware
      (some misnamed)
      (Fiber.tenant_isolation_middleware chosen (some "400") (some "500") answer)
      []
      request
    ≡ some "400"
tenant_isolation_middleware_lem_example =
    tenant_isolation_middleware_lem misnamed chosen (some "400") (some "500") answer [] request
      nothing_local
