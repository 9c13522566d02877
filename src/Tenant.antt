-- ===== src/Tenant.antt =====
-- integrations/http/tenant.go: the tenant of a request. integrations/chi and integrations/mux have the
-- same code. A request is its headers and its host; the context is given to the next handler as the
-- tenant that it holds.
pub mod Fiber
pub mod Labels
pub mod Required
use Prim.Native.Char.{Char, code}
use beacon_auth.Prelude.{
  String, str_append, Bool, ◌||◌, ◌&&◌, not, Option, none, some, List, [], ◌∷◌, is_some, nat_eq,
  ◌==◌, if◌then◌else◌,
}
use beacon_auth.Core.Split.{split_at}
use beacon_auth.Memory.Where.{str_contains}

pub record TenantConfig : Type 0 where
  pub base_domain : String
  pub tenant_header : String
  pub default_tenant : String

pub record TenantRequest : Type 0 where
  pub header : String → String
  pub host : String

abbrev pub default_tenant_config : TenantConfig
default_tenant_config = record {
  base_domain = "";
  tenant_header = "X-Tenant-ID";
  default_tenant = "";
}

-- What stands before the first colon.
unfoldable pub without_port : String → String
without_port String.[] = ""
without_port (String.◌∷◌ c s) =
    let rest = without_port s in if nat_eq (code c) b':' then "" else String.◌∷◌ c rest

abbrev pub with_char : Char → Option String → Option String
with_char c none = none
with_char c (some s) = some (String.◌∷◌ c s)

-- The text before a suffix, if the text ends in it.
unfoldable pub before_suffix : String → String → Option String
before_suffix String.[] t = if "" == t then some "" else none
before_suffix (String.◌∷◌ c s) t =
    let rest = before_suffix s t in if String.◌∷◌ c s == t then some "" else with_char c rest

-- strings.HasSuffix
abbrev pub has_suffix : String → String → Bool
has_suffix s t = is_some (before_suffix s t)

abbrev pub or_whole : String → Option String → String
or_whole s none = s
or_whole s (some p) = p

-- strings.TrimSuffix
abbrev pub trim_suffix : String → String → String
trim_suffix s t = or_whole s (before_suffix s t)

-- `parts[0]`, or the text itself if there are no parts
abbrev pub first_part : String → List String → String
first_part s [] = s
first_part s (p ∷ ps) = p

-- localhost and the addresses of the machine itself
unfoldable pub is_local : String → Bool
is_local h = h == "localhost" || str_contains h "127.0.0.1" || str_contains h "::1"

abbrev pub subdomain_label : String → String → String
subdomain_label subdomain base =
    if subdomain == base then "" else first_part subdomain (split_at b'.' subdomain)

unfoldable pub extract_tenant_from_host : String → String → String
extract_tenant_from_host hostname base =
    let h = without_port hostname in
    if is_local h
    then ""
    else if not (has_suffix h base)
    then ""
    else subdomain_label (trim_suffix h (str_append "." base)) base

-- The tenant of the header, of the host, or the default one.
unfoldable pub tenant_of : TenantConfig → TenantRequest → String
tenant_of config r =
    let named = if not (config.tenant_header == "") then r.header config.tenant_header else "" in
    let found =
      if named == "" && not (config.base_domain == "")
      then extract_tenant_from_host r.host config.base_domain
      else named in
    if found == "" then config.default_tenant else found

abbrev pub or_default : Option TenantConfig → TenantConfig
or_default none = default_tenant_config
or_default (some config) = config

module _ {A : Type 0} where
  -- TenantMiddleware; a configuration that is nil is the default one.
  unfoldable pub tenant_middleware :
      Option TenantConfig → (String → TenantRequest → A) → TenantRequest → A
  tenant_middleware config next r = next (tenant_of (or_default config) r) r

  -- RequireTenant: `refusal` is the answer 400.
  unfoldable pub require_tenant : A → (String → TenantRequest → A) → String → TenantRequest → A
  require_tenant refusal next tenant r = if tenant == "" then refusal else next tenant r
