-- ===== src/App.antt =====
-- app.service.ts: the status of the root and the index of the API. The time, the uptime and the
-- printing of the port are parameters; a text that is the same in every answer is left out where
-- nothing depends on it.
pub mod Index
pub mod Hidden
use ubuy_backend.Base.{
  ℕ, Bool, true, false, not, ◌||◌, Option, none, some, List, [], ◌∷◌, ◌++◌, if◌then◌else◌,
  get_or_else,
}
use ubuy_backend.Texts.{Text, codes, is_text, same_text}
use ubuy_backend.App.Index.{
  Endpoint, endpoint, Method, Access, system_endpoints, Endpoints, endpoints_of,
}

-- `PORT` as `Number` reads and a template prints it, with 6000 where it is missing; `NODE_ENV`;
-- `ENABLE_ADMIN_TOOLS`.
pub record AppSettings : Type 0 where
  pub port : Text
  pub node_env : Option Text
  pub enable_admin_tools : Option Text

pub record Link : Type 0 where
  pub name : Text
  pub url : Text

-- `!isProduction || enableAdminTools`
unfoldable pub show_admin_links : AppSettings → Bool
unfolding same_text
show_admin_links s =
    not (is_text s.node_env (codes "production")) || is_text s.enable_admin_tools (codes "true")

abbrev pub base_url : AppSettings → Text
base_url s = codes "http://localhost:" ++ s.port

abbrev pub link_to : AppSettings → Text → Text → Link
link_to s name path = record { name = name; url = base_url s ++ path }

abbrev pub admin_links : AppSettings → List Link
admin_links s =
    link_to s (codes "docs") (codes "/docs")
    ∷ link_to s (codes "docsJson") (codes "/docs-json")
    ∷ link_to s (codes "apiInfo") (codes "/api-info")
    ∷ link_to s (codes "queueDashboard") (codes "/admin/queues")
    ∷ []

pub record RootStatus : Type 0 where
  pub status : Text
  pub service : Text
  pub environment : Text
  pub links : List Link

unfoldable pub get_root_status : AppSettings → RootStatus
unfolding show_admin_links
get_root_status s = record {
  status = codes "ok";
  service = codes "Ubuy Backend";
  environment = get_or_else s.node_env (codes "development");
  links =
      link_to s (codes "health") (codes "/health")
      ∷ link_to s (codes "metrics") (codes "/metrics")
      ∷ link_to s (codes "versionedApiBase") (codes "/v1")
      ∷ (if show_admin_links s then admin_links s else []);
}

pub record ApiInfo : Type 0 where
  pub status : Text
  pub name : Text
  pub environment : Text
  pub base_url : Text
  pub endpoints : Endpoints
  pub events : List Text
  pub notes : List Link

-- The links of `notes`.
abbrev pub admin_notes : AppSettings → List Link
admin_notes s =
    link_to s (codes "docs") (codes "/docs")
    ∷ link_to s (codes "docsJson") (codes "/docs-json")
    ∷ link_to s (codes "queueDashboard") (codes "/admin/queues")
    ∷ []

unfoldable pub get_api_info : AppSettings → ApiInfo
unfolding show_admin_links
get_api_info s = record {
  status = codes "ok";
  name = codes "Ubuy Backend";
  environment = get_or_else s.node_env (codes "development");
  base_url = base_url s;
  endpoints = endpoints_of (show_admin_links s);
  events = codes "joinAuction" ∷ codes "leaveAuction" ∷ codes "placeBid" ∷ [];
  notes =
      link_to s (codes "healthCheck") (codes "/health")
        ∷ (if show_admin_links s then admin_notes s else [])
      ++ link_to s (codes "versionedApiBase") (codes "/v1") ∷ [];
}
