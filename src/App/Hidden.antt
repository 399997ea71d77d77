-- ===== src/App/Hidden.antt =====
-- Where `AppService` of app.service.ts tells of the tools for administrators.
use ubuy_backend.Base.{
  ℕ, ◌≡◌, refl, Bool, true, false, ◌||◌, ◌+◌, List, ◌++◌, count, arith, if◌then◌else◌,
}
use ubuy_backend.Texts.{Text, codes, same_text, is_text}
use ubuy_backend.App.Index.{Endpoint, Endpoints, system_endpoints}
use ubuy_backend.App.{AppSettings, Link, show_admin_links, get_root_status, get_api_info}

-- The paths of the documentation and of the dashboard of the queue.
pub is_tool : Text → Bool
is_tool path =
    same_text path (codes "/docs")
    || same_text path (codes "/docs-json")
    || same_text path (codes "/admin/queues")

-- The names of their links.
pub is_tool_name : Text → Bool
is_tool_name name =
    same_text name (codes "docs")
    || same_text name (codes "docsJson")
    || same_text name (codes "queueDashboard")

pub all_endpoints : Endpoints → List Endpoint
all_endpoints x =
    x.health ++ x.auth ++ x.users ++ x.auctions ++ x.payments ++ x.uploads ++ x.notifications
    ++ x.system

-- How often the tools are told of, in the index, its notes and the status of the root.
pub tools : AppSettings → ℕ
tools s =
    count (λ (x : Endpoint). is_tool x.path) (all_endpoints (get_api_info s).endpoints)
    + count (λ (l : Link). is_tool_name l.name) (get_api_info s).notes
    + count (λ (l : Link). is_tool_name l.name) (get_root_status s).links

tools_at : (s : AppSettings) (b : Bool) → show_admin_links s ≡ b → tools s ≡ (if b then 9 else 0)
unfolding tools get_api_info get_root_status all_endpoints is_tool is_tool_name system_endpoints
    same_text
tools_at s true h = rw h refl
tools_at s false h = rw h refl

-- The index, its notes and the status of the root tell of none of the documentation and of the queue
-- dashboard if `NODE_ENV` is `production` and `ENABLE_ADMIN_TOOLS` is not `true`, and otherwise of
-- all three, each in all three places.
pub tools_lem :
    (s : AppSettings)
    → tools s ≡ (
        if is_text s.node_env (codes "production")
        then (if is_text s.enable_admin_tools (codes "true") then 9 else 0)
        else 9)
unfolding show_admin_links
tools_lem s = ground (arith, tools_at s (show_admin_links s) refl)
