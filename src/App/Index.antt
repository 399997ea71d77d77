-- ===== src/App/Index.antt =====
-- The endpoints that `getApiInfo` of app.service.ts lists.
use ubuy_backend.Base.{Bool, List, [], ◌∷◌, ◌++◌, if◌then◌else◌}
use ubuy_backend.Texts.{Text, codes}
use Prim.Native.String.{String}

pub data Method : Type 0 where
  get post patch : Method

-- `'public'`, `'jwt'` and `'public (x-webhook-secret required)'`
pub data Access : Type 0 where
  public jwt webhook_secret : Access

pub record Endpoint : Type 0 where
  pub method : Method
  pub path : Text
  pub auth : Access

abbrev pub endpoint : Method → Text → Access → Endpoint
endpoint method path auth = record { method = method; path = path; auth = auth }

-- `${versionPrefix}` in front of the path.
abbrev pub versioned : String → Text
versioned path = codes "/v1" ++ codes path

-- `endpoints.health`
abbrev pub health_endpoints : List Endpoint
health_endpoints = endpoint get (codes "/health") public ∷ []

-- `endpoints.auth`
abbrev pub auth_endpoints : List Endpoint
auth_endpoints =
    endpoint get (versioned "/auth/check-username-unique") public
    ∷ endpoint post (versioned "/auth/check-username-unique") public
    ∷ endpoint post (versioned "/auth/signup") public
    ∷ endpoint post (versioned "/auth/login") public
    ∷ endpoint post (versioned "/auth/google") public
    ∷ endpoint post (versioned "/auth/verify-email") public
    ∷ endpoint post (versioned "/auth/forgot-password") public
    ∷ endpoint post (versioned "/auth/resend-code") public
    ∷ endpoint post (versioned "/auth/reset-code") public
    ∷ endpoint post (versioned "/auth/verify-code") public
    ∷ endpoint post (versioned "/auth/reset-password") public
    ∷ endpoint get (versioned "/auth/public-profile/:username") public
    ∷ endpoint post (versioned "/auth/profile") jwt
    ∷ endpoint patch (versioned "/auth/update-profile") jwt
    ∷ endpoint get (versioned "/auth/me") jwt
    ∷ []

-- `endpoints.users`
abbrev pub users_endpoints : List Endpoint
users_endpoints = endpoint get (versioned "/users/me/bid-stats") jwt ∷ []

-- `endpoints.auctions`
abbrev pub auctions_endpoints : List Endpoint
auctions_endpoints =
    endpoint post (versioned "/auctions") jwt
    ∷ endpoint get (versioned "/auctions") public
    ∷ endpoint get (versioned "/auctions/active") public
    ∷ endpoint get (versioned "/auctions/me/bidded") jwt
    ∷ endpoint get (versioned "/auctions/queue/status") jwt
    ∷ endpoint post (versioned "/auctions/:id/end") jwt
    ∷ endpoint post (versioned "/auctions/:id/cancel") jwt
    ∷ endpoint post (versioned "/auctions/:id/payment/confirm") jwt
    ∷ endpoint post (versioned "/auctions/:id/payment-expiry/decision") jwt
    ∷ endpoint post (versioned "/auctions/:id/bids") jwt
    ∷ endpoint get (versioned "/auctions/:id") public
    ∷ []

-- `endpoints.payments`
abbrev pub payments_endpoints : List Endpoint
payments_endpoints =
    endpoint post (versioned "/payments/cashfree/link") jwt
    ∷ endpoint post (versioned "/payments/webhook") webhook_secret
    ∷ endpoint get (versioned "/payments/cashfree/verify") public
    ∷ []

-- `endpoints.uploads`
abbrev pub uploads_endpoints : List Endpoint
uploads_endpoints = endpoint post (versioned "/uploads/images") jwt ∷ []

-- `endpoints.notifications`
abbrev pub notifications_endpoints : List Endpoint
notifications_endpoints =
    endpoint get (versioned "/notifications") jwt
    ∷ endpoint get (versioned "/notifications/unread-count") jwt
    ∷ endpoint patch (versioned "/notifications/:id/read") jwt
    ∷ endpoint patch (versioned "/notifications/read-all") jwt
    ∷ []

-- `endpoints.system`
unfoldable pub system_endpoints : (show_admin_links : Bool) → List Endpoint
system_endpoints show_admin_links =
    endpoint get (codes "/") public
    ∷ endpoint get (codes "/api-info") public
    ∷ endpoint get (codes "/metrics") public
    ∷ (if show_admin_links
        then endpoint get (codes "/docs") public
          ∷ endpoint get (codes "/docs-json") public
          ∷ endpoint get (codes "/admin/queues") public
          ∷ []
        else [])

pub record Endpoints : Type 0 where
  pub health : List Endpoint
  pub auth : List Endpoint
  pub users : List Endpoint
  pub auctions : List Endpoint
  pub payments : List Endpoint
  pub uploads : List Endpoint
  pub notifications : List Endpoint
  pub system : List Endpoint

abbrev pub endpoints_of : (show_admin_links : Bool) → Endpoints
endpoints_of show_admin_links = record {
  health = health_endpoints;
  auth = auth_endpoints;
  users = users_endpoints;
  auctions = auctions_endpoints;
  payments = payments_endpoints;
  uploads = uploads_endpoints;
  notifications = notifications_endpoints;
  system = system_endpoints show_admin_links;
}
