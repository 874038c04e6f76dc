-- ===== src/Server.antt =====
-- main.go: the handlers, the routes and the chain of middlewares. http.ServeMux, the file server of the
-- dashboard and the parts that the handlers stand on are parameters.
pub mod Routes
pub mod Protected
pub mod Owners
pub mod Startup
pub mod Shutdown
use Prim.Native.Char.{Char}
use go_url_shortener.Base.{
  ℕ, ◌≤◌, ◌≡◌, Bool, true, false, not, Option, none, some, List, [], ◌∷◌, All, ◌⊎◌, if◌then◌else◌,
}
use go_url_shortener.Base.Int.{ℤ}
use go_url_shortener.Base.Text.{String, len, ◌==◌, has_prefix, has_suffix}
use go_url_shortener.Model.{ClickAnalytics}
use go_url_shortener.Outcome.{Result, Action}
use go_url_shortener.Handler.{
  UserClaims, Request, Response, http_error, plain_text, Texts, UrlService, Endpoint,
}
use go_url_shortener.Handler.Manage.{UpdateUrlRequest, list_urls, get_url, update_url, delete_url}
use go_url_shortener.Handler.Create.{Environment, IdempotencyRepository, create_url}
use go_url_shortener.Handler.Analytics.{get_analytics}
use go_url_shortener.Handler.Redirect.{Recorder, redirect_to}
use go_url_shortener.Handler.Auth.{
  AuthApi, Credentials, TokenRequest, register, login, refresh, logout,
}
use go_url_shortener.Auth.Middleware.{require_auth}
use go_url_shortener.Security.RateLimiter.{
  RateLimiter, Verdict, handle, client_ip, new_rate_limiter,
}
use go_url_shortener.Security.Middleware.{Reply, secure, obey}

-- healthHandler and helloHandler
unfoldable pub health : {S : Type 0} → Endpoint S
health r s =
    if not (r.method == "GET")
    then (http_error 405 "Method Not Allowed", s)
    else (plain_text 200 "OK\n", s)

unfoldable pub hello : {S : Type 0} → Endpoint S
hello r s =
    if not (r.method == "GET")
    then (http_error 405 "Method Not Allowed", s)
    else (plain_text 200 "Hello, GoShort!\n", s)

-- The handlers that are registered.
pub data Route : Type 0 where
  health_route dashboard_route hello_route register_route login_route refresh_route logout_route
        urls_route url_route redirect_route :
      Route

abbrev pub RouteTable : Type 0
RouteTable = List (String × Route)

abbrev pub routes : RouteTable
routes =
    ("/health", health_route)
    ∷ ("/dashboard/", dashboard_route)
    ∷ ("/hello", hello_route)
    ∷ ("/api/v1/auth/register", register_route)
    ∷ ("/api/v1/auth/login", login_route)
    ∷ ("/api/v1/auth/refresh", refresh_route)
    ∷ ("/api/v1/auth/logout", logout_route)
    ∷ ("/api/v1/urls", urls_route)
    ∷ ("/api/v1/urls/", url_route)
    ∷ ("/", redirect_route)
    ∷ []

-- A pattern that ends in a slash names a subtree, another one path.
abbrev pub matches : String → String → Bool
matches pattern path = if has_suffix pattern "/" then has_prefix path pattern else path == pattern

abbrev pub OneOf : (String × Route → Type 0) → RouteTable → Type 0
OneOf P [] = ⊥
OneOf P (x ∷ xs) = P x ⊎ OneOf P xs

-- No pattern that matches is longer.
abbrev pub IsLongest : RouteTable → String → String → Type 0
IsLongest rs path pattern =
    All (λ (x : String × Route). matches x.0 path ≡ true → len x.0 ≤ len pattern) rs

abbrev pub IsChosen : RouteTable → String → Route → Type 0
IsChosen rs path route =
    OneOf (λ x. (x.1 ≡ route) × (matches x.0 path ≡ true) × IsLongest rs path x.0) rs

-- http.ServeMux: it chooses the handler of the longest pattern that matches, or answers by itself, as it
-- does for a path that is not clean.
pub record Mux : Type 0 where
  pub choose : RouteTable → Request → Option Route
  pub own : Request → Response
  pub longest :
      (rs : RouteTable) (r : Request) (route : Route)
      → choose rs r ≡ some route
      → IsChosen rs r.path route

-- What the handlers and the middlewares of the server stand on. check is parseAccessToken at an instant.
pub record Parts (S : Type 0) : Type 0 where
  pub service : UrlService S
  pub keys : IdempotencyRepository S
  pub analytics : ℤ → Action S ClickAnalytics
  pub recorder : Recorder S
  pub auth : AuthApi S
  pub environment : Environment
  pub credentials : String → Result Credentials
  pub token_request : String → Result TokenRequest
  pub update_request : String → Result UpdateUrlRequest
  pub check : ℕ → String → Result UserClaims
  pub now : S → ℕ
  pub dashboard : Request → Response
  pub lower : Char → Char
  pub fold : Char → Char
  pub split : String → Option String
  pub max_bytes : ℕ → String → String
  pub mux : Mux

-- The two rate limiters, and the state that the handlers act on.
pub record Server (S : Type 0) : Type 0 where
  pub limiter : RateLimiter
  pub login_limiter : RateLimiter
  pub site : S

abbrev pub one_minute : ℕ
one_minute = 60_000_000_000

unfoldable pub new_server : {S : Type 0} → S → Server S
new_server site = record {
  limiter = new_rate_limiter 60 one_minute;
  login_limiter = new_rate_limiter 10 one_minute;
  site = site;
}

module _ {S : Type 0} (parts : Parts S) where
  abbrev pub texts : Texts
  texts = parts.environment.texts

  -- the handler behind "/api/v1/urls"
  unfoldable pub urls_endpoint : Endpoint S
  urls_endpoint r s =
      if r.method == "GET"
      then list_urls parts.service r s
      else create_url parts.environment parts.service parts.keys true r s

  -- the handler behind "/api/v1/urls/"
  unfoldable pub url_endpoint : Endpoint S
  url_endpoint r s =
      if has_suffix r.path "/analytics"
      then get_analytics parts.service (some parts.analytics) r s
      else if r.method == "GET"
      then get_url parts.service r s
      else if r.method == "PATCH"
      then update_url parts.service texts parts.update_request r s
      else if r.method == "DELETE"
      then delete_url parts.service r s
      else (http_error 405 "Method Not Allowed", s)

  abbrev pub authenticated : Endpoint S → Endpoint S
  authenticated next r s = require_auth parts.fold (parts.check (parts.now s)) next r s

  abbrev put_site : Server S → Response × S → Response × Server S
  put_site server (response, s) = (response, record server { site = s })

  abbrev pub on_site : Endpoint S → Endpoint (Server S)
  on_site endpoint r server = put_site server (endpoint r server.site)

  abbrev verdict : Request → RateLimiter → Server S → Verdict × RateLimiter
  verdict r limiter server =
      handle (client_ip parts.split r.remote_addr) (parts.now server.site) limiter

  abbrev pub limited_login : Endpoint (Server S) → Endpoint (Server S)
  limited_login next r server =
      let seen = verdict r server.login_limiter server in
      obey next r seen.0 (record server { login_limiter = seen.1 })

  abbrev pub limited : Endpoint (Server S) → Endpoint (Server S)
  limited next r server =
      let seen = verdict r server.limiter server in
      obey next r seen.0 (record server { limiter = seen.1 })

  unfoldable pub endpoint : Route → Endpoint (Server S)
  endpoint health_route = on_site health
  endpoint dashboard_route = on_site (λ r s. (parts.dashboard r, s))
  endpoint hello_route = on_site hello
  endpoint register_route = on_site (register parts.auth texts parts.credentials)
  endpoint login_route = limited_login (on_site (login parts.auth texts parts.credentials))
  endpoint refresh_route = on_site (refresh parts.auth texts parts.token_request)
  endpoint logout_route = on_site (logout parts.auth texts parts.token_request)
  endpoint urls_route = on_site (authenticated urls_endpoint)
  endpoint url_route = on_site (authenticated url_endpoint)
  endpoint redirect_route = on_site (redirect_to parts.lower parts.recorder parts.service)

  abbrev pub routed : Option Route → Endpoint (Server S)
  routed none r server = (parts.mux.own r, server)
  routed (some route) r server = endpoint route r server

  unfoldable pub serve : Request → Server S → Reply × Server S
  serve = secure parts.max_bytes (limited λ r. routed (parts.mux.choose routes r) r)
