-- ===== src/Tests/Server.antt =====
-- Examples for the server of main.go: a request of the owner of a URL.
use Prim.Native.Char.{Char}
use go_url_shortener.Base.{◌⊎◌, refl, none, []}
use go_url_shortener.Base.Text.{has_prefix}
use go_url_shortener.Outcome.{err, message}
use go_url_shortener.Service.Urls.{Host}
use go_url_shortener.Handler.{Request, http_error}
use go_url_shortener.Handler.Auth.{AuthApi}
use go_url_shortener.Handler.Create.Replay.{postgres}
use go_url_shortener.Auth.Service.{register, login, refresh, logout}
use go_url_shortener.Auth.Middleware.{parse_access_token}
use go_url_shortener.Server.{Parts, Server}
use go_url_shortener.Server.Protected.{IsGuarded, url_handler, served_by, serve_protected}
use go_url_shortener.Server.Owners.{IsOwnersRequest, IsSpared, target, serve_owner_only}
use go_url_shortener.Tests.Data.{sample_host, sample_json}
use go_url_shortener.Tests.Secrets.{sample_auth, secret_jwt}
use go_url_shortener.Tests.Handler.{direct, environment, decode, request, host_analytics}
use go_url_shortener.Tests.Clicks.{recorder}
use go_url_shortener.Tests.Mux.{longest_mux}

abbrev host_auth : AuthApi Host
host_auth = record {
  register = register sample_auth;
  login = login sample_auth;
  refresh = refresh sample_auth;
  logout = logout sample_auth;
}

abbrev parts : Parts Host
parts = record {
  service = direct;
  keys = postgres sample_json;
  analytics = host_analytics;
  recorder = recorder none;
  auth = host_auth;
  environment = environment;
  credentials = λ body. err (message "EOF");
  token_request = λ body. err (message "EOF");
  update_request = decode;
  check = parse_access_token secret_jwt "secret";
  now = λ h. h.db.now;
  dashboard = λ r. http_error 404 "404 page not found";
  lower = λ (c : Char). c;
  fold = λ (c : Char). c;
  split = λ address. none;
  max_bytes = λ limit body. body;
  mux = longest_mux;
}

abbrev server : Server Host
server = record {
  limiter = record { clients = []; max = 60; window = 60 };
  login_limiter = record { clients = []; max = 10; window = 60 };
  site = sample_host;
}

-- A deletion that carries the token of the first user.
abbrev deletion : Request
deletion = record request { user = none; authorization = "Bearer secret" }

serve_protected_example :
    IsGuarded parts
      (url_handler parts "/api/v1/urls/1")
      deletion
      sample_host
      (served_by parts deletion server)
unfolding has_prefix
serve_protected_example = serve_protected parts deletion server refl

serve_owner_only_example :
    IsOwnersRequest parts deletion sample_host
    ⊎ IsSpared parts (target "/api/v1/urls/1") sample_host (served_by parts deletion server).1.site
unfolding has_prefix
serve_owner_only_example = serve_owner_only parts deletion server refl
