-- ===== src/Handler/Base.antt =====
-- Requests, responses, the interface URLService of handler/url_handler.go and requireURLOwnership.
use go_url_shortener.Base.{ℕ, Bool, false, Option, none, some, List, if◌then◌else◌}
use go_url_shortener.Base.Int.{ℤ, id_eq}
use Prim.Native.String
use go_url_shortener.Base.Text.{String}
use go_url_shortener.Model.{Url, ClickAnalytics}
use go_url_shortener.Outcome.{
  Error, message, wrapped, no_rows, pg_error, driver, cache_miss, queue_full, email_exists,
  canceled, Action,
}

-- auth.UserClaims
pub record UserClaims : Type 0 where
  pub user_id : ℤ
  pub email : String
  pub role : String

-- The parts of a request that the handlers read; user is what auth.CurrentUser finds in its context.
pub record Request : Type 0 where
  pub method : String
  pub path : String
  pub idempotency_key : String
  pub user : Option UserClaims
  pub body : String
  -- the header Authorization, User-Agent and Referer, and RemoteAddr
  pub authorization : String
  pub user_agent : String
  pub referrer : String
  pub remote_addr : String

-- A response, by how the handler writes it.
pub data Response : Type 0 where
  -- http.Error
  http_error : ℕ → String → Response
  -- http.Error with the header Retry-After: 1
  try_later : ℕ → String → Response
  -- http.Error 429 with the header Retry-After: n
  rate_limited : ℕ → Response
  -- a status and a body that is JSON already
  json_text : ℕ → String → Response
  -- writeJSON of a URL, of a list of URLs
  json_url : ℕ → Url → Response
  json_urls : ℕ → List Url → Response
  -- writeJSON of the id, the email and the role of a user, of two tokens, of click analytics
  json_user : ℕ → ℤ → String → String → Response
  json_session : ℕ → String → String → Response
  json_analytics : ℕ → ClickAnalytics → Response
  -- fmt.Fprintln of a text
  plain_text : ℕ → String → Response
  no_content : Response
  -- http.Redirect
  redirect : ℕ → String → Response

abbrev pub not_found : Response
not_found = http_error 404 "404 page not found"

-- The texts of a database error and of ctx.Err() are the driver's and the context's.
pub record Texts : Type 0 where
  pub pg_text : String → String
  pub driver_text : String
  pub canceled_text : String

-- err.Error()
unfoldable pub error_text : Texts → Error → String
error_text texts (message m) = m
error_text texts (wrapped m e) = String.◌++◌ m (String.◌++◌ ": " (error_text texts e))
error_text texts no_rows = "sql: no rows in result set"
error_text texts (pg_error code) = texts.pg_text code
error_text texts driver = texts.driver_text
error_text texts cache_miss = "cache miss"
error_text texts queue_full = "click event queue is full"
error_text texts email_exists = "email already registered"
error_text texts canceled = texts.canceled_text

-- The interface URLService, over a state that its methods change.
pub record UrlService (S : Type 0) : Type 0 where
  pub create_short_url : String → ℤ → Action S Url
  pub create_short_url_with_alias : String → String → ℤ → Action S Url
  pub get_url_by_id : ℤ → Action S Url
  pub list_urls : ℤ → Action S (List Url)
  pub get_original_url : String → Action S Url
  pub update_url : Url → Action S Url
  pub delete_url : ℤ → Action S (Unit {0})

abbrev owns : Option ℤ → ℤ → Bool
owns none user = false
owns (some owner) user = id_eq owner user

-- requireURLOwnership: the error that it writes, or none where the user owns the URL.
unfoldable pub ownership_error : Option UserClaims → Url → Option Response
ownership_error none url = some (http_error 401 "Authentication required")
ownership_error (some user) url =
    if owns url.user_id user.user_id then none else some (http_error 403 "Forbidden")

-- A handler, over the state that it acts on.
abbrev pub Endpoint : Type 0 → Type 0
Endpoint S = Request → S → Response × S
