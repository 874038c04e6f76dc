-- ===== src/Handler/Auth.antt =====
-- handler/auth_handler.go: AuthHandler, over the methods of an AuthService. decodeJSONBody is a
-- parameter.
pub mod Sessions
use go_url_shortener.Base.{Bool, true, false, not, if◌then◌else◌}
use go_url_shortener.Base.Text.{String, ◌==◌, trim_space}
use go_url_shortener.Model.{User}
use go_url_shortener.Outcome.{Error, wrapped, email_exists, Result, ok, err, Action}
use go_url_shortener.Handler.Base.{
  Response, http_error, json_user, json_session, no_content, Texts, error_text, Endpoint,
}
use go_url_shortener.Auth.Service.{Session}

-- The methods of AuthService that the handler calls.
pub record AuthApi (S : Type 0) : Type 0 where
  pub register : String → String → Action S User
  pub login : String → String → Action S (Session × User)
  pub refresh : String → Action S Session
  pub logout : String → Action S (Unit {0})

-- registerRequest and loginRequest
pub record Credentials : Type 0 where
  pub email : String
  pub password : String

-- refreshRequest and logoutRequest
pub record TokenRequest : Type 0 where
  pub refresh_token : String

-- errors.Is(err, auth.ErrEmailAlreadyExists)
unfoldable pub is_email_exists : Error → Bool
is_email_exists email_exists = true
is_email_exists (wrapped _ e) = is_email_exists e
is_email_exists _ = false

module _ {S : Type 0} (api : AuthApi S) (texts : Texts) where
  -- the method and the body of a request, before a method of the service is called
  abbrev pub post : {A : Type 0} → (String → Result A) → (A → S → Response × S) → Endpoint S
  post decode next r s =
      if not (r.method == "POST")
      then (http_error 405 "Method Not Allowed", s)
      else elim (decode r.body) [
        | err e ↦ (http_error 400 (error_text texts e), s)
        | ok request ↦ next request s
      ]

  abbrev registered : Result User × S → Response × S
  registered (ok user, s) = (json_user 201 user.id user.email user.role, s)
  registered (err e, s) =
      if is_email_exists e
      then (http_error 409 "Email already registered", s)
      else (http_error 400 (error_text texts e), s)

  unfoldable pub register : (String → Result Credentials) → Endpoint S
  register decode =
      post decode λ request s. registered (api.register request.email request.password s)

  abbrev pub logged_in : Result (Session × User) × S → Response × S
  logged_in (ok (session, user), s) =
      (json_session 200 session.access_token session.refresh_token, s)
  logged_in (err e, s) = (http_error 401 "Invalid credentials", s)

  unfoldable pub login : (String → Result Credentials) → Endpoint S
  login decode = post decode λ request s. logged_in (api.login request.email request.password s)

  -- a token that is not blank
  abbrev pub with_token : (String → S → Response × S) → TokenRequest → S → Response × S
  with_token next request s =
      if trim_space request.refresh_token == ""
      then (http_error 400 "refresh_token is required", s)
      else next (trim_space request.refresh_token) s

  abbrev pub refreshed : Result Session × S → Response × S
  refreshed (ok session, s) = (json_session 200 session.access_token session.refresh_token, s)
  refreshed (err e, s) = (http_error 401 "Invalid refresh token", s)

  unfoldable pub refresh : (String → Result TokenRequest) → Endpoint S
  refresh decode = post decode (with_token λ raw s. refreshed (api.refresh raw s))

  abbrev pub logged_out : Result (Unit {0}) × S → Response × S
  logged_out (ok _, s) = (no_content, s)
  logged_out (err e, s) = (http_error 401 "Invalid refresh token", s)

  unfoldable pub logout : (String → Result TokenRequest) → Endpoint S
  logout decode = post decode (with_token λ raw s. logged_out (api.logout raw s))
