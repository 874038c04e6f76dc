-- ===== src/Handler/Auth/Sessions.antt =====
-- The endpoints of handler/auth_handler.go over the authentication service on the database.
use go_url_shortener.Base.{◌≡◌, refl, ap, false, Bool-cases, inl, inr, List, arith}
use go_url_shortener.Base.Text.{String, ◌==◌, trim_space}
use go_url_shortener.Outcome.{Result, ok, err, is_ok}
use go_url_shortener.Service.Urls.{Host}
use go_url_shortener.Repository.Tokens.Hashes.{IsKeyed}
use go_url_shortener.Auth.Service
use go_url_shortener.Auth.Service.{AuthService, Session}
use go_url_shortener.Auth.Service.Ended.{Call, run}
use go_url_shortener.Auth.Service.Reuse.{refresh_once}
use go_url_shortener.Handler.Base.{Request, Response, http_error, json_session, Texts}
use go_url_shortener.Handler.Auth.{AuthApi, TokenRequest, refreshed, logged_out, refresh, logout}

-- AuthService as the handler calls it
abbrev pub service_of : AuthService → AuthApi Host
service_of auth = record {
  register = Service.register auth;
  login = Service.login auth;
  refresh = Service.refresh auth;
  logout = Service.logout auth;
}

abbrev pub refused : Response
refused = http_error 401 "Invalid refresh token"

module _ (api : AuthApi Host) (texts : Texts) where
  refreshed-refused :
      (x : Result Session × Host) → is_ok x.0 ≡ false → (refreshed api texts x).0 ≡ refused
  refreshed-refused (ok s, h) e = absurd (grind arith)
  refreshed-refused (err e, h) f = refl

  logged_out-refused :
      (x : Result (Unit {0}) × Host) → is_ok x.0 ≡ false → (logged_out api texts x).0 ≡ refused
  logged_out-refused (ok s, h) e = absurd (grind arith)
  logged_out-refused (err e, h) f = refl

  -- A refresh that is answered with a session was one of the service.
  refreshed-session :
      (x : Result Session × Host) (access token : String) (h : Host)
      → refreshed api texts x ≡ (json_session 200 access token, h)
      → x ≡ (ok (record { access_token = access; refresh_token = token }), h)
  refreshed-session (ok s, g) access token h e = grind arith
  refreshed-session (err x, g) access token h e = absurd (grind arith)

module _ (auth : AuthService) (texts : Texts) (decode : String → Result TokenRequest) where
  abbrev api : AuthApi Host
  api = service_of auth

  -- A refresh that is answered with a session has got past the checks.
  refresh-session :
      (r : Request) (request : TokenRequest) (h h' : Host) (access token : String)
      → decode r.body ≡ ok request
      → refresh api texts decode r h ≡ (json_session 200 access token, h')
      → ((trim_space request.refresh_token == "") ≡ false)
        × (Service.refresh auth (trim_space request.refresh_token) h
            ≡ (ok (record { access_token = access; refresh_token = token }), h'))
  unfolding refresh
  refresh-session r request h h' access token d e = elim (Bool-cases (r.method == "POST")) [
    | inr other ↦
        let bad : ◌≡◌ {A = Response × Host} (http_error 405 "Method Not Allowed", h)
            (json_session 200 access token, h') =
          rw other at e in
        absurd (grind arith)
    | inl posted ↦ elim (Bool-cases (trim_space request.refresh_token == "")) [
      | inl blank ↦
          let bad : ◌≡◌ {A = Response × Host} (http_error 400 "refresh_token is required", h)
              (json_session 200 access token, h') =
            rw (posted, d, blank) at e in
          absurd (grind arith)
      | inr given ↦
          (given, refreshed-session api texts _ access token h' (rw (posted, d, given) at e))
    ]
  ]

  -- The endpoints with one refresh token: where no two rows have the same hash and a request to
  -- refresh has been answered with a session, every later post to refresh or to log out whose body
  -- carries the same token, also with other blanks around it, is answered 401, whatever calls of
  -- the service, passing of time, answers of the database and random bytes lie in between.
  pub refresh-refused :
      (r again : Request) (request repeated : TokenRequest) (h h' : Host) (access token : String)
      (cs : List Call)
      → IsKeyed h.db
      → decode r.body ≡ ok request
      → refresh api texts decode r h ≡ (json_session 200 access token, h')
      → again.method ≡ "POST"
      → decode again.body ≡ ok repeated
      → trim_space repeated.refresh_token ≡ trim_space request.refresh_token
      → ((refresh api texts decode again (run auth h' cs)).0 ≡ refused)
        × ((logout api texts decode again (run auth h' cs)).0 ≡ refused)
  unfolding refresh logout
  refresh-refused r again request repeated h h' access token cs keyed d e posted d' same =
      let (given, served) = refresh-session r request h h' access token d e in
      let (f, g) =
        refresh_once auth (trim_space request.refresh_token) (trim_space repeated.refresh_token) h
          h' (record { access_token = access; refresh_token = token }) cs keyed served
          (ap trim_space same) in
      let shown : (trim_space repeated.refresh_token == "") ≡ false = rw same given in
      (
        rw (posted, d', shown) (refreshed-refused api texts _ f),
        rw (posted, d', shown) (logged_out-refused api texts _ g),
      )
