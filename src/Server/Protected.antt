-- ===== src/Server/Protected.antt =====
-- The URL endpoints behind the chain of main.go.
use go_url_shortener.Base.{
  ℕ, ◌≡◌, refl, Bool, true, ◌||◌, Bool-cases, Option, none, some, ◌⊎◌, inl, inr, if◌then◌else◌,
}
use go_url_shortener.Base.Text.{String, ◌==◌, eq_iff, has_prefix, trim_space}
use go_url_shortener.Outcome.{Result, ok, err}
use go_url_shortener.Handler.{UserClaims, Request, Response, http_error, rate_limited, Endpoint}
use go_url_shortener.Auth.Middleware.{require_auth, with_token, admit, bearer, split_fields}
use go_url_shortener.Security.RateLimiter.{Verdict, forward, too_many}
use go_url_shortener.Security.Middleware.{secure, obey, body_limit}
use go_url_shortener.Server.{
  Route, routes, Parts, Server, urls_endpoint, url_endpoint, authenticated, endpoint, on_site,
  routed, serve,
}
use go_url_shortener.Server.Routes.{url_chosen, urls_chosen}

module _ {S : Type 0} (parts : Parts S) where
  -- The request carries a bearer token that parseAccessToken accepts, with these claims.
  pub record IsAdmitted (r : Request) (s : S) (user : UserClaims) : Type 0 where
    pub token : String
    pub sent : bearer parts.fold (split_fields (trim_space r.authorization)) ≡ some token
    pub accepted : parts.check (parts.now s) token ≡ ok user

  -- The request as the handlers see it.
  abbrev pub limited_body : Request → Request
  limited_body r = record r { body = parts.max_bytes body_limit r.body }

  abbrev pub as_user : Request → UserClaims → Request
  as_user r user = record (limited_body r) { user = some user }

  -- What is written is what the handler answers to the request with the user of its token.
  abbrev pub IsPassed : Endpoint S → Request → S → Response × Server S → Type 0
  IsPassed handler r s (response, server) =
      (user : UserClaims) × IsAdmitted r s user
      × (response ≡ (handler (as_user r user) s).0)
      × (server.site ≡ (handler (as_user r user) s).1)

  -- 401, 429, or what the ServeMux answers by itself, and the handlers have done nothing.
  abbrev pub IsTurnedAway : Request → S → Response × Server S → Type 0
  IsTurnedAway r s (response, server) =
      (((text : String) × (response ≡ http_error 401 text))
        ⊎ ((seconds : ℕ) × (response ≡ rate_limited seconds))
        ⊎ (response ≡ parts.mux.own (limited_body r)))
      × (server.site ≡ s)

  abbrev pub IsGuarded : Endpoint S → Request → S → Response × Server S → Type 0
  IsGuarded handler r s x = IsPassed handler r s x ⊎ IsTurnedAway r s x

  module _ (handler : Endpoint S) (r : Request) (server : Server S) where
    admit-IsGuarded :
        (token : String) (checked : Result UserClaims)
        → bearer parts.fold (split_fields (trim_space r.authorization)) ≡ some token
        → parts.check (parts.now server.site) token ≡ checked
        → IsGuarded handler r server.site
            (on_site parts (λ q. admit handler q checked) (limited_body r) server)
    admit-IsGuarded token (ok user) sent accepted =
        inl (user, record { token = token; sent = sent; accepted = accepted }, refl, refl)
    admit-IsGuarded token (err e) sent accepted = inr (inl ("Invalid access token", refl), refl)

    with_token-IsGuarded :
        (o : Option String)
        → bearer parts.fold (split_fields (trim_space r.authorization)) ≡ o
        → IsGuarded handler r server.site (
            on_site parts
              (λ q. with_token (parts.check (parts.now server.site)) handler q o)
              (limited_body r)
              server)
    with_token-IsGuarded none e = inr (inl ("Invalid authorization header", refl), refl)
    with_token-IsGuarded (some token) e =
        admit-IsGuarded token (parts.check (parts.now server.site) token) e refl

    authenticated-IsGuarded :
        IsGuarded handler r server.site
          (on_site parts (authenticated parts handler) (limited_body r) server)
    unfolding require_auth
    authenticated-IsGuarded = elim (Bool-cases (trim_space r.authorization == "")) [
      | inl blank ↦ rw blank (inr (inl ("Authentication required", refl), refl))
      | inr given ↦ rw given (
          with_token-IsGuarded (bearer parts.fold (split_fields (trim_space r.authorization))) refl)
    ]

  -- a path of the URL endpoints
  abbrev pub is_url_path : String → Bool
  is_url_path path = path == "/api/v1/urls" || has_prefix path "/api/v1/urls/"

  -- the handler of such a path
  abbrev pub url_handler : String → Endpoint S
  url_handler path = if path == "/api/v1/urls" then urls_endpoint parts else url_endpoint parts

  module _ (r : Request) (server : Server S) (url_path : is_url_path r.path ≡ true) where
    route-IsGuarded :
        (route : Route)
        → parts.mux.choose routes (limited_body r) ≡ some route
        → IsGuarded
            (url_handler r.path)
            r
            server.site
            (endpoint parts route (limited_body r) server)
    unfolding endpoint
    route-IsGuarded route e = elim (Bool-cases (r.path == "/api/v1/urls")) [
      | inl list ↦
          let same =
            urls_chosen r.path route ((eq_iff r.path "/api/v1/urls").0 list)
              (parts.mux.longest routes (limited_body r) route e) in
          rw list rw same (authenticated-IsGuarded (urls_endpoint parts) r server)
      | inr item ↦
          let under : has_prefix r.path "/api/v1/urls/" ≡ true = rw item at url_path in
          let same =
            url_chosen r.path route under (parts.mux.longest routes (limited_body r) route e) in
          rw item rw same (authenticated-IsGuarded (url_endpoint parts) r server)
    ]

    routed-IsGuarded :
        (o : Option Route)
        → parts.mux.choose routes (limited_body r) ≡ o
        → IsGuarded (url_handler r.path) r server.site (routed parts o (limited_body r) server)
    routed-IsGuarded none e = inr (inr (inr refl), refl)
    routed-IsGuarded (some route) e = route-IsGuarded route e

    obey-IsGuarded :
        (v : Verdict)
        → IsGuarded
            (url_handler r.path)
            r
            server.site
            (obey (λ q. routed parts (parts.mux.choose routes q) q) (limited_body r) v server)
    obey-IsGuarded forward = routed-IsGuarded (parts.mux.choose routes (limited_body r)) refl
    obey-IsGuarded (too_many seconds) = inr (inr (inl (seconds, refl)), refl)

  abbrev pub served_by : Request → Server S → Response × Server S
  served_by r server = let (reply, server') = serve parts r server in (reply.response, server')

  -- The whole server, for the path /api/v1/urls or one under /api/v1/urls/: the request carries an
  -- access token that is accepted, and the answer and the new state of the service are those of the
  -- handler of that path, called with the user that the token names; or the answer is 401, 429 or
  -- one that the multiplexer gives by itself, and the state of the service is as it was.
  pub serve_protected :
      (r : Request) (server : Server S)
      → is_url_path r.path ≡ true
      → IsGuarded (url_handler r.path) r server.site (served_by r server)
  unfolding serve secure
  serve_protected r server url_path = obey-IsGuarded r (record server { limiter = _ }) url_path _
