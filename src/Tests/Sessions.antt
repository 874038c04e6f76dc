-- ===== src/Tests/Sessions.antt =====
-- An example for the endpoints of the authentication: a refresh token that is sent twice.
use go_url_shortener.Base.{◌≡◌, refl, ◌∷◌, []}
use go_url_shortener.Base.Text.{String, trim_space}
use go_url_shortener.Outcome.{Result, ok}
use go_url_shortener.Auth.Service.Ended.{waits, run}
use go_url_shortener.Handler.{Request, json_session}
use go_url_shortener.Handler.Auth.{TokenRequest, refresh, logout}
use go_url_shortener.Handler.Auth.Sessions.{service_of, refused, refresh-refused}
use go_url_shortener.Tests.Secrets.{sample_auth}
use go_url_shortener.Tests.Handler.{request, texts}
use go_url_shortener.Tests.Auth.{token_host, token_host-IsKeyed, renewed_host, session, refreshed}

-- The body is the token.
abbrev token_body : String → Result TokenRequest
token_body body = ok (record { refresh_token = body })

abbrev first : Request
first = record request { method = "POST"; body = "first" }

abbrev second : Request
second = record request { method = "POST"; body = " first" }

answered :
    refresh (service_of sample_auth) texts token_body first token_host
    ≡ (json_session 200 session.access_token session.refresh_token, renewed_host)
unfolding refresh trim_space
answered = rw refreshed refl

refresh-refused_example :
    ((refresh
        (service_of sample_auth)
        texts
        token_body
        second
        (run sample_auth renewed_host (waits 5 ∷ []))).0
      ≡ refused)
    × ((logout
          (service_of sample_auth)
          texts
          token_body
          second
          (run sample_auth renewed_host (waits 5 ∷ []))).0
        ≡ refused)
unfolding trim_space
refresh-refused_example =
    refresh-refused sample_auth texts token_body first second (record { refresh_token = "first" })
      (record { refresh_token = " first" }) token_host renewed_host session.access_token
      session.refresh_token (waits 5 ∷ []) token_host-IsKeyed refl answered refl refl refl
