-- ===== src/Security/Middleware.antt =====
-- The middlewares of the package security: Middleware of security/middleware.go, and the answer of
-- RateLimiter.Middleware of security/rate_limiter.go. http.MaxBytesReader is a parameter.
use go_url_shortener.Base.{ℕ, List, [], ◌∷◌}
use go_url_shortener.Base.Text.{String}
use go_url_shortener.Handler.{Request, Response, rate_limited, Endpoint}
use go_url_shortener.Security.RateLimiter.{Verdict, forward, too_many}

-- A response behind the headers that are set before it is written.
pub record Reply : Type 0 where
  pub headers : List (String × String)
  pub response : Response

abbrev pub security_headers : List (String × String)
security_headers =
    ("X-Content-Type-Options", "nosniff")
    ∷ ("X-Frame-Options", "DENY")
    ∷ ("Referrer-Policy", "strict-origin-when-cross-origin")
    ∷ ("Permissions-Policy", "camera=(), microphone=(), geolocation=()")
    ∷ []

-- 1 << 20
abbrev pub body_limit : ℕ
body_limit = 1_048_576

module _ {S : Type 0} where
  abbrev pub with_headers : Response × S → Reply × S
  with_headers (response, s) = (record { headers = security_headers; response = response }, s)

  -- max_bytes is what a handler reads of a body behind a limit.
  unfoldable pub secure : (ℕ → String → String) → Endpoint S → Request → S → Reply × S
  secure max_bytes next r s =
      with_headers (next (record r { body = max_bytes body_limit r.body }) s)

  -- the end of RateLimiter.Middleware
  abbrev pub obey : Endpoint S → Request → Verdict → S → Response × S
  obey next r forward s = next r s
  obey next r (too_many seconds) s = (rate_limited seconds, s)
