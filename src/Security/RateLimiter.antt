-- ===== src/Security/RateLimiter.antt =====
-- security/rate_limiter.go: RateLimiter and its Middleware, with the mutex as one step. An instant and
-- the window are numbers of nanoseconds; time.Now does not run backwards. net.SplitHostPort is a
-- parameter.
pub mod Window
pub mod Retry
pub mod Stretch
use go_url_shortener.Base.{
  ℕ, suc, ◌+◌, ◌-◌, ◌/◌, Bool, true, false, not, Option, none, some, List, [], ◌∷◌, ltb, leb,
  if◌then◌else◌,
}
use go_url_shortener.Base.Text.{String, ◌==◌, trim_space}

-- rateLimitEntry
pub record Entry : Type 0 where
  pub count : ℕ
  pub window_start : ℕ

pub record RateLimiter : Type 0 where
  pub clients : List (String × Entry)
  pub max : ℕ
  pub window : ℕ

unfoldable pub new_rate_limiter : ℕ → ℕ → RateLimiter
new_rate_limiter max window = record { clients = []; max = max; window = window }

unfoldable pub lookup : String → List (String × Entry) → Option Entry
lookup key [] = none
lookup key ((k, e) ∷ m) = if k == key then some e else lookup key m

unfoldable pub insert : String → Entry → List (String × Entry) → List (String × Entry)
insert key e [] = (key, e) ∷ []
insert key e ((k, f) ∷ m) = if k == key then (key, e) ∷ m else (k, f) ∷ insert key e m

-- What the middleware answers by itself, or that it calls the next handler.
pub data Verdict : Type 0 where
  forward : Verdict
  -- 429 with the header Retry-After
  too_many : ℕ → Verdict

-- `!exists || now.Sub(entry.windowStart) >= rl.window`, and then `entry.count++`
unfoldable pub renew : ℕ → ℕ → Option Entry → Entry
renew now window none = record { count = 1; window_start = now }
renew now window (some e) =
    if leb window (now - e.window_start)
    then record { count = 1; window_start = now }
    else record e { count = suc e.count }

-- int(time.Until(windowStart.Add(window)).Seconds()), and at least 1
unfoldable pub retry_after : ℕ → ℕ → Entry → ℕ
retry_after now window e =
    let seconds = (e.window_start + window - now) / 1_000_000_000 in
    if ltb seconds 1 then 1 else seconds

unfoldable pub handle : String → ℕ → RateLimiter → Verdict × RateLimiter
handle client now rl =
    let entry = renew now rl.window (lookup client rl.clients) in
    (
      if ltb rl.max entry.count then too_many (retry_after now rl.window entry) else forward,
      record rl { clients = insert client entry rl.clients },
    )

-- getClientIP, with the host that net.SplitHostPort finds in a trimmed address
unfoldable pub client_ip : (String → Option String) → String → String
client_ip split remote_addr = elim (split (trim_space remote_addr)) [
  | none ↦ trim_space remote_addr
  | some host ↦ host
]
