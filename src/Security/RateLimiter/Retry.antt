-- ===== src/Security/RateLimiter/Retry.antt =====
-- The header Retry-After of security/rate_limiter.go, and the request that follows it.
use go_url_shortener.Base.{
  ℕ, ◌+◌, ◌*◌, ◌-◌, ◌≤◌, ◌<◌, ◌≡◌, refl, ap, ◌∙◌, false, some, arith, suc, leb, Bool-cases,
  Option-cases, inl, inr,
}
use go_url_shortener.Base.Text.{String}
use go_url_shortener.Security.RateLimiter.{
  Entry, RateLimiter, lookup, renew, retry_after, handle, forward, too_many,
}
use go_url_shortener.Security.RateLimiter.Window.{lookup-handle, handle-max, handle-window}

abbrev pub one_second : ℕ
one_second = 1_000_000_000

-- The whole seconds of the header fall short of the end of the window by less than one.
retry_after-le :
    (now window : ℕ) (e : Entry)
    → e.window_start + window < now + (retry_after now window e + 1) * one_second
unfolding retry_after
retry_after-le now window e = ground arith

renew-open :
    (now window : ℕ) (e : Entry)
    → leb window (now - e.window_start) ≡ false
    → renew now window (some e) ≡ record e { count = suc e.count }
unfolding renew
renew-open now window e open_ = rw open_ refl

-- A request at the end of a window or later begins a new one.
renewed :
    (client : String) (t : ℕ) (rl : RateLimiter) (e : Entry)
    → lookup client rl.clients ≡ some e
    → 1 ≤ rl.max
    → e.window_start + rl.window ≤ t
    → (handle client t rl).0 ≡ forward
unfolding handle renew
renewed client t rl e held some_ over = ground (arith, held)

-- A refusal tells the seconds that the open window of the client has left.
refused_open :
    (client : String) (now seconds : ℕ) (rl : RateLimiter)
    → 1 ≤ rl.max
    → (handle client now rl).0 ≡ too_many seconds
    → (e : Entry) × (lookup client (handle client now rl).1.clients ≡ some e)
      × (retry_after now rl.window e ≡ seconds)
unfolding handle renew
refused_open client now seconds rl some_ refused = elim (Option-cases (lookup client rl.clients)) [
  | inl new ↦ absurd (ground (arith, new, refused))
  | inr (e, old) ↦ elim (Bool-cases (leb rl.window (now - e.window_start))) [
    | inl over ↦ absurd (ground (arith, old, over, refused))
    | inr open_ ↦ (
      record e { count = suc e.count },
      lookup-handle client now rl ∙ ap some (rw old (renew-open now rl.window e open_)),
      ground (arith, old, open_, refused),
    )
  ]
]

-- A client that is refused is let through again: where the maximum is at least one, its next
-- request passes if it comes one second later than the header Retry-After of the refusal said, or
-- after that.
pub retry_passes :
    (client : String) (now t seconds : ℕ) (rl : RateLimiter)
    → 1 ≤ rl.max
    → (handle client now rl).0 ≡ too_many seconds
    → now + (seconds + 1) * one_second ≤ t
    → (handle client t (handle client now rl).1).0 ≡ forward
retry_passes client now t seconds rl some_ refused later =
    let (e, held, told) = refused_open client now seconds rl some_ refused in
    let short : e.window_start + rl.window < now + (seconds + 1) * one_second =
      rw told at (retry_after-le now rl.window e) in
    renewed client t (handle client now rl).1 e held (rw (handle-max client now rl) some_)
      (rw (handle-window client now rl) (omega arith))
