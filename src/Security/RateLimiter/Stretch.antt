-- ===== src/Security/RateLimiter/Stretch.antt =====
-- The middleware of security/rate_limiter.go over any stretch of time as long as its window.
use go_url_shortener.Base.{
  ℕ, ◌+◌, ◌*◌, ◌-◌, ◌≤◌, ◌<◌, ◌≡◌, ◌≢◌, sym, ◌∙◌, Option, none, some, List, [], ◌∷◌, arith, All,
  Bool-cases, Option-cases, inl, inr, leb, if◌then◌else◌,
}
use mathlib.Core.Bool.{false≢true}
use go_url_shortener.Base.Text.{String, ◌==◌, eq_iff}
use go_url_shortener.Security.RateLimiter.{Entry, RateLimiter, lookup, renew, handle}
use go_url_shortener.Security.RateLimiter.Window.{
  Request, forwarded, handle_isolated, lookup-handle, passed, Within,
}

-- How many requests of a client may still pass before a stretch that begins at an instant is a window
-- old: what its open window leaves, and a whole window more if that one was opened before the stretch.
abbrev budget : ℕ → ℕ → Option Entry → ℕ
budget start max none = 2 * max
budget start max (some e) =
    if leb start e.window_start then max - e.count else (max - e.count) + max

-- One request takes its part of the budget.
handle-budget :
    (start t : ℕ) (client : String) (rl : RateLimiter)
    → start ≤ t
    → t < start + rl.window
    → forwarded (handle client t rl).0
        + budget start rl.max (some (renew t rl.window (lookup client rl.clients)))
      ≤ budget start rl.max (lookup client rl.clients)
unfolding handle renew
handle-budget start t client rl after before = elim (Option-cases (lookup client rl.clients)) [
  | inl new ↦ ground arith
  | inr (e, old) ↦ ground arith
]

passed-budget :
    (client : String) (start : ℕ) (rl : RateLimiter) (rs : List Request)
    → All (Within start rl.window) rs
    → passed client rl rs ≤ budget start rl.max (lookup client rl.clients)
unfolding passed handle
passed-budget client start rl [] w = omega arith
passed-budget client start rl ((k, t) ∷ rs) w = elim (Bool-cases (k == client)) [
  | inl own ↦
      let same : client ≡ k = sym ((eq_iff k client).0 own) in
      let rest = passed-budget client start (handle client t rl).1 rs w.1 in
      let one = handle-budget start t client rl w.0.0 w.0.1 in
      rw own (rw (← same) (ground (arith, lookup-handle client t rl, rest, one)))
  | inr foreign ↦
      let other : k ≢ client = λ same. false≢true (sym foreign ∙ (eq_iff k client).1 same) in
      let rest = passed-budget client start (handle k t rl).1 rs w.1 in
      rw foreign (ground (arith, rest, handle_isolated k client t rl other))
]

-- Over any stretch of time as long as the window, whatever the limiter holds when it begins, at
-- most twice the maximum of a client's requests pass.
pub passed_stretch :
    (client : String) (start : ℕ) (rl : RateLimiter) (rs : List Request)
    → All (Within start rl.window) rs
    → passed client rl rs ≤ 2 * rl.max
passed_stretch client start rl rs w =
    let bound = passed-budget client start rl rs w in
    elim (Option-cases (lookup client rl.clients)) [
      | inl new ↦ ground (arith, bound, new)
      | inr (e, old) ↦ ground (arith, bound, old)
    ]
