-- ===== src/Security/RateLimiter/Window.antt =====
-- The middleware of security/rate_limiter.go over sequences of requests of any clients.
use go_url_shortener.Base.{
  ℕ, suc, ◌+◌, ◌-◌, ◌≤◌, ◌<◌, min, ◌≡◌, ◌≢◌, ◌⊎◌, refl, sym, ◌∙◌, Bool, none, some, List, [], ◌∷◌,
  ltb, if◌then◌else◌, arith, All, count_if, Bool-cases, inl, inr,
}
use mathlib.Core.Bool.{false≢true}
use go_url_shortener.Base.Text.{String, ◌==◌, eq_iff, eq_refl}
use go_url_shortener.Security.RateLimiter.{
  Entry, RateLimiter, lookup, insert, Verdict, forward, too_many, renew, handle,
}

lookup-insert :
    (k j : String) (e : Entry) (m : List (String × Entry))
    → lookup j (insert k e m) ≡ (if k == j then some e else lookup j m)
unfolding lookup insert
lookup-insert k j e [] = refl
lookup-insert k j e ((i, f) ∷ m) =
    ground (arith, eq_iff k j, eq_iff i k, eq_iff i j, lookup-insert k j e m)

-- A request changes the entry of its own client only.
pub handle_isolated :
    (client other : String) (now : ℕ) (rl : RateLimiter)
    → client ≢ other
    → lookup other (handle client now rl).1.clients ≡ lookup other rl.clients
unfolding handle
handle_isolated client other now rl ne = ground (
  arith,
  eq_iff client other,
  lookup-insert client other (renew now rl.window (lookup client rl.clients)) rl.clients,
)

pub lookup-handle :
    (client : String) (now : ℕ) (rl : RateLimiter)
    → lookup client (handle client now rl).1.clients
      ≡ some (renew now rl.window (lookup client rl.clients))
unfolding handle
lookup-handle client now rl = ground (
  arith,
  eq_refl client,
  lookup-insert client client (renew now rl.window (lookup client rl.clients)) rl.clients,
)

pub handle-max : (client : String) (t : ℕ) (rl : RateLimiter) → (handle client t rl).1.max ≡ rl.max
unfolding handle
handle-max client t rl = refl

pub handle-window :
    (client : String) (t : ℕ) (rl : RateLimiter) → (handle client t rl).1.window ≡ rl.window
unfolding handle
handle-window client t rl = refl

abbrev pub forwarded : Verdict → ℕ
forwarded forward = 1
forwarded (too_many _) = 0

abbrev pub Request : Type 0
Request = String × ℕ

abbrev pub is_from : String → Request → Bool
is_from client (k, t) = k == client

-- How many of the client's requests in a sequence are handed on.
unfoldable pub passed : String → RateLimiter → List Request → ℕ
passed client rl [] = 0
passed client rl ((k, t) ∷ rs) =
    (if k == client then forwarded (handle k t rl).0 else 0) + passed client (handle k t rl).1 rs

-- The request falls into the window that begins at an instant.
abbrev pub Within : ℕ → ℕ → Request → Type 0
Within start window (k, t) = (start ≤ t) × (t < start + window)

-- A request in the open window of its client.
own_step :
    (client : String) (t : ℕ) (e : Entry) (rl : RateLimiter)
    → lookup client rl.clients ≡ some e
    → e.window_start ≤ t
    → t < e.window_start + rl.window
    → (forwarded (handle client t rl).0 ≡ (if ltb rl.max (suc e.count) then 0 else 1))
      × (lookup client (handle client t rl).1.clients ≡ some (record e { count = suc e.count }))
unfolding handle renew
own_step client t e rl h after before = (ground arith, lookup-handle client t rl ∙ ground arith)

-- The loop, for a client that has an open window.
passed_open :
    (client : String) (e : Entry) (rl : RateLimiter) (rs : List Request)
    → lookup client rl.clients ≡ some e
    → All (Within e.window_start rl.window) rs
    → passed client rl rs ≡ min (count_if (is_from client) rs) (rl.max - e.count)
unfolding passed handle
passed_open client e rl [] h w = omega arith
passed_open client e rl ((k, t) ∷ rs) h w = elim (Bool-cases (k == client)) [
  | inl own ↦
      let same : client ≡ k = sym ((eq_iff k client).0 own) in
      let (verdict, entry) = own_step client t e rl h w.0.0 w.0.1 in
      let rest =
        passed_open client (record e { count = suc e.count }) (handle client t rl).1 rs entry w.1 in
      rw own (rw (← same) (ground (arith, verdict, rest)))
  | inr foreign ↦
      let other : k ≢ client = λ same. false≢true (sym foreign ∙ (eq_iff k client).1 same) in
      rw foreign (
        omega (
          arith,
          passed_open client e (handle k t rl).1 rs (handle_isolated k client t rl other ∙ h) w.1,
        ))
]

-- The client has no window open at an instant.
abbrev pub IsIdle : String → ℕ → RateLimiter → Type 0
IsIdle client now rl =
    (lookup client rl.clients ≡ none)
    ⊎ ((e : Entry) × (lookup client rl.clients ≡ some e)
        × (e.window_start + rl.window ≤ now)
        × (e.window_start ≤ now))

idle_step :
    (client : String) (now : ℕ) (rl : RateLimiter)
    → IsIdle client now rl
    → (forwarded (handle client now rl).0 ≡ (if ltb rl.max 1 then 0 else 1))
      × (lookup client (handle client now rl).1.clients
          ≡ some (record { count = 1; window_start = now }))
unfolding handle renew
idle_step client now rl (inl new) = (ground arith, lookup-handle client now rl ∙ ground arith)
idle_step client now rl (inr (e, old, over, past)) =
    (ground arith, lookup-handle client now rl ∙ ground arith)

-- A client without an open window sends a request, and requests of any clients follow within the
-- window that this opens. Of all the client's requests among them exactly the first max pass: as many
-- as there are, and no more than max.
pub passed_window :
    (client : String) (now : ℕ) (rl : RateLimiter) (rs : List Request)
    → IsIdle client now rl
    → All (Within now rl.window) rs
    → passed client rl ((client, now) ∷ rs) ≡ min (suc (count_if (is_from client) rs)) rl.max
unfolding passed handle
passed_window client now rl rs idle w =
    let (verdict, entry) = idle_step client now rl idle in
    let rest =
      passed_open client (record { count = 1; window_start = now }) (handle client now rl).1 rs
        entry w in
    rw (eq_refl client) (ground (arith, verdict, rest))
