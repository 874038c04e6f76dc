-- ===== src/Service/Cached/Schedule/Staleness.antt =====
-- How long the cache of service/cached_url_service.go can show a row that the table has no longer.
use go_url_shortener.Base.{ℕ, ◌+◌, ◌≤◌, ◌<◌, ◌≡◌, some}
use go_url_shortener.Base.Text.{String}
use go_url_shortener.Cache.{Redis, Json, Settings, Cache}
use go_url_shortener.Service.Cached.Coherence.{Agrees}
use go_url_shortener.Service.Cached.Schedule.{Shared}

module _ (redis : Redis) (json : Json) (settings : Settings) where
  -- No entry is shown for longer than the time to live from now on.
  abbrev IsShort : ℕ → redis.Store → Type 0
  IsShort now store =
      (t : ℕ) (key value : String)
      → now ≤ t
      → redis.get t key store ≡ some value
      → t < now + settings.ttl

  -- What every state keeps: no entry outlives the time to live, and once that long has gone by since
  -- the last disturbance, the entries that can still be seen are the rows of the table.
  pub record IsSettling (s : Shared redis) : Type 0 where
    pub short : IsShort s.now s.store
    pub past : s.disturbed ≤ s.now
    pub agrees :
        (from : ℕ)
        → s.now ≤ from
        → s.disturbed + settings.ttl ≤ from
        → Agrees redis json from s.rows s.store
