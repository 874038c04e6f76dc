-- ===== src/Cache.antt =====
-- cache/redis.go: RedisCache over a Redis server and encoding/json, which are parameters.
pub mod Config
pub mod Keeps
use Prim.Native.String
use go_url_shortener.Base.{
  ℕ, ◌+◌, ◌-◌, ◌≤◌, ◌<◌, ◌≡◌, ◌≢◌, ◌⊎◌, Bool, not, Option, none, some, List, leb, ltb,
  if◌then◌else◌,
}
use go_url_shortener.Base.Text.{String}
use go_url_shortener.Model.{Url}
use go_url_shortener.Outcome.{message, wrapped, driver, cache_miss, Result, ok, err, Action}
use go_url_shortener.Db.{Reply, served, refused, lost, next_reply, later_replies}

-- The commands GET, SET with an expiry, and DEL, at an instant of the server's clock. A value is seen
-- only if it was set and not deleted since, and not once its time to live is over. It may be gone
-- earlier, for a server evicts what it likes.
pub record Redis : Type 1 where
  pub Store : Type 0
  pub get : ℕ → String → Store → Option String
  pub set : ℕ → String → String → ℕ → Store → Store
  pub del : ℕ → String → Store → Store
  pub set_visible :
      (now t ttl : ℕ) (k j v w : String) (s : Store)
      → now ≤ t
      → get t j (set now k w ttl s) ≡ some v
      → (j ≡ k) × (v ≡ w) × (t < now + ttl) ⊎ (j ≢ k) × (get t j s ≡ some v)
  pub del_visible :
      (now t : ℕ) (k j v : String) (s : Store)
      → now ≤ t
      → get t j (del now k s) ≡ some v
      → (j ≢ k) × (get t j s ≡ some v)

-- json.Marshal and json.Unmarshal at model.URL.
pub record Json : Type 0 where
  pub marshal : Url → Option String
  pub unmarshal : String → Option Url
  pub unmarshal-marshal : (u : Url) (v : String) → marshal u ≡ some v → unmarshal v ≡ some u

-- c.client != nil, and c.ttl
pub record Settings : Type 0 where
  pub has_client : Bool
  pub ttl : ℕ

-- What the server holds, and how it answers the commands to come.
pub record Cache (redis : Redis) : Type 0 where
  pub store : redis.Store
  pub answers : List Reply

abbrev pub one_second : ℕ
one_second = 1_000_000_000

unfoldable pub url_cache_key : String → String
url_cache_key code = String.◌++◌ "goshort:url:" code

unfoldable pub cache_ttl : ℕ → ℕ → Option ℕ → ℕ
cache_ttl ttl now none = ttl
cache_ttl ttl now (some expiry) =
    if leb expiry now then one_second else if ltb (expiry - now) ttl then expiry - now else ttl

module _ (redis : Redis) where
  -- A command that writes: whether it was carried out, and whether the client heard of it.
  abbrev pub write :
      (redis.Store → redis.Store) → String → Reply → redis.Store → Result (Unit {0}) × redis.Store
  write f what served s = (ok tt, f s)
  write f what refused s = (err (wrapped what driver), s)
  write f what lost s = (err (wrapped what driver), f s)

  abbrev pub put_store :
      List Reply → Result (Unit {0}) × redis.Store → Result (Unit {0}) × Cache redis
  put_store answers (r, s) = (r, record { store = s; answers = answers })

  abbrev pub command : (redis.Store → redis.Store) → String → Action (Cache redis) (Unit {0})
  command f what c =
      put_store (later_replies c.answers) (write f what (next_reply c.answers) c.store)

  module _ (json : Json) (settings : Settings) where
    -- The answer to GET, and what is left of the cache: a value that does not decode is deleted.
    abbrev pub decoded : ℕ → String → Option Url → Cache redis → Result Url × Cache redis
    decoded now key none c =
        (err (wrapped "decode cached URL" driver), (command (redis.del now key) "" c).1)
    decoded now key (some url) c = (ok url, c)

    abbrev pub found : ℕ → String → Option String → Cache redis → Result Url × Cache redis
    found now key none c = (err cache_miss, c)
    found now key (some value) c = decoded now key (json.unmarshal value) c

    abbrev pub answered : ℕ → String → Reply → Cache redis → Result Url × Cache redis
    answered now key served c = found now key (redis.get now key c.store) c
    answered now key refused c = (err (wrapped "redis get" driver), c)
    answered now key lost c = (err (wrapped "redis get" driver), c)

    unfoldable pub get_url : ℕ → String → Action (Cache redis) Url
    get_url now code c =
        if not settings.has_client
        then (err cache_miss, c)
        else answered now (url_cache_key code) (next_reply c.answers)
            (record c { answers = later_replies c.answers })

    abbrev pub stored : ℕ → Url → Option String → Action (Cache redis) (Unit {0})
    stored now url none c = (err (wrapped "encode URL for cache" driver), c)
    stored now url (some value) c =
        command
          (redis.set now (url_cache_key url.short_code) value
            (cache_ttl settings.ttl now url.expires_at))
          "redis set" c

    unfoldable pub set_url : ℕ → Url → Action (Cache redis) (Unit {0})
    set_url now url c =
        if not settings.has_client
        then (err (message "redis cache is not initialized"), c)
        else stored now url (json.marshal url) c

    unfoldable pub delete_url : ℕ → String → Action (Cache redis) (Unit {0})
    delete_url now code c =
        if not settings.has_client
        then (ok tt, c)
        else command (redis.del now (url_cache_key code)) "redis delete" c
