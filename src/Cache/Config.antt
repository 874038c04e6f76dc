-- ===== src/Cache/Config.antt =====
-- NewRedisCache, Ping and Close of cache/redis.go. The environment and redis.ParseURL are parameters.
use go_url_shortener.Base.{
  ℕ, ◌≡◌, true, false, Option, none, some, arith, if◌then◌else◌, Bool-cases, inl, inr,
}
use go_url_shortener.Base.Int.{ℤ, pos, negsuc, leb_ℤ}
use go_url_shortener.Base.Text.{String, ◌==◌, eq_iff}
use go_url_shortener.Base.Decimal.{parse_int}
use go_url_shortener.Outcome.{message, wrapped, Result, ok, err}
use go_url_shortener.Cache.{Settings}

-- redis.Options, as far as the function sets them
pub record Options : Type 0 where
  pub addr : String
  pub password : String
  pub db : ℤ

-- The client, with what is set on its options afterwards; a timeout is a number of nanoseconds.
pub record Client : Type 0 where
  pub options : Options
  pub pool_size : ℕ
  pub min_idle_conns : ℕ
  pub max_idle_conns : ℕ
  pub dial_timeout : ℕ
  pub read_timeout : ℕ
  pub write_timeout : ℕ

abbrev pub default_redis_addr : String
default_redis_addr = "localhost:6379"

abbrev pub default_redis_db : ℤ
default_redis_db = pos 0

-- defaultURLCacheTTL, one hour
abbrev pub default_url_cache_ttl : ℕ
default_url_cache_ttl = 3_600_000_000_000

-- parsedDB is a number and not below 0
abbrev pub natural_db : Option ℤ → Result ℤ
natural_db none = err (message "invalid GOSHORT_REDIS_DB")
natural_db (some (negsuc n)) = err (message "invalid GOSHORT_REDIS_DB")
natural_db (some (pos n)) = ok (pos n)

unfoldable pub redis_db : String → Result ℤ
redis_db raw = if raw == "" then ok default_redis_db else natural_db (parse_int raw)

abbrev or_else : String → String → String
or_else text other = if text == "" then other else text

abbrev new_client : Options → Client
new_client options = record {
  options = options;
  pool_size = 10;
  min_idle_conns = 2;
  max_idle_conns = 5;
  dial_timeout = 3_000_000_000;
  read_timeout = 2_000_000_000;
  write_timeout = 2_000_000_000;
}

module _ (getenv : String → String) (parse_url : String → Result Options) where
  abbrev redis_url : String
  redis_url = or_else (getenv "GOSHORT_REDIS_URL") (getenv "REDIS_URL")

  -- the number of the environment goes before the one of the URL
  abbrev pub override_db : ℤ → Result Options → Result Client
  override_db db (err e) = err (wrapped "invalid Redis URL" e)
  override_db db (ok options) =
      if getenv "GOSHORT_REDIS_DB" == ""
      then ok (new_client options)
      else ok (new_client (record options { db = db }))

  abbrev pub connect_to : Result ℤ → Result Client
  connect_to (err e) = err e
  connect_to (ok db) =
      if redis_url == ""
      then ok (
          new_client (record {
            addr = or_else (getenv "GOSHORT_REDIS_ADDR") default_redis_addr;
            password = getenv "GOSHORT_REDIS_PASSWORD";
            db = db;
          }))
      else override_db db (parse_url redis_url)

  unfoldable pub new_redis_cache : Result Client
  new_redis_cache = connect_to (redis_db (getenv "GOSHORT_REDIS_DB"))

  override_db-db :
      (db : ℤ) (parsed : Result Options) (client : Client)
      → (getenv "GOSHORT_REDIS_DB" == "") ≡ false
      → override_db db parsed ≡ ok client
      → client.options.db ≡ db
  override_db-db db (err e) client set made = absurd (grind arith)
  override_db-db db (ok options) client set made = ground arith

  connect_to-db :
      (db : ℤ) (client : Client)
      → (getenv "GOSHORT_REDIS_DB" == "") ≡ false
      → connect_to (ok db) ≡ ok client
      → client.options.db ≡ db
  connect_to-db db client set made = elim (Bool-cases (redis_url == "")) [
    | inl plain ↦ ground arith
    | inr url ↦ override_db-db db (parse_url redis_url) client set (rw url at made)
  ]

  set_db :
      (number : ℤ)
      → parse_int (getenv "GOSHORT_REDIS_DB") ≡ some number
      → (getenv "GOSHORT_REDIS_DB" == "") ≡ false
  unfolding parse_int
  set_db number e = elim (Bool-cases (getenv "GOSHORT_REDIS_DB" == "")) [
    | inr set ↦ set
    | inl blank ↦
        let bad : none ≡ some number = rw ((eq_iff (getenv "GOSHORT_REDIS_DB") "").0 blank) at e in
        absurd cc
  ]

  -- Where the environment names a database by a number, a cache that is made uses that database, also
  -- where a Redis URL names another, and the number is not negative.
  pub new_redis_cache-db :
      (number : ℤ) (client : Client)
      → parse_int (getenv "GOSHORT_REDIS_DB") ≡ some number
      → new_redis_cache ≡ ok client
      → (client.options.db ≡ number) × (leb_ℤ (pos 0) number ≡ true)
  unfolding new_redis_cache redis_db leb_ℤ
  new_redis_cache-db (pos n) client named made =
      let set = set_db (pos n) named in
      (connect_to-db (pos n) client set (rw (set, named) at made), ground arith)
  new_redis_cache-db (negsuc n) client named made =
      let set = set_db (negsuc n) named in
      let bad : ◌≡◌ {A = Result Client} (err (message "invalid GOSHORT_REDIS_DB")) (ok client) =
        rw (set, named) at made in
      absurd (grind arith)

-- The settings of a cache that was made.
abbrev pub settings_of : Client → Settings
settings_of client = record { has_client = true; ttl = default_url_cache_ttl }

-- Ping, with the answer of the server
unfoldable pub ping : Settings → Result (Unit {0}) → Result (Unit {0})
ping settings answer =
    if settings.has_client then answer else err (message "redis cache is not initialized")

-- Close, with the answer of the client
unfoldable pub close : Settings → Result (Unit {0}) → Result (Unit {0})
close settings answer = if settings.has_client then answer else ok tt
