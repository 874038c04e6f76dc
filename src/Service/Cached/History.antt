-- ===== src/Service/Cached/History.antt =====
-- CachedURLService of service/cached_url_service.go and URLService of service/url_service.go over
-- histories of calls.
pub mod Hosts
pub mod Sound
pub mod Refines
pub mod Lasting
use go_url_shortener.Base.{ℕ, ◌+◌, true, List, [], ◌∷◌}
use go_url_shortener.Base.Int.{ℤ}
use go_url_shortener.Base.Text.{String}
use go_url_shortener.Model.{Url}
use go_url_shortener.Outcome.{Result, ok}
use go_url_shortener.Db.{Reply}
use go_url_shortener.Cache.{Redis, Json, Settings}
use go_url_shortener.Service.Validate.{Net}
use go_url_shortener.Service.Urls.{Host}
use go_url_shortener.Service.Urls
use go_url_shortener.Service.Cached.{Site}
use go_url_shortener.Service.Cached

-- A call of a method, the passing of time, or an entry that the Redis server evicts. A redirect comes
-- with the answers of the Redis server to its commands.
pub data Call : Type 0 where
  creates : String → ℤ → Call
  aliases : String → String → ℤ → Call
  reads : ℤ → Call
  lists : ℤ → Call
  redirects : String → List Reply → Call
  updates : Url → Call
  deletes : ℤ → Call
  waits : ℕ → Call
  evicts : String → Call

pub data Answer : Type 0 where
  row : Result Url → Answer
  rows : Result (List Url) → Answer
  done : Result (Unit {0}) → Answer

abbrev pub as_row : {S : Type 0} → Result Url × S → Answer × S
as_row (r, s) = (row r, s)

abbrev pub as_rows : {S : Type 0} → Result (List Url) × S → Answer × S
as_rows (r, s) = (rows r, s)

abbrev pub as_done : {S : Type 0} → Result (Unit {0}) × S → Answer × S
as_done (r, s) = (done r, s)

abbrev pub wait : ℕ → Host → Host
wait n h = record h { db = record h.db { now = h.db.now + n } }

-- URLService
unfoldable pub base_step : Net → Call → Host → Answer × Host
base_step net (creates original user) h = as_row (Urls.create_short_url net original user h)
base_step net (aliases original alias user) h =
    as_row (Urls.create_short_url_with_alias net original alias user h)
base_step net (reads id) h = as_row (Urls.get_url_by_id id h)
base_step net (lists user) h = as_rows (Urls.list_urls user h)
base_step net (redirects code answers) h = as_row (Urls.get_original_url code h)
base_step net (updates url) h = as_row (Urls.update_url net url h)
base_step net (deletes id) h = as_done (Urls.delete_url id h)
base_step net (waits n) h = (done (ok tt), wait n h)
base_step net (evicts key) h = (done (ok tt), h)

module _ (redis : Redis) (json : Json) (settings : Settings) (net : Net) where
  abbrev pub with_answers : List Reply → Site redis → Site redis
  with_answers rs s = record s { cache = record s.cache { answers = rs } }

  abbrev pub settle : Answer × Site redis → Answer × Site redis
  settle (a, s) = (a, with_answers [] s)

  -- CachedURLService, with a cache
  unfoldable pub cached_step : Call → Site redis → Answer × Site redis
  cached_step (creates original user) s = as_row (Cached.create_short_url redis net original user s)
  cached_step (aliases original alias user) s =
      as_row (Cached.create_short_url_with_alias redis net original alias user s)
  cached_step (reads id) s = as_row (Cached.get_url_by_id redis id s)
  cached_step (lists user) s = as_rows (Cached.list_urls redis user s)
  cached_step (redirects code answers) s =
      settle
        (as_row (Cached.get_original_url redis json settings true code (with_answers answers s)))
  cached_step (updates url) s = as_row (Cached.update_url redis json settings true net url s)
  cached_step (deletes id) s = as_done (Cached.delete_short_url redis json settings true id s)
  cached_step (waits n) s = (done (ok tt), record s { host = wait n s.host })
  cached_step (evicts key) s = (
    done (ok tt),
    record s { cache = record s.cache { store = redis.del s.host.db.now key s.cache.store } },
  )

  unfoldable pub run_cached : List Call → Site redis → List Answer
  run_cached [] s = []
  run_cached (c ∷ cs) s = let out = cached_step c s in out.0 ∷ run_cached cs out.1

unfoldable pub run_base : Net → List Call → Host → List Answer
run_base net [] h = []
run_base net (c ∷ cs) h = let out = base_step net c h in out.0 ∷ run_base net cs out.1

-- The states that the calls lead to.
unfoldable pub after_base : Net → List Call → Host → Host
after_base net [] h = h
after_base net (c ∷ cs) h = after_base net cs (base_step net c h).1

unfoldable pub after_cached :
    (redis : Redis) → Json → Settings → Net → List Call → Site redis → Site redis
after_cached redis json settings net [] s = s
after_cached redis json settings net (c ∷ cs) s =
    after_cached redis json settings net cs (cached_step redis json settings net c s).1
