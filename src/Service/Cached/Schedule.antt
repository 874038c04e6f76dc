-- ===== src/Service/Cached/Schedule.antt =====
-- CachedURLService of service/cached_url_service.go under many requests at once: the reads of the
-- database, the fills of the cache, the writes and the invalidations of all requests, in any order.
pub mod Staleness
use go_url_shortener.Base.{ℕ, ◌+◌, ◌≡◌, Option, none, some, List, [], ◌∷◌, ◌++◌, find}
use go_url_shortener.Base.Text.{String}
use go_url_shortener.Model.{Url}
use go_url_shortener.Db.{Reply}
use go_url_shortener.Repository.Urls.{is_live}
use go_url_shortener.Cache.{Redis, Json, Settings, Cache, get_url, set_url, delete_url}

-- What the requests share: the clock, the table, the Redis server, the rows that reads have got from the
-- database and not yet stored, and the last instant at which the table changed or an old row was stored.
pub record Shared (redis : Redis) : Type 0 where
  pub now : ℕ
  pub rows : List Url
  pub store : redis.Store
  pub reading : List Url
  pub disturbed : ℕ

module _ (redis : Redis) (json : Json) (settings : Settings) where
  abbrev pub cache_of : Shared redis → List Reply → Cache redis
  cache_of s answers = record { store = s.store; answers = answers }

  -- Every command comes with the answers of the Redis server.
  pub data Step (s : Shared redis) : Shared redis → Type 0 where
    -- the lookup in the cache
    look :
        (code : String) (answers : List Reply)
        → Step s (record s {
          store = (get_url redis json settings s.now code (cache_of s answers)).1.store;
        })
    -- the read of the database after a miss
    read :
        (code : String) (url : Url)
        → find (is_live s.now code) s.rows ≡ some url
        → Step s (record s { reading = url ∷ s.reading })
    -- SetURL of a row that the table still has
    fill :
        (before after : List Url) (url : Url) (answers : List Reply)
        → s.reading ≡ before ++ url ∷ after
        → find (is_live s.now url.short_code) s.rows ≡ some url
        → Step s (record s {
          store = (set_url redis json settings s.now url (cache_of s answers)).1.store;
          reading = before ++ after;
        })
    -- SetURL of a row that the table may have no longer
    fill_late :
        (before after : List Url) (url : Url) (answers : List Reply)
        → s.reading ≡ before ++ url ∷ after
        → Step s (record s {
          store = (set_url redis json settings s.now url (cache_of s answers)).1.store;
          reading = before ++ after;
          disturbed = s.now;
        })
    -- a statement that changes the table, of this process or another
    write : (rows : List Url) → Step s (record s { rows = rows; disturbed = s.now })
    -- DeleteURL of the cache after an update or a deletion
    invalidate :
        (code : String) (answers : List Reply)
        → Step s (record s {
          store = (delete_url redis json settings s.now code (cache_of s answers)).1.store;
        })
    -- the Redis server drops an entry
    evict : (key : String) → Step s (record s { store = redis.del s.now key s.store })
    pass : (n : ℕ) → Step s (record s { now = s.now + n })

  pub data Reach (s : Shared redis) : Shared redis → Type 0 where
    here : Reach s s
    next : {t u : Shared redis} → Reach s t → Step t u → Reach s u
