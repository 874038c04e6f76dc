-- ===== src/Service/Cached.antt =====
-- CachedURLService of service/cached_url_service.go: URLService with a cache in front of the
-- redirects, whose failures are logged and passed over.
pub mod Coherence
pub mod Reads
pub mod Writes
pub mod Creations
pub mod History
pub mod Schedule
use go_url_shortener.Base.{ℕ, Bool, true, false, List, if◌then◌else◌}
use go_url_shortener.Base.Int.{ℤ}
use go_url_shortener.Base.Text.{String}
use go_url_shortener.Model.{Url}
use go_url_shortener.Outcome.{Error, Result, ok, err, Action, ◌>>=◌, ◌>>◌}
use go_url_shortener.Repository.Urls.{find_by_id, find_by_short_code, delete}
use go_url_shortener.Cache.{Redis, Json, Settings, Cache, get_url, set_url, delete_url}
use go_url_shortener.Service.Validate.{Net}
use go_url_shortener.Service.Urls.{Host, on_db}
use go_url_shortener.Service.Urls

pub record Site (redis : Redis) : Type 0 where
  pub host : Host
  pub cache : Cache redis

module _ (redis : Redis) where
  module _ {A : Type 0} where
    abbrev pub put_host : Site redis → Result A × Host → Result A × Site redis
    put_host s (r, h) = (r, record s { host = h })

    abbrev pub on_host : Action Host A → Action (Site redis) A
    on_host m s = put_host s (m s.host)

    abbrev pub put_cache : Site redis → Result A × Cache redis → Result A × Site redis
    put_cache s (r, c) = (r, record s { cache = c })

    -- a call of the cache at the instant now
    abbrev pub on_cache : (ℕ → Action (Cache redis) A) → Action (Site redis) A
    on_cache m s = put_cache s (m s.host.db.now s.cache)

  -- `if err := …; err != nil { log.Printf(…) }`
  abbrev pub ignore_error : Action (Site redis) (Unit {0}) → Site redis → Site redis
  ignore_error m s = (m s).1

  -- has_cache is s.cache != nil.
  module _ (json : Json) (settings : Settings) (has_cache : Bool) where
    -- what follows a successful read of the database
    abbrev pub fill : Result Url × Site redis → Result Url × Site redis
    fill (err e, s) = (err e, s)
    fill (ok url, s) =
        if has_cache
        then (ok url, ignore_error (on_cache (λ now. set_url redis json settings now url)) s)
        else (ok url, s)

    abbrev pub look_up : String → Action (Site redis) Url
    look_up code s = fill (on_host (on_db (find_by_short_code code)) s)

    -- a hit is returned; a miss or a failed read goes on to the database
    abbrev pub hit_or :
        (Site redis → Result Url × Site redis) → Result Url × Site redis → Result Url × Site redis
    hit_or next (ok url, s) = (ok url, s)
    hit_or next (err e, s) = next s

    unfoldable pub get_original_url : String → Action (Site redis) Url
    get_original_url code s =
        if has_cache
        then hit_or (look_up code) (on_cache (λ now. get_url redis json settings now code) s)
        else look_up code s

    abbrev pub invalidate : String → Site redis → Site redis
    invalidate code s =
        if has_cache
        then ignore_error (on_cache (λ now. delete_url redis json settings now code)) s
        else s

    abbrev pub after_update : Result Url × Site redis → Result Url × Site redis
    after_update (err e, s) = (err e, s)
    after_update (ok url, s) = (ok url, invalidate url.short_code s)

    unfoldable pub update_url : Net → Url → Action (Site redis) Url
    update_url net url s = after_update (on_host (Urls.update_url net url) s)

    abbrev pub after_delete :
        String → Result (Unit {0}) × Site redis → Result (Unit {0}) × Site redis
    after_delete code (err e, s) = (err e, s)
    after_delete code (ok _, s) = (ok tt, invalidate code s)

    abbrev pub delete_found : ℤ → Result Url × Site redis → Result (Unit {0}) × Site redis
    delete_found id (err e, s) = (err e, s)
    delete_found id (ok url, s) = after_delete url.short_code (on_host (on_db (delete id)) s)

    unfoldable pub delete_short_url : ℤ → Action (Site redis) (Unit {0})
    delete_short_url id s = delete_found id (on_host (on_db (find_by_id id)) s)

  unfoldable pub create_short_url : Net → String → ℤ → Action (Site redis) Url
  create_short_url net original user = on_host (Urls.create_short_url net original user)

  unfoldable pub create_short_url_with_alias : Net → String → String → ℤ → Action (Site redis) Url
  create_short_url_with_alias net original alias user =
      on_host (Urls.create_short_url_with_alias net original alias user)

  unfoldable pub get_url_by_id : ℤ → Action (Site redis) Url
  get_url_by_id id = on_host (on_db (find_by_id id))

  unfoldable pub list_urls : ℤ → Action (Site redis) (List Url)
  list_urls user = on_host (Urls.list_urls user)
