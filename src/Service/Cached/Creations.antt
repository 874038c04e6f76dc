-- ===== src/Service/Cached/Creations.antt =====
-- CreateShortURL and CreateShortURLWithAlias of service/cached_url_service.go, by the agreement of
-- cache and database.
use go_url_shortener.Base.Int.{ℤ, pos}
use go_url_shortener.Base.Text.{String}
use go_url_shortener.Model.{Url}
use go_url_shortener.Db.{Db, exec_keeps}
use go_url_shortener.Repository.Urls.{clashes, insert_url, create}
use go_url_shortener.Repository.Urls.Codes.{find-insert, insert_url_keeps}
use go_url_shortener.Cache.{Redis, Json}
use go_url_shortener.Service.Validate.{Net}
use go_url_shortener.Service.Urls.Keeps.{create_short_url_keeps, create_short_url_with_alias_keeps}
use go_url_shortener.Service.Cached.{Site, create_short_url, create_short_url_with_alias}
use go_url_shortener.Service.Cached.Coherence.{Agrees, IsCoherent}

module _ (redis : Redis) (json : Json) (store : redis.Store) where
  abbrev Fits : Db → Type 0
  Fits d = Agrees redis json d.now d.urls store

  insert_url-Fits : (url : Url) (d : Db) → Fits d → Fits (insert_url url d).1
  unfolding clashes
  insert_url-Fits url d a = insert_url_keeps Fits url d a (λ free t code value u le seen read.
      find-insert t code (record url { id = pos d.next_url; created_at = d.now }) u d.urls free
        (a t code value u le seen read))

  create-Fits : (url : Url) (d : Db) → Fits d → Fits (create url d).1
  unfolding create
  create-Fits url d a = exec_keeps (insert_url url) Fits (λ d rs h. h) (insert_url-Fits url) d a

module _ (redis : Redis) (json : Json) where
  -- Where the cache agrees with the database, it agrees after CreateShortURL and
  -- CreateShortURLWithAlias too, on every path and whatever the database answers, although neither
  -- touches the cache.
  pub creations-IsCoherent :
      (net : Net) (original alias : String) (user : ℤ) (s : Site redis)
      → IsCoherent redis json s
      → IsCoherent redis json (create_short_url redis net original user s).1
        × IsCoherent redis json (create_short_url_with_alias redis net original alias user s).1
  unfolding create_short_url create_short_url_with_alias
  creations-IsCoherent net original alias user s c = (
    create_short_url_keeps (Fits redis json s.cache.store) (create-Fits redis json s.cache.store)
        net original user s.host c,
    create_short_url_with_alias_keeps (Fits redis json s.cache.store)
        (create-Fits redis json s.cache.store) net original user alias s.host c,
  )
