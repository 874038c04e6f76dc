-- ===== src/Service/Cached/Writes.antt =====
-- UpdateURL and DeleteURL of service/cached_url_service.go, by the agreement of cache and database.
use mathlib.Core.Option
use go_url_shortener.Base.{
  ℕ, ◌≡◌, ◌≢◌, refl, sym, ap, ◌∙◌, true, not, Option, none, some, List, map, find, exists_of_find,
  keep_if, arith, subst,
}
use go_url_shortener.Base.Int.{ℤ}
use go_url_shortener.Base.Text.{String}
use go_url_shortener.Model.{Url}
use go_url_shortener.Outcome.{Result, ok, err, from_result, ◌>>◌}
use go_url_shortener.Db.{Reply, served, refused, lost, next_reply, later_replies, answer}
use go_url_shortener.Repository.Urls.{
  has_id, edit_row, is_live, row_or_error, find_by_id, select_by_id, update, update_url, delete,
  delete_url,
}
use go_url_shortener.Repository.Urls.Invariant.{Distinct}
use go_url_shortener.Repository.Urls.Lookup.{find-edit, exists-find}
use go_url_shortener.Repository.Urls.Codes.{edit_absent, find-edit_other, find-drop_other}
use go_url_shortener.Cache.{Redis, Json, Settings, Cache, url_cache_key, write}
use go_url_shortener.Cache
use go_url_shortener.Service.Validate.{Net, validate_url}
use go_url_shortener.Service.Urls.{Host, on_db, put_db}
use go_url_shortener.Service.Urls
use go_url_shortener.Service.Cached.{
  Site, on_cache, on_host, put_host, put_cache, invalidate, after_update, after_delete,
  delete_found, delete_short_url,
}
use go_url_shortener.Service.Cached
use go_url_shortener.Service.Cached.Coherence.{Agrees, IsCoherent}

edit_row-code : (url r : Url) → (edit_row url r).short_code ≡ r.short_code
unfolding edit_row
edit_row-code url r = ground arith

module _ (redis : Redis) (json : Json) where
  -- Deleting the key of the one code whose answer has changed restores the agreement.
  Agrees-changed :
      (now : ℕ) (code : String) (before after : List Url) (store : redis.Store)
      → ((t : ℕ) (c : String) → c ≢ code → find (is_live t c) after ≡ find (is_live t c) before)
      → Agrees redis json now before store
      → Agrees redis json now after (redis.del now (url_cache_key code) store)
  Agrees-changed now code before after store same a t c value url le seen read =
      let (other, older) =
        redis.del_visible now t (url_cache_key code) (url_cache_key c) value store le seen in
      same t c (λ e. other (ap url_cache_key e)) ∙ a t c value url le older read

  write-Agrees :
      (now : ℕ) (rows : List Url) (f : redis.Store → redis.Store) (r : Reply) (store : redis.Store)
      → r ≢ refused
      → Agrees redis json now rows (f store)
      → Agrees redis json now rows (write redis f "redis delete" r store).1
  write-Agrees now rows f served store n a = a
  write-Agrees now rows f refused store n a = absurd (n refl)
  write-Agrees now rows f lost store n a = a

  module _ (settings : Settings) (connected : settings.has_client ≡ true) where
    invalidate-IsCoherent :
        (code : String) (s : Site redis)
        → next_reply s.cache.answers ≢ refused
        → Agrees redis json s.host.db.now s.host.db.urls
            (redis.del s.host.db.now (url_cache_key code) s.cache.store)
        → IsCoherent redis json (invalidate redis json settings true code s)
    unfolding Cache.delete_url
    invalidate-IsCoherent code s n a = rw connected (
        write-Agrees s.host.db.now s.host.db.urls (redis.del s.host.db.now (url_cache_key code))
          (next_reply s.cache.answers) s.cache.store n a)

    -- The site after the statement of an update was run.
    abbrev edited : Url → List Reply → Site redis → Site redis
    edited url rs s = record s {
      host = record s.host {
        db = record s.host.db { replies = rs; urls = map (edit_row url) s.host.db.urls };
      };
    }

    updated-IsCoherent :
        (url : Url) (s : Site redis) (o : Option Url) (rs : List Reply)
        → next_reply s.cache.answers ≢ refused
        → Distinct s.host.db.urls
        → IsCoherent redis json s
        → find (has_id url.id) s.host.db.urls ≡ o
        → IsCoherent redis json
            (after_update redis json settings true
              (row_or_error (Option.map (edit_row url) o), edited url rs s)).1
    updated-IsCoherent url s none rs n u c e =
        subst (λ rows. Agrees redis json s.host.db.now rows s.cache.store)
          (sym (
            edit_absent url url.id s.host.db.urls refl
              ((exists-find (has_id url.id) s.host.db.urls).1 e)))
          c
    updated-IsCoherent url s (some r) rs n u c e =
        invalidate-IsCoherent (edit_row url r).short_code (edited url rs s) n (
          Agrees-changed s.host.db.now (edit_row url r).short_code s.host.db.urls
            (map (edit_row url) s.host.db.urls) s.cache.store
            (λ t code ne.
              find-edit_other t code url r s.host.db.urls u e
                (λ same. ne (same ∙ sym (edit_row-code url r))))
            c)

    reply-IsCoherent :
        (url : Url) (s : Site redis) (r : Reply) (rs : List Reply)
        → next_reply s.cache.answers ≢ refused
        → Distinct s.host.db.urls
        → IsCoherent redis json s
        → r ≢ lost
        → IsCoherent redis json
            (after_update redis json settings true (
              put_host redis s
                (put_db s.host (answer r (update_url url) (record s.host.db { replies = rs }))))).1
    unfolding update_url
    reply-IsCoherent url s served rs n u c l =
        rw (find-edit url url.id s.host.db.urls)
          (updated-IsCoherent url s (find (has_id url.id) s.host.db.urls) rs n u c refl)
    reply-IsCoherent url s refused rs n u c l = c
    reply-IsCoherent url s lost rs n u c l = absurd (l refl)

    checked-IsCoherent :
        (v : Result (Unit {0})) (url : Url) (s : Site redis)
        → next_reply s.cache.answers ≢ refused
        → Distinct s.host.db.urls
        → IsCoherent redis json s
        → next_reply s.host.db.replies ≢ lost
        → IsCoherent redis json
            (after_update redis json settings true
              (on_host redis (from_result v >> on_db (update url)) s)).1
    unfolding update
    checked-IsCoherent (err x) url s n u c l = c
    checked-IsCoherent (ok _) url s n u c l =
        reply-IsCoherent url s (next_reply s.host.db.replies) (later_replies s.host.db.replies) n u
          c l

    -- Where the cache agrees with the database, it agrees after UpdateURL too, whether the update
    -- succeeds or fails, if the ids of the table are distinct, the answer of the database is not lost
    -- and the invalidation reaches the Redis server.
    pub update_url-IsCoherent :
        (net : Net) (url : Url) (s : Site redis)
        → Distinct s.host.db.urls
        → IsCoherent redis json s
        → next_reply s.host.db.replies ≢ lost
        → next_reply s.cache.answers ≢ refused
        → IsCoherent redis json (Cached.update_url redis json settings true net url s).1
    unfolding Cached.update_url Urls.update_url update
    update_url-IsCoherent net url s u c l n =
        checked-IsCoherent (validate_url net url.original_url) url s n u c l

    abbrev answers_later : List Reply → Site redis → Site redis
    answers_later rs s = record s {
      host = record s.host { db = record s.host.db { replies = rs } };
    }

    -- The site after the statement of a deletion was run.
    abbrev dropped : ℤ → List Reply → Site redis → Site redis
    dropped id rs s = record s {
      host = record s.host { db = (delete_url id (record s.host.db { replies = rs })).1 };
    }

    deleted-IsCoherent :
        (id : ℤ) (url : Url) (s : Site redis) (r : Reply) (rs : List Reply)
        → next_reply s.cache.answers ≢ refused
        → Distinct s.host.db.urls
        → IsCoherent redis json s
        → r ≢ lost
        → find (has_id id) s.host.db.urls ≡ some url
        → IsCoherent redis json
            (after_delete redis json settings true url.short_code (
              put_host redis s
                (put_db s.host (answer r (delete_url id) (record s.host.db { replies = rs }))))).1
    unfolding delete_url
    deleted-IsCoherent id url s served rs n u c l e =
        rw (exists_of_find (has_id id) s.host.db.urls url e) (
          invalidate-IsCoherent url.short_code (dropped id rs s) n (
            Agrees-changed s.host.db.now url.short_code s.host.db.urls
              (keep_if (λ (q : Url). not (has_id id q)) s.host.db.urls) s.cache.store
              (λ t code ne. find-drop_other t code id url s.host.db.urls e u ne) c))
    deleted-IsCoherent id url s refused rs n u c l e = c
    deleted-IsCoherent id url s lost rs n u c l e = absurd (l refl)

    found-IsCoherent :
        (id : ℤ) (o : Option Url) (s : Site redis)
        → next_reply s.cache.answers ≢ refused
        → Distinct s.host.db.urls
        → IsCoherent redis json s
        → next_reply s.host.db.replies ≢ lost
        → find (has_id id) s.host.db.urls ≡ o
        → IsCoherent redis json (delete_found redis json settings true id (row_or_error o, s)).1
    unfolding delete
    found-IsCoherent id none s n u c l e = c
    found-IsCoherent id (some url) s n u c l e =
        deleted-IsCoherent id url s (next_reply s.host.db.replies) (later_replies s.host.db.replies)
          n u c l e

    looked-IsCoherent :
        (id : ℤ) (s : Site redis) (r : Reply) (rs : List Reply)
        → next_reply s.cache.answers ≢ refused
        → Distinct s.host.db.urls
        → IsCoherent redis json s
        → next_reply rs ≢ lost
        → IsCoherent redis json
            (delete_found redis json settings true id (
              put_host redis s
                (put_db s.host (answer r (select_by_id id) (record s.host.db { replies = rs }))))).1
    unfolding select_by_id
    looked-IsCoherent id s served rs n u c l =
        found-IsCoherent id (find (has_id id) s.host.db.urls) (answers_later rs s) n u c l refl
    looked-IsCoherent id s refused rs n u c l = c
    looked-IsCoherent id s lost rs n u c l = c

    -- Where the cache agrees with the database, it agrees after DeleteURL too, whether the deletion
    -- succeeds or fails, if the ids of the table are distinct, the answer of the database to the second
    -- statement, the deletion, is not lost and the invalidation reaches the Redis server.
    pub delete_short_url-IsCoherent :
        (id : ℤ) (s : Site redis)
        → Distinct s.host.db.urls
        → IsCoherent redis json s
        → next_reply (later_replies s.host.db.replies) ≢ lost
        → next_reply s.cache.answers ≢ refused
        → IsCoherent redis json (delete_short_url redis json settings true id s).1
    unfolding delete_short_url find_by_id
    delete_short_url-IsCoherent id s u c l n =
        looked-IsCoherent id s (next_reply s.host.db.replies) (later_replies s.host.db.replies) n u
          c l
