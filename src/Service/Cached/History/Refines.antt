-- ===== src/Service/Cached/History/Refines.antt =====
-- CachedURLService of service/cached_url_service.go implements URLService of service/url_service.go:
-- its updates and deletions, and runs of any calls.
use mathlib.Core.Path.{ap₂}
use go_url_shortener.Base.{
  ◌≡◌, ◌≢◌, refl, sym, ap, ◌∙◌, subst, true, Option, none, some, List, [], ◌∷◌, find, arith,
}
use go_url_shortener.Base.Int.{ℤ}
use go_url_shortener.Model.{Url}
use go_url_shortener.Outcome.{Result, ok, err, from_result, ◌>>◌}
use go_url_shortener.Db.{Db, served, refused, lost}
use go_url_shortener.Repository.Urls
use go_url_shortener.Repository.Urls.Lookup.{exists-find}
use go_url_shortener.Repository.Urls.Invariant.{IsValid, writes-IsValid}
use go_url_shortener.Cache.{Redis, Json, Settings}
use go_url_shortener.Service.Validate.{Net, validate_url}
use go_url_shortener.Service.Urls.{Host, on_db, put_db, new_url}
use go_url_shortener.Service.Urls as Base
use go_url_shortener.Service.Cached.{
  Site, on_host, put_host, invalidate, after_update, after_delete, delete_found,
}
use go_url_shortener.Service.Cached
use go_url_shortener.Service.Cached.Writes.{update_url-IsCoherent, delete_short_url-IsCoherent}
use go_url_shortener.Service.Cached.History.{
  Call, creates, aliases, reads, lists, redirects, updates, deletes, waits, evicts, row, done,
  base_step, cached_step, run_cached, run_base, after_cached, after_base,
}
use go_url_shortener.Service.Cached.History.Hosts.{
  after_update-IsQuiet, after_delete-IsQuiet, find_by_id_served, delete_missing, IsUp,
  update_url-IsUp, delete_url-IsUp,
}
use go_url_shortener.Service.Cached.History.Sound.{
  IsSound, Matches, creates-Matches, aliases-Matches, reads-Matches, lists-Matches, waits-Matches,
  evicts-Matches, redirects-Matches,
}

served_not_lost : served ≢ lost
served_not_lost e = absurd (grind arith)

served_not_refused : served ≢ refused
served_not_refused e = absurd (grind arith)

module _ (redis : Redis) (json : Json) (settings : Settings) (net : Net)
    (connected : settings.has_client ≡ true) where
  module _ (s : Site redis) (sound : IsSound redis json settings net connected s) where
    checked-IsValid :
        (v : Result (Unit {0})) (url : Url)
        → IsValid ((from_result v >> on_db (Urls.update url)) s.host).1.db
    checked-IsValid (ok _) url =
        let (_, updated, _) = writes-IsValid url url.id s.host.db sound.valid in updated
    checked-IsValid (err e) url = sound.valid

    update-IsValid : (url : Url) → IsValid (Base.update_url net url s.host).1.db
    unfolding Base.update_url
    update-IsValid url = checked-IsValid (validate_url net url.original_url) url

    updates-Matches :
        (url : Url)
        → Matches redis json settings net connected
            (cached_step redis json settings net (updates url) s)
            (base_step net (updates url) s.host)
    unfolding cached_step base_step Cached.update_url
    updates-Matches url =
        let (answer, (host, heard)) =
          after_update-IsQuiet redis json settings connected
            (on_host redis (Base.update_url net url) s) sound.heard in
        let kept =
          update_url-IsCoherent redis json settings connected net url s sound.valid.distinct
            sound.coherent (rw sound.up served_not_lost) (rw sound.heard served_not_refused) in
        (
          ap row answer,
          host,
          record {
            coherent = kept;
            valid = subst (λ (h : Host). IsValid h.db) (sym host) (update-IsValid url);
            up =
                subst (λ (h : Host). IsUp h.db) (sym host)
                  (update_url-IsUp net s.host sound.up url);
            heard = heard;
          },
        )

    -- A deletion answers as the service below it, leaves the same host, and the Redis server answers on.
    abbrev IsDeletion : ℤ → Result (Unit {0}) × Site redis → Type 0
    IsDeletion id (r, s') =
        (r ≡ (Base.delete_url id s.host).0)
        × (s'.host ≡ (Base.delete_url id s.host).1)
        × (s'.cache.answers ≡ [])

    found-IsDeletion :
        (id : ℤ) (o : Option Url)
        → find (Urls.has_id id) s.host.db.urls ≡ o
        → IsDeletion id (delete_found redis json settings true id (Urls.row_or_error o, s))
    unfolding Base.delete_url
    found-IsDeletion id none e =
        let missing =
          delete_missing id s.host.db sound.up
            ((exists-find (Urls.has_id id) s.host.db.urls).1 e) in
        (
          ap (λ p. p.0) (sym missing),
          ap (λ p. record s.host { db = p.1 }) (sym missing),
          sound.heard,
        )
    found-IsDeletion id (some url) e =
        let (answer, (host, heard)) =
          after_delete-IsQuiet redis json settings connected url.short_code
            (on_host redis (on_db (Urls.delete id)) s) sound.heard in
        (answer, host, heard)

    delete-IsDeletion :
        (id : ℤ) → IsDeletion id (Cached.delete_short_url redis json settings true id s)
    unfolding Cached.delete_short_url
    delete-IsDeletion id =
        subst
          (λ (p : Result Url × Db).
            IsDeletion id
              (delete_found redis json settings true id (put_host redis s (put_db s.host p))))
          (sym (find_by_id_served id s.host.db sound.up))
          (found-IsDeletion id (find (Urls.has_id id) s.host.db.urls) refl)

    delete-IsValid : (id : ℤ) → IsValid (Base.delete_url id s.host).1.db
    unfolding Base.delete_url
    delete-IsValid id =
        let (_, _, deleted) = writes-IsValid (new_url "" none "" id) id s.host.db sound.valid in
        deleted

    deletes-Matches :
        (id : ℤ)
        → Matches redis json settings net connected
            (cached_step redis json settings net (deletes id) s)
            (base_step net (deletes id) s.host)
    unfolding cached_step base_step
    deletes-Matches id =
        let (answer, host, heard) = delete-IsDeletion id in
        let kept =
          delete_short_url-IsCoherent redis json settings connected id s sound.valid.distinct
            sound.coherent (rw sound.up served_not_lost) (rw sound.heard served_not_refused) in
        (
          ap done answer,
          host,
          record {
            coherent = kept;
            valid = subst (λ (h : Host). IsValid h.db) (sym host) (delete-IsValid id);
            up =
                subst (λ (h : Host). IsUp h.db) (sym host) (delete_url-IsUp net s.host sound.up id);
            heard = heard;
          },
        )

  pub step-Matches :
      (c : Call) (s : Site redis)
      → IsSound redis json settings net connected s
      → Matches redis json settings net connected
          (cached_step redis json settings net c s)
          (base_step net c s.host)
  step-Matches (creates original user) s sound =
      creates-Matches redis json settings net connected s sound original user
  step-Matches (aliases original alias user) s sound =
      aliases-Matches redis json settings net connected s sound original alias user
  step-Matches (reads id) s sound = reads-Matches redis json settings net connected s sound id
  step-Matches (lists user) s sound = lists-Matches redis json settings net connected s sound user
  step-Matches (redirects code answers) s sound =
      redirects-Matches redis json settings net connected s sound code answers
  step-Matches (updates url) s sound = updates-Matches s sound url
  step-Matches (deletes id) s sound = deletes-Matches s sound id
  step-Matches (waits n) s sound = waits-Matches redis json settings net connected s sound n
  step-Matches (evicts key) s sound = evicts-Matches redis json settings net connected s sound key

  -- The cached service refines the service without a cache: over a database and a Redis client that
  -- answer, from a site whose cache agrees with a valid table, every sequence of creations, reads,
  -- listings, redirects, updates, deletions, waits and evictions, one after another, is answered by
  -- CachedURLService as by URLService. The Redis server may also refuse a redirect's commands or
  -- lose its answers to them.
  pub run_cached-run_base :
      (cs : List Call) (s : Site redis)
      → IsSound redis json settings net connected s
      → run_cached redis json settings net cs s ≡ run_base net cs s.host
  unfolding run_cached run_base
  run_cached-run_base [] s sound = refl
  run_cached-run_base (c ∷ cs) s sound =
      let (answer, host, later) = step-Matches c s sound in
      ap₂ ◌∷◌ answer (
        run_cached-run_base cs (cached_step redis json settings net c s).1 later
        ∙ ap (run_base net cs) host)

  -- Both services leave the same host behind.
  pub after_cached-IsSound :
      (cs : List Call) (s : Site redis)
      → IsSound redis json settings net connected s
      → ((after_cached redis json settings net cs s).host ≡ after_base net cs s.host)
        × IsSound redis json settings net connected (after_cached redis json settings net cs s)
  unfolding after_cached after_base
  after_cached-IsSound [] s sound = (refl, sound)
  after_cached-IsSound (c ∷ cs) s sound =
      let (answer, host, later) = step-Matches c s sound in
      let (hosts, last) =
        after_cached-IsSound cs (cached_step redis json settings net c s).1 later in
      (hosts ∙ ap (after_base net cs) host, last)
