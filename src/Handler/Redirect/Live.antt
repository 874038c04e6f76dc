-- ===== src/Handler/Redirect/Live.antt =====
-- Redirect of handler/url_handler.go over the cached service, the cache and the database.
use Prim.Native.Char.{Char}
use go_url_shortener.Base.{
  ◌≡◌, refl, ◌∙◌, Bool, Bool-cases, Option-cases, inl, inr, Option, none, some, find, arith,
  if◌then◌else◌,
}
use go_url_shortener.Base.Text.{String, ◌==◌, trim_prefix}
use go_url_shortener.Model.{Url}
use go_url_shortener.Outcome.{Result, ok, err, no_rows}
use go_url_shortener.Db.{served, next_reply}
use go_url_shortener.Repository.Urls.{is_live}
use go_url_shortener.Cache.{Redis, Json, Settings}
use go_url_shortener.Service.Validate.{Net}
use go_url_shortener.Service.Cached.{
  Site, get_original_url, create_short_url, create_short_url_with_alias, get_url_by_id, list_urls,
  update_url, delete_short_url,
}
use go_url_shortener.Service.Cached.Coherence.{IsCoherent}
use go_url_shortener.Service.Cached.Reads.{get_original_url_transparent, base-answer}
use go_url_shortener.Handler.Base.{Request, Response, not_found, redirect, UrlService}
use go_url_shortener.Handler.Redirect.{Recorder, redirected, redirect_to}

-- What a client is to see: the destination of the row, or 404.
abbrev pub destination : Option Url → Response
destination none = not_found
destination (some url) = redirect 302 url.original_url

module _ (redis : Redis) (json : Json) (settings : Settings) (has_cache : Bool) (net : Net) where
  -- CachedURLService as the URLService of the handlers
  abbrev pub cached_service : UrlService (Site redis)
  cached_service = record {
    create_short_url = create_short_url redis net;
    create_short_url_with_alias = create_short_url_with_alias redis net;
    get_url_by_id = get_url_by_id redis;
    list_urls = list_urls redis;
    get_original_url = get_original_url redis json settings has_cache;
    update_url = update_url redis json settings has_cache net;
    delete_url = delete_short_url redis json settings has_cache;
  }

  module _ (lower : Char → Char) (recorder : Recorder (Site redis)) where
    redirected-ok :
        (r : Request) (found : Result Url × Site redis) (url : Url)
        → found.0 ≡ ok url
        → (redirected lower recorder r found).0 ≡ redirect 302 url.original_url
    redirected-ok r (ok u, s) url e = ground (arith, e)
    redirected-ok r (err x, s) url e = absurd (grind arith)

    redirected-no_rows :
        (r : Request) (found : Result Url × Site redis)
        → found.0 ≡ err no_rows
        → (redirected lower recorder r found).0 ≡ not_found
    redirected-no_rows r (ok u, s) e = absurd (grind arith)
    redirected-no_rows r (err x, s) e = refl

    redirected-destination :
        (r : Request) (code : String) (s : Site redis)
        → IsCoherent redis json s
        → next_reply s.host.db.replies ≡ served
        → (redirected lower recorder r (get_original_url redis json settings has_cache code s)).0
          ≡ destination (find (is_live s.host.db.now code) s.host.db.urls)
    redirected-destination r code s c served' =
        let found = get_original_url redis json settings has_cache code s in
        let same =
          (get_original_url_transparent redis json settings has_cache code s c served').0
          ∙ base-answer redis json settings has_cache code s in
        elim (Option-cases (find (is_live s.host.db.now code) s.host.db.urls)) [
          | inl missing ↦
              rw missing (redirected-no_rows r found (same ∙ rw (served', missing) refl))
          | inr (url, there) ↦
              rw there (redirected-ok r found url (same ∙ rw (served', there) refl))
        ]

    -- The redirect over the cached service: where the cache agrees with the database and the
    -- database serves the read it may be asked for, the answer is 302 to the destination of the
    -- active, unexpired row that the table has for the code of the path, and 404 where there is
    -- none or the path has no code, whatever the Redis server answers and whatever becomes of the
    -- click.
    pub redirect_to-destination :
        (r : Request) (s : Site redis)
        → IsCoherent redis json s
        → next_reply s.host.db.replies ≡ served
        → let code = trim_prefix r.path "/" in
          (redirect_to lower recorder cached_service r s).0 ≡ (
            if code == ""
            then not_found
            else destination (find (is_live s.host.db.now code) s.host.db.urls))
    unfolding redirect_to
    redirect_to-destination r s c served' = elim (Bool-cases (trim_prefix r.path "/" == "")) [
      | inl blank ↦ rw blank refl
      | inr code ↦ rw code (redirected-destination r (trim_prefix r.path "/") s c served')
    ]
