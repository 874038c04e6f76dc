-- ===== src/Tests/Cached.antt =====
-- Examples for the cached service.
use go_url_shortener.Base.{◌≡◌, ◌≢◌, refl, true, false, List, [], ◌∷◌, arith}
use go_url_shortener.Base.Int.{pos}
use go_url_shortener.Outcome.{ok}
use go_url_shortener.Db.{served, refused, lost}
use go_url_shortener.Repository.Urls.{is_live, find_by_short_code, select_by_short_code}
use go_url_shortener.Cache.{url_cache_key, cache_ttl}
use go_url_shortener.Cache
use go_url_shortener.Service.Urls
use go_url_shortener.Service.Cached.{Site, get_original_url, update_url, delete_short_url}
use go_url_shortener.Service.Cached.Coherence.{IsCoherent}
use go_url_shortener.Service.Cached.Reads.{get_original_url_transparent}
use go_url_shortener.Service.Cached.Writes.{update_url-IsCoherent, delete_short_url-IsCoherent}
use go_url_shortener.Service.Cached.History.{
  Call, redirects, updates, evicts, waits, creates, run_cached, run_base,
}
use go_url_shortener.Service.Cached.History.Sound.{IsSound}
use go_url_shortener.Service.Cached.History.Refines.{run_cached-run_base}
use go_url_shortener.Tests.Data.{
  row_of, sample_net, memory, row_json, sample_settings, sample_host, cold_site,
}

pub cold-IsCoherent : IsCoherent memory row_json cold_site
cold-IsCoherent t code value url le seen read = absurd (grind arith)

served_not_lost : served ≢ lost
served_not_lost e = absurd (grind arith)

served_not_refused : served ≢ refused
served_not_refused e = absurd (grind arith)

-- A site whose cache holds the row of "abc": a redirect has filled it.
abbrev warm_site : Site memory
warm_site = (get_original_url memory row_json sample_settings true "abc" cold_site).1

-- A miss, the read of the database, and the fill.
get_original_url_transparent_example :
    ((get_original_url memory row_json sample_settings true "abc" cold_site).0
      ≡ (Urls.get_original_url "abc" sample_host).0)
    × IsCoherent memory row_json warm_site
get_original_url_transparent_example =
    get_original_url_transparent memory row_json sample_settings true "abc" cold_site
      cold-IsCoherent refl

warm-IsCoherent : IsCoherent memory row_json warm_site
warm-IsCoherent =
    (get_original_url_transparent memory row_json sample_settings true "abc" cold_site
      cold-IsCoherent refl).1

warm_host : warm_site.host ≡ sample_host
unfolding get_original_url Cache.get_url Cache.set_url find_by_short_code select_by_short_code
    is_live
warm_host = refl

hit : (get_original_url memory row_json sample_settings true "abc" warm_site).0 ≡ ok (row_of "abc")
unfolding get_original_url Cache.get_url Cache.set_url find_by_short_code select_by_short_code
    is_live url_cache_key cache_ttl
hit = refl

update_url-IsCoherent_example :
    IsCoherent memory row_json
      (update_url memory row_json sample_settings true sample_net
        (record (row_of "abc") { is_active = false })
        warm_site).1
unfolding get_original_url Cache.get_url Cache.set_url find_by_short_code select_by_short_code
    is_live
update_url-IsCoherent_example =
    update_url-IsCoherent memory row_json sample_settings refl sample_net
      (record (row_of "abc") { is_active = false }) warm_site (refl, refl, tt) warm-IsCoherent
      served_not_lost served_not_refused

delete_short_url-IsCoherent_example :
    IsCoherent memory row_json
      (delete_short_url memory row_json sample_settings true (pos 1) warm_site).1
unfolding get_original_url Cache.get_url Cache.set_url find_by_short_code select_by_short_code
    is_live
delete_short_url-IsCoherent_example =
    delete_short_url-IsCoherent memory row_json sample_settings refl (pos 1) warm_site
      (refl, refl, tt) warm-IsCoherent served_not_lost served_not_refused

pub cold-IsSound : IsSound memory row_json sample_settings sample_net refl cold_site
cold-IsSound = record {
  coherent = cold-IsCoherent;
  valid = record { fresh = (refl, tt); distinct = (refl, refl, tt) };
  up = refl;
  heard = refl;
}

-- A redirect whose read of the cache fails, a deactivation, a redirect, an eviction, and a creation.
abbrev calls : List Call
calls =
    redirects "abc" (refused ∷ [])
    ∷ updates (record (row_of "abc") { is_active = false })
    ∷ redirects "abc" []
    ∷ evicts "goshort:url:abc"
    ∷ waits 5
    ∷ creates "https://go.dev" (pos 1)
    ∷ []

run_cached-run_base_example :
    run_cached memory row_json sample_settings sample_net calls cold_site
    ≡ run_base sample_net calls sample_host
run_cached-run_base_example =
    run_cached-run_base memory row_json sample_settings sample_net refl calls cold_site cold-IsSound
