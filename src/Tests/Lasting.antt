-- ===== src/Tests/Lasting.antt =====
-- Examples for a short URL from its creation to a redirect.
use go_url_shortener.Base.{◌≡◌, ◌≢◌, refl, false, none, List, [], ◌∷◌, arith}
use go_url_shortener.Base.Int.{ℤ, pos, id_eq}
use go_url_shortener.Base.Text.{trim_space, to_lower, has_suffix}
use go_url_shortener.Model.{Url}
use go_url_shortener.Outcome.{ok}
use go_url_shortener.Db.{refused}
use go_url_shortener.Repository.Urls.{create, insert_url, too_long, clashes, no_owner}
use go_url_shortener.Service.ShortCode.{symbol, fill_code, generate_short_code}
use go_url_shortener.Service.Validate.{check_host, is_localhost, validate_url}
use go_url_shortener.Service.Urls as Base
use go_url_shortener.Service.Urls.{attempts}
use go_url_shortener.Service.Cached.{create_short_url}
use go_url_shortener.Service.Cached.History.{
  Call, redirects, updates, deletes, waits, evicts, aliases, row, cached_step, after_cached,
}
use go_url_shortener.Service.Cached.History.Lasting.{Spares, creation, created_redirects}
use go_url_shortener.Tests.Data.{row_of, sample_net, memory, row_json, sample_settings, cold_site}
use go_url_shortener.Tests.Cached.{cold-IsSound}

abbrev made : Url
made = record (row_of "11a345") { id = pos 2; created_at = 1000 }

was_made :
    (cached_step memory row_json sample_settings sample_net
      (creation " https://go.dev" none (pos 1))
      cold_site).0
    ≡ row (ok made)
unfolding creation cached_step create_short_url Base.create_short_url validate_url check_host
    is_localhost attempts generate_short_code fill_code symbol create insert_url too_long clashes
    no_owner id_eq trim_space to_lower has_suffix
was_made = refl

-- Another alias, a redirect, a deactivation and the deletion of another row, an eviction, and a year.
abbrev calls : List Call
calls =
    aliases "https://go.dev" "my-go" (pos 1)
    ∷ redirects "11a345" (refused ∷ [])
    ∷ updates (record (row_of "abc") { is_active = false })
    ∷ deletes (pos 1)
    ∷ evicts "goshort:url:11a345"
    ∷ waits 31_536_000_000_000_000
    ∷ []

other_id : ◌≢◌ {A = ℤ} (pos 1) (pos 2)
other_id e = absurd (grind arith)

created_redirects_example :
    (made.original_url ≡ trim_space " https://go.dev")
    × ((cached_step memory row_json sample_settings sample_net (redirects "11a345" []) (
          after_cached memory row_json sample_settings sample_net calls
            (cached_step memory row_json sample_settings sample_net
              (creation " https://go.dev" none (pos 1))
              cold_site).1)).0
        ≡ row (ok made))
unfolding Spares
created_redirects_example =
    created_redirects memory row_json sample_settings sample_net refl " https://go.dev" none (pos 1)
      made calls [] cold_site cold-IsSound was_made
      (tt, (tt, (other_id, (other_id, (tt, (tt, tt))))))
