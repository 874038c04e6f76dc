-- ===== src/Handler/Analytics.antt =====
-- GetAnalytics of handler/url_handler.go, over any URLService and any ClickAnalyticsRepository.
use go_url_shortener.Base.{not, Option, none, some, if◌then◌else◌}
use go_url_shortener.Base.Int.{ℤ}
use go_url_shortener.Base.Text.{◌==◌}
use go_url_shortener.Model.{ClickAnalytics}
use go_url_shortener.Outcome.{Result, ok, err, Action}
use go_url_shortener.Handler.Base.{Response, http_error, json_analytics, UrlService, Endpoint}
use go_url_shortener.Handler.Path.{parse_analytics_url_id}
use go_url_shortener.Handler.Manage.{method_not_allowed, with_id}

module _ {S : Type 0} (service : UrlService S) where
  abbrev counted : Result ClickAnalytics × S → Response × S
  counted (ok analytics, s) = (json_analytics 200 analytics, s)
  counted (err e, s) = (http_error 500 "Internal Server Error", s)

  -- h.clickRepository, which may be nil
  abbrev analytics_of : Option (ℤ → Action S ClickAnalytics) → Endpoint S
  analytics_of none r s = (http_error 500 "Analytics service unavailable", s)
  analytics_of (some get_analytics) r s =
      with_id service r.user (λ id url s'. counted (get_analytics id s'))
        (parse_analytics_url_id r.path) s

  unfoldable pub get_analytics : Option (ℤ → Action S ClickAnalytics) → Endpoint S
  get_analytics repository r s =
      if not (r.method == "GET") then (method_not_allowed, s) else analytics_of repository r s
