-- ===== src/Handler/Path.antt =====
-- parseURLID and parseAnalyticsURLID of handler/url_handler.go, with strconv.ParseInt for base 10 and
-- 64 bits.
use go_url_shortener.Base.{◌≡◌, refl, Option, none, some, if◌then◌else◌}
use go_url_shortener.Base.Int.{ℤ, pos, is_positive}
use go_url_shortener.Base.Decimal.{parse_int}
use go_url_shortener.Base.Text.{String, trim_prefix, has_suffix, trim_suffix}

abbrev positive : Option ℤ → Option ℤ
positive none = none
positive (some id) = if is_positive id then some id else none

unfoldable pub parse_url_id : String → Option ℤ
parse_url_id path = positive (parse_int (trim_prefix path "/api/v1/urls/"))

unfoldable pub parse_analytics_url_id : String → Option ℤ
parse_analytics_url_id path =
    if has_suffix path "/analytics" then parse_url_id (trim_suffix path "/analytics") else none

parse_url_id_test : parse_url_id "/api/v1/urls/12" ≡ some (pos 12)
unfolding parse_url_id parse_int trim_prefix
parse_url_id_test = refl
