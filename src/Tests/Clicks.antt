-- ===== src/Tests/Clicks.antt =====
-- Examples for the analytics of clicks and for the redirect.
use Prim.Native.Char.{Char}
use go_url_shortener.Base.{
  true, ℕ, suc, zero, ◌≡◌, refl, Option, none, List, [], ◌∷◌, length, arith,
}
use go_url_shortener.Base.Int.{pos, id_eq}
use go_url_shortener.Base.Text.{String, trim_prefix}
use go_url_shortener.Model.{ClickEvent, ClickAnalytics}
use go_url_shortener.Outcome.{ok, Action}
use go_url_shortener.Db.{Db}
use go_url_shortener.Repository.Urls.{is_live}
use go_url_shortener.Repository.Clicks.Analytics.{
  get_analytics, select_total, select_groups, group_names, count_name, sort_groups, insert_group,
}
use go_url_shortener.Repository.Clicks.Summary.{IsSummary, get_analytics-IsSummary}
use go_url_shortener.Service.Urls.{Host}
use go_url_shortener.Worker.Retries.{IsStorable}
use go_url_shortener.Handler.{Request, redirect}
use go_url_shortener.Handler.Redirect.{Recorder, generate_event_key, click_of, redirect_to}
use go_url_shortener.Handler.Redirect.Isolated.{Fills, click_of-IsStorable}
use go_url_shortener.Handler.Redirect.Live.{cached_service, redirect_to-destination}
use go_url_shortener.Service.Cached.{Site}
use go_url_shortener.Tests.Cached.{cold-IsCoherent}
use go_url_shortener.Auth.Tokens.{hex_encode}
use go_url_shortener.Tests.Data.{
  click, sample_db, sample_host, row_of, memory, row_json, sample_settings, sample_net, cold_site,
}
use go_url_shortener.Tests.Handler.{by_day, request}

abbrev phone_click : String → ClickEvent
phone_click key = record click { event_key = key; device_category = "mobile" }

-- Three clicks of the URL, and one of another.
abbrev clicked_db : Db
clicked_db = record sample_db {
  clicks =
      record click { device_category = "" }
      ∷ phone_click "k2"
      ∷ record click { url_id = pos 9 }
      ∷ phone_click "k3"
      ∷ [];
}

abbrev counts : ClickAnalytics
counts = record {
  total_clicks = 3;
  by_device = record { name = "mobile"; count = 2 } ∷ record { name = "unknown"; count = 1 } ∷ [];
  by_referrer = record { name = "direct"; count = 3 } ∷ [];
  daily_clicks = record { name = "1970-01-01"; count = 3 } ∷ [];
}

counted : get_analytics by_day (pos 1) clicked_db ≡ (ok counts, clicked_db)
unfolding get_analytics select_total select_groups group_names count_name sort_groups insert_group
    id_eq
counted = refl

get_analytics-IsSummary_example : IsSummary by_day (pos 1) clicked_db.clicks counts
get_analytics-IsSummary_example =
    get_analytics-IsSummary by_day (pos 1) clicked_db clicked_db counts counted

-- A random source that gives zeroes, and workers that are not there or drop the click.
abbrev zeroes : ℕ → List ℕ
zeroes zero = []
zeroes (suc n) = 0 ∷ zeroes n

abbrev pub recorder : Option (ClickEvent → Action Host (Unit {0})) → Recorder Host
recorder enqueue = record {
  random = λ n h. (ok (zeroes n), h);
  now = λ h. h.db.now;
  enqueue = enqueue;
}

zeroes-length : (n : ℕ) → length (zeroes n) ≡ n
zeroes-length zero = refl
zeroes-length (suc n) = ground (arith, zeroes-length n)

recorder-Fills : Fills (recorder none)
recorder-Fills n s bytes s' e = ground (arith, zeroes-length n)

abbrev visit : Request
visit = record request { method = "GET"; path = "/abc"; user_agent = "Mobile" }

abbrev same : Char → Char
same c = c

click_of-IsStorable_example :
    IsStorable
      (click_of same (recorder none) visit (row_of "abc") "00000000000000000000000000000000" 5)
      sample_db
unfolding generate_event_key hex_encode id_eq
click_of-IsStorable_example =
    click_of-IsStorable same (recorder none) recorder-Fills visit (row_of "abc")
      "00000000000000000000000000000000" 5 sample_host sample_host sample_db refl refl

abbrev site_recorder : Recorder (Site memory)
site_recorder = record {
  random = λ n s. (ok (zeroes n), s);
  now = λ s. s.host.db.now;
  enqueue = none;
}

redirect_to-destination_example :
    (redirect_to same site_recorder
      (cached_service memory row_json sample_settings true sample_net)
      visit
      cold_site).0
    ≡ redirect 302 "https://go.dev"
unfolding is_live trim_prefix
redirect_to-destination_example =
    redirect_to-destination memory row_json sample_settings true sample_net same site_recorder visit
      cold_site cold-IsCoherent refl
